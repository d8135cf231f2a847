-- ===== src/Benches/Report/Saved.antt =====
-- What saving reports writes (crates/grpc-quic-benches/src/lib.rs).
use grpc_quic_rs.Common.{
  String, List, [], ◌∷◌, Result, ok, err, >>=-eq-ok, IoError, ◌≡◌, refl, ap, sym, ◌∙◌,
}
use grpc_quic_rs.Benches.{unwrap, unwrap-eq-ok}
use grpc_quic_rs.Benches.Report.{
  BenchResult, Disk, Written, directory, file, out_dir, save_json, after_dir, or_panic,
  save_json_or_panic,
}

module _ {F : Type 0} (disk : Disk F) where
  open disk use {Location, join}

  or_panic-eq-ok :
      (line text : String) (w writes : List (Written Location)) (res : Result (Unit {0}) IoError)
      → or_panic disk line (w, res) ≡ ok (text, writes)
      → (writes ≡ w) × (res ≡ ok tt)
  or_panic-eq-ok line text w writes (ok u) h = (cc, refl)
  or_panic-eq-ok line text w writes (err e) h = absurd (cc)

  after_dir-eq-ok :
      (out : Location) (filename json : String) (made : Result (Unit {0}) IoError)
      → (after_dir disk out filename json made).1 ≡ ok tt
      → (after_dir disk out filename json made).0
        ≡ directory out ∷ file (join out filename) json ∷ []
  after_dir-eq-ok out filename json (ok u) h = refl
  after_dir-eq-ok out filename json (err e) h = absurd (cc)

  -- Saving that does not panic has written one file, with the text of the reports.
  pub save_json_or_panic-eq-ok :
      (reports : List (BenchResult F)) (filename line : String) (writes : List (Written Location))
      → save_json_or_panic disk reports filename ≡ ok (line, writes)
      → (out : Location) × (json : String) × (out_dir disk ≡ ok out)
        × (disk.to_string_pretty reports ≡ ok json)
        × (writes ≡ directory out ∷ file (join out filename) json ∷ [])
  unfolding save_json_or_panic save_json
  save_json_or_panic-eq-ok reports filename line writes h =
      let (out, e1, h1) = >>=-eq-ok (out_dir disk) _ (line, writes) h in
      let (saved, e2, h2) = >>=-eq-ok (save_json disk reports filename) _ (line, writes) h1 in
      let (json, e3, h3) = >>=-eq-ok (unwrap (disk.to_string_pretty reports)) _ saved e2 in
      let (again, e4, h4) = >>=-eq-ok (out_dir disk) _ saved h3 in
      let (w, made) = or_panic-eq-ok _ line saved.0 writes saved.1 h2 in
      let same : saved ≡ after_dir disk again filename json (disk.create_dir_all again) = cc in
      let all : saved.0 ≡ directory again ∷ file (join again filename) json ∷ [] =
        ap (λ p. p.0) same
        ∙ after_dir-eq-ok again filename json (disk.create_dir_all again)
            (sym (ap (λ p. p.1) same) ∙ made) in
      (again, json, e4, unwrap-eq-ok (disk.to_string_pretty reports) json e3, w ∙ all)
