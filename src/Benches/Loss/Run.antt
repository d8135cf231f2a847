-- ===== src/Benches/Loss/Run.antt =====
-- What the loss benchmark writes (crates/grpc-quic-benches/benches/loss_sim.rs and src/lib.rs).
use grpc_quic_rs.Common.{
  ℕ, String, List, [], ◌∷◌, ◌++◌, All, map, length, ok, >>=-eq-ok, ◌<◌, ◌≡◌, ap, sym, ◌∙◌, u64_mod,
}
use grpc_quic_rs.Benches.{concurrency}
use grpc_quic_rs.Benches.Setup.{Action}
use grpc_quic_rs.Benches.Latency.{Histograms}
use grpc_quic_rs.Benches.Report.{Doubles, Host, Disk, Written, directory, file, save_json_or_panic}
use grpc_quic_rs.Benches.Report.Saved.{save_json_or_panic-eq-ok}
use grpc_quic_rs.Benches.Rounds.{Rounds}
use grpc_quic_rs.Benches.Rounds.Tally.{Takes}
use grpc_quic_rs.Benches.Loss.{Done, section, sections}
use grpc_quic_rs.Benches.Loss.Reports.{own, section_reports}

module _ {S U : Type 0} (d : Doubles) (hs : Histograms d.F) (host : Host) (disk : Disk d.F)
    (loss : ℕ) (quic : Rounds S) (tcp : Rounds U) (shutdown : List Action)
    (fresh : hs.Histogram) where
  open disk use {Location, join, to_string_pretty}

  -- The two files of a run, each with the reports of its own section.
  pub record Files (written : List (Written Location)) : Type 0 where
    pub out : Location
    pub quic_json : String
    pub tcp_json : String
    pub quic_text :
        to_string_pretty (map (own d hs host "quic" loss quic fresh) concurrency) ≡ ok quic_json
    pub tcp_text :
        to_string_pretty (map (own d hs host "tcp" loss tcp fresh) concurrency) ≡ ok tcp_json
    pub files :
        written
        ≡ directory out
          ∷ file (join out "quic_loss.json") quic_json
          ∷ directory out
          ∷ file (join out "tcp_loss.json") tcp_json
          ∷ []

  two_files :
      (a b written : List (Written Location)) (out out2 : Location) (quic_json tcp_json : String)
      → a ≡ directory out ∷ file (join out "quic_loss.json") quic_json ∷ []
      → b ≡ directory out2 ∷ file (join out2 "tcp_loss.json") tcp_json ∷ []
      → out2 ≡ out
      → a ++ b ≡ written
      → written
        ≡ directory out
          ∷ file (join out "quic_loss.json") quic_json
          ∷ directory out
          ∷ file (join out "tcp_loss.json") tcp_json
          ∷ []
  two_files a b written out out2 quic_json tcp_json w1 w2 one all =
      sym all
      ∙ ap (λ p. p ++ b) w1
      ∙ ap (λ p. directory out ∷ file (join out "quic_loss.json") quic_json ∷ p)
          (w2 ∙ ap (λ o. directory o ∷ file (join o "tcp_loss.json") tcp_json ∷ []) one)

  -- If neither section panics, the benchmark has written two files in one directory: the QUIC one
  -- with the reports of the QUIC rounds and the TCP one with those of the TCP rounds, one report
  -- for each number of concurrent calls, in order, each of a histogram of the calls of its own
  -- round alone; if a round has fewer than 2^64 calls and the histogram takes every value, its
  -- report counts all of them.
  pub sections_lem :
      hs.new ≡ ok fresh
      → Takes hs
      → All (λ conc. length (quic.calls conc) < u64_mod) concurrency
      → All (λ conc. length (tcp.calls conc) < u64_mod) concurrency
      → (done : Done d.F Location) → sections d hs host disk loss quic tcp shutdown fresh ≡ ok done
      → Files done.written
        × All
            (λ conc.
              (own d hs host "quic" loss quic fresh conc).latency.samples
              ≡ length (quic.calls conc))
            concurrency
        × All
            (λ conc.
              (own d hs host "tcp" loss tcp fresh conc).latency.samples ≡ length (tcp.calls conc))
            concurrency
  unfolding sections
  sections_lem new takes few_quic few_tcp done h =
      let (q, e1, h1) = >>=-eq-ok (section d hs host "quic" loss quic fresh) _ done h in
      let (qw, e2, h2) = >>=-eq-ok (save_json_or_panic disk q.0 "quic_loss.json") _ done h1 in
      let (t, e3, h3) = >>=-eq-ok (section d hs host "tcp" loss tcp q.1) _ done h2 in
      let (tw, e4, h4) = >>=-eq-ok (save_json_or_panic disk t.0 "tcp_loss.json") _ done h3 in
      let (quic_own, drained, quic_all) =
        section_reports d hs host "quic" loss quic fresh new takes few_quic q.0 q.1 e1 in
      let from_fresh : section d hs host "tcp" loss tcp fresh ≡ ok t =
        ap (section d hs host "tcp" loss tcp) (sym drained) ∙ e3 in
      let (tcp_own, last, tcp_all) =
        section_reports d hs host "tcp" loss tcp fresh new takes few_tcp t.0 t.1 from_fresh in
      let (out, quic_json, o1, j1, w1) =
        save_json_or_panic-eq-ok disk q.0 "quic_loss.json" qw.0 qw.1 e2 in
      let (out2, tcp_json, o2, j2, w2) =
        save_json_or_panic-eq-ok disk t.0 "tcp_loss.json" tw.0 tw.1 e4 in
      let one : out2 ≡ out = cc in
      let all : qw.1 ++ tw.1 ≡ done.written = cc in
      (
        record {
          out = out;
          quic_json = quic_json;
          tcp_json = tcp_json;
          quic_text = ap to_string_pretty (sym quic_own) ∙ j1;
          tcp_text = ap to_string_pretty (sym tcp_own) ∙ j2;
          files = two_files qw.1 tw.1 done.written out out2 quic_json tcp_json w1 w2 one all;
        },
        quic_all,
        tcp_all,
      )
