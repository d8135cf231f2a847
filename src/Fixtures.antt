-- ===== src/Fixtures.antt =====
-- Concrete instances of the packages that the crates call, for the examples: maps of headers,
-- families of counters, and `f64` on whole numbers.
use grpc_quic_rs.Common.{
  ℕ, ◌+◌, ◌-◌, ◌*◌, ◌%◌, ◌^◌, min, String, List, Bytes, ◌≡◌, ◌≢◌, refl, update, update_self,
  update_other, bytes_discrete, [], ◌∷◌, texts_discrete, u64_mod, ℤ, pos, negsuc, arith, ap,
}
use grpc_quic_rs.Core.Http.{HeaderMap, header_name, first}
use grpc_quic_rs.Metrics.{CounterVec}
use grpc_quic_rs.Client.Retry.{Float}

abbrev pub text_headers : HeaderMap
text_headers = record {
  H = Bytes → List Bytes;
  new = λ name. [];
  get = λ h text. first (h (header_name text));
  get_all = λ h name. h name;
  insert = λ h text v. update bytes_discrete h (header_name text) (v ∷ []);
  get-first = λ h text. refl;
  get_all-insert_self = λ h text v. update_self bytes_discrete h (header_name text) (v ∷ []);
  get_all-insert_other =
      λ h text other v ne. update_other bytes_discrete h (header_name text) (v ∷ []) other ne;
}

inc : (List String → ℕ) → List String → ℕ → List String → ℕ
inc v labels n = update texts_discrete v labels (v labels + n)

inc_self :
    (v : List String → ℕ) (labels : List String) (n : ℕ)
    → inc v labels n labels % u64_mod ≡ (v labels % u64_mod + n) % u64_mod
unfolding inc
inc_self v labels n = omega (arith, update_self texts_discrete v labels (v labels + n))

inc_other :
    (v : List String → ℕ) (labels others : List String) (n : ℕ)
    → labels ≢ others
    → inc v labels n others % u64_mod ≡ v others % u64_mod
unfolding inc
inc_other v labels others n ne =
    ap (λ (k : ℕ). k % u64_mod) (update_other texts_discrete v labels (v labels + n) others ne)

pub counters : CounterVec
counters = record {
  V = List String → ℕ;
  fresh = λ labels. 0;
  value = λ v labels. v labels % u64_mod;
  inc_by = inc;
  value-lt = λ v labels. omega arith;
  value-fresh = λ labels. refl;
  value-inc_by_self = inc_self;
  value-inc_by_other = inc_other;
}

abbrev powi : ℕ → ℤ → ℕ
powi b (pos n) = b ^ n
powi b (negsuc n) = 0

abbrev pub whole_floats : Float
whole_floats = record {
  F = ℕ;
  two = 2;
  of_u128 = λ n. n;
  mul = λ a b. a * b;
  powi = powi;
  to_u64 = λ n. min n (u64_mod - 1);
}
