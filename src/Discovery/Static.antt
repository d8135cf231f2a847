-- ===== src/Discovery/Static.antt =====
-- What a static resolver finds (crates/grpc-quic-discovery/src/resolver.rs).
use grpc_quic_rs.Common.{
  String, List, [], ◌∷◌, ◌++◌, false, str_eq, str_eq_iff, ◌≡◌, ◌≢◌, refl, sym, ap, ◌∙◌, Bool-cases,
  inl, inr, arith, ◌⊎◌, subst,
}
use grpc_quic_rs.Discovery.{new, matching, resolve}

-- `x` is a member of a list.
pub data Mem {A : Type 0} (x : A) : List A → Type 0 where
  here : (xs : List A) → Mem x (x ∷ xs)
  there : (y : A) {xs : List A} → Mem x xs → Mem x (y ∷ xs)

module _ {A : Type 0} (name : String) where
  resolve_here :
      (addr : A) (rest : List (String × A))
      → resolve (new ((name, addr) ∷ rest)) name ≡ addr ∷ resolve (new rest) name
  unfolding resolve matching
  resolve_here addr rest = ground (arith, (str_eq_iff name name).1 refl)

  resolve_skips :
      (other : String) (addr : A) (rest : List (String × A))
      → str_eq other name ≡ false
      → resolve (new ((other, addr) ∷ rest)) name ≡ resolve (new rest) name
  unfolding resolve matching
  resolve_skips other addr rest h = ground arith

  resolve_from :
      (other : String) (addr : A) (rest : List (String × A)) (x : A)
      → Mem x (resolve (new rest) name)
      → Mem x (resolve (new ((other, addr) ∷ rest)) name)
  resolve_from other addr rest x h = elim (Bool-cases (str_eq other name)) [
    | inl e ↦
        let same : other ≡ name = (str_eq_iff other name).0 e in
        subst (λ o. Mem x (resolve (new ((o, addr) ∷ rest)) name)) (sym same)
          (subst (Mem x) (sym (resolve_here addr rest)) (there addr h))
    | inr e ↦ subst (Mem x) (sym (resolve_skips other addr rest e)) h
  ]

  -- Every address registered under a name is found.
  pub resolve_finds :
      (addr : A) (entries : List (String × A))
      → Mem (name, addr) entries
      → Mem addr (resolve (new entries) name)
  resolve_finds addr _ (here rest) =
      subst (Mem addr) (sym (resolve_here addr rest)) (here (resolve (new rest) name))
  resolve_finds addr _ (there (other, x) h) = resolve_from other x _ addr (resolve_finds addr _ h)

  none_in : {x : A} → ¬ (Mem x [])
  none_in h = elim h [ ]

  mem_cons : (y x : A) (xs : List A) → Mem x (y ∷ xs) → (x ≡ y) ⊎ Mem x xs
  mem_cons y _ xs (here _) = inl refl
  mem_cons y x xs (there _ h) = inr h

  -- Nothing else is: an address that is found was registered under the name.
  pub resolve_only :
      (addr : A) (entries : List (String × A))
      → Mem addr (resolve (new entries) name)
      → Mem (name, addr) entries
  unfolding resolve matching
  resolve_only addr [] h = absurd (none_in h)
  resolve_only addr ((other, x) ∷ rest) h = elim (Bool-cases (str_eq other name)) [
    | inl e ↦
        let same : other ≡ name = (str_eq_iff other name).0 e in
        let moved : Mem addr (x ∷ resolve (new rest) name) =
          subst (Mem addr) (resolve_here x rest)
            (subst (λ o. Mem addr (resolve (new ((o, x) ∷ rest)) name)) same h) in
        elim (mem_cons x addr (resolve (new rest) name) moved) [
          | inl p ↦
              subst (λ y. Mem (name, addr) ((other, y) ∷ rest)) p
                (subst (λ o. Mem (name, addr) ((o, addr) ∷ rest)) (sym same) (here rest))
          | inr k ↦ there (other, x) (resolve_only addr rest k)
        ]
    | inr e ↦
        there (other, x)
          (resolve_only addr rest (subst (Mem addr) (resolve_skips other x rest e) h))
  ]

  -- The addresses come in the order in which they were registered.
  resolve-append :
      (xs ys : List (String × A))
      → resolve (new (xs ++ ys)) name ≡ resolve (new xs) name ++ resolve (new ys) name
  unfolding resolve matching
  resolve-append [] ys = refl
  resolve-append ((other, x) ∷ xs) ys = elim (Bool-cases (str_eq other name)) [
    | inl e ↦ ground (arith, resolve-append xs ys)
    | inr e ↦ ground (arith, resolve-append xs ys)
  ]

-- No entry has the name.
abbrev pub IsUnnamed : {A : Type 0} → String → List (String × A) → Type 0
IsUnnamed name [] = Unit
IsUnnamed name ((other, x) ∷ rest) = (other ≢ name) × IsUnnamed name rest

resolve-IsUnnamed :
    {A : Type 0} (name : String) (entries : List (String × A))
    → IsUnnamed name entries
    → resolve (new entries) name ≡ []
unfolding resolve matching
resolve-IsUnnamed name [] h = refl
resolve-IsUnnamed name ((other, x) ∷ rest) (h, hs) = elim (Bool-cases (str_eq other name)) [
  | inl e ↦ absurd (h ((str_eq_iff other name).0 e))
  | inr e ↦ resolve_skips name other x rest e ∙ resolve-IsUnnamed name rest hs
]

-- The first address found is that of the first entry with the name.
pub resolve_first :
    {A : Type 0} (name : String) (addr : A) (before after : List (String × A))
    → IsUnnamed name before
    → resolve (new (before ++ (name, addr) ∷ after)) name ≡ addr ∷ resolve (new after) name
resolve_first name addr before after h =
    resolve-append name before ((name, addr) ∷ after)
    ∙ ap (◌++◌ (resolve (new before) name)) (resolve_here name addr after)
    ∙ ap (λ l. l ++ addr ∷ resolve (new after) name) (resolve-IsUnnamed name before h)
