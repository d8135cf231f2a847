-- ===== src/Discovery.antt =====
-- crates/grpc-quic-discovery/src/resolver.rs: resolvers.
pub mod Static
use grpc_quic_rs.Common.{String, List, [], ◌∷◌, Bool, true, false, str_eq, map}

-- The trait `Resolver`.
pub record Resolver (A : Type 0) : Type 0 where
  pub resolve : String → List A

-- `StaticResolver`
pub record StaticResolver (A : Type 0) : Type 0 where
  pub entries : List (String × A)

abbrev pub new : {A : Type 0} → List (String × A) → StaticResolver A
new entries = record { entries = entries }

-- `filter(|(name, _)| name == service_name)` and `map(|(_, addr)| *addr)`.
matching : {A : Type 0} → String → List (String × A) → List (String × A)
matching service_name [] = []
matching service_name ((name, addr) ∷ rest) = elim (str_eq name service_name) [
  | true ↦ (name, addr) ∷ matching service_name rest
  | false ↦ matching service_name rest
]

-- `StaticResolver::resolve`
unfoldable pub resolve : {A : Type 0} → StaticResolver A → String → List A
unfolding matching
resolve self service_name = map (λ e. e.1) (matching service_name self.entries)

unfoldable pub static_resolver : {A : Type 0} → StaticResolver A → Resolver A
unfolding resolve
static_resolver self = record { resolve = resolve self }
