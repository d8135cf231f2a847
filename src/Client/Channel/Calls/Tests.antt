-- ===== src/Client/Channel/Calls/Tests.antt =====
-- Examples of a channel with the limit 1 and two calls
-- (crates/grpc-quic-client/src/channel.rs).
use grpc_quic_rs.Common.{ℕ, ◌≤◌, ◌+◌, [], ◌∷◌, some, ◌≡◌, refl}
use grpc_quic_rs.Client.Channel.Calls.{
  Calls, queued, running, phase_at, Reach, begin, later, dispatches, steps, polls, acquire,
  dispatch,
}
use grpc_quic_rs.Client.Channel.Calls.Permits.{
  running_calls, responding_calls, Reach-limit, responses_are_unlimited,
}
use grpc_quic_rs.Client.Channel.Calls.Progress.{Steps, queued_can_run}

-- The first call runs, the second one waits.
abbrev full : Calls
full = record { permits = 0; calls = running ∷ queued ∷ [] }

full-Reach : Reach 1 full
unfolding acquire
full-Reach = later (later (later begin dispatches) dispatches) (steps 0 refl polls)

Reach-limit_example : full.permits + running_calls full.calls ≡ 1
Reach-limit_example = Reach-limit full-Reach

responses_are_unlimited_example :
    (s : Calls) × Reach 1 s × (responding_calls s.calls ≡ 3) × (s.permits ≡ 1)
responses_are_unlimited_example = responses_are_unlimited 0 3

-- A third call waits behind the second one.
abbrev crowded : Calls
crowded = dispatch full

queued_can_run_example :
    (n : ℕ) × (t : Calls) × Steps crowded n t × (phase_at 2 t.calls ≡ some running) × (n ≤ 4)
queued_can_run_example = queued_can_run (later full-Reach dispatches) 2 refl
