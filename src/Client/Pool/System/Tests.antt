-- ===== src/Client/Pool/System/Tests.antt =====
-- Examples of the pool (crates/grpc-quic-client/src/pool.rs): two callers ask for address 7.
use grpc_quic_rs.Common.{ℕ, String, ok, ◌≡◌, refl, ◌<◌, ℕ_discrete, string_display, arith, pending}
use grpc_quic_rs.Client.Pool.{PoolEntry, send_res, received}
use grpc_quic_rs.Client.Pool.System.{
  System, Step, request, finish, Reach, start, later, init, requested, completed, awaiting,
  answered, rx_poll, rx_state, deliver,
}
use grpc_quic_rs.Client.Pool.System.Invariant.{Inv, Reach-Inv}
use grpc_quic_rs.Client.Pool.System.Spec.{SpecStep, settles, settle}
use grpc_quic_rs.Client.Pool.System.Refinement.{abstraction, SpecStep-realised}
use grpc_quic_rs.Client.Pool.System.Receivers.{only_answers_arrive}
use grpc_quic_rs.Client.Pool.System.Panic.{panicked, panicked_waits_for_ever, here, next}

abbrev Pool : Type 0
Pool = System ℕ ℕ ℕ String

abbrev asked : Pool
asked = requested ℕ_discrete (requested ℕ_discrete init 7) 7

abbrev entry : PoolEntry ℕ ℕ
entry = record { quic = 3; h3 = 4 }

asked-Reach : Reach ℕ_discrete ℕ_discrete asked
asked-Reach = later (later start (request 7)) (request 7)

asked_first : asked.channel 0 ≡ awaiting 7
unfolding requested ℕ_discrete
asked_first = refl

asked_task : 0 < asked.tasks 7
unfolding requested ℕ_discrete
asked_task = omega arith

abbrev served : Pool
served = completed ℕ_discrete asked 7 (ok entry)

served-Reach : Reach ℕ_discrete ℕ_discrete served
served-Reach = later asked-Reach (finish 7 (ok entry) asked_task)

Reach-Inv_example : Inv served
Reach-Inv_example = Reach-Inv served-Reach

only_answers_arrive_example : served.channel 0 ≡ answered (ok entry)
unfolding rx_poll rx_state requested completed deliver ℕ_discrete send_res received
only_answers_arrive_example = only_answers_arrive served-Reach 0 (ok entry) refl

-- The first caller stays where it is after the panic, though a third one asks as well.
panicked_waits_for_ever_example :
    ((requested ℕ_discrete (panicked ℕ_discrete asked 7) 7).channel 0 ≡ awaiting 7)
    × (rx_poll (requested ℕ_discrete (panicked ℕ_discrete asked 7) 7) 0 ≡ pending)
panicked_waits_for_ever_example =
    panicked_waits_for_ever asked-Reach 7 0 asked_first (next here (request 7))

asked-SpecStep :
    SpecStep ℕ_discrete ℕ_discrete
      (abstraction asked)
      (settle ℕ_discrete (abstraction asked) 7 (ok entry))
unfolding requested ℕ_discrete
asked-SpecStep = settles 7 (ok entry) refl

SpecStep-realised_example :
    (t : Pool) × Step ℕ_discrete ℕ_discrete asked t
    × (abstraction t ≡ settle ℕ_discrete (abstraction asked) 7 (ok entry))
SpecStep-realised_example = SpecStep-realised asked-Reach asked-SpecStep
