-- ===== src/Client/Channel/Calls/Permits.antt =====
-- What the concurrency limit of a channel limits (crates/grpc-quic-client/src/channel.rs).
use grpc_quic_rs.Common.{
  ℕ, zero, suc, ◌+◌, ◌≤◌, ◌≡◌, refl, ap, subst, ◌∙◌, length, List, [], ◌∷◌, ◌++◌, some, true, false,
  arith, ◌<◌,
}
use grpc_quic_rs.Client.Channel.Calls.{
  Phase, queued, running, responding, over, Calls, acquire, finish, dropped, phase_at, set_phase,
  waits, waiting_ahead, CallStep, polls, returns, drops, dispatches, steps, Reach, begin, later,
}

abbrev pub runs : Phase → ℕ
runs running = 1
runs _ = 0

abbrev pub running_calls : List Phase → ℕ
running_calls [] = 0
running_calls (c ∷ cs) = runs c + running_calls cs

abbrev pub responds : Phase → ℕ
responds responding = 1
responds _ = 0

abbrev pub responding_calls : List Phase → ℕ
responding_calls [] = 0
responding_calls (c ∷ cs) = responds c + responding_calls cs

running_queued : (cs : List Phase) → running_calls (cs ++ queued ∷ []) ≡ running_calls cs
running_queued [] = refl
running_queued (c ∷ cs) = omega (arith, running_queued cs)

running_set :
    (i : ℕ) (c d : Phase) (cs : List Phase)
    → phase_at i cs ≡ some c
    → running_calls (set_phase i d cs) + runs c ≡ running_calls cs + runs d
running_set i c d [] e = absurd (cc)
running_set zero c d (x ∷ cs) e = ground arith
running_set (suc i) c d (x ∷ cs) e = omega (arith, running_set i c d cs e)

acquire-runs : (ahead p : ℕ) → (acquire ahead p).0 + runs (acquire ahead p).1 ≡ p
unfolding acquire
acquire-runs ahead p = ground arith

pub acquire-free : (ahead p : ℕ) → ahead < suc p → acquire ahead (suc p) ≡ (p, running)
unfolding acquire
acquire-free ahead p free = ground arith

CallStep-runs :
    {k p : ℕ} {c : Phase} {r : ℕ × Phase} → CallStep k p c r → r.0 + runs r.1 ≡ p + runs c
unfolding finish dropped
CallStep-runs {k} {p} polls = omega (arith, acquire-runs k p)
CallStep-runs (returns true) = omega arith
CallStep-runs (returns false) = omega arith
CallStep-runs (drops queued) = refl
CallStep-runs (drops running) = omega arith
CallStep-runs (drops responding) = refl
CallStep-runs (drops over) = refl

-- Free permits and the calls between their permit and their response or failure always add up to
-- the limit of the channel, whichever calls are dropped on the way.
pub Reach-limit :
    {limit : ℕ} {s : Calls} → Reach limit s → s.permits + running_calls s.calls ≡ limit
Reach-limit begin = omega arith
Reach-limit (later {s} r dispatches) = omega (arith, Reach-limit r, running_queued s.calls)
Reach-limit (later {s} r (steps i {c} {r = x} at st)) =
    omega (arith, Reach-limit r, running_set i c x.1 s.calls at, CallStep-runs st)

phase_at-last : (cs : List Phase) (c : Phase) → phase_at (length cs) (cs ++ c ∷ []) ≡ some c
phase_at-last [] c = refl
phase_at-last (x ∷ cs) c = phase_at-last cs c

set_phase-last :
    (cs : List Phase) (c d : Phase) → set_phase (length cs) d (cs ++ c ∷ []) ≡ cs ++ d ∷ []
set_phase-last [] c d = refl
set_phase-last (x ∷ cs) c d = ap (◌∷◌ x) (set_phase-last cs c d)

abbrev pub of : ℕ → List Phase → Calls
of permits calls = record { permits = permits; calls = calls }

abbrev pub waiting_calls : List Phase → ℕ
waiting_calls [] = 0
waiting_calls (c ∷ cs) = waits c + waiting_calls cs

waiting_ahead-last :
    (cs : List Phase) (c : Phase) → waiting_ahead (length cs) (cs ++ c ∷ []) ≡ waiting_calls cs
waiting_ahead-last [] c = refl
waiting_ahead-last (x ∷ cs) c = ap (◌+◌ (waits x)) (waiting_ahead-last cs c)

-- One more call, up to its response, when none waits.
one_more :
    {limit p : ℕ} (cs : List Phase)
    → waiting_calls cs ≡ 0
    → Reach limit (of (suc p) cs)
    → Reach limit (of (suc p) (cs ++ responding ∷ []))
unfolding acquire finish
one_more {limit} {p} cs none_waits r =
    let first : waiting_ahead (length cs) (cs ++ queued ∷ []) ≡ 0 =
      waiting_ahead-last cs queued ∙ none_waits in
    let polls_first : CallStep (waiting_ahead (length cs) (cs ++ queued ∷ [])) (suc p) queued
        (p, running) =
      subst (CallStep _ (suc p) queued) (acquire-free _ p (omega (arith, first))) polls in
    let polled : Reach limit (of p (set_phase (length cs) running (cs ++ queued ∷ []))) =
      later (later r dispatches) (steps (length cs) (phase_at-last cs queued) polls_first) in
    let runs_now : Reach limit (of p (cs ++ running ∷ [])) =
      subst (λ l. Reach limit (of p l)) (set_phase-last cs queued running) polled in
    let returned : Reach limit
        (of (suc p) (set_phase (length cs) responding (cs ++ running ∷ []))) =
      later runs_now (steps (length cs) (phase_at-last cs running) (returns true)) in
    subst (λ l. Reach limit (of (suc p) l)) (set_phase-last cs running responding) returned

responding_last :
    (cs : List Phase) → responding_calls (cs ++ responding ∷ []) ≡ suc (responding_calls cs)
responding_last [] = refl
responding_last (c ∷ cs) = omega (arith, responding_last cs)

waiting_last : (cs : List Phase) → waiting_calls (cs ++ responding ∷ []) ≡ waiting_calls cs
waiting_last [] = refl
waiting_last (c ∷ cs) = ap (◌+◌ (waits c)) (waiting_last cs)

respond_all :
    (limit n : ℕ)
    → (cs : List Phase) × Reach (suc limit) (of (suc limit) cs)
      × (responding_calls cs ≡ n)
      × (waiting_calls cs ≡ 0)
respond_all limit zero = ([], begin, refl, refl)
respond_all limit (suc n) =
    let (cs, r, count, none_waits) = respond_all limit n in
    (
      cs ++ responding ∷ [],
      one_more cs none_waits r,
      responding_last cs ∙ ap suc count,
      waiting_last cs ∙ none_waits,
    )

-- A permit is given back with the response's head: whatever the limit, if it is not 0, any number
-- of calls can have their response's body open at the same time, with all permits free.
pub responses_are_unlimited :
    (limit n : ℕ)
    → (s : Calls) × Reach (suc limit) s × (responding_calls s.calls ≡ n) × (s.permits ≡ suc limit)
responses_are_unlimited limit n =
    let (cs, r, count, none_waits) = respond_all limit n in (of (suc limit) cs, r, count, refl)

responding_queued : (cs : List Phase) → responding_calls (cs ++ queued ∷ []) ≡ responding_calls cs
responding_queued [] = refl
responding_queued (c ∷ cs) = omega (arith, responding_queued cs)

responding_set :
    (i : ℕ) (c d : Phase) (cs : List Phase)
    → phase_at i cs ≡ some c
    → responding_calls (set_phase i d cs) + responds c ≡ responding_calls cs + responds d
responding_set i c d [] e = absurd (cc)
responding_set zero c d (x ∷ cs) e = ground arith
responding_set (suc i) c d (x ∷ cs) e = omega (arith, responding_set i c d cs e)

acquire-responds : (ahead p : ℕ) → responds (acquire ahead p).1 ≤ 0
unfolding acquire
acquire-responds ahead p = ground arith

-- Only a call with a permit gets a response.
CallStep-responds :
    {k p : ℕ} {c : Phase} {r : ℕ × Phase} → CallStep k p c r → responds r.1 ≤ responds c + runs c
unfolding finish dropped
CallStep-responds {k} {p} polls = acquire-responds k p
CallStep-responds (returns true) = omega arith
CallStep-responds (returns false) = omega arith
CallStep-responds (drops queued) = omega arith
CallStep-responds (drops running) = omega arith
CallStep-responds (drops responding) = omega arith
CallStep-responds (drops over) = omega arith

runs-phase_at :
    (i : ℕ) (c : Phase) (cs : List Phase) → phase_at i cs ≡ some c → runs c ≤ running_calls cs
runs-phase_at i c [] e = absurd (cc)
runs-phase_at zero c (x ∷ cs) e = ground arith
runs-phase_at (suc i) c (x ∷ cs) e = omega (arith, runs-phase_at i c cs e)

starved : {s : Calls} → Reach 0 s → responding_calls s.calls ≡ 0
starved begin = refl
starved (later {s} r dispatches) = omega (arith, starved r, responding_queued s.calls)
starved (later {s} r (steps i {c} {r = x} at st)) = omega (
  arith,
  starved r,
  Reach-limit r,
  responding_set i c x.1 s.calls at,
  CallStep-responds st,
  runs-phase_at i c s.calls at,
)

-- Over a channel with the limit 0 no call ever gets its permit, nor a response.
pub zero_limit_starves :
    {s : Calls} → Reach 0 s → (running_calls s.calls ≡ 0) × (responding_calls s.calls ≡ 0)
zero_limit_starves r = (omega (arith, Reach-limit r), starved r)
