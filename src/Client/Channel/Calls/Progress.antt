-- ===== src/Client/Channel/Calls/Progress.antt =====
-- That a call which waits can go on (crates/grpc-quic-client/src/channel.rs).
use grpc_quic_rs.Common.{
  ℕ, zero, suc, ◌<◌, ◌≡◌, ◌≢◌, refl, List, [], ◌∷◌, some, true, arith, ap, subst, ◌∙◌, ◌+◌, ◌*◌,
  ◌≤◌,
}
use grpc_quic_rs.Client.Channel.Calls.{
  Phase, queued, running, responding, over, Calls, acquire, finish, phase_at, set_phase, polls,
  returns, Step, steps, Reach, later, waits, waiting_ahead,
}
use grpc_quic_rs.Client.Channel.Calls.Permits.{running_calls, Reach-limit, acquire-free}

phase_at-set_self :
    (i : ℕ) (c d : Phase) (cs : List Phase)
    → phase_at i cs ≡ some c
    → phase_at i (set_phase i d cs) ≡ some d
phase_at-set_self i c d [] e = absurd (cc)
phase_at-set_self zero c d (x ∷ cs) e = refl
phase_at-set_self (suc i) c d (x ∷ cs) e = phase_at-set_self i c d cs e

phase_at-set_other :
    (i j : ℕ) (d : Phase) (cs : List Phase) → i ≢ j → phase_at j (set_phase i d cs) ≡ phase_at j cs
phase_at-set_other i j d [] ne = refl
phase_at-set_other zero zero d (x ∷ cs) ne = absurd (ne refl)
phase_at-set_other zero (suc j) d (x ∷ cs) ne = refl
phase_at-set_other (suc i) zero d (x ∷ cs) ne = refl
phase_at-set_other (suc i) (suc j) d (x ∷ cs) ne = phase_at-set_other i j d cs (λ e. ne (ap suc e))

-- Where a call runs, if one does.
find_running : (cs : List Phase) → 0 < running_calls cs → (j : ℕ) × (phase_at j cs ≡ some running)
find_running [] h = absurd (omega (arith, h))
find_running (running ∷ cs) h = (0, refl)
find_running (queued ∷ cs) h = let (j, e) = find_running cs (omega (arith, h)) in (suc j, e)
find_running (responding ∷ cs) h = let (j, e) = find_running cs (omega (arith, h)) in (suc j, e)
find_running (over ∷ cs) h = let (j, e) = find_running cs (omega (arith, h)) in (suc j, e)

-- `n` steps of the calls.
pub data Steps : Calls → ℕ → Calls → Type 0 where
  stay : {s : Calls} → Steps s 0 s
  next : {n : ℕ} {s t u : Calls} → Step s t → Steps t n u → Steps s (suc n) u

Steps-append :
    {s t u : Calls} {n k : ℕ} → Steps s n t → Steps t k u → (l : ℕ) × Steps s l u × (l ≡ n + k)
Steps-append {k} stay path = (k, path, omega arith)
Steps-append (next st more) path =
    let (l, whole, e) = Steps-append more path in (suc l, next st whole, omega (arith, e))

-- The first call that waits, if one waits in front of the i-th.
first_waiting :
    (i k : ℕ) (cs : List Phase)
    → waiting_ahead i cs ≡ suc k
    → (j : ℕ) × (j < i) × (phase_at j cs ≡ some queued) × (waiting_ahead j cs ≡ 0)
first_waiting i k [] e = absurd (omega (arith, e))
first_waiting zero k (c ∷ cs) e = absurd (omega (arith, e))
first_waiting (suc i) k (queued ∷ cs) e = (0, omega arith, refl, refl)
first_waiting (suc i) k (running ∷ cs) e =
    let (j, lt, at, none_ahead) = first_waiting i k cs (omega (arith, e)) in
    (suc j, omega (arith, lt), at, omega (arith, none_ahead))
first_waiting (suc i) k (responding ∷ cs) e =
    let (j, lt, at, none_ahead) = first_waiting i k cs (omega (arith, e)) in
    (suc j, omega (arith, lt), at, omega (arith, none_ahead))
first_waiting (suc i) k (over ∷ cs) e =
    let (j, lt, at, none_ahead) = first_waiting i k cs (omega (arith, e)) in
    (suc j, omega (arith, lt), at, omega (arith, none_ahead))

-- A call that runs does not wait, before or after its response.
ahead-respond :
    (i j : ℕ) (cs : List Phase)
    → phase_at j cs ≡ some running
    → waiting_ahead i (set_phase j responding cs) ≡ waiting_ahead i cs
ahead-respond i j [] at = refl
ahead-respond zero zero (c ∷ cs) at = refl
ahead-respond zero (suc j) (c ∷ cs) at = refl
ahead-respond (suc i) zero (c ∷ cs) at = ground arith
ahead-respond (suc i) (suc j) (c ∷ cs) at = ap (◌+◌ (waits c)) (ahead-respond i j cs at)

ahead-run :
    (i j : ℕ) (cs : List Phase)
    → j < i
    → phase_at j cs ≡ some queued
    → waiting_ahead i (set_phase j running cs) + 1 ≡ waiting_ahead i cs
ahead-run i j [] lt at = absurd (cc)
ahead-run zero j (c ∷ cs) lt at = absurd (omega (arith, lt))
ahead-run (suc i) zero (c ∷ cs) lt at = ground arith
ahead-run (suc i) (suc j) (c ∷ cs) lt at = omega (arith, ahead-run i j cs (omega (arith, lt)) at)

takes_permit :
    (s : Calls) (p i : ℕ)
    → s.permits ≡ suc p
    → phase_at i s.calls ≡ some queued
    → waiting_ahead i s.calls ≡ 0
    → Step s (record { permits = p; calls = set_phase i running s.calls })
takes_permit s p i free at first =
    let got : acquire (waiting_ahead i s.calls) s.permits ≡ (p, running) =
      rw (free, first) (acquire-free 0 p (omega arith)) in
    subst (λ r. Step s (record { permits = r.0; calls = set_phase i r.1 s.calls })) got
      (steps i at polls)

-- The first call that waits can run in two steps, and no other call has to change but one that runs
-- and gives its response.
record Runs (s : Calls) (j : ℕ) : Type 0 where
  count : ℕ
  few : count ≤ 2
  after : Calls
  path : Steps s count after
  runs : phase_at j after.calls ≡ some running
  keeps : (i : ℕ) → j < i → phase_at i s.calls ≡ some queued → phase_at i after.calls ≡ some queued
  fewer : (i : ℕ) → j < i → waiting_ahead i after.calls + 1 ≡ waiting_ahead i s.calls

first-Runs :
    {limit : ℕ} (s : Calls) (p j : ℕ)
    → s.permits ≡ p
    → Reach (suc limit) s
    → phase_at j s.calls ≡ some queued
    → waiting_ahead j s.calls ≡ 0
    → Runs s j
unfolding finish
first-Runs s (suc p) j free r at first = record {
  count = 1;
  few = omega arith;
  after = record { permits = p; calls = set_phase j running s.calls };
  path = next (takes_permit s p j free at first) stay;
  runs = phase_at-set_self j queued running s.calls at;
  keeps = λ i lt h. phase_at-set_other j i running s.calls (λ e. omega (arith, lt, e)) ∙ h;
  fewer = λ i lt. ahead-run i j s.calls lt at;
}
first-Runs s zero j free r at first =
    let (x, busy) = find_running s.calls (omega (arith, Reach-limit r)) in
    let freed : Calls = record {
      permits = suc s.permits;
      calls = set_phase x responding s.calls;
    } in
    let kept : (i : ℕ) → phase_at i s.calls ≡ some queued → phase_at i freed.calls ≡ some queued =
      λ i h. phase_at-set_other x i responding s.calls (λ e. ground arith) ∙ h in
    let still : waiting_ahead j freed.calls ≡ 0 = ahead-respond j x s.calls busy ∙ first in
    record {
      count = 2;
      few = omega arith;
      after = record { permits = s.permits; calls = set_phase j running freed.calls };
      path =
          next (steps x busy (returns true))
            (next (takes_permit freed s.permits j refl (kept j at) still) stay);
      runs = phase_at-set_self j queued running freed.calls (kept j at);
      keeps = λ i lt h.
          phase_at-set_other j i running freed.calls (λ e. omega (arith, lt, e)) ∙ kept i h;
      fewer = λ i lt. ahead-run i j freed.calls lt (kept j at) ∙ ahead-respond i x s.calls busy;
    }

Steps-Reach : {limit : ℕ} {s t : Calls} {n : ℕ} → Reach limit s → Steps s n t → Reach limit t
Steps-Reach r stay = r
Steps-Reach r (next st path) = Steps-Reach (later r st) path

takes_turn :
    {limit : ℕ} (k i : ℕ) (s : Calls)
    → Reach (suc limit) s
    → phase_at i s.calls ≡ some queued
    → waiting_ahead i s.calls ≡ k
    → (n : ℕ) × (t : Calls) × Steps s n t × (phase_at i t.calls ≡ some running) × (n ≤ 2 * k + 2)
takes_turn zero i s r at first =
    let v = first-Runs s s.permits i refl r at first in
    (v.count, v.after, v.path, v.runs, omega (arith, v.few))
takes_turn (suc k) i s r at ahead =
    let (j, lt, front, first) = first_waiting i k s.calls ahead in
    let v = first-Runs s s.permits j refl r front first in
    let (n, t, path, runs, few) =
      takes_turn k i v.after (Steps-Reach r v.path) (v.keeps i lt at)
        (omega (arith, v.fewer i lt, ahead)) in
    let (l, whole, e) = Steps-append v.path path in
    (l, t, whole, runs, omega (arith, e, few, v.few))

-- A call that waits for its permit can have it, if the limit is not 0, in two steps for each call
-- that waits in front of it and two of its own: whoever runs can give a response, and those in front
-- take their turns.
pub queued_can_run :
    {limit : ℕ} {s : Calls}
    → Reach (suc limit) s
    → (i : ℕ) → phase_at i s.calls ≡ some queued
    → (n : ℕ) × (t : Calls) × Steps s n t
      × (phase_at i t.calls ≡ some running)
      × (n ≤ 2 * waiting_ahead i s.calls + 2)
queued_can_run {s} r i at = takes_turn (waiting_ahead i s.calls) i s r at refl
