-- ===== src/Admin/Client/Settling.antt =====
-- src/admin/AdminClient.ts: the timers settle every call, in whichever order they fire.
use kafka_node_ts.Prelude.{
  ℕ, zero, suc, ◌+◌, ◌<◌, ◌≡◌, refl, ap, ◌∙◌, none, some, List, [], ◌∷◌, ◌++◌, inl, inr,
  Option-cases, ltb, if◌then◌else◌, arith,
}
use kafka_node_ts.Admin.Client.{
  Continuation, in_connect, in_close, in_ensure_connected, in_operation, Waiting, AdminClient,
  resume, nth_waiting, without_nth, on_timer,
}
use kafka_node_ts.Admin.Client.Counting.{Reachable, settled, waits, IsValid}
use kafka_node_ts.Admin.Client.Invariant.{reachable_admin-IsValid, on_timer-IsValid}

-- How many timers a call still waits for.
abbrev pub delays : Continuation → ℕ
delays in_connect = 1
delays in_close = 1
delays (in_ensure_connected operation) = 2
delays (in_operation operation) = 1

abbrev pub all_delays : List Waiting → ℕ
all_delays [] = 0
all_delays (w ∷ ws) = delays w.continuation + all_delays ws

-- Timers fire until `n` have fired: each time that of the call which `choose` finds in the list.
unfoldable pub fire_some : ℕ → (List Waiting → ℕ) → AdminClient → AdminClient
fire_some zero choose c = c
fire_some (suc n) choose c = fire_some n choose (on_timer (choose c.waiting) c)

-- A choice that always finds a call, if one waits.
abbrev pub Finds : (List Waiting → ℕ) → Type 0
Finds choose = (ws : List Waiting) → nth_waiting (choose ws) ws ≡ none → ws ≡ []

all_delays-append : (a b : List Waiting) → all_delays (a ++ b) ≡ all_delays a + all_delays b
all_delays-append [] b = omega arith
all_delays-append (w ∷ a) b = omega (arith, all_delays-append a b)

all_delays-without_nth :
    (i : ℕ) (ws : List Waiting) {w : Waiting}
    → nth_waiting i ws ≡ some w
    → all_delays ws ≡ delays w.continuation + all_delays (without_nth i ws)
all_delays-without_nth i [] h = absurd (cc h)
all_delays-without_nth zero (v ∷ ws) h = ground arith
all_delays-without_nth (suc i) (v ∷ ws) h = omega (arith, all_delays-without_nth i ws h)

-- A call that goes on waits for one timer less.
resume-delays :
    (call : ℕ) (k : Continuation) (c : AdminClient)
    → let w : Waiting = record { call = call; continuation = k } in
      (all_delays (resume w c).waiting + 1 ≡ all_delays c.waiting + delays k)
      × ((resume w c).calls ≡ c.calls)
unfolding resume
resume-delays call in_connect c = (refl, refl)
resume-delays call in_close c = (refl, refl)
resume-delays call (in_ensure_connected operation) c = (
  omega (
    arith,
    all_delays-append c.waiting
        (record { call = call; continuation = in_operation operation } ∷ []),
  ),
  refl,
)
resume-delays call (in_operation operation) c = (refl, refl)

on_timer-found :
    (i : ℕ) (c : AdminClient) (w : Waiting)
    → nth_waiting i c.waiting ≡ some w
    → on_timer i c ≡ resume w (record c { waiting = without_nth i c.waiting })
unfolding on_timer
on_timer-found i c w e = rw (e, on_timer)

on_timer-delays :
    (i : ℕ) (c : AdminClient) (w : Waiting)
    → nth_waiting i c.waiting ≡ some w
    → (all_delays (on_timer i c).waiting + 1 ≡ all_delays c.waiting)
      × ((on_timer i c).calls ≡ c.calls)
on_timer-delays i c w e =
    let (less, same) =
      resume-delays w.call w.continuation (record c { waiting = without_nth i c.waiting }) in
    rw (on_timer-found i c w e) (omega (arith, less, all_delays-without_nth i c.waiting e), same)

delays_pos : (k : Continuation) → 0 < delays k
delays_pos in_connect = omega arith
delays_pos _ = omega arith

no_delays : (ws : List Waiting) → all_delays ws ≡ 0 → ws ≡ []
no_delays [] h = refl
no_delays (w ∷ ws) h = absurd (omega (arith, delays_pos w.continuation))

-- As many timers as are waited for, and nothing waits any more.
fire_some-settles :
    (n : ℕ) (choose : List Waiting → ℕ) (c : AdminClient)
    → Finds choose
    → n ≡ all_delays c.waiting
    → IsValid c
    → let d : AdminClient = fire_some n choose c in
      (d.waiting ≡ []) × (d.calls ≡ c.calls) × IsValid d
unfolding fire_some
fire_some-settles zero choose c finds e v = (no_delays c.waiting (omega arith), refl, v)
fire_some-settles (suc n) choose c finds e v =
    elim (Option-cases (nth_waiting (choose c.waiting) c.waiting)) [
      | inl found_none ↦ absurd (omega (arith, ap all_delays (finds c.waiting found_none)))
      | inr (w, found) ↦
          let i : ℕ = choose c.waiting in
          let (less, same) = on_timer-delays i c w found in
          let (none_waits, calls, valid) =
            fire_some-settles n choose (on_timer i c) finds (omega arith)
              (on_timer-IsValid i c v) in
          (none_waits, calls ∙ same, valid)
    ]

-- After any calls and timers, in whichever order the remaining timers fire: when as many more have
-- fired as the waiting calls have delays before them, two for an operation that first connects and one
-- for any other, no call waits any more, the promise of every call that was made is settled exactly once,
-- and no other promise is settled.
pub fire_some-settled :
    (c : AdminClient) (choose : List Waiting → ℕ)
    → Reachable c
    → Finds choose
    → let d : AdminClient = fire_some (all_delays c.waiting) choose c in
      (d.waiting ≡ []) × ((k : ℕ) → settled k d.outputs ≡ (if ltb k c.calls then 1 else 0))
fire_some-settled c choose r finds =
    let (none_waits, calls, valid) =
      fire_some-settles (all_delays c.waiting) choose c finds refl (reachable_admin-IsValid c r) in
    (
      none_waits,
      λ k.
          ground (arith, valid.each_once k, ap (waits k) none_waits, ap (λ (n : ℕ). ltb k n) calls),
    )
