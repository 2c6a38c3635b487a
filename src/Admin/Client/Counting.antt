-- ===== src/Admin/Client/Counting.antt =====
-- src/admin/AdminClient.ts: calls and timers in any order, and what the outputs tell of them.
use kafka_node_ts.Prelude.{
  ℕ, zero, suc, ◌+◌, ◌==◌, ltb, ◌≡◌, refl, Bool, true, false, ◌||◌, some, List, [], ◌∷◌, ◌++◌,
  if◌then◌else◌, arith,
}
use kafka_node_ts.Admin.Client.{
  Operation, AdminOutput, emits_ready, emits_close, resolves, rejects, Waiting, AdminClient,
  new_admin_client, connect_admin, close_admin, request_operation, nth_waiting, without_nth,
  on_timer,
}

-- What happens to a client: a call, or a timer.
pub data Happening : Type 0 where
  connects closes : Happening
  requests : Operation → Happening
  fires : (i : ℕ) → Happening

unfoldable pub step : Happening → AdminClient → AdminClient
step connects c = connect_admin c
step closes c = close_admin c
step (requests operation) c = request_operation operation c
step (fires i) c = on_timer i c

-- Every client that calls and timers lead to from a new one.
pub data Reachable : AdminClient → Type 0 where
  new : Reachable new_admin_client
  after : (h : Happening) {c : AdminClient} → Reachable c → Reachable (step h c)

abbrev pub was_ready : List AdminOutput → Bool
was_ready [] = false
was_ready (emits_ready ∷ out) = true
was_ready (emits_close ∷ out) = was_ready out
was_ready (resolves call a ∷ out) = was_ready out
was_ready (rejects call e ∷ out) = was_ready out

abbrev pub was_closed : List AdminOutput → Bool
was_closed [] = false
was_closed (emits_ready ∷ out) = was_closed out
was_closed (emits_close ∷ out) = true
was_closed (resolves call a ∷ out) = was_closed out
was_closed (rejects call e ∷ out) = was_closed out

-- How often the promise of call `k` was settled.
abbrev pub settled : ℕ → List AdminOutput → ℕ
settled k [] = 0
settled k (emits_ready ∷ out) = settled k out
settled k (emits_close ∷ out) = settled k out
settled k (resolves call a ∷ out) = (if call == k then 1 else 0) + settled k out
settled k (rejects call e ∷ out) = (if call == k then 1 else 0) + settled k out

-- How often call `k` waits.
abbrev pub waits : ℕ → List Waiting → ℕ
waits k [] = 0
waits k (w ∷ ws) = (if w.call == k then 1 else 0) + waits k ws

pub record IsValid (c : AdminClient) : Type 0 where
  pub ready_told : c.is_initialized ≡ was_ready c.outputs
  pub close_told : c.is_closed ≡ was_closed c.outputs
  pub each_once :
      (k : ℕ) → settled k c.outputs + waits k c.waiting ≡ (if ltb k c.calls then 1 else 0)

pub was_ready-append : (a b : List AdminOutput) → was_ready (a ++ b) ≡ (was_ready a || was_ready b)
was_ready-append [] b = refl
was_ready-append (emits_ready ∷ a) b = refl
was_ready-append (emits_close ∷ a) b = was_ready-append a b
was_ready-append (resolves k r ∷ a) b = was_ready-append a b
was_ready-append (rejects k e ∷ a) b = was_ready-append a b

pub was_closed-append :
    (a b : List AdminOutput) → was_closed (a ++ b) ≡ (was_closed a || was_closed b)
was_closed-append [] b = refl
was_closed-append (emits_ready ∷ a) b = was_closed-append a b
was_closed-append (emits_close ∷ a) b = refl
was_closed-append (resolves k r ∷ a) b = was_closed-append a b
was_closed-append (rejects k e ∷ a) b = was_closed-append a b

pub settled-append :
    (k : ℕ) (a b : List AdminOutput) → settled k (a ++ b) ≡ settled k a + settled k b
settled-append k [] b = omega arith
settled-append k (emits_ready ∷ a) b = settled-append k a b
settled-append k (emits_close ∷ a) b = settled-append k a b
settled-append k (resolves j r ∷ a) b = omega (arith, settled-append k a b)
settled-append k (rejects j e ∷ a) b = omega (arith, settled-append k a b)

pub waits-append : (k : ℕ) (a b : List Waiting) → waits k (a ++ b) ≡ waits k a + waits k b
waits-append k [] b = omega arith
waits-append k (w ∷ a) b = omega (arith, waits-append k a b)

pub waits-without_nth :
    (k i : ℕ) (ws : List Waiting) {w : Waiting}
    → nth_waiting i ws ≡ some w
    → waits k ws ≡ (if w.call == k then 1 else 0) + waits k (without_nth i ws)
waits-without_nth k i [] h = absurd (cc h)
waits-without_nth k zero (v ∷ ws) h = ground arith
waits-without_nth k (suc i) (v ∷ ws) h = omega (arith, waits-without_nth k i ws h)
