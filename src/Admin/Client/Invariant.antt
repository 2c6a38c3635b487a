-- ===== src/Admin/Client/Invariant.antt =====
-- src/admin/AdminClient.ts: what holds of the client after any calls and timers.
use kafka_node_ts.Prelude.{
  ℕ, suc, ◌+◌, ◌==◌, ltb, ◌≡◌, refl, true, some, [], ◌∷◌, inl, inr, if_cases, Option-cases,
  if◌then◌else◌, arith,
}
use kafka_node_ts.Prelude.Errors.{Error, plain_error}
use kafka_node_ts.Admin.Client.{
  Operation, emits_ready, emits_close, resolves, rejects, Answer, nothing, answer_to, put_out, wait,
  on_connected, Continuation, in_connect, in_close, in_ensure_connected, in_operation, Waiting,
  AdminClient, new_admin_client, connect_admin, close_admin, request_operation, resume, nth_waiting,
  without_nth, on_timer,
}
use kafka_node_ts.Admin.Client.Counting.{
  Happening, connects, closes, requests, fires, step, Reachable, new, after, was_ready, was_closed,
  settled, waits, IsValid, was_ready-append, was_closed-append, settled-append, waits-append,
  waits-without_nth,
}

-- A valid client but for the promise of `call`, which is neither settled nor waits.
pub record IsOwing (call : ℕ) (c : AdminClient) : Type 0 where
  pub ready_told : c.is_initialized ≡ was_ready c.outputs
  pub close_told : c.is_closed ≡ was_closed c.outputs
  pub each_once :
      (k : ℕ)
      → settled k c.outputs + waits k c.waiting + (if call == k then 1 else 0)
        ≡ (if ltb k c.calls then 1 else 0)

counted-IsOwing : (c : AdminClient) → IsValid c → IsOwing c.calls (record c { calls = suc c.calls })
counted-IsOwing c v = record {
  ready_told = v.ready_told;
  close_told = v.close_told;
  each_once = λ k. ground (arith, v.each_once k);
}

fired-IsOwing :
    (i : ℕ) (c : AdminClient) (w : Waiting)
    → nth_waiting i c.waiting ≡ some w
    → IsValid c
    → IsOwing w.call (record c { waiting = without_nth i c.waiting })
fired-IsOwing i c w e v = record {
  ready_told = v.ready_told;
  close_told = v.close_told;
  each_once = λ k. omega (arith, v.each_once k, waits-without_nth k i c.waiting e);
}

module _ (call : ℕ) (c : AdminClient) (v : IsOwing call c) where
  resolved-IsValid : (a : Answer) → IsValid (put_out (resolves call a ∷ []) c)
  resolved-IsValid a = record {
    ready_told = ground (arith, was_ready-append c.outputs (resolves call a ∷ []));
    close_told = ground (arith, was_closed-append c.outputs (resolves call a ∷ []));
    each_once =
        λ k. omega (arith, v.each_once k, settled-append k c.outputs (resolves call a ∷ []));
  }

  rejected-IsValid : (e : Error) → IsValid (put_out (rejects call e ∷ []) c)
  rejected-IsValid e = record {
    ready_told = ground (arith, was_ready-append c.outputs (rejects call e ∷ []));
    close_told = ground (arith, was_closed-append c.outputs (rejects call e ∷ []));
    each_once = λ k. omega (arith, v.each_once k, settled-append k c.outputs (rejects call e ∷ []));
  }

  wait-IsValid : (continuation : Continuation) → IsValid (wait call continuation c)
  wait-IsValid continuation = record {
    ready_told = v.ready_told;
    close_told = v.close_told;
    each_once = λ k. omega (
      arith,
      v.each_once k,
      waits-append k c.waiting (record { call = call; continuation = continuation } ∷ []),
    );
  }

  on_connected-IsOwing : IsOwing call (on_connected c)
  on_connected-IsOwing = record {
    ready_told = ground (arith, was_ready-append c.outputs (emits_ready ∷ []));
    close_told = ground (arith, was_closed-append c.outputs (emits_ready ∷ []));
    each_once = λ k. omega (arith, v.each_once k, settled-append k c.outputs (emits_ready ∷ []));
  }

  closed-IsValid :
      IsValid (put_out (emits_close ∷ resolves call nothing ∷ []) (record c { is_closed = true }))
  closed-IsValid = record {
    ready_told =
        ground (arith, was_ready-append c.outputs (emits_close ∷ resolves call nothing ∷ []));
    close_told =
        ground (arith, was_closed-append c.outputs (emits_close ∷ resolves call nothing ∷ []));
    each_once = λ k. omega (
      arith,
      v.each_once k,
      settled-append k c.outputs (emits_close ∷ resolves call nothing ∷ []),
    );
  }

new-IsValid : IsValid new_admin_client
new-IsValid = record { ready_told = refl; close_told = refl; each_once = λ k. ground arith }

connect_admin-IsValid : (c : AdminClient) → IsValid c → IsValid (connect_admin c)
unfolding connect_admin
connect_admin-IsValid c v =
    let owing = counted-IsOwing c v in
    if_cases IsValid c.is_initialized (resolved-IsValid c.calls _ owing nothing)
      (wait-IsValid c.calls _ owing in_connect)

close_admin-IsValid : (c : AdminClient) → IsValid c → IsValid (close_admin c)
unfolding close_admin
close_admin-IsValid c v =
    let owing = counted-IsOwing c v in
    if_cases IsValid c.is_closed (resolved-IsValid c.calls _ owing nothing)
      (wait-IsValid c.calls _ owing in_close)

request_operation-IsValid :
    (operation : Operation) (c : AdminClient) → IsValid c → IsValid (request_operation operation c)
unfolding request_operation
request_operation-IsValid operation c v =
    let owing = counted-IsOwing c v in
    if_cases IsValid c.is_closed (rejected-IsValid c.calls _ owing plain_error) (
      if_cases IsValid c.is_initialized (wait-IsValid c.calls _ owing (in_operation operation))
        (wait-IsValid c.calls _ owing (in_ensure_connected operation)))

resume-IsValid :
    (call : ℕ) (continuation : Continuation) (c : AdminClient)
    → IsOwing call c
    → IsValid (resume (record { call = call; continuation = continuation }) c)
unfolding resume
resume-IsValid call in_connect c v =
    resolved-IsValid call (on_connected c) (on_connected-IsOwing call c v) nothing
resume-IsValid call in_close c v = closed-IsValid call c v
resume-IsValid call (in_ensure_connected operation) c v =
    wait-IsValid call (on_connected c) (on_connected-IsOwing call c v) (in_operation operation)
resume-IsValid call (in_operation operation) c v = resolved-IsValid call c v (answer_to operation)

pub on_timer-IsValid : (i : ℕ) (c : AdminClient) → IsValid c → IsValid (on_timer i c)
unfolding on_timer
on_timer-IsValid i c v = elim (Option-cases (nth_waiting i c.waiting)) [
  | inl none_waits ↦ rw (none_waits, on_timer) v
  | inr (w, e) ↦
      rw (e, on_timer)
        (resume-IsValid w.call w.continuation (record c { waiting = without_nth i c.waiting })
          (fired-IsOwing i c w e v))
]

pub step-IsValid : (h : Happening) (c : AdminClient) → IsValid c → IsValid (step h c)
unfolding step
step-IsValid connects c v = connect_admin-IsValid c v
step-IsValid closes c v = close_admin-IsValid c v
step-IsValid (requests operation) c v = request_operation-IsValid operation c v
step-IsValid (fires i) c v = on_timer-IsValid i c v

-- After any calls and timers in any order: the client is initialized exactly if it has emitted 'ready',
-- and closed exactly if it has emitted 'close'; the promise of each call made is either settled once or
-- waits once for a timer, and no other promise is settled or waits.
pub reachable_admin-IsValid : (c : AdminClient) → Reachable c → IsValid c
reachable_admin-IsValid c new = new-IsValid
reachable_admin-IsValid c (after h {c = b} r) = step-IsValid h b (reachable_admin-IsValid b r)
