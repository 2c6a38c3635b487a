-- ===== src/Consumer/Closing.antt =====
-- src/consumer/KafkaConsumer.ts: what `close` stops, and that it stays so.
use kafka_node_ts.Prelude.{
  ℕ, ◌+◌, ◌-◌, ◌==◌, ◌∙◌, ◌≡◌, refl, true, false, not, inl, inr, if_cases, if_known, if_taken,
  if_passed, All, List, [], ◌∷◌,
}
use kafka_node_ts.Prelude.Errors.{Result}
use kafka_node_ts.Consumer.{
  ConsumerOutput, KafkaConsumer, put_out, check_usable, connect_consumer, on_connected, subscribe,
  assign, unsubscribe, start, stop, close_consumer, on_closed,
}
use kafka_node_ts.Consumer.Invariant.{
  Call, connects, connect_waited, close_waited, unsubscribes, starts, stops, closes, commits,
  seeks_beginning, seeks_end, subscribes, assigns, polls, commits_async, seeks, asks_position, step,
  Reachable, IsValid, step-kept, reachable_consumer-IsValid, stop-IsValid,
}

unfoldable pub steps : List Call → KafkaConsumer → KafkaConsumer
steps [] c = c
steps (call ∷ calls) c = steps calls (step call c)

-- The calls that start nothing and assign nothing.
abbrev pub IsQuiet : Call → Type 0
IsQuiet starts = ⊥
IsQuiet (subscribes topics listener) = ⊥
IsQuiet (assigns ps) = ⊥
IsQuiet _ = Unit

-- Not polling, with nothing assigned and no subscription.
pub record IsStill (c : KafkaConsumer) : Type 0 where
  pub interval : c.poll_interval ≡ false
  pub running : c.is_running ≡ false
  pub assigned : c.assigned_partitions ≡ []
  pub subscribed : c.subscriptions ≡ []

abbrev pub IsOver : KafkaConsumer → Type 0
IsOver c = (c.is_closed ≡ true) × IsStill c

-- A property that stopping and clearing keep, and that depends neither on what was put out, nor on the
-- calls that wait, nor on being connected, is kept by every quiet call.
record IsRobust (P : KafkaConsumer → Type 0) : Type 0 where
  told : (c : KafkaConsumer) (out : List ConsumerOutput) → P c → P (put_out out c)
  cleared :
      (c : KafkaConsumer) → P c → P (record c { subscriptions = []; assigned_partitions = [] })
  stopped : (c : KafkaConsumer) → P c → P (record c { poll_interval = false; is_running = false })
  waits : (c : KafkaConsumer) (n m : ℕ) → P c → P (record c { connecting = n; closing = m })
  initialized : (c : KafkaConsumer) → P c → P (record c { is_initialized = true })
  closed : (c : KafkaConsumer) → P c → P (record c { is_closed = true })

module _ {P : KafkaConsumer → Type 0} (r : IsRobust P) where
  unsubscribe-kept : (c : KafkaConsumer) → P c → P (unsubscribe c)
  unfolding unsubscribe
  unsubscribe-kept c v = if_cases P c.is_initialized (r.told _ _ (r.cleared c v)) v

  stop-kept : (c : KafkaConsumer) → P c → P (stop c)
  unfolding stop
  stop-kept c v = if_cases P c.is_running (r.stopped c v) v

  connect_consumer-kept : (c : KafkaConsumer) → P c → P (connect_consumer c)
  unfolding connect_consumer
  connect_consumer-kept c v =
      if_cases P c.is_initialized v (r.waits c (c.connecting + 1) c.closing v)

  close_consumer-kept : (c : KafkaConsumer) → P c → P (close_consumer c)
  unfolding close_consumer
  close_consumer-kept c v =
      let d = unsubscribe (stop c) in
      if_cases P c.is_closed v
        (r.waits d d.connecting (c.closing + 1) (unsubscribe-kept (stop c) (stop-kept c v)))

  on_connected-kept : (c : KafkaConsumer) → P c → P (on_connected c)
  unfolding on_connected
  on_connected-kept c v = r.told _ _ (r.waits _ (c.connecting - 1) c.closing (r.initialized c v))

  on_closed-kept : (c : KafkaConsumer) → P c → P (on_closed c)
  unfolding on_closed
  on_closed-kept c v = r.told _ _ (r.waits _ c.connecting (c.closing - 1) (r.closed c v))

  step-kept_quiet : (call : Call) (c : KafkaConsumer) → IsQuiet call → P c → P (step call c)
  unfolding step
  step-kept_quiet starts c q h = absurd q
  step-kept_quiet (subscribes topics l) c q h = absurd q
  step-kept_quiet (assigns ps) c q h = absurd q
  step-kept_quiet connects c q h = connect_consumer-kept c h
  step-kept_quiet connect_waited c q h = if_cases P (0 == c.connecting) h (on_connected-kept c h)
  step-kept_quiet close_waited c q h = if_cases P (0 == c.closing) h (on_closed-kept c h)
  step-kept_quiet unsubscribes c q h = unsubscribe-kept c h
  step-kept_quiet stops c q h = stop-kept c h
  step-kept_quiet closes c q h = close_consumer-kept c h
  step-kept_quiet commits c q h = step-kept P r.told commits c tt h
  step-kept_quiet seeks_beginning c q h = step-kept P r.told seeks_beginning c tt h
  step-kept_quiet seeks_end c q h = step-kept P r.told seeks_end c tt h
  step-kept_quiet (polls now draws) c q h = step-kept P r.told (polls now draws) c tt h
  step-kept_quiet (commits_async b) c q h = step-kept P r.told (commits_async b) c tt h
  step-kept_quiet (seeks p) c q h = step-kept P r.told (seeks p) c tt h
  step-kept_quiet (asks_position n p) c q h = step-kept P r.told (asks_position n p) c tt h

  steps-kept_quiet :
      (calls : List Call) (c : KafkaConsumer) → All IsQuiet calls → P c → P (steps calls c)
  unfolding steps
  steps-kept_quiet [] c q h = h
  steps-kept_quiet (call ∷ calls) c q h =
      steps-kept_quiet calls (step call c) q.1 (step-kept_quiet call c q.0 h)

IsStill-IsRobust : IsRobust IsStill
IsStill-IsRobust = record {
  told = λ c out h. record {
    interval = h.interval;
    running = h.running;
    assigned = h.assigned;
    subscribed = h.subscribed;
  };
  cleared = λ c h. record {
    interval = h.interval;
    running = h.running;
    assigned = refl;
    subscribed = refl;
  };
  stopped = λ c h. record {
    interval = refl;
    running = refl;
    assigned = h.assigned;
    subscribed = h.subscribed;
  };
  waits = λ c n m h. record {
    interval = h.interval;
    running = h.running;
    assigned = h.assigned;
    subscribed = h.subscribed;
  };
  initialized = λ c h. record {
    interval = h.interval;
    running = h.running;
    assigned = h.assigned;
    subscribed = h.subscribed;
  };
  closed = λ c h. record {
    interval = h.interval;
    running = h.running;
    assigned = h.assigned;
    subscribed = h.subscribed;
  };
}

IsOver-IsRobust : IsRobust IsOver
IsOver-IsRobust = record {
  told = λ c out h. (h.0, IsStill-IsRobust.told c out h.1);
  cleared = λ c h. (h.0, IsStill-IsRobust.cleared c h.1);
  stopped = λ c h. (h.0, IsStill-IsRobust.stopped c h.1);
  waits = λ c n m h. (h.0, IsStill-IsRobust.waits c n m h.1);
  initialized = λ c h. (h.0, IsStill-IsRobust.initialized c h.1);
  closed = λ c h. (refl, IsStill-IsRobust.closed c h.1);
}

check_usable-closed :
    {A : Type 0} (c : KafkaConsumer) (body : Result A × KafkaConsumer)
    → IsOver c
    → IsOver (check_usable c body).1
unfolding check_usable
check_usable-closed {A = A} c body h =
    if_cases (λ (x : Result A × KafkaConsumer). IsOver x.1) (not c.is_initialized) h
      (if_taken (λ (x : Result A × KafkaConsumer). IsOver x.1) c.is_closed _ h.0 h)

-- A closed consumer refuses the calls that are not quiet.
step-IsOver : (call : Call) (c : KafkaConsumer) → IsOver c → IsOver (step call c)
unfolding step start subscribe assign
step-IsOver starts c h = check_usable-closed c _ h
step-IsOver (subscribes topics l) c h = check_usable-closed c _ h
step-IsOver (assigns ps) c h = check_usable-closed c _ h
step-IsOver connects c h = step-kept_quiet IsOver-IsRobust connects c tt h
step-IsOver connect_waited c h = step-kept_quiet IsOver-IsRobust connect_waited c tt h
step-IsOver close_waited c h = step-kept_quiet IsOver-IsRobust close_waited c tt h
step-IsOver unsubscribes c h = step-kept_quiet IsOver-IsRobust unsubscribes c tt h
step-IsOver stops c h = step-kept_quiet IsOver-IsRobust stops c tt h
step-IsOver closes c h = step-kept_quiet IsOver-IsRobust closes c tt h
step-IsOver commits c h = step-kept_quiet IsOver-IsRobust commits c tt h
step-IsOver seeks_beginning c h = step-kept_quiet IsOver-IsRobust seeks_beginning c tt h
step-IsOver seeks_end c h = step-kept_quiet IsOver-IsRobust seeks_end c tt h
step-IsOver (polls now draws) c h = step-kept_quiet IsOver-IsRobust (polls now draws) c tt h
step-IsOver (commits_async b) c h = step-kept_quiet IsOver-IsRobust (commits_async b) c tt h
step-IsOver (seeks p) c h = step-kept_quiet IsOver-IsRobust (seeks p) c tt h
step-IsOver (asks_position n p) c h = step-kept_quiet IsOver-IsRobust (asks_position n p) c tt h

steps-IsOver : (calls : List Call) (c : KafkaConsumer) → IsOver c → IsOver (steps calls c)
unfolding steps
steps-IsOver [] c h = h
steps-IsOver (call ∷ calls) c h = steps-IsOver calls (step call c) (step-IsOver call c h)

stop-both :
    (c : KafkaConsumer)
    → c.poll_interval ≡ c.is_running
    → ((stop c).poll_interval ≡ false) × ((stop c).is_running ≡ false)
unfolding stop
stop-both c same =
    if_known (λ (d : KafkaConsumer). (d.poll_interval ≡ false) × (d.is_running ≡ false))
      c.is_running (λ e. (refl, refl)) (λ e. (same ∙ e, e))

unsubscribe-IsStill :
    (c : KafkaConsumer)
    → c.poll_interval ≡ false
    → c.is_running ≡ false
    → IsValid c
    → IsStill (unsubscribe c)
unfolding unsubscribe
unsubscribe-IsStill c p r v =
    if_known IsStill c.is_initialized
      (λ e. record { interval = p; running = r; assigned = refl; subscribed = refl })
      (λ e. elim v.connected [
        | inl u ↦ absurd (cc (e, u))
        | inr i ↦ record { interval = p; running = r; assigned = i.1; subscribed = i.2 }
      ])

close_consumer-IsStill :
    (c : KafkaConsumer) → IsValid c → c.is_closed ≡ false → IsStill (close_consumer c)
unfolding close_consumer
close_consumer-IsStill c v open_yet =
    let (p, q) = stop-both c v.polls in
    let d = unsubscribe (stop c) in
    if_passed IsStill c.is_closed _ open_yet (
      IsStill-IsRobust.waits d d.connecting (c.closing + 1)
        (unsubscribe-IsStill (stop c) p q (stop-IsValid c v)))

-- A consumer that calls lead to from a new one, and that is not closed, is told to close. If neither
-- `start` nor `subscribe` nor `assign` is called before the delay of that call of `close` ends, then
-- from its end on the consumer is closed, does not poll, and has nothing assigned and no subscription,
-- whatever is called afterwards, and whichever delays end.
pub close_consumer-IsOver :
    (c : KafkaConsumer) (before afterwards : List Call)
    → Reachable c
    → c.is_closed ≡ false
    → All IsQuiet before
    → IsOver (steps afterwards (on_closed (steps before (close_consumer c))))
close_consumer-IsOver c before afterwards reached open_yet quiet =
    let still =
      steps-kept_quiet IsStill-IsRobust before (close_consumer c) quiet
        (close_consumer-IsStill c (reachable_consumer-IsValid c reached) open_yet) in
    steps-IsOver afterwards (on_closed (steps before (close_consumer c))) (
      unfold on_closed in
      (
        refl,
        IsStill-IsRobust.told _ _ (
            IsStill-IsRobust.waits _ (steps before (close_consumer c)).connecting
              ((steps before (close_consumer c)).closing - 1) (IsStill-IsRobust.closed _ still)),
      ))
