-- ===== src/NetworkClient/Overlap/Restarting.antt =====
-- src/network/NetworkClient.ts: a client that is closed while the timer's refresh waits.
use kafka_node_ts.Prelude.{
  ◌+◌, ◌-◌, ◌≡◌, refl, ap, ◌∙◌, ◌==◌, Bool, true, false, if_cases, if_taken, if_passed, Option,
  some, arith,
}
use kafka_node_ts.Prelude.Errors.{Result}
use kafka_node_ts.Buffer.{Bytes}
use kafka_node_ts.JsMap.{int_key, keys}
use kafka_node_ts.JsMap.Laws.{IsDistinct}
use kafka_node_ts.NetworkClient.Defs.{Connections, NetworkClient}
use kafka_node_ts.NetworkClient.Refresh.{start_metadata_refresh_timer}
use kafka_node_ts.NetworkClient.Lifecycle.{stopped, close_begins, close_ends}
use kafka_node_ts.NetworkClient.Invariant.{disconnect_links-kept}
use kafka_node_ts.NetworkClient.Overlap.{
  Overlapping, refresh_ends, response_arrives, closes, close_goes_on, happen, Reachable,
}
use kafka_node_ts.NetworkClient.Overlap.Flags.{Holds, IsDistinct-disconnected_links, settling-Keeps}
use kafka_node_ts.NetworkClient.Overlap.Exclusive.{reachable_overlapping-IsExclusive}

module _ ⦃k : Connections⦄ where
  -- The timer is set by a client that refreshes by itself.
  started :
      (c : NetworkClient)
      → c.auto_refresh_metadata ≡ true
      → (start_metadata_refresh_timer c).metadata_refresh_timer ≡ true
  unfolding start_metadata_refresh_timer
  started c h =
      if_taken (λ (d : NetworkClient). d.metadata_refresh_timer ≡ true) c.auto_refresh_metadata _ h
        refl

  start-is_closed : (c : NetworkClient) → (start_metadata_refresh_timer c).is_closed ≡ c.is_closed
  unfolding start_metadata_refresh_timer
  start-is_closed c =
      if_cases (λ (d : NetworkClient). d.is_closed ≡ c.is_closed) c.auto_refresh_metadata refl refl

  ended_by_timer :
      (r : Result Bytes) (s : Overlapping)
      → IsDistinct (keys s.client.connections)
      → s.client.auto_refresh_metadata ≡ true
      → ((refresh_ends (some (true, r)) s).client.is_closed ≡ s.client.is_closed)
        × ((refresh_ends (some (true, r)) s).client.metadata_refresh_timer ≡ true)
  unfolding refresh_ends
  ended_by_timer r s distinct auto =
      let settled =
        (settling-Keeps s.client.is_refreshing_metadata s.client.is_closed true r).keeps s.client
          (refl, refl, auto, distinct) in
      (start-is_closed _ ∙ settled.1, started _ settled.2)

  abbrev told_to_close : Overlapping → Overlapping
  told_to_close s = record s { client = close_begins s.client; closing = s.closing + 1 }

  abbrev has_closed : Overlapping → Overlapping
  has_closed s = record s {
    client = close_ends (close_begins s.client);
    closing = s.closing + 1 - 1;
  }

  happen-closes :
      (s : Overlapping)
      → s.client.is_closed ≡ false
      → happen close_goes_on (happen closes s) ≡ has_closed s
  unfolding happen
  happen-closes s open_yet =
      ap (happen close_goes_on)
        (if_passed (λ (d : Overlapping). d ≡ told_to_close s) s.client.is_closed _ open_yet refl)
      ∙ if_passed (λ (d : Overlapping). d ≡ has_closed s) (0 == s.closing + 1) _ (ground arith) refl

  -- A client that refreshes by itself, is not closed, and waits for the response to a refresh which its
  -- timer called, as events lead to it. It is told to close, `close` ends, and then the response
  -- arrives, or the request fails: the client is closed, and its timer is set again.
  pub closes-restarts :
      (r : Result Bytes) (s : Overlapping)
      → Reachable s
      → s.client.is_closed ≡ false
      → s.client.auto_refresh_metadata ≡ true
      → s.waiting ≡ some (true, r)
      → let d = happen response_arrives (happen close_goes_on (happen closes s)) in
        (d.client.is_closed ≡ true) × (d.client.metadata_refresh_timer ≡ true)
  unfolding happen
  closes-restarts r s reached open_yet auto waits =
      let v = reachable_overlapping-IsExclusive s reached in
      let h =
        disconnect_links-kept (Holds s.client.is_refreshing_metadata true true) s.client.connections
          (stopped s.client) (λ d event p. p)
          (refl, refl, auto, IsDistinct-disconnected_links s.client.connections v.distinct) in
      let arrives : happen response_arrives (happen close_goes_on (happen closes s))
          ≡ refresh_ends (some (true, r)) (has_closed s) =
        ap (happen response_arrives) (happen-closes s open_yet)
        ∙ ap (λ (w : Option (Bool × Result Bytes)). refresh_ends w (has_closed s)) waits in
      let (stays, restarts) = ended_by_timer r (has_closed s) tt h.2 in
      (
        ap (λ (d : Overlapping). d.client.is_closed) arrives ∙ stays ∙ h.1,
        ap (λ (d : Overlapping). d.client.metadata_refresh_timer) arrives ∙ restarts,
      )
