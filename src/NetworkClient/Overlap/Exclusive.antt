-- ===== src/NetworkClient/Overlap/Exclusive.antt =====
-- src/network/NetworkClient.ts: at most one refresh is under way, whatever overlaps.
use kafka_node_ts.Prelude.{
  ◌≡◌, refl, ◌∙◌, ◌⊎◌, inl, inr, ◌==◌, Bool, true, false, if_cases, if_taken, Option, none, some,
  List,
}
use kafka_node_ts.Prelude.Errors.{Result}
use kafka_node_ts.Buffer.{Bytes}
use kafka_node_ts.Text.{JsString}
use kafka_node_ts.JsMap.{int_key, keys}
use kafka_node_ts.JsMap.Laws.{IsDistinct}
use kafka_node_ts.ClusterMetadata.{is_some}
use kafka_node_ts.NetworkClient.Defs.{Connections, Ref, NetworkClient, new_client}
use kafka_node_ts.NetworkClient.Lifecycle.{stopped}
use kafka_node_ts.NetworkClient.Invariant.{disconnect_links-kept}
use kafka_node_ts.NetworkClient.Overlap.{
  Overlapping, restart_if, refresh_begins, refresh_ends, Event, timer_fires, response_arrives,
  closes, close_goes_on, connect_ends, refreshes, conn_changes, unset_timer, happen, Reachable, new,
  after,
}
use kafka_node_ts.NetworkClient.Overlap.Flags.{
  Holds, IsDistinct-disconnected_links, put_held-Holds, start_timer-Holds, restart_if-Holds,
  refresh_request-Keeps, settling-Keeps,
}

module _ ⦃k : Connections⦄ where
  open k use {Conn}

  -- A refresh waits exactly while the flag is set, a node has one connection at most, and `close` waits
  -- on a closed client only.
  pub record IsExclusive (s : Overlapping) : Type 0 where
    pub flagged : s.client.is_refreshing_metadata ≡ is_some s.waiting
    pub distinct : IsDistinct (keys s.client.connections)
    pub closed : (s.closing ≡ 0) ⊎ (s.client.is_closed ≡ true)

  -- Another client with the same flags.
  IsExclusive-client :
      (s : Overlapping) (c : NetworkClient)
      → IsExclusive s
      → Holds s.client.is_refreshing_metadata s.client.is_closed s.client.auto_refresh_metadata c
      → IsExclusive (record s { client = c })
  IsExclusive-client s c v h = record {
    flagged = h.0 ∙ v.flagged;
    distinct = h.3;
    closed = elim v.closed [ inl e ↦ inl e | inr e ↦ inr (h.1 ∙ e) ];
  }

  refresh_begins-IsExclusive :
      (by_timer : Bool) (topics : Option (List JsString)) (r : Option Ref) (s : Overlapping)
      → IsExclusive s
      → IsExclusive (refresh_begins by_timer topics r s)
  unfolding refresh_begins
  refresh_begins-IsExclusive by_timer topics r s v =
      let marked = record s.client { is_refreshing_metadata = true } in
      let h =
        (refresh_request-Keeps true s.client.is_closed s.client.auto_refresh_metadata topics
            r).keeps
          marked (refl, refl, refl, v.distinct) in
      if_cases IsExclusive s.client.is_refreshing_metadata
        (IsExclusive-client s (restart_if by_timer s.client) v
          (restart_if-Holds _ _ _ by_timer s.client (refl, refl, refl, v.distinct)))
        (record {
          flagged = h.0;
          distinct = h.3;
          closed = elim v.closed [ inl e ↦ inl e | inr e ↦ inr (h.1 ∙ e) ];
        })

  refresh_ends-IsExclusive :
      (w : Option (Bool × Result Bytes)) (s : Overlapping)
      → IsExclusive s
      → IsExclusive (refresh_ends w s)
  unfolding refresh_ends
  refresh_ends-IsExclusive none s v = v
  refresh_ends-IsExclusive (some (by_timer, r)) s v =
      let settled =
        (settling-Keeps s.client.is_refreshing_metadata s.client.is_closed
            s.client.auto_refresh_metadata r).keeps
          s.client (refl, refl, refl, v.distinct) in
      let h =
        restart_if-Holds false s.client.is_closed s.client.auto_refresh_metadata by_timer _
          (refl, settled.1, settled.2, settled.3) in
      record {
        flagged = h.0;
        distinct = h.3;
        closed = elim v.closed [ inl e ↦ inl e | inr e ↦ inr (h.1 ∙ e) ];
      }

  happen-IsExclusive : (e : Event) (s : Overlapping) → IsExclusive s → IsExclusive (happen e s)
  unfolding happen
  happen-IsExclusive timer_fires s v =
      if_cases IsExclusive s.client.metadata_refresh_timer
        (refresh_begins-IsExclusive true none none (unset_timer s)
          (IsExclusive-client s _ v (refl, refl, refl, v.distinct)))
        v
  happen-IsExclusive (refreshes topics r) s v = refresh_begins-IsExclusive false topics r s v
  happen-IsExclusive response_arrives s v = refresh_ends-IsExclusive s.waiting s v
  happen-IsExclusive connect_ends s v =
      IsExclusive-client s _ v (start_timer-Holds _ _ _ s.client (refl, refl, refl, v.distinct))
  happen-IsExclusive closes s v =
      let h =
        disconnect_links-kept
          (Holds s.client.is_refreshing_metadata true s.client.auto_refresh_metadata)
          s.client.connections (stopped s.client) (λ d event p. p)
          (refl, refl, refl, IsDistinct-disconnected_links s.client.connections v.distinct) in
      if_cases IsExclusive s.client.is_closed v
        (record { flagged = h.0 ∙ v.flagged; distinct = h.3; closed = inr h.1 })
  happen-IsExclusive close_goes_on s v = elim v.closed [
    | inl e ↦ if_taken IsExclusive (0 == s.closing) _ (rw e refl) v
    | inr e ↦
        if_cases IsExclusive (0 == s.closing) v
          (record { flagged = v.flagged; distinct = tt; closed = inr e })
  ]
  happen-IsExclusive (conn_changes r d) s v =
      IsExclusive-client s _ v (put_held-Holds _ _ _ r d s.client (refl, refl, refl, v.distinct))

  pub reachable_overlapping-IsExclusive : (s : Overlapping) → Reachable s → IsExclusive s
  unfolding new_client
  reachable_overlapping-IsExclusive _ (new auto m brokers) = record {
    flagged = refl;
    distinct = tt;
    closed = inl refl;
  }
  reachable_overlapping-IsExclusive _ (after e {s = s} r) =
      happen-IsExclusive e s (reachable_overlapping-IsExclusive s r)
