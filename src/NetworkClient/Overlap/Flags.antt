-- ===== src/NetworkClient/Overlap/Flags.antt =====
-- src/network/NetworkClient.ts: what the parts of a refresh keep of the client, the flags among it.
use kafka_node_ts.Prelude.{
  ◌≡◌, refl, ap, sym, Bool, true, false, if_cases, Option, none, some, List, [], ◌∷◌, if◌then◌else◌,
}
use mathlib.Core.Path.{subst}
use kafka_node_ts.Prelude.Int.{ℤ, pos}
use kafka_node_ts.Prelude.Errors.{Result}
use kafka_node_ts.Buffer.{Bytes}
use kafka_node_ts.Text.{JsString}
use kafka_node_ts.JsMap.{JsMap, int_key, get, keys}
use kafka_node_ts.JsMap.Laws.{IsDistinct, set-IsDistinct}
use kafka_node_ts.ClusterMetadata.Changes.{Broker}
use kafka_node_ts.Network.Requests.{encode_metadata_request}
use kafka_node_ts.Network.Responses.{parse_metadata}
use kafka_node_ts.NetworkClient.Defs.{Connections, Ref, seed, node, Link, NetworkClient}
use kafka_node_ts.NetworkClient.Action.{of_result, catching, ◌>>=◌, fail, put_link, put_held}
use kafka_node_ts.NetworkClient.Refresh.{
  metadata_request, update_cluster, connect_broker, connect_brokers, has_id, close_link,
  close_absent, update_broker_connections, start_metadata_refresh_timer,
}
use kafka_node_ts.NetworkClient.Nodes.{
  IsDistinct-connect_brokers, IsDistinct-close_absent, connect_broker_cases, close_link_cases,
}
use kafka_node_ts.NetworkClient.Keeping.{
  Keeps, >>=-Keeps, catching-Keeps, of_result-Keeps, fail-Keeps,
}
use kafka_node_ts.NetworkClient.Keeping.Refresh.{
  choose_broker-Keeps, update_cluster-kept, send_to-Keeps,
}
use kafka_node_ts.NetworkClient.Lifecycle.{disconnected_links}
use kafka_node_ts.NetworkClient.Overlap.{refresh_request, refresh_response, restart_if}

module _ ⦃k : Connections⦄ where
  open k use {Conn}

  keys-disconnected_links : (m : JsMap ℤ Link) → keys (disconnected_links m) ≡ keys m
  unfolding disconnected_links
  keys-disconnected_links [] = refl
  keys-disconnected_links ((n, l) ∷ m) = ap (◌∷◌ n) (keys-disconnected_links m)

  pub IsDistinct-disconnected_links :
      (m : JsMap ℤ Link) → IsDistinct (keys m) → IsDistinct (keys (disconnected_links m))
  IsDistinct-disconnected_links m h = subst IsDistinct (sym (keys-disconnected_links m)) h

  module _ (flag closed auto : Bool) where
    -- The flags, and no node with two connections.
    abbrev pub Holds : NetworkClient → Type 0
    Holds c =
        (c.is_refreshing_metadata ≡ flag)
        × (c.is_closed ≡ closed)
        × (c.auto_refresh_metadata ≡ auto)
        × IsDistinct (keys c.connections)

    put_link-Holds :
        (n : ℤ) (d : Conn) (l : Option Link) (c : NetworkClient)
        → Holds c
        → Holds (put_link n d l c)
    put_link-Holds n d none c h = h
    put_link-Holds n d (some l) c h =
        (h.0, h.1, h.2, set-IsDistinct n (record l { conn = d }) c.connections h.3)

    pub put_held-Holds : (r : Ref) (d : Conn) (c : NetworkClient) → Holds c → Holds (put_held r d c)
    put_held-Holds (seed i) d c h = h
    put_held-Holds (node n) d c h = put_link-Holds n d (get n c.connections) c h

    pub start_timer-Holds : (c : NetworkClient) → Holds c → Holds (start_metadata_refresh_timer c)
    unfolding start_metadata_refresh_timer
    start_timer-Holds c h = if_cases Holds c.auto_refresh_metadata h h

    pub restart_if-Holds : (b : Bool) (c : NetworkClient) → Holds c → Holds (restart_if b c)
    restart_if-Holds true c h = start_timer-Holds c h
    restart_if-Holds false c h = h

    abbrev Flags : NetworkClient → Type 0
    Flags c =
        (c.is_refreshing_metadata ≡ flag)
        × (c.is_closed ≡ closed)
        × (c.auto_refresh_metadata ≡ auto)

    connect_brokers-Flags :
        (bs : List Broker) (c : NetworkClient) → Flags c → Flags (connect_brokers bs c)
    unfolding connect_brokers
    connect_brokers-Flags [] c h = h
    connect_brokers-Flags (b ∷ bs) c h =
        connect_brokers-Flags bs (connect_broker b c) (connect_broker_cases Flags b c h (λ d. h))

    close_absent-Flags :
        (bs : List Broker) (es : JsMap ℤ Link) (c : NetworkClient)
        → Flags c
        → Flags (close_absent bs es c)
    unfolding close_absent
    close_absent-Flags bs [] c h = h
    close_absent-Flags bs ((n, l) ∷ es) c h =
        close_absent-Flags bs es (if has_id n bs then c else close_link n l c)
          (if_cases Flags (has_id n bs) h (close_link_cases Flags n l c (λ es. h)))

    update_broker_connections-Holds :
        (bs : List Broker) (c : NetworkClient) → Holds c → Holds (update_broker_connections bs c)
    unfolding update_broker_connections
    update_broker_connections-Holds bs c h =
        let f = close_absent-Flags bs _ _ (connect_brokers-Flags bs c (h.0, h.1, h.2)) in
        (f.0, f.1, f.2, IsDistinct-close_absent bs _ _ (IsDistinct-connect_brokers bs c h.3))

    pub refresh_request-Keeps :
        (topics : Option (List JsString)) (r : Option Ref) → Keeps Holds (refresh_request topics r)
    unfolding refresh_request
    refresh_request-Keeps topics r = >>=-Keeps _ (choose_broker-Keeps Holds (λ c ss h. h) r) (λ b.
        >>=-Keeps _ (record { keeps = λ c h. h })
          (λ v.
            >>=-Keeps _ (of_result-Keeps (encode_metadata_request (metadata_request topics)))
              (λ q. send_to-Keeps Holds (pos 3) v q none b (put_held-Holds b))))

    refresh_response-Keeps : (b : Bytes) → Keeps Holds (refresh_response b)
    unfolding refresh_response
    refresh_response-Keeps b = >>=-Keeps _ (of_result-Keeps (parse_metadata b)) (λ m. record {
      keeps = λ c h.
          update_broker_connections-Holds m.brokers (update_cluster m c)
            (update_cluster-kept Holds m c (λ d es. h));
    })

    pub settling-Keeps :
        (r : Result Bytes) → Keeps Holds (catching (of_result r >>= refresh_response) fail)
    settling-Keeps r =
        catching-Keeps (of_result r >>= refresh_response) fail
          (>>=-Keeps refresh_response (of_result-Keeps r) refresh_response-Keeps)
          (λ e. fail-Keeps e (λ c es h. h))
