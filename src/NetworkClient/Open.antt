-- ===== src/NetworkClient/Open.antt =====
-- src/network/NetworkClient.ts: the methods of a client that is not closed keep it open, with one
-- connection for a node at most, and leave no refresh behind.
use kafka_node_ts.Prelude.{
  ℕ, ◌≡◌, refl, ◌∙◌, true, false, if_cases, Option, none, some, List, [], ◌∷◌, if◌then◌else◌,
}
use kafka_node_ts.Prelude.Int.{ℤ, pos}
use kafka_node_ts.Prelude.Errors.{Result}
use kafka_node_ts.Buffer.{Bytes}
use kafka_node_ts.Text.{JsString}
use kafka_node_ts.JsMap.{JsMap, int_key, get, keys}
use kafka_node_ts.JsMap.Laws.{IsDistinct, set-IsDistinct}
use kafka_node_ts.ClusterMetadata.Changes.{Broker}
use kafka_node_ts.Network.Requests.{encode_metadata_request}
use kafka_node_ts.Network.Responses.{MetadataResponse, parse_metadata}
use kafka_node_ts.NetworkClient.Defs.{Connections, Ref, seed, node, Link, NetworkClient}
use kafka_node_ts.NetworkClient.Action.{fail, put_link, put_held, send_to}
use kafka_node_ts.NetworkClient.Refresh.{
  choose_broker, metadata_request, update_cluster, connect_broker, connect_brokers, has_id,
  close_link, close_absent, update_broker_connections, refresh_body, refresh_metadata,
}
use kafka_node_ts.NetworkClient.Nodes.{IsDistinct-connect_brokers, IsDistinct-close_absent}
use kafka_node_ts.NetworkClient.Nodes.{connect_broker_cases, close_link_cases}
use kafka_node_ts.NetworkClient.Keeping.{
  Keeps, >>=-Keeps, catching-Keeps, of_result-Keeps, fail-Keeps,
}
use kafka_node_ts.NetworkClient.Keeping.Refresh.{
  choose_broker-Keeps, update_cluster-kept, send_to-Keeps,
}

module _ ⦃k : Connections⦄ where
  open k use {Conn}

  -- A client that was not closed, no node of which has two connections.
  abbrev pub IsOpen : NetworkClient → Type 0
  IsOpen c = (c.is_closed ≡ false) × IsDistinct (keys c.connections)

  -- One that does not refresh its metadata, besides.
  abbrev pub IsCalm : NetworkClient → Type 0
  IsCalm c = (c.is_refreshing_metadata ≡ false) × IsOpen c

  put_link-IsOpen :
      (n : ℤ) (d : Conn) (l : Option Link) (c : NetworkClient)
      → IsOpen c
      → IsOpen (put_link n d l c)
  put_link-IsOpen n d none c h = h
  put_link-IsOpen n d (some l) c h =
      (h.0, set-IsDistinct n (record l { conn = d }) c.connections h.1)

  flag-put_link :
      (n : ℤ) (d : Conn) (l : Option Link) (c : NetworkClient)
      → (put_link n d l c).is_refreshing_metadata ≡ c.is_refreshing_metadata
  flag-put_link n d none c = refl
  flag-put_link n d (some l) c = refl

  put_held-IsOpen : (r : Ref) (d : Conn) (c : NetworkClient) → IsOpen c → IsOpen (put_held r d c)
  put_held-IsOpen (seed i) d c h = h
  put_held-IsOpen (node n) d c h = put_link-IsOpen n d (get n c.connections) c h

  flag-put_held :
      (r : Ref) (d : Conn) (c : NetworkClient)
      → (put_held r d c).is_refreshing_metadata ≡ c.is_refreshing_metadata
  flag-put_held (seed i) d c = refl
  flag-put_held (node n) d c = flag-put_link n d (get n c.connections) c

  pub put_held-IsCalm :
      (r : Ref) (d : Conn) (c : NetworkClient) → IsCalm c → IsCalm (put_held r d c)
  put_held-IsCalm r d c h = (flag-put_held r d c ∙ h.0, put_held-IsOpen r d c h.1)

  module _ (api_key api_version : ℤ) (request_data : Bytes) (timeout : Option ℕ) where
    pub send_to-IsOpen :
        (r : Ref) → Keeps IsOpen (send_to r api_key api_version request_data timeout)
    send_to-IsOpen r =
        send_to-Keeps IsOpen api_key api_version request_data timeout r (put_held-IsOpen r)

    pub send_to-IsCalm :
        (r : Ref) → Keeps IsCalm (send_to r api_key api_version request_data timeout)
    send_to-IsCalm r =
        send_to-Keeps IsCalm api_key api_version request_data timeout r (put_held-IsCalm r)

  choose_broker-IsOpen : (r : Option Ref) → Keeps IsOpen (choose_broker r)
  choose_broker-IsOpen r = choose_broker-Keeps IsOpen (λ c ss h. h) r

  update_cluster-IsOpen :
      (m : MetadataResponse) (c : NetworkClient) → IsOpen c → IsOpen (update_cluster m c)
  update_cluster-IsOpen m c h = update_cluster-kept IsOpen m c (λ d es. h)

  connect_brokers-is_closed :
      (bs : List Broker) (c : NetworkClient)
      → c.is_closed ≡ false
      → (connect_brokers bs c).is_closed ≡ false
  unfolding connect_brokers
  connect_brokers-is_closed [] c h = h
  connect_brokers-is_closed (b ∷ bs) c h =
      connect_brokers-is_closed bs (connect_broker b c)
        (connect_broker_cases (λ d. d.is_closed ≡ false) b c h (λ d. h))

  close_absent-is_closed :
      (bs : List Broker) (es : JsMap ℤ Link) (c : NetworkClient)
      → c.is_closed ≡ false
      → (close_absent bs es c).is_closed ≡ false
  unfolding close_absent
  close_absent-is_closed bs [] c h = h
  close_absent-is_closed bs ((n, l) ∷ es) c h =
      close_absent-is_closed bs es (if has_id n bs then c else close_link n l c) (
        if_cases (λ (d : NetworkClient). d.is_closed ≡ false) (has_id n bs) h
          (close_link_cases (λ d. d.is_closed ≡ false) n l c (λ es. h)))

  update_broker_connections-IsOpen :
      (bs : List Broker) (c : NetworkClient) → IsOpen c → IsOpen (update_broker_connections bs c)
  unfolding update_broker_connections
  update_broker_connections-IsOpen bs c h = (
    close_absent-is_closed bs _ _ (connect_brokers-is_closed bs c h.0),
    IsDistinct-close_absent bs _ _ (IsDistinct-connect_brokers bs c h.1),
  )

  pub refresh_body-IsOpen :
      (topics : Option (List JsString)) (r : Option Ref) → Keeps IsOpen (refresh_body topics r)
  unfolding refresh_body
  refresh_body-IsOpen topics r = >>=-Keeps _ (choose_broker-IsOpen r) (λ b.
      >>=-Keeps _ (record { keeps = λ c h. h })
        (λ v.
          >>=-Keeps _ (of_result-Keeps (encode_metadata_request (metadata_request topics))) (λ q.
            >>=-Keeps _ (send_to-IsOpen (pos 3) v q none b) (λ a.
              >>=-Keeps _ (of_result-Keeps (parse_metadata a)) (λ m. record {
                keeps = λ c h.
                    update_broker_connections-IsOpen m.brokers (update_cluster m c)
                      (update_cluster-IsOpen m c h);
              })))))

  pub refresh_metadata-IsCalm :
      (topics : Option (List JsString)) (r : Option Ref) → Keeps IsCalm (refresh_metadata topics r)
  unfolding refresh_metadata
  refresh_metadata-IsCalm topics r = record {
    keeps = λ c h.
        if_cases (λ (x : Result {0} Unit × NetworkClient). IsCalm x.1) c.is_refreshing_metadata h
          (
            refl,
            (catching-Keeps (refresh_body topics r) fail (refresh_body-IsOpen topics r)
                  (λ e. fail-Keeps e (λ c es h. h))).keeps
                (record c { is_refreshing_metadata = true }) h.1,
          );
  }
