-- ===== src/NetworkClient/Keeping/Refresh.antt =====
-- src/network/NetworkClient.ts: the steps of `refreshMetadata` keep what does not depend on what
-- they change.
use kafka_node_ts.Prelude.{ℕ, ◌≡◌, refl, Option, none, some, List, [], ◌∷◌}
use kafka_node_ts.Prelude.Int.{ℤ}
use kafka_node_ts.Prelude.Errors.{Result, ok, err}
use kafka_node_ts.Buffer.{Bytes}
use kafka_node_ts.Text.{JsString}
use kafka_node_ts.JsMap.{JsMap, int_key}
use kafka_node_ts.ClusterMetadata.{ClusterMetadata, update_metadata}
use kafka_node_ts.Network.Responses.{MetadataResponse}
use kafka_node_ts.NetworkClient.Defs.{Connections, ClientEvent, Ref, seed, Link, NetworkClient}
use kafka_node_ts.NetworkClient.Action.{pure, continue_with, held, put_held, send_on, send_to}
use kafka_node_ts.NetworkClient.Refresh.{
  connect_first, first_of, choose_broker, announce, update_cluster,
}
use kafka_node_ts.NetworkClient.Keeping.{Keeps}

module _ ⦃k : Connections⦄ (P : NetworkClient → Type 0) where
  open k use {Conn}

  module _
      (seeds : (c : NetworkClient) (ss : List Conn)
        → P c
        → P (record c { seed_brokers = ss })) where
    connect_first-kept : (ss : List Conn) (c : NetworkClient) → P c → P (connect_first ss c).1
    connect_first-kept [] c h = h
    connect_first-kept (s ∷ ss) c h = tried (k.connect s).0
      where
        tried :
            (r : Result {0} Unit)
            → P
                (continue_with r
                  (record c { seed_brokers = (k.connect s).1 ∷ ss })
                  (λ u. pure (seed 0))).1
        tried (ok u) = seeds c _ h
        tried (err e) = seeds c _ h

    first_of-kept : (m : JsMap ℤ Link) (c : NetworkClient) → P c → P (first_of m c).1
    first_of-kept [] c h = connect_first-kept c.seed_brokers c h
    first_of-kept ((n, l) ∷ m) c h = h

    pub choose_broker-Keeps : (r : Option Ref) → Keeps P (choose_broker r)
    unfolding choose_broker
    choose_broker-Keeps none = record { keeps = λ c h. first_of-kept c.connections c h }
    choose_broker-Keeps (some r) = record { keeps = λ c h. h }

  pub update_cluster-kept :
      (m : MetadataResponse) (c : NetworkClient)
      → ((d : ClusterMetadata) (es : List ClientEvent)
          → P (record c { cluster_metadata = d; emitted = es }))
      → P (update_cluster m c)
  unfolding update_cluster
  update_cluster-kept m c h =
      announced (update_metadata m.brokers m.topics m.cluster_id m.controller_id c.cluster_metadata)
    where
      announced :
          (u : ClusterMetadata × Option (List JsString))
          → P (announce u.1 (record c { cluster_metadata = u.0 }))
      announced (d, none) = h d _
      announced (d, some ts) = h d _

  module _ (api_key api_version : ℤ) (request_data : Bytes) (timeout : Option ℕ) where
    -- What `send` leaves of the connection that it was called on.
    pub send_on-kept :
        (o : Option Conn) (r : Ref) (c : NetworkClient)
        → P c
        → ((d : Conn)
            → o ≡ some d
            → P (put_held r (k.send api_key api_version request_data timeout d).1 c))
        → P (send_on o r api_key api_version request_data timeout c).1
    send_on-kept none r c p q = p
    send_on-kept (some d) r c p q = q d refl

    pub send_to-Keeps :
        (r : Ref)
        → ((d : Conn) (c : NetworkClient) → P c → P (put_held r d c))
        → Keeps P (send_to r api_key api_version request_data timeout)
    unfolding send_to
    send_to-Keeps r h = record { keeps = λ c p. send_on-kept (held r c) r c p (λ d e. h _ c p) }
