-- ===== src/Tests/Client.antt =====
-- src/network/NetworkClient.ts: a client of brokers whose sockets follow a script.
use kafka_node_ts.Prelude.{◌≡◌, refl, true, none, some, [], ◌∷◌, suc, if◌then◌else◌}
use kafka_node_ts.Prelude.Int.{pos}
use kafka_node_ts.JsMap.{get, int_key}
use kafka_node_ts.ClusterMetadata.{new_metadata}
use kafka_node_ts.ClusterMetadata.Changes.{Broker}
use kafka_node_ts.BrokerConnection.{new_connection}
use kafka_node_ts.BrokerConnection.Socket.{is_connected}
use kafka_node_ts.NetworkClient.Defs.{Connections, NetworkClient, new_client}
use kafka_node_ts.NetworkClient.Refresh.{has_id, update_broker_connections}
use kafka_node_ts.NetworkClient.Requests.{request_rounds, send_request}
use kafka_node_ts.NetworkClient.Nodes.{kept_or_opened, get-update_broker_connections}
use kafka_node_ts.NetworkClient.Rounds.{request_rounds-send_request}
use kafka_node_ts.NetworkClient.Invariant.{connects, timer_fires}
use kafka_node_ts.NetworkClient.Open.{IsCalm}
use kafka_node_ts.NetworkClient.Lifecycle.{close_client}
use kafka_node_ts.NetworkClient.Closing.{steps, send_request-closed}
use kafka_node_ts.NetworkClient.Down.{Throws, IsDown, send_request-down}
use kafka_node_ts.NetworkClient.Brokers.{opens, ends, Scripted, broker_connections}

-- Every socket opens once, and then ends.
instance abbrev pub scripted : Connections
scripted = broker_connections (λ host port. opens ∷ ends ∷ [])

abbrev broker_1 : Broker
broker_1 = record { node_id = pos 1; host = []; port = pos 9092; rack = none }

abbrev fresh : NetworkClient
fresh = new_client true new_metadata []

get-update_broker_connections_example :
    get (pos 1) (update_broker_connections (broker_1 ∷ []) fresh).connections ≡ (
      if has_id (pos 1) (broker_1 ∷ []) then kept_or_opened (pos 1) (broker_1 ∷ []) fresh else none)
unfolding new_client
get-update_broker_connections_example =
    get-update_broker_connections (pos 1) (broker_1 ∷ []) fresh tt

request_rounds-send_request_example :
    request_rounds (pos 3) (pos 0) [] none (suc (suc 3)) (pos 1) fresh
    ≡ some (send_request (pos 3) (pos 0) [] none (pos 1) fresh)
request_rounds-send_request_example =
    request_rounds-send_request (pos 3) (pos 0) [] none (pos 1) 3 fresh

-- A connection that was never made, or was lost.
abbrev lost : Scripted
lost = record {
  conn = new_connection (record {
    client_id = [];
    connection_timeout = none;
    socket_timeout = none;
    max_request_size = none;
    request_timeout = none;
  });
  script = opens ∷ [];
}

abbrev half : NetworkClient
half = record fresh {
  connections = (pos 1, record { conn = lost; host = []; port = pos 9092 }) ∷ [];
}

half-IsDown : IsDown (pos 1) half
unfolding get is_connected new_connection
half-IsDown = ((tt, tt), record { conn = lost; host = []; port = pos 9092 }, refl, refl)

send_request-down_example : Throws (send_request (pos 3) (pos 0) [] none (pos 1) half).0
send_request-down_example = send_request-down (pos 1) (pos 3) (pos 0) [] none half half-IsDown

-- A client with a connection to the node 1.
abbrev connected_to_1 : NetworkClient
connected_to_1 = record half {
  seed_brokers = lost ∷ [];
  metadata_refresh_timer = true;
  is_initialized = true;
}

connected_to_1-IsCalm : IsCalm connected_to_1
unfolding new_client
connected_to_1-IsCalm = (refl, (refl, (tt, tt)))

send_request-closed_example :
    Throws
      (send_request
        (pos 3)
        (pos 0)
        []
        none
        (pos 1)
        (steps (connects ∷ timer_fires ∷ []) (close_client connected_to_1))).0
send_request-closed_example =
    send_request-closed (pos 1) (pos 3) (pos 0) [] none (connects ∷ timer_fires ∷ []) connected_to_1
      connected_to_1-IsCalm
