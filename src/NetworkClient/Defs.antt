-- ===== src/NetworkClient/Defs.antt =====
-- src/network/NetworkClient.ts: the state of the client, its events, and its methods as actions. A
-- method runs to its end before the next one starts: what it awaits is answered in between.
use kafka_node_ts.Prelude.{ℕ, ◌≡◌, Bool, false, Option, List, [], map}
use kafka_node_ts.Prelude.Int.{ℤ}
use kafka_node_ts.Prelude.Errors.{Error, Result, err, disconnected}
use kafka_node_ts.Buffer.{Bytes}
use kafka_node_ts.Text.{JsString}
use kafka_node_ts.JsMap.{JsMap, int_key}
use kafka_node_ts.ClusterMetadata.{ClusterMetadata}
use kafka_node_ts.Network.Responses.{ApiVersionRange}

-- What the client uses of `BrokerConnection`. An awaited call ends with its result and the
-- connection as it is then.
pub record Connections : Type 1 where
  pub Conn : Type 0
  -- What `new BrokerConnection(...)` is given.
  pub Settings : Type 0
  pub new_conn : Settings → Conn
  -- The settings for the host and the port of a node: the client's own, and the TLS settings of the
  -- first seed broker, if there is one.
  pub node_settings : Option Conn → JsString → ℤ → Settings
  pub connect : Conn → Result {0} Unit × Conn
  pub disconnect : Conn → Conn
  -- Whether `disconnect` has something to close, and emits its event.
  pub is_open : Conn → Bool
  pub is_connected : Conn → Bool
  pub set_node_id : ℤ → Conn → Conn
  pub send : (api_key api_version : ℤ) → Bytes → Option ℕ → Conn → Result Bytes × Conn
  -- `send` begins with `if (!this.isConnected()) throw new DisconnectedError(...)`.
  pub send_refuses :
      (api_key api_version : ℤ) (request_data : Bytes) (timeout : Option ℕ) (c : Conn)
      → is_connected c ≡ false
      → send api_key api_version request_data timeout c ≡ (err disconnected, c)
  pub disconnect_closes : (c : Conn) → is_connected (disconnect c) ≡ false

pub data ClientEvent : Type 0 where
  ready close : ClientEvent
  error : Error → ClientEvent
  broker_connect broker_disconnect : (node_id : ℤ) (host : JsString) (port : ℤ) → ClientEvent
  metadata_update : List JsString → ClientEvent

-- A connection that the client holds: one of the seed brokers, or that to a node.
pub data Ref : Type 0 where
  seed : ℕ → Ref
  node : ℤ → Ref

module _ ⦃k : Connections⦄ where
  open k use {Conn, Settings, new_conn}

  -- A connection to a node, with what its `disconnect` listener was given.
  pub record Link : Type 0 where
    pub conn : Conn
    pub host : JsString
    pub port : ℤ

  pub record NetworkClient : Type 0 where
    pub auto_refresh_metadata : Bool
    pub cluster_metadata : ClusterMetadata
    pub connections : JsMap ℤ Link
    pub seed_brokers : List Conn
    pub is_initialized : Bool
    pub is_closed : Bool
    pub is_refreshing_metadata : Bool
    -- Whether `metadataRefreshTimer` is set.
    pub metadata_refresh_timer : Bool
    pub api_versions : JsMap ℤ ApiVersionRange
    -- The events emitted so far, the oldest first.
    pub emitted : List ClientEvent

  -- The constructor: the seed brokers are created, and nothing is connected.
  unfoldable pub new_client : Bool → ClusterMetadata → List Settings → NetworkClient
  new_client auto_refresh_metadata cluster_metadata broker_configs = record {
    auto_refresh_metadata = auto_refresh_metadata;
    cluster_metadata = cluster_metadata;
    connections = [];
    seed_brokers = map new_conn broker_configs;
    is_initialized = false;
    is_closed = false;
    is_refreshing_metadata = false;
    metadata_refresh_timer = false;
    api_versions = [];
    emitted = [];
  }
