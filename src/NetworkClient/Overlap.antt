-- ===== src/NetworkClient/Overlap.antt =====
-- src/network/NetworkClient.ts: refreshes of the metadata and `close`, where other calls come while one
-- of them waits: a refresh for the response to its request, `close` for the connections to end.
pub mod Flags
pub mod Exclusive
pub mod Restarting
use kafka_node_ts.Prelude.{
  ℕ, zero, suc, ◌+◌, ◌-◌, ◌==◌, Bool, true, false, Option, none, some, List, [], ◌∷◌, if◌then◌else◌,
}
use kafka_node_ts.Prelude.Int.{pos}
use kafka_node_ts.Prelude.Errors.{Result}
use kafka_node_ts.Buffer.{Bytes}
use kafka_node_ts.Text.{JsString}
use kafka_node_ts.ClusterMetadata.{ClusterMetadata}
use kafka_node_ts.Network.Requests.{encode_metadata_request}
use kafka_node_ts.Network.Responses.{parse_metadata}
use kafka_node_ts.NetworkClient.Defs.{Connections, ready, Ref, NetworkClient, new_client}
use kafka_node_ts.NetworkClient.Action.{
  Action, of_result, gets, catching, finally, ◌>>=◌, modify, emit, fail, put_held, send_to,
}
use kafka_node_ts.NetworkClient.Refresh.{
  choose_broker, metadata_request, metadata_version, update_cluster, update_broker_connections,
  start_metadata_refresh_timer,
}
use kafka_node_ts.NetworkClient.Lifecycle.{close_begins, close_ends}

module _ ⦃k : Connections⦄ where
  open k use {Conn, Settings}

  -- The `try` block of `refreshMetadata` up to the response, and from there on.
  unfoldable pub refresh_request : Option (List JsString) → Option Ref → Action Bytes
  refresh_request topics specific = do
    broker ← choose_broker specific
    version ← gets metadata_version
    request ← of_result (encode_metadata_request (metadata_request topics))
    send_to broker (pos 3) version request none

  unfoldable pub refresh_response : Bytes → Action Unit
  refresh_response response_buffer = do
    response ← of_result (parse_metadata response_buffer)
    modify (λ c. update_broker_connections response.brokers (update_cluster response c))

  -- A client with the refresh that waits, whether the timer called it, and what its request will get;
  -- and how many calls of `close` wait.
  pub record Overlapping : Type 0 where
    pub client : NetworkClient
    pub waiting : Option (Bool × Result Bytes)
    pub closing : ℕ

  -- `finally` in the callback of the timer.
  abbrev pub restart_if : Bool → NetworkClient → NetworkClient
  restart_if true c = start_metadata_refresh_timer c
  restart_if false c = c

  -- `refreshMetadata`, up to its `await`.
  unfoldable pub refresh_begins :
      (by_timer : Bool) → Option (List JsString) → Option Ref → Overlapping → Overlapping
  refresh_begins by_timer topics specific s =
      let x = refresh_request topics specific (record s.client { is_refreshing_metadata = true }) in
      if s.client.is_refreshing_metadata
      then record s { client = restart_if by_timer s.client }
      else record s { client = x.1; waiting = some (by_timer, x.0) }

  -- What follows the response, the `catch` and `finally` blocks included.
  unfoldable pub refresh_ends : Option (Bool × Result Bytes) → Overlapping → Overlapping
  refresh_ends none s = s
  refresh_ends (some (by_timer, r)) s =
      let x =
        finally (catching (of_result r >>= refresh_response) fail)
          (λ c. record c { is_refreshing_metadata = false }) s.client in
      record s { client = restart_if by_timer x.1; waiting = none }

  pub data Event : Type 0 where
    timer_fires response_arrives closes close_goes_on connect_ends : Event
    refreshes : Option (List JsString) → Option Ref → Event
    conn_changes : Ref → Conn → Event

  -- A timer that has fired is not set any longer.
  abbrev pub unset_timer : Overlapping → Overlapping
  unset_timer s = record s { client = record s.client { metadata_refresh_timer = false } }

  -- The last part of `connect`.
  abbrev pub connect_tail : NetworkClient → NetworkClient
  connect_tail c = emit ready (record (start_metadata_refresh_timer c) { is_initialized = true })

  unfoldable pub happen : Event → Overlapping → Overlapping
  happen timer_fires s =
      if s.client.metadata_refresh_timer then refresh_begins true none none (unset_timer s) else s
  happen (refreshes topics specific) s = refresh_begins false topics specific s
  happen response_arrives s = refresh_ends s.waiting s
  happen connect_ends s = record s { client = connect_tail s.client }
  happen closes s =
      if s.client.is_closed
      then s
      else record s { client = close_begins s.client; closing = s.closing + 1 }
  happen close_goes_on s =
      if 0 == s.closing
      then s
      else record s { client = close_ends s.client; closing = s.closing - 1 }
  happen (conn_changes r d) s = record s { client = put_held r d s.client }

  abbrev pub new_overlapping : Bool → ClusterMetadata → List Settings → Overlapping
  new_overlapping auto_refresh m brokers = record {
    client = new_client auto_refresh m brokers;
    waiting = none;
    closing = 0;
  }

  -- What events lead to from a new client.
  pub data Reachable : Overlapping → Type 0 where
    new :
        (auto_refresh : Bool) (m : ClusterMetadata) (brokers : List Settings)
        → Reachable (new_overlapping auto_refresh m brokers)
    after : (e : Event) {s : Overlapping} → Reachable s → Reachable (happen e s)
