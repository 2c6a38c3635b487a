-- ===== src/NetworkClient/Requests.antt =====
-- src/network/NetworkClient.ts: requests to a node and to the leader of a partition, and the
-- versions.
use kafka_node_ts.Prelude.{
  ℕ, zero, suc, Bool, true, false, ◌&&◌, Option, none, some, [], ◌∷◌, if◌then◌else◌,
}
use kafka_node_ts.Prelude.Int.{ℤ, pos, leb_ℤ}
use kafka_node_ts.Prelude.Errors.{Error, Result, ok, err, plain_error, disconnected}
use kafka_node_ts.Buffer.{Bytes}
use kafka_node_ts.Text.{JsString}
use kafka_node_ts.JsMap.{int_key, get}
use kafka_node_ts.ClusterMetadata.{find_leader}
use kafka_node_ts.Network.Responses.{ApiVersionRange}
use kafka_node_ts.NetworkClient.Defs.{Connections, node, NetworkClient}
use kafka_node_ts.NetworkClient.Action.{Action, catching, ◌>>=◌, send_to, is_connected_to}
use kafka_node_ts.NetworkClient.Refresh.{refresh_metadata}

-- `error instanceof DisconnectedError`
abbrev pub is_disconnected_error : Error → Bool
is_disconnected_error disconnected = true
is_disconnected_error _ = false

module _ ⦃k : Connections⦄ where
  -- A request: what `sendRequest` is given besides the node.
  module _ (api_key api_version : ℤ) (request_data : Bytes) (timeout : Option ℕ) where
    -- After the refresh that follows a lost connection: once more, or the error that was caught.
    abbrev pub send_again : ℤ → Error → Action Bytes
    send_again node_id e c =
        if is_connected_to node_id c
        then send_to (node node_id) api_key api_version request_data timeout c
        else (err e, c)

    abbrev pub handle_failure : ℤ → Error → Action Bytes
    handle_failure node_id e c =
        let again = (do u ← refresh_metadata none none; send_again node_id e) c in
        if is_disconnected_error e && c.auto_refresh_metadata then again else (err e, c)

    -- `sendRequest` from `// Send the request` on.
    unfoldable pub send_connected : ℤ → Action Bytes
    send_connected node_id =
        catching (send_to (node node_id) api_key api_version request_data timeout)
          (handle_failure node_id)

    abbrev pub after_refresh :
        Result {0} Unit × NetworkClient
        → (NetworkClient → Option (Result Bytes × NetworkClient))
        → Option (Result Bytes × NetworkClient)
    after_refresh (ok u, c) next = next c
    after_refresh (err e, c) next = some (err e, c)

    -- `sendRequest` on at most so many calls of itself.
    unfoldable pub request_rounds : ℕ → ℤ → NetworkClient → Option (Result Bytes × NetworkClient)
    request_rounds zero node_id c = none
    request_rounds (suc rounds) node_id c =
        let sent = send_connected node_id c in
        let refreshed = after_refresh (refresh_metadata none none c) (λ c.
          let next = request_rounds rounds node_id c in
          if is_connected_to node_id c then next else some (err disconnected, c)) in
        if is_connected_to node_id c
        then some sent
        else if c.auto_refresh_metadata
        then refreshed
        else some (err disconnected, c)

    abbrev pub or_out_of_rounds :
        Option (Result Bytes × NetworkClient) → NetworkClient → Result Bytes × NetworkClient
    or_out_of_rounds none c = (err plain_error, c)
    or_out_of_rounds (some r) c = r

    -- `sendRequest`: the call that follows a refresh finds the connection, so two are enough.
    unfoldable pub send_request : ℤ → Action Bytes
    send_request node_id c = or_out_of_rounds (request_rounds 2 node_id c) c

    abbrev pub find_leader_for_partition : JsString → ℤ → Action ℤ
    find_leader_for_partition topic partition c =
        (find_leader topic partition c.cluster_metadata, c)

    abbrev pub send_to_leader : JsString → ℤ → Action Bytes
    send_to_leader topic partition = do
      leader_id ← find_leader_for_partition topic partition
      send_request leader_id

    abbrev pub retry_leader : JsString → ℤ → Error → Action Bytes
    retry_leader topic partition e c =
        let again =
          (do u ← refresh_metadata (some (topic ∷ [])) none; send_to_leader topic partition) c in
        if c.auto_refresh_metadata then again else (err e, c)

    -- `sendToPartitionLeader`
    unfoldable pub send_to_partition_leader : JsString → ℤ → Action Bytes
    send_to_partition_leader topic partition =
        catching (send_to_leader topic partition) (retry_leader topic partition)

  abbrev pub range_or_zero : Option ApiVersionRange → ℤ × ℤ
  range_or_zero none = (pos 0, pos 0)
  range_or_zero (some range) = (range.min_version, range.max_version)

  unfoldable pub get_api_version : ℤ → NetworkClient → ℤ × ℤ
  get_api_version api_key c = range_or_zero (get api_key c.api_versions)

  abbrev pub is_in_range : Option ApiVersionRange → ℤ → Bool
  is_in_range none version = false
  is_in_range (some range) version =
      leb_ℤ range.min_version version && leb_ℤ version range.max_version

  unfoldable pub supports_api_version : ℤ → ℤ → NetworkClient → Bool
  supports_api_version api_key version c = is_in_range (get api_key c.api_versions) version
