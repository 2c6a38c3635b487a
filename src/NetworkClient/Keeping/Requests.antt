-- ===== src/NetworkClient/Keeping/Requests.antt =====
-- src/network/NetworkClient.ts: what sending and refreshing keep, every request keeps.
use kafka_node_ts.Prelude.{ℕ, zero, suc, ◌&&◌, if_cases, Option, none, some, List, [], ◌∷◌}
use kafka_node_ts.Prelude.Int.{ℤ}
use kafka_node_ts.Prelude.Errors.{Error, Result, ok, err}
use kafka_node_ts.Buffer.{Bytes}
use kafka_node_ts.Text.{JsString}
use kafka_node_ts.NetworkClient.Defs.{Connections, Ref, node, NetworkClient}
use kafka_node_ts.NetworkClient.Action.{send_to, is_connected_to}
use kafka_node_ts.NetworkClient.Refresh.{refresh_metadata}
use kafka_node_ts.NetworkClient.Requests.{
  send_again, handle_failure, send_connected, after_refresh, request_rounds, or_out_of_rounds,
  send_request, find_leader_for_partition, send_to_leader, retry_leader, send_to_partition_leader,
  is_disconnected_error,
}
use kafka_node_ts.NetworkClient.Keeping.{Keeps, >>=-Keeps, catching-Keeps}

module _ ⦃k : Connections⦄ (P : NetworkClient → Type 0) (api_key api_version : ℤ)
    (request_data : Bytes) (timeout : Option ℕ)
    (refreshing : (topics : Option (List JsString)) (r : Option Ref)
      → Keeps P (refresh_metadata topics r))
    (sending : (r : Ref) → Keeps P (send_to r api_key api_version request_data timeout)) where
  send_again-Keeps :
      (n : ℤ) (e : Error) → Keeps P (send_again api_key api_version request_data timeout n e)
  send_again-Keeps n e = record {
    keeps = λ c p.
        if_cases (λ (x : Result Bytes × NetworkClient). P x.1) (is_connected_to n c)
          ((sending (node n)).keeps c p) p;
  }

  handle_failure-Keeps :
      (n : ℤ) (e : Error) → Keeps P (handle_failure api_key api_version request_data timeout n e)
  handle_failure-Keeps n e = record {
    keeps = λ c p.
        if_cases (λ (x : Result Bytes × NetworkClient). P x.1)
          (is_disconnected_error e && c.auto_refresh_metadata)
          ((>>=-Keeps {act = refresh_metadata none none}
              (λ u. send_again api_key api_version request_data timeout n e) (refreshing none none)
              (λ u. send_again-Keeps n e)).keeps
            c p)
          p;
  }

  send_connected-Keeps :
      (n : ℤ) → Keeps P (send_connected api_key api_version request_data timeout n)
  unfolding send_connected
  send_connected-Keeps n =
      catching-Keeps (send_to (node n) api_key api_version request_data timeout)
        (handle_failure api_key api_version request_data timeout n) (sending (node n))
        (handle_failure-Keeps n)

  abbrev Holds : Option (Result Bytes × NetworkClient) → Type 0
  Holds none = Unit
  Holds (some x) = P x.1

  after_refresh-Holds :
      (x : Result {0} Unit × NetworkClient)
      (next : NetworkClient → Option (Result Bytes × NetworkClient))
      → P x.1
      → ((c : NetworkClient) → P c → Holds (next c))
      → Holds (after_refresh api_key api_version request_data timeout x next)
  after_refresh-Holds (ok u, c) next p h = h c p
  after_refresh-Holds (err e, c) next p h = p

  request_rounds-Holds :
      (rounds : ℕ) (n : ℤ) (c : NetworkClient)
      → P c
      → Holds (request_rounds api_key api_version request_data timeout rounds n c)
  unfolding request_rounds
  request_rounds-Holds zero n c p = tt
  request_rounds-Holds (suc rounds) n c p =
      if_cases Holds (is_connected_to n c) ((send_connected-Keeps n).keeps c p) (
        if_cases Holds c.auto_refresh_metadata
          (after_refresh-Holds (refresh_metadata none none c) _ ((refreshing none none).keeps c p)
            (λ d q. if_cases Holds (is_connected_to n d) (request_rounds-Holds rounds n d q) q))
          p)

  or_out_of_rounds-holds :
      (o : Option (Result Bytes × NetworkClient)) (c : NetworkClient)
      → P c
      → Holds o
      → P (or_out_of_rounds api_key api_version request_data timeout o c).1
  or_out_of_rounds-holds none c p h = p
  or_out_of_rounds-holds (some x) c p h = h

  pub send_request-Keeps :
      (n : ℤ) → Keeps P (send_request api_key api_version request_data timeout n)
  unfolding send_request
  send_request-Keeps n = record {
    keeps = λ c p. or_out_of_rounds-holds _ c p (request_rounds-Holds 2 n c p);
  }

  send_to_leader-Keeps :
      (topic : JsString) (partition : ℤ)
      → Keeps P (send_to_leader api_key api_version request_data timeout topic partition)
  send_to_leader-Keeps topic partition =
      >>=-Keeps
        {act = find_leader_for_partition api_key api_version request_data timeout topic partition} _
        (record { keeps = λ c p. p }) (λ n. send_request-Keeps n)

  retry_leader-Keeps :
      (topic : JsString) (partition : ℤ) (e : Error)
      → Keeps P (retry_leader api_key api_version request_data timeout topic partition e)
  retry_leader-Keeps topic partition e = record {
    keeps = λ c p.
        if_cases (λ (x : Result Bytes × NetworkClient). P x.1) c.auto_refresh_metadata
          ((>>=-Keeps {act = refresh_metadata (some (topic ∷ [])) none} _
              (refreshing (some (topic ∷ [])) none)
              (λ u. send_to_leader-Keeps topic partition)).keeps
            c p)
          p;
  }

  pub send_to_partition_leader-Keeps :
      (topic : JsString) (partition : ℤ)
      → Keeps P (send_to_partition_leader api_key api_version request_data timeout topic partition)
  unfolding send_to_partition_leader
  send_to_partition_leader-Keeps topic partition =
      catching-Keeps (send_to_leader api_key api_version request_data timeout topic partition)
        (retry_leader api_key api_version request_data timeout topic partition)
        (send_to_leader-Keeps topic partition) (retry_leader-Keeps topic partition)
