-- ===== src/NetworkClient/Rounds.antt =====
-- src/network/NetworkClient.ts: `sendRequest` calls itself once at most.
use kafka_node_ts.Prelude.{
  ℕ, suc, ◌≡◌, refl, Bool, true, false, inl, inr, Bool-cases, Option, none, some, if◌then◌else◌,
}
use kafka_node_ts.Prelude.Int.{ℤ}
use kafka_node_ts.Prelude.Errors.{Result, ok, err, disconnected}
use kafka_node_ts.Buffer.{Bytes}
use kafka_node_ts.NetworkClient.Defs.{Connections, NetworkClient}
use kafka_node_ts.NetworkClient.Action.{is_connected_to}
use kafka_node_ts.NetworkClient.Refresh.{refresh_metadata}
use kafka_node_ts.NetworkClient.Requests.{
  send_connected, request_rounds, send_request, after_refresh, or_out_of_rounds,
}

module _ ⦃k : Connections⦄ (api_key api_version : ℤ) (request_data : Bytes) (timeout : Option ℕ)
    (node_id : ℤ) where
  rounds : ℕ → NetworkClient → Option (Result Bytes × NetworkClient)
  rounds n c = request_rounds api_key api_version request_data timeout n node_id c

  -- With a connection there is no further call.
  rounds-suc :
      (n : ℕ) (c : NetworkClient)
      → is_connected_to node_id c ≡ true
      → rounds (suc n) c ≡ some (send_connected api_key api_version request_data timeout node_id c)
  unfolding rounds request_rounds
  rounds-suc n c h = rw h refl

  refreshed :
      (n : ℕ) (x : Result {0} Unit × NetworkClient) (c : NetworkClient)
      → let next : ℕ → NetworkClient → Option (Result Bytes × NetworkClient) =
          λ n c. if is_connected_to node_id c then rounds n c else some (err disconnected, c) in
        after_refresh api_key api_version request_data timeout x (next (suc n))
        ≡ some (
            or_out_of_rounds api_key api_version request_data timeout
              (after_refresh api_key api_version request_data timeout x (next 1))
              c)
  refreshed n (err e, d) c = refl
  refreshed n (ok u, d) c = elim (Bool-cases (is_connected_to node_id d)) [
    | inl up ↦ rw (up, rounds-suc n d up, rounds-suc 0 d up) refl
    | inr down ↦ rw down refl
  ]

  either :
      (b : Bool) (c : NetworkClient) (x' y' : Option (Result Bytes × NetworkClient))
      {x y : Option (Result Bytes × NetworkClient)}
      → x ≡ some (or_out_of_rounds api_key api_version request_data timeout x' c)
      → y ≡ some (or_out_of_rounds api_key api_version request_data timeout y' c)
      → (if b then x else y)
        ≡ some (or_out_of_rounds api_key api_version request_data timeout (if b then x' else y') c)
  either true c x' y' e f = e
  either false c x' y' e f = f

  -- `sendRequest` comes to an end: on two calls of itself or more, the second of them after the refresh
  -- of the metadata, the result is always the same, and no call is left open.
  pub request_rounds-send_request :
      (n : ℕ) (c : NetworkClient)
      → request_rounds api_key api_version request_data timeout (suc (suc n)) node_id c
        ≡ some (send_request api_key api_version request_data timeout node_id c)
  unfolding request_rounds send_request rounds
  request_rounds-send_request n c =
      either (is_connected_to node_id c) c _ _ refl
        (either c.auto_refresh_metadata c _ _ (refreshed n (refresh_metadata none none c) c) refl)
