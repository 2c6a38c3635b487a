-- ===== src/NetworkClient/Invariant.antt =====
-- src/network/NetworkClient.ts: the calls of the client and of its connections, in any order, and
-- what holds of the client after them.
use kafka_node_ts.Prelude.{
  ℕ, ◌≡◌, refl, ap, Bool, true, false, ◌⊎◌, inl, inr, if_cases, if_taken, if_passed, sym, Option,
  none, some, List, [], ◌∷◌, if◌then◌else◌,
}
use mathlib.Core.Path.{subst}
use kafka_node_ts.Prelude.Int.{ℤ, pos}
use kafka_node_ts.Prelude.Errors.{Error, Result}
use kafka_node_ts.Buffer.{Bytes}
use kafka_node_ts.Text.{JsString}
use kafka_node_ts.JsMap.{JsMap, get, int_key}
use kafka_node_ts.Network.Requests.{encode_versions_request, create_versions_request}
use kafka_node_ts.Network.Responses.{ApiVersionsResponse, parse_versions}
use kafka_node_ts.ClusterMetadata.{ClusterMetadata}
use kafka_node_ts.NetworkClient.Defs.{
  Connections, ClientEvent, error, broker_disconnect, Ref, seed, node, Link, NetworkClient,
  new_client,
}
use kafka_node_ts.NetworkClient.Action.{emit, fail, put_held, put_link, replace_nth, send_to}
use kafka_node_ts.NetworkClient.Refresh.{
  refresh_metadata, on_metadata_refresh_timer, start_metadata_refresh_timer, disconnect_link,
  fetch_api_versions, store_versions,
}
use kafka_node_ts.NetworkClient.Lifecycle.{
  connect_any, connect_body, connect_client, disconnect_links, stopped, close_client,
}
use kafka_node_ts.NetworkClient.Requests.{send_request, send_to_partition_leader}
use kafka_node_ts.NetworkClient.Keeping.{
  Keeps, >>=-Keeps, catching-Keeps, of_result-Keeps, fail-Keeps,
}
use kafka_node_ts.NetworkClient.Keeping.Requests.{
  send_request-Keeps, send_to_partition_leader-Keeps,
}
use kafka_node_ts.NetworkClient.Open.{
  IsCalm, put_held-IsCalm, send_to-IsCalm, refresh_metadata-IsCalm,
}
use kafka_node_ts.NetworkClient.Shut.{IsShut, send_to-Fails, refresh_metadata_closed}

module _ ⦃k : Connections⦄ where
  open k use {Conn}

  -- The methods, the round of the timer, and the events of the connections: one of them is no longer
  -- what it was, or calls the listener that the client has on it.
  pub data Call : Type 0 where
    connects closes timer_fires : Call
    refreshes : Option (List JsString) → Call
    requests : (node_id api_key api_version : ℤ) (request_data : Bytes) (timeout : Option ℕ) → Call
    asks_leader :
        (topic : JsString) (partition api_key api_version : ℤ) (request_data : Bytes)
        (timeout : Option ℕ)
        → Call
    conn_changes : Ref → Conn → Call
    conn_fails : Error → Call
    conn_disconnects : (node_id : ℤ) (host : JsString) (port : ℤ) → Call

  unfoldable pub step : Call → NetworkClient → NetworkClient
  step connects c = (connect_client c).1
  step closes c = close_client c
  step timer_fires c = if c.metadata_refresh_timer then on_metadata_refresh_timer c else c
  step (refreshes topics) c = (refresh_metadata topics none c).1
  step (requests n key version request_data timeout) c =
      (send_request key version request_data timeout n c).1
  step (asks_leader topic partition key version request_data timeout) c =
      (send_to_partition_leader key version request_data timeout topic partition c).1
  step (conn_changes r d) c = put_held r d c
  step (conn_fails e) c = emit (error e) c
  step (conn_disconnects n host port) c = emit (broker_disconnect n host port) c

  -- Every client that calls lead to from a new one.
  pub data Reachable : NetworkClient → Type 0 where
    new :
        (auto_refresh : Bool) (m : ClusterMetadata) (brokers : List k.Settings)
        → Reachable (new_client auto_refresh m brokers)
    after : (call : Call) {c : NetworkClient} → Reachable c → Reachable (step call c)

  abbrev pub IsValid : NetworkClient → Type 0
  IsValid c = IsCalm c ⊎ IsShut c

  connect_any-Keeps : Keeps IsCalm connect_any
  unfolding connect_any
  connect_any-Keeps = record { keeps = λ c h. h }

  store_versions-Keeps : (r : ApiVersionsResponse) → Keeps IsCalm (store_versions r)
  store_versions-Keeps r = record {
    keeps = λ c h. if_cases (λ (x : Result {0} Unit × NetworkClient). IsCalm x.1) _ h h;
  }

  fetch_api_versions-Keeps : (r : Ref) → Keeps IsCalm (fetch_api_versions r)
  unfolding fetch_api_versions
  fetch_api_versions-Keeps r =
      >>=-Keeps _ (of_result-Keeps (encode_versions_request create_versions_request)) (λ q.
        >>=-Keeps _ (send_to-IsCalm (pos 18) (pos 0) q none r)
          (λ b. >>=-Keeps _ (of_result-Keeps (parse_versions b)) (λ v. store_versions-Keeps v)))

  start_timer-IsCalm : (c : NetworkClient) → IsCalm c → IsCalm (start_metadata_refresh_timer c)
  unfolding start_metadata_refresh_timer
  start_timer-IsCalm c h = if_cases IsCalm c.auto_refresh_metadata h h

  connect_body-Keeps : Keeps IsCalm connect_body
  unfolding connect_body
  connect_body-Keeps = >>=-Keeps _ connect_any-Keeps (λ b.
      >>=-Keeps _ (fetch_api_versions-Keeps b) (λ u.
        >>=-Keeps _ (refresh_metadata-IsCalm none (some b))
          (λ v. record { keeps = λ c h. start_timer-IsCalm c h })))

  connect_client-IsCalm : (c : NetworkClient) → IsCalm c → IsCalm (connect_client c).1
  unfolding connect_client
  connect_client-IsCalm c h =
      if_cases (λ (x : Result {0} Unit × NetworkClient). IsCalm x.1) c.is_initialized h
        (if_cases (λ (x : Result {0} Unit × NetworkClient). IsCalm x.1) c.is_closed h
          ((catching-Keeps connect_body fail connect_body-Keeps
              (λ e. fail-Keeps e (λ c es h. h))).keeps
            c h))

  connect_client-IsShut : (c : NetworkClient) → IsShut c → IsShut (connect_client c).1
  unfolding connect_client
  connect_client-IsShut c h =
      if_cases (λ (x : Result {0} Unit × NetworkClient). IsShut x.1) c.is_initialized h
        (if_taken (λ (x : Result {0} Unit × NetworkClient). IsShut x.1) c.is_closed _ h.1 h)

  pub disconnect_links-kept :
      (P : NetworkClient → Type 0) (m : JsMap ℤ Link) (c : NetworkClient)
      → ((c : NetworkClient) (event : ClientEvent) → P c → P (emit event c))
      → P c
      → P (disconnect_links m c)
  unfolding disconnect_links
  disconnect_links-kept P [] c h p = p
  disconnect_links-kept P ((n, l) ∷ m) c h p =
      disconnect_links-kept P m (disconnect_link n l c) h
        (if_cases P (k.is_open l.conn) (h c _ p) p)

  abbrev IsStopped : NetworkClient → Type 0
  IsStopped c =
      (c.is_refreshing_metadata ≡ false) × (c.is_closed ≡ true) × (c.metadata_refresh_timer ≡ false)

  pub close_client-IsShut : (c : NetworkClient) → IsCalm c → IsShut (close_client c)
  unfolding close_client
  close_client-IsShut c h =
      let told =
        disconnect_links-kept IsStopped c.connections (stopped c) (λ d event p. p)
          (h.0, refl, refl) in
      if_passed IsShut c.is_closed _ h.1.0 (told.0, told.1, refl, refl, told.2)

  close_again-IsShut : (c : NetworkClient) → IsShut c → IsShut (close_client c)
  unfolding close_client
  close_again-IsShut c h = if_taken IsShut c.is_closed _ h.1 h

  refresh_metadata-IsShut :
      (topics : Option (List JsString)) (r : Option Ref) → Keeps IsShut (refresh_metadata topics r)
  refresh_metadata-IsShut topics r = record {
    keeps = λ c h. (refresh_metadata_closed topics r c h).2;
  }

  send_to-IsShut :
      (r : Ref) (key version : ℤ) (request_data : Bytes) (timeout : Option ℕ)
      → Keeps IsShut (send_to r key version request_data timeout)
  send_to-IsShut r key version request_data timeout = record {
    keeps = λ c h. rw ((send_to-Fails r key version request_data timeout c h.2 h.3).fails) h;
  }

  put_held-IsShut : (r : Ref) (d : Conn) (c : NetworkClient) → IsShut c → IsShut (put_held r d c)
  unfolding get
  put_held-IsShut (seed i) d c (g, h, e, f, t) = (g, h, e, ap (replace_nth i d) f, t)
  put_held-IsShut (node n) d c h =
      subst (λ (o : Option Link). IsShut (put_link n d o c))
        (sym (ap (λ (m : JsMap ℤ Link). get n m) h.2)) h

  module _ (c : NetworkClient) (h : IsCalm c) where
    step-IsCalm : (call : Call) → IsValid (step call c)
    unfolding step on_metadata_refresh_timer
    step-IsCalm connects = inl (connect_client-IsCalm c h)
    step-IsCalm closes = inr (close_client-IsShut c h)
    step-IsCalm timer_fires = inl (
        if_cases IsCalm c.metadata_refresh_timer
          (start_timer-IsCalm _ ((refresh_metadata-IsCalm none none).keeps c h)) h)
    step-IsCalm (refreshes topics) = inl ((refresh_metadata-IsCalm topics none).keeps c h)
    step-IsCalm (requests n key version q t) = inl (
        (send_request-Keeps IsCalm key version q t refresh_metadata-IsCalm
            (send_to-IsCalm key version q t) n).keeps
          c h)
    step-IsCalm (asks_leader topic p key version q t) = inl (
        (send_to_partition_leader-Keeps IsCalm key version q t refresh_metadata-IsCalm
            (send_to-IsCalm key version q t) topic p).keeps
          c h)
    step-IsCalm (conn_changes r d) = inl (put_held-IsCalm r d c h)
    step-IsCalm (conn_fails e) = inl h
    step-IsCalm (conn_disconnects n host port) = inl h

  module _ (c : NetworkClient) (h : IsShut c) where
    -- A client stays closed.
    pub step-IsShut : (call : Call) → IsShut (step call c)
    unfolding step
    step-IsShut connects = connect_client-IsShut c h
    step-IsShut closes = close_again-IsShut c h
    step-IsShut timer_fires = if_passed IsShut c.metadata_refresh_timer _ h.4 h
    step-IsShut (refreshes topics) = (refresh_metadata-IsShut topics none).keeps c h
    step-IsShut (requests n key version q t) =
        (send_request-Keeps IsShut key version q t refresh_metadata-IsShut
            (λ r. send_to-IsShut r key version q t) n).keeps
          c h
    step-IsShut (asks_leader topic p key version q t) =
        (send_to_partition_leader-Keeps IsShut key version q t refresh_metadata-IsShut
            (λ r. send_to-IsShut r key version q t) topic p).keeps
          c h
    step-IsShut (conn_changes r d) = put_held-IsShut r d c h
    step-IsShut (conn_fails e) = h
    step-IsShut (conn_disconnects n host port) = h

  step-IsValid : (call : Call) (c : NetworkClient) → IsValid c → IsValid (step call c)
  step-IsValid call c (inl h) = step-IsCalm c h call
  step-IsValid call c (inr h) = inr (step-IsShut c h call)

  -- Every client that calls lead to from a new one, where each call and each round of the refresh timer
  -- runs to its end before the next one starts, and whatever the connections answer: no refresh is left
  -- running, and the client is either not closed, with one connection for a node at most, or it is closed, with
  -- no connection, no seed broker and no refresh timer.
  reachable_client-IsValid : (c : NetworkClient) → Reachable c → IsValid c
  unfolding new_client
  reachable_client-IsValid _ (new auto m brokers) = inl (refl, (refl, tt))
  reachable_client-IsValid _ (after call {c = d} r) =
      step-IsValid call d (reachable_client-IsValid d r)
