-- ===== src/NetworkClient/Down.antt =====
-- src/network/NetworkClient.ts: requests to a node whose connection is down.
use kafka_node_ts.Prelude.{
  ℕ, ◌≡◌, refl, ap, ◌∙◌, sym, true, false, ◌⊎◌, inl, inr, Bool-cases, if_cases, if_passed, Option,
  none, some, List, if◌then◌else◌,
}
use kafka_node_ts.Prelude.Int.{ℤ, pos, eq_ℤ, eq_ℤ_iff}
use kafka_node_ts.Prelude.Errors.{Error, Result, ok, err, disconnected}
use kafka_node_ts.Buffer.{Bytes}
use kafka_node_ts.Text.{JsString}
use kafka_node_ts.JsMap.{JsMap, int_key, get, keys}
use kafka_node_ts.JsMap.Laws.{IsDistinct, set-IsDistinct, get-set}
use kafka_node_ts.ClusterMetadata.Changes.{Broker}
use kafka_node_ts.Network.Requests.{encode_metadata_request}
use kafka_node_ts.Network.Responses.{parse_metadata}
use kafka_node_ts.NetworkClient.Defs.{Connections, Ref, seed, node, Link, NetworkClient}
use kafka_node_ts.NetworkClient.Action.{
  Action, recover, continue_with, ◌>>=◌, fail, conn_of, held, put_link, send_to, connected,
  is_connected_to,
}
use kafka_node_ts.NetworkClient.Refresh.{
  has_id, metadata_request, update_cluster, update_broker_connections, refresh_body,
  refresh_metadata,
}
use kafka_node_ts.NetworkClient.Requests.{
  request_rounds, send_request, after_refresh, or_out_of_rounds,
}
use kafka_node_ts.NetworkClient.Nodes.{get-update_broker_connections, opened, or_else}
use kafka_node_ts.NetworkClient.Keeping.{Keeps, of_result-Keeps}
use kafka_node_ts.NetworkClient.Keeping.Refresh.{
  choose_broker-Keeps, update_cluster-kept, send_on-kept,
}
use kafka_node_ts.NetworkClient.Shut.{IsShut, refresh_metadata_closed}

module _ ⦃k : Connections⦄ where
  open k use {Conn}

  -- The result of a call, where it throws.
  abbrev pub Throws : {A : Type 0} → Result A → Type 0
  Throws r = (e : Error) × (r ≡ err e)

  module _ (n : ℤ) where
    -- The client holds a connection to the node, which is down.
    abbrev pub IsDown : NetworkClient → Type 0
    IsDown c =
        IsDistinct (keys c.connections)
        × (l : Link) × (get n c.connections ≡ some l)
        × (k.is_connected l.conn ≡ false)

    abbrev IsUnconnected : NetworkClient → Type 0
    IsUnconnected c = is_connected_to n c ≡ false

    down-IsUnconnected : (c : NetworkClient) → IsDown c → IsUnconnected c
    down-IsUnconnected c (d, l, e, h) = ap connected e ∙ h

    -- Sending on the connection of another node does not touch it, and its own refuses.
    put_link-IsDown :
        (m : ℤ) (d : Conn) (o : Option Link) (c : NetworkClient)
        → (eq_ℤ m n ≡ true → k.is_connected d ≡ false)
        → IsDown c
        → IsDown (put_link m d o c)
    put_link-IsDown m d none c q h = h
    put_link-IsDown m d (some l) c q (x, w, e, h) = elim (Bool-cases (eq_ℤ m n)) [
      | inl same ↦ (
        set-IsDistinct m _ c.connections x,
        record l { conn = d },
        get-set m n (record l { conn = d }) c.connections ∙ rw same refl,
        q same,
      )
      | inr other ↦ (
        set-IsDistinct m _ c.connections x,
        w,
        get-set m n (record l { conn = d }) c.connections ∙ rw other e,
        h,
      )
    ]

    held_down :
        (o : Option Link) (l : Link) (d : Conn)
        → o ≡ some l
        → conn_of o ≡ some d
        → k.is_connected l.conn ≡ false
        → k.is_connected d ≡ false
    held_down o l d e f h = cc

    module _ (api_key api_version : ℤ) (request_data : Bytes) (timeout : Option ℕ) where
      sent_on :
          (m : ℤ) (d : Conn) (c : NetworkClient)
          → conn_of (get m c.connections) ≡ some d
          → IsDown c
          → eq_ℤ m n ≡ true
          → k.is_connected (k.send api_key api_version request_data timeout d).1 ≡ false
      sent_on m d c e (x, w, f, h) same =
          let down =
            held_down (get n c.connections) w d f
              (ap (λ (j : ℤ). conn_of (get j c.connections)) (sym ((eq_ℤ_iff m n).0 same)) ∙ e) h in
          ap (λ (r : Result Bytes × Conn). k.is_connected r.1)
            (k.send_refuses api_key api_version request_data timeout d down)
          ∙ down

      send_to-IsDown : (r : Ref) → Keeps IsDown (send_to r api_key api_version request_data timeout)
      unfolding send_to
      send_to-IsDown (seed i) = record {
        keeps = λ c h.
            send_on-kept IsDown api_key api_version request_data timeout (held (seed i) c) (seed i)
              c h (λ d e. h);
      }
      send_to-IsDown (node m) = record {
        keeps = λ c h.
            send_on-kept IsDown api_key api_version request_data timeout (held (node m) c) (node m)
              c h (λ d e. put_link-IsDown m _ (get m c.connections) c (sent_on m d c e h) h);
      }

    updated-IsUnconnected :
        (bs : List Broker) (c : NetworkClient)
        → IsDown c
        → IsUnconnected (update_broker_connections bs c)
    updated-IsUnconnected bs c (x, l, e, h) =
        ap connected (get-update_broker_connections n bs c x)
        ∙ if_cases (λ (o : Option Link). connected o ≡ false) (has_id n bs)
            (ap (λ (o : Option Link). connected (or_else o (opened c.seed_brokers n bs))) e ∙ h)
            refl

    ended :
        {A B : Type 0} (r : Result A) (c : NetworkClient) (next : A → Action B)
        → IsDown c
        → ((a : A) (c : NetworkClient) → IsDown c → IsUnconnected (next a c).1)
        → IsUnconnected (continue_with r c next).1
    ended (ok a) c next p h = h a c p
    ended (err e) c next p h = down-IsUnconnected c p

    -- The step that ends the refresh, after steps that keep the connection down.
    last_step :
        {A B : Type 0} {act : Action A} (next : A → Action B)
        → Keeps IsDown act
        → ((a : A) (c : NetworkClient) → IsDown c → IsUnconnected (next a c).1)
        → (c : NetworkClient) → IsDown c
        → IsUnconnected ((act >>= next) c).1
    unfolding ◌>>=◌
    last_step {act = act} next g h c p = ended (act c).0 (act c).1 next (g.keeps c p) h

    refreshed-IsUnconnected :
        (topics : Option (List JsString)) (r : Option Ref) (c : NetworkClient)
        → IsDown c
        → IsUnconnected (refresh_body topics r c).1
    unfolding refresh_body
    refreshed-IsUnconnected topics r =
        last_step _ (choose_broker-Keeps IsDown (λ c ss h. h) r) (λ b.
          last_step _ (record { keeps = λ c h. h })
            (λ v.
              last_step _ (of_result-Keeps (encode_metadata_request (metadata_request topics)))
                (λ q. last_step _ (send_to-IsDown (pos 3) v q none b) (λ a.
                  last_step _ (of_result-Keeps (parse_metadata a)) (λ m c h.
                    updated-IsUnconnected m.brokers (update_cluster m c)
                      (update_cluster-kept IsDown m c (λ d es. h)))))))

    failed-connections :
        {A : Type 0} (r : Result A) (c : NetworkClient)
        → IsUnconnected c
        → IsUnconnected (recover r c fail).1
    failed-connections (ok a) c h = h
    failed-connections (err e) c h = h

    refresh_metadata-IsUnconnected :
        (topics : Option (List JsString)) (r : Option Ref) (c : NetworkClient)
        → IsDown c
        → IsUnconnected (refresh_metadata topics r c).1
    unfolding refresh_metadata
    refresh_metadata-IsUnconnected topics r c h =
        let flagged = record c { is_refreshing_metadata = true } in
        if_cases (λ (x : Result {0} Unit × NetworkClient). IsUnconnected x.1)
          c.is_refreshing_metadata (down-IsUnconnected c h)
          (failed-connections (refresh_body topics r flagged).0 (refresh_body topics r flagged).1
            (refreshed-IsUnconnected topics r flagged h))

    module _ (api_key api_version : ℤ) (request_data : Bytes) (timeout : Option ℕ) where
      abbrev Ends : NetworkClient → Option (Result Bytes × NetworkClient) → Type 0
      Ends c o = Throws (or_out_of_rounds api_key api_version request_data timeout o c).0

      after_refresh-Ends :
          (x : Result {0} Unit × NetworkClient) (c : NetworkClient)
          → IsUnconnected x.1 ⊎ Throws x.0
          → Ends c (
              after_refresh api_key api_version request_data timeout x (λ d.
                if is_connected_to n d
                then request_rounds api_key api_version request_data timeout 1 n d
                else some (err disconnected, d)))
      after_refresh-Ends (ok u, d) c (inl h) =
          if_passed (Ends c) (is_connected_to n d) _ h (disconnected, refl)
      after_refresh-Ends (ok u, d) c (inr h) = absurd (cc h.1)
      after_refresh-Ends (err e, d) c h = (e, refl)

      unconnected-Throws :
          (c : NetworkClient)
          → IsUnconnected c
          → IsUnconnected (refresh_metadata none none c).1 ⊎ Throws (refresh_metadata none none c).0
          → Throws (send_request api_key api_version request_data timeout n c).0
      unfolding send_request request_rounds
      unconnected-Throws c h w = if_passed (Ends c) (is_connected_to n c) _ h (
          if_cases (Ends c) c.auto_refresh_metadata
            (after_refresh-Ends (refresh_metadata none none c) c w) (disconnected, refl))

      -- The client holds a connection to the node, but it is down, and no node has two connections. Then
      -- every request to the node throws, whatever the refresh of the metadata brings: the connection
      -- is not made again.
      pub send_request-down :
          (c : NetworkClient)
          → IsDown c
          → Throws (send_request api_key api_version request_data timeout n c).0
      send_request-down c h =
          unconnected-Throws c (down-IsUnconnected c h)
            (inl (refresh_metadata-IsUnconnected none none c h))

      shut-IsUnconnected : (c : NetworkClient) → IsShut c → IsUnconnected c
      unfolding get
      shut-IsUnconnected c h = ap (λ (m : JsMap ℤ Link). connected (get n m)) h.2

      -- On a closed client every request to a node throws.
      pub send_request-shut :
          (c : NetworkClient)
          → IsShut c
          → Throws (send_request api_key api_version request_data timeout n c).0
      send_request-shut c h =
          let refreshed = refresh_metadata_closed none none c h in
          unconnected-Throws c (shut-IsUnconnected c h) (inr (refreshed.0, refreshed.1))
