-- ===== src/NetworkClient/Action.antt =====
-- src/network/NetworkClient.ts: what its methods are made of. The client comes back after an
-- exception too.
use kafka_node_ts.Prelude.{ℕ, zero, suc, Bool, false, Option, none, some, List, [], ◌∷◌, ◌++◌}
use kafka_node_ts.Prelude.Int.{ℤ}
use kafka_node_ts.Prelude.Errors.{Error, Result, ok, err, plain_error}
use kafka_node_ts.Buffer.{Bytes}
use kafka_node_ts.JsMap.{int_key, get, set}
use kafka_node_ts.NetworkClient.Defs.{
  Connections, ClientEvent, error, Ref, seed, node, Link, NetworkClient,
}

module _ ⦃k : Connections⦄ where
  open k use {Conn}

  abbrev pub Action : Type 0 → Type 0
  Action A = NetworkClient → Result A × NetworkClient

  module _ {A : Type 0} where
    abbrev pub pure : A → Action A
    pure a c = (ok a, c)

    abbrev pub raise : Error → Action A
    raise e c = (err e, c)

    abbrev pub of_result : Result A → Action A
    of_result r c = (r, c)

    abbrev pub gets : (NetworkClient → A) → Action A
    gets f c = (ok (f c), c)

    abbrev pub continue_with :
        {B : Type 0} → Result A → NetworkClient → (A → Action B) → Result B × NetworkClient
    continue_with (ok a) c next = next a c
    continue_with (err e) c next = (err e, c)

    -- `catch (e) { handle }`
    abbrev pub recover : Result A → NetworkClient → (Error → Action A) → Result A × NetworkClient
    recover (ok a) c handle = (ok a, c)
    recover (err e) c handle = handle e c

    abbrev pub catching : Action A → (Error → Action A) → Action A
    catching body handle c = recover (body c).0 (body c).1 handle

    -- `finally { ... }`
    abbrev pub finally : Action A → (NetworkClient → NetworkClient) → Action A
    finally body last c = ((body c).0, last (body c).1)

  infixl 5 ◌>>=◌
  unfoldable pub ◌>>=◌ : {A B : Type 0} → Action A → (A → Action B) → Action B
  (body >>= next) c = continue_with (body c).0 (body c).1 next

  abbrev pub modify : (NetworkClient → NetworkClient) → Action Unit
  modify f c = (ok tt, f c)

  abbrev pub emit : ClientEvent → NetworkClient → NetworkClient
  emit event c = record c { emitted = c.emitted ++ event ∷ [] }

  -- `this.emit('error', err); throw err`: without a listener `emit` throws the same error.
  abbrev pub fail : {A : Type 0} → Error → Action A
  fail e c = (err e, emit (error e) c)

  -- The connection that is held, and the client with another one in its place.
  abbrev pub nth : ℕ → List Conn → Option Conn
  nth i [] = none
  nth zero (s ∷ ss) = some s
  nth (suc i) (s ∷ ss) = nth i ss

  abbrev pub replace_nth : ℕ → Conn → List Conn → List Conn
  replace_nth i d [] = []
  replace_nth zero d (s ∷ ss) = d ∷ ss
  replace_nth (suc i) d (s ∷ ss) = s ∷ replace_nth i d ss

  abbrev pub conn_of : Option (Link) → Option Conn
  conn_of none = none
  conn_of (some l) = some l.conn

  abbrev pub held : Ref → NetworkClient → Option Conn
  held (seed i) c = nth i c.seed_brokers
  held (node n) c = conn_of (get n c.connections)

  abbrev pub put_link : ℤ → Conn → Option (Link) → NetworkClient → NetworkClient
  put_link n d none c = c
  put_link n d (some l) c = record c { connections = set n (record l { conn = d }) c.connections }

  abbrev pub put_held : Ref → Conn → NetworkClient → NetworkClient
  put_held (seed i) d c = record c { seed_brokers = replace_nth i d c.seed_brokers }
  put_held (node n) d c = put_link n d (get n c.connections) c

  abbrev pub send_on :
      Option Conn → Ref → (api_key api_version : ℤ) → Bytes → Option ℕ → Action Bytes
  send_on none r api_key api_version request_data timeout c = (err plain_error, c)
  send_on (some d) r api_key api_version request_data timeout c =
      let sent = k.send api_key api_version request_data timeout d in (sent.0, put_held r sent.1 c)

  -- `await connection.send(...)`. Every reference that the client follows leads to a connection.
  unfoldable pub send_to : Ref → (api_key api_version : ℤ) → Bytes → Option ℕ → Action Bytes
  send_to r api_key api_version request_data timeout c =
      send_on (held r c) r api_key api_version request_data timeout c

  abbrev pub connected : Option (Link) → Bool
  connected none = false
  connected (some l) = k.is_connected l.conn

  -- `connection && connection.isConnected()`
  abbrev pub is_connected_to : ℤ → NetworkClient → Bool
  is_connected_to n c = connected (get n c.connections)
