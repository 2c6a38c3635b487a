-- ===== src/NetworkClient/Keeping.antt =====
-- src/network/NetworkClient.ts: what every method keeps, and what fails without a connection.
pub mod Refresh
pub mod Requests
use kafka_node_ts.Prelude.{
  ℕ, zero, suc, ◌≡◌, refl, ap, ◌∙◌, sym, Bool, true, false, if_cases, Option, none, some, List, [],
  ◌∷◌, if◌then◌else◌,
}
use kafka_node_ts.Prelude.Int.{ℤ, pos}
use kafka_node_ts.Prelude.Errors.{Error, Result, ok, err, kafka_error, plain_error}
use kafka_node_ts.Buffer.{Bytes}
use kafka_node_ts.Text.{JsString}
use kafka_node_ts.JsMap.{JsMap, int_key, get, set, keys}
use kafka_node_ts.JsMap.Laws.{IsDistinct, set-IsDistinct}
use kafka_node_ts.ClusterMetadata.Changes.{Broker}
use kafka_node_ts.Network.Requests.{encode_metadata_request}
use kafka_node_ts.Network.Responses.{MetadataResponse, parse_metadata}
use kafka_node_ts.NetworkClient.Defs.{
  Connections, ClientEvent, Ref, seed, node, Link, NetworkClient,
}
use kafka_node_ts.NetworkClient.Action.{
  Action, pure, of_result, gets, continue_with, recover, catching, ◌>>=◌, modify, emit, fail, nth,
  conn_of, held, put_link, put_held, send_on, send_to,
}
use kafka_node_ts.NetworkClient.Refresh.{
  connect_first, first_of, choose_broker, metadata_request, metadata_version, announce,
  update_cluster, connect_brokers, close_absent, update_broker_connections, refresh_body,
  refresh_metadata,
}
use kafka_node_ts.NetworkClient.Nodes.{IsDistinct-connect_brokers, IsDistinct-close_absent}

module _ ⦃k : Connections⦄ where
  open k use {Conn}

  -- Whatever the action ends with, `P` holds after it where it held before.
  pub record Keeps {A : Type 0} (P : NetworkClient → Type 0) (act : Action A) : Type 0 where
    pub keeps : (c : NetworkClient) → P c → P (act c).1

  continue_with-keeps :
      (P : NetworkClient → Type 0) {A B : Type 0} (r : Result A) (c : NetworkClient)
      (next : A → Action B)
      → P c
      → ((a : A) → P (next a c).1)
      → P (continue_with r c next).1
  continue_with-keeps P (ok a) c next p h = h a
  continue_with-keeps P (err e) c next p h = p

  pub >>=-Keeps :
      {P : NetworkClient → Type 0} {A B : Type 0} {act : Action A} (next : A → Action B)
      → Keeps P act
      → ((a : A) → Keeps P (next a))
      → Keeps P (act >>= next)
  unfolding ◌>>=◌
  >>=-Keeps {P} {act = act} next g h = record {
    keeps = λ c p.
        continue_with-keeps P (act c).0 (act c).1 next (g.keeps c p)
          (λ a. (h a).keeps (act c).1 (g.keeps c p));
  }

  recover-keeps :
      (P : NetworkClient → Type 0) {A : Type 0} (r : Result A) (c : NetworkClient)
      (handle : Error → Action A)
      → P c
      → ((e : Error) → P (handle e c).1)
      → P (recover r c handle).1
  recover-keeps P (ok a) c handle p h = p
  recover-keeps P (err e) c handle p h = h e

  pub catching-Keeps :
      {P : NetworkClient → Type 0} {A : Type 0} (act : Action A) (handle : Error → Action A)
      → Keeps P act
      → ((e : Error) → Keeps P (handle e))
      → Keeps P (catching act handle)
  catching-Keeps {P} act handle g h = record {
    keeps = λ c p.
        recover-keeps P (act c).0 (act c).1 handle (g.keeps c p)
          (λ e. (h e).keeps (act c).1 (g.keeps c p));
  }

  pub of_result-Keeps :
      {P : NetworkClient → Type 0} {A : Type 0} (r : Result A) → Keeps P (of_result r)
  of_result-Keeps r = record { keeps = λ c p. p }

  pub fail-Keeps :
      {P : NetworkClient → Type 0} {A : Type 0} (e : Error)
      → ((c : NetworkClient) (es : List ClientEvent) → P c → P (record c { emitted = es }))
      → Keeps P (fail {A = A} e)
  fail-Keeps e h = record { keeps = λ c p. h c _ p }
