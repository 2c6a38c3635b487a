-- ===== src/NetworkClient/Shut.antt =====
-- src/network/NetworkClient.ts: after `close` nothing is sent.
use kafka_node_ts.Prelude.{ℕ, ◌≡◌, refl, ap, ◌∙◌, true, false, Option, none, some, List, []}
use kafka_node_ts.Prelude.Int.{ℤ, pos}
use kafka_node_ts.Prelude.Errors.{Error, Result, ok, err, kafka_error, plain_error}
use kafka_node_ts.Buffer.{Bytes}
use kafka_node_ts.Text.{JsString}
use kafka_node_ts.JsMap.{JsMap, int_key, get}
use kafka_node_ts.Network.Requests.{encode_metadata_request}
use kafka_node_ts.NetworkClient.Defs.{Connections, Ref, seed, node, Link, NetworkClient}
use kafka_node_ts.NetworkClient.Action.{
  Action, of_result, gets, ◌>>=◌, nth, conn_of, held, send_on, send_to,
}
use kafka_node_ts.NetworkClient.Refresh.{
  connect_first, first_of, choose_broker, metadata_request, metadata_version, refresh_body,
  refresh_metadata,
}

module _ ⦃k : Connections⦄ where
  open k use {Conn}

  -- A client after `close`: no connection and no seed broker is left, and no timer.
  abbrev pub IsShut : NetworkClient → Type 0
  IsShut c =
      (c.is_refreshing_metadata ≡ false)
      × (c.is_closed ≡ true)
      × (c.connections ≡ [])
      × (c.seed_brokers ≡ [])
      × (c.metadata_refresh_timer ≡ false)

  -- The action throws, and the client is as before.
  pub record Fails {A : Type 0} (act : Action A) (c : NetworkClient) : Type 0 where
    pub thrown : Error
    pub fails : act c ≡ (err thrown, c)

  pub then-Fails :
      {A B : Type 0} {act : Action A} {c : NetworkClient} (next : A → Action B)
      → Fails act c
      → Fails (act >>= next) c
  unfolding ◌>>=◌
  then-Fails {c = c} next h = record { thrown = h.thrown; fails = rw h.fails refl }

  pub of_result-Fails :
      {A B : Type 0} {c : NetworkClient} (r : Result A) (next : A → Action B)
      → ((a : A) → Fails (next a) c)
      → Fails (of_result r >>= next) c
  unfolding ◌>>=◌
  of_result-Fails (ok a) next h = record { thrown = (h a).thrown; fails = (h a).fails }
  of_result-Fails (err e) next h = record { thrown = e; fails = refl }

  no_connection :
      (r : Ref) (c : NetworkClient) → c.connections ≡ [] → c.seed_brokers ≡ [] → held r c ≡ none
  unfolding get
  no_connection (seed i) c e f = ap (nth i) f
  no_connection (node n) c e f = ap (λ (m : JsMap ℤ Link). conn_of (get n m)) e

  pub send_to-Fails :
      (r : Ref) (api_key api_version : ℤ) (request_data : Bytes) (timeout : Option ℕ)
      (c : NetworkClient)
      → c.connections ≡ []
      → c.seed_brokers ≡ []
      → Fails (send_to r api_key api_version request_data timeout) c
  unfolding send_to
  send_to-Fails r api_key api_version request_data timeout c e f = record {
    thrown = plain_error;
    fails =
        ap (λ (o : Option Conn). send_on o r api_key api_version request_data timeout c)
          (no_connection r c e f);
  }

  known-Fails :
      {A B : Type 0} (act : Action A) {c : NetworkClient} {a : A} (next : A → Action B)
      → act c ≡ (ok a, c)
      → Fails (next a) c
      → Fails (act >>= next) c
  unfolding ◌>>=◌
  known-Fails act next e h = record { thrown = h.thrown; fails = rw e h.fails }

  asking-Fails :
      (topics : Option (List JsString)) (b : Ref) (c : NetworkClient)
      → c.connections ≡ []
      → c.seed_brokers ≡ []
      → Fails (refresh_body topics (some b)) c
  unfolding refresh_body choose_broker
  asking-Fails topics b c e f = known-Fails (choose_broker (some b)) _ refl (
      known-Fails (gets metadata_version) _ refl (
        of_result-Fails (encode_metadata_request (metadata_request topics)) _
          (λ q. then-Fails _ (send_to-Fails b (pos 3) _ q none c e f))))

  choosing-Fails :
      (c : NetworkClient) → c.connections ≡ [] → c.seed_brokers ≡ [] → Fails (choose_broker none) c
  unfolding choose_broker
  choosing-Fails c e f = record {
    thrown = kafka_error;
    fails =
        ap (λ (m : JsMap ℤ Link). first_of m c) e ∙ ap (λ (ss : List Conn). connect_first ss c) f;
  }

  refresh_body-Fails :
      (topics : Option (List JsString)) (r : Option Ref) (c : NetworkClient)
      → c.connections ≡ []
      → c.seed_brokers ≡ []
      → Fails (refresh_body topics r) c
  unfolding refresh_body
  refresh_body-Fails topics (some b) c e f = asking-Fails topics b c e f
  refresh_body-Fails topics none c e f = then-Fails _ (choosing-Fails c e f)

  -- A refresh throws, and what it leaves is as before, but for the event `error`.
  pub refresh_metadata_closed :
      (topics : Option (List JsString)) (r : Option Ref) (c : NetworkClient)
      → IsShut c
      → (e : Error) × ((refresh_metadata topics r c).0 ≡ err e)
        × IsShut (refresh_metadata topics r c).1
  unfolding refresh_metadata
  refresh_metadata_closed topics r c (g, h, e, f, t) =
      let failed = refresh_body-Fails topics r (record c { is_refreshing_metadata = true }) e f in
      (failed.thrown, rw (g, failed.fails) refl, rw (g, failed.fails) (refl, h, e, f, t))
