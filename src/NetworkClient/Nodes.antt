-- ===== src/NetworkClient/Nodes.antt =====
-- src/network/NetworkClient.ts: which nodes have a connection after `updateBrokerConnections`.
use kafka_node_ts.Prelude.{
  ◌≡◌, refl, ap, ◌∙◌, Bool, true, false, inl, inr, Bool-cases, if_cases, Option, none, some, List,
  [], ◌∷◌, if◌then◌else◌, arith,
}
use kafka_node_ts.Prelude.Int.{ℤ, eq_ℤ, eq_ℤ_iff}
use kafka_node_ts.Prelude.Errors.{Result, ok, err}
use kafka_node_ts.JsMap.{JsMap, int_key, get, delete, keys}
use kafka_node_ts.JsMap.Laws.{get-set, get-delete, IsDistinct, set-IsDistinct, delete-IsDistinct}
use kafka_node_ts.ClusterMetadata.Changes.{Broker}
use kafka_node_ts.NetworkClient.Defs.{Connections, ClientEvent, Link, NetworkClient}
use kafka_node_ts.NetworkClient.Refresh.{
  has_id, attempt, link_to, add_link, connect_broker, connect_brokers, close_link, close_absent,
  update_broker_connections,
}

abbrev pub or_else {ℓ} : {A : Type ℓ} → Option A → Option A → Option A
or_else none other = other
or_else (some a) other = some a

module _ ⦃k : Connections⦄ where
  open k use {Conn}

  abbrev pub link_made : Broker → Result {0} Unit × Conn → Option Link
  link_made b (err e, d) = none
  link_made b (ok u, d) = some (link_to b d)

  -- The connection to the first of the brokers with that id that lets the client connect.
  abbrev pub opened : List Conn → ℤ → List Broker → Option Link
  opened seeds n [] = none
  opened seeds n (b ∷ bs) =
      if eq_ℤ b.node_id n
      then or_else (link_made b (attempt seeds b)) (opened seeds n bs)
      else opened seeds n bs

  -- What a node has after its brokers were gone through.
  abbrev pub kept_or_opened : ℤ → List Broker → NetworkClient → Option Link
  kept_or_opened n bs c = or_else (get n c.connections) (opened c.seed_brokers n bs)

  -- What holds of the client and of it with the new connection holds after `connect_broker`.
  pub connect_broker_cases {ℓ} :
      (P : NetworkClient → Type ℓ) (b : Broker) (c : NetworkClient)
      → P c
      → ((d : Conn) → P (add_link b (ok tt, d) c))
      → P (connect_broker b c)
  unfolding connect_broker
  connect_broker_cases P b c p q = if_cases P _ p (added (attempt c.seed_brokers b))
    where
      added : (r : Result {0} Unit × Conn) → P (add_link b r c)
      added (err e, d) = p
      added (ok u, d) = q d

  pub close_link_cases {ℓ} :
      (P : NetworkClient → Type ℓ) (n : ℤ) (l : Link) (c : NetworkClient)
      → ((es : List ClientEvent)
          → P (record c { connections = delete n c.connections; emitted = es }))
      → P (close_link n l c)
  unfolding close_link
  close_link_cases P n l c h =
      if_cases (λ (d : NetworkClient). P (record d { connections = delete n d.connections }))
        (k.is_open l.conn) (h _) (h _)

  seeds-connect_broker :
      (b : Broker) (c : NetworkClient) → (connect_broker b c).seed_brokers ≡ c.seed_brokers
  seeds-connect_broker b c =
      connect_broker_cases (λ d. d.seed_brokers ≡ c.seed_brokers) b c refl (λ d. refl)

  pub IsDistinct-connect_brokers :
      (bs : List Broker) (c : NetworkClient)
      → IsDistinct (keys c.connections)
      → IsDistinct (keys (connect_brokers bs c).connections)
  unfolding connect_brokers
  IsDistinct-connect_brokers [] c h = h
  IsDistinct-connect_brokers (b ∷ bs) c h = IsDistinct-connect_brokers bs (connect_broker b c) (
      connect_broker_cases (λ d. IsDistinct (keys d.connections)) b c h
        (λ d. set-IsDistinct b.node_id (link_to b d) c.connections h))

  module _ (n : ℤ) where
    get-add_link :
        (b : Broker) (r : Result {0} Unit × Conn) (c : NetworkClient)
        → get b.node_id c.connections ≡ none
        → get n (add_link b r c).connections
          ≡ (if eq_ℤ b.node_id n then link_made b r else get n c.connections)
    get-add_link b (err e, d) c h = ground (arith, eq_ℤ_iff b.node_id n)
    get-add_link b (ok u, d) c h = get-set b.node_id n (link_to b d) c.connections

    get-connect_broker :
        (b : Broker) (c : NetworkClient)
        → get n (connect_broker b c).connections
          ≡ or_else
              (get n c.connections)
              (if eq_ℤ b.node_id n then link_made b (attempt c.seed_brokers b) else none)
    unfolding connect_broker
    get-connect_broker b c =
        ground (arith, eq_ℤ_iff b.node_id n, get-add_link b (attempt c.seed_brokers b) c)

    or_else_assoc :
        (x y z : Option Link) (b : Bool)
        → or_else (or_else x (if b then y else none)) z ≡ or_else x (if b then or_else y z else z)
    or_else_assoc (some l) y z b = refl
    or_else_assoc none y z true = refl
    or_else_assoc none y z false = refl

    pub get-connect_brokers :
        (bs : List Broker) (c : NetworkClient)
        → get n (connect_brokers bs c).connections ≡ kept_or_opened n bs c
    unfolding connect_brokers
    get-connect_brokers [] c = nothing (get n c.connections)
      where
        nothing : (x : Option Link) → x ≡ or_else x none
        nothing none = refl
        nothing (some l) = refl
    get-connect_brokers (b ∷ bs) c =
        get-connect_brokers bs (connect_broker b c)
        ∙ rw (seeds-connect_broker b c, get-connect_broker b c)
            (or_else_assoc (get n c.connections) (link_made b (attempt c.seed_brokers b))
              (opened c.seed_brokers n bs) (eq_ℤ b.node_id n))

  connections-close_link :
      (n : ℤ) (l : Link) (c : NetworkClient)
      → (close_link n l c).connections ≡ delete n c.connections
  connections-close_link n l c =
      close_link_cases (λ d. d.connections ≡ delete n c.connections) n l c (λ es. refl)

  abbrev minus : Option Link → Option Link → Option Link
  minus none x = x
  minus (some l) x = none

  IsDistinct-close_link :
      (n : ℤ) (l : Link) (c : NetworkClient)
      → IsDistinct (keys c.connections)
      → IsDistinct (keys (close_link n l c).connections)
  IsDistinct-close_link n l c h =
      rw (connections-close_link n l c) (delete-IsDistinct n c.connections h)

  get-close_absent :
      (n : ℤ) (bs : List Broker) (es : JsMap ℤ Link) (c : NetworkClient)
      → IsDistinct (keys c.connections)
      → get n (close_absent bs es c).connections
        ≡ (if has_id n bs then get n c.connections else minus (get n es) (get n c.connections))
  unfolding close_absent get
  get-close_absent n bs [] c h = ground arith
  get-close_absent n bs ((m, l) ∷ es) c h = elim (Bool-cases (has_id m bs)) [
    | inl present ↦
        rw (present, close_absent) (ground (arith, eq_ℤ_iff m n, get-close_absent n bs es c h))
    | inr absent ↦
        rw (absent, close_absent)
          (ground (
            arith,
            eq_ℤ_iff m n,
            get-close_absent n bs es (close_link m l c) (IsDistinct-close_link m l c h),
            ap (get n) (connections-close_link m l c),
            get-delete m n c.connections h,
          ))
  ]

  minus_self : (x : Option Link) → minus x x ≡ none
  minus_self none = refl
  minus_self (some l) = refl

  pub IsDistinct-close_absent :
      (bs : List Broker) (es : JsMap ℤ Link) (c : NetworkClient)
      → IsDistinct (keys c.connections)
      → IsDistinct (keys (close_absent bs es c).connections)
  unfolding close_absent
  IsDistinct-close_absent bs [] c h = h
  IsDistinct-close_absent bs ((m, l) ∷ es) c h =
      IsDistinct-close_absent bs es (if has_id m bs then c else close_link m l c) (
        if_cases (λ (d : NetworkClient). IsDistinct (keys d.connections)) (has_id m bs) h
          (IsDistinct-close_link m l c h))

  -- Where no node has two connections: after `updateBrokerConnections` a node that the brokers name
  -- has the connection that it had, or else that to the first broker of its id that lets the client
  -- connect, if there is one; a node that they do not name has none.
  pub get-update_broker_connections :
      (n : ℤ) (brokers : List Broker) (c : NetworkClient)
      → IsDistinct (keys c.connections)
      → get n (update_broker_connections brokers c).connections
        ≡ (if has_id n brokers then kept_or_opened n brokers c else none)
  unfolding update_broker_connections
  get-update_broker_connections n brokers c h =
      let added = connect_brokers brokers c in
      get-close_absent n brokers added.connections added (IsDistinct-connect_brokers brokers c h)
      ∙ rw (minus_self (get n added.connections), get-connect_brokers n brokers c) refl
