-- ===== src/JsMap.antt =====
-- JavaScript's `Map`: pairs in the order in which their keys were first set.
pub mod Laws
use kafka_node_ts.Prelude.{
  ℕ, ◌≡◌, refl, Bool, true, false, ◌&&◌, Option, none, some, List, [], ◌∷◌, map, ◌↔◌, ◌==◌, ==_iff,
  if◌then◌else◌, arith,
}
use kafka_node_ts.Prelude.Int.{ℤ, eq_ℤ, eq_ℤ_iff}

-- A type of keys with the test by which a `Map` compares them.
pub record Key (K : Type 0) : Type 0 where
  pub same : K → K → Bool
  pub same_iff : (a b : K) → (same a b ≡ true) ↔ (a ≡ b)

abbrev pub same_list : List ℕ → List ℕ → Bool
same_list [] [] = true
same_list (x ∷ xs) (y ∷ ys) = x == y && same_list xs ys
same_list _ _ = false

pub same_list_iff : (a b : List ℕ) → (same_list a b ≡ true) ↔ (a ≡ b)
same_list_iff (x ∷ a) (y ∷ b) = ground (arith, same_list_iff a b)
same_list_iff _ _ = ground arith

instance abbrev pub int_key : Key ℤ
int_key = record { same = eq_ℤ; same_iff = eq_ℤ_iff }

instance abbrev pub nat_key : Key ℕ
nat_key = record { same = ◌==◌; same_iff = ==_iff }

instance abbrev pub string_key : Key (List ℕ)
string_key = record { same = same_list; same_iff = same_list_iff }

abbrev pub JsMap : Type 0 → Type 0 → Type 0
JsMap K V = List (K × V)

module _ {K V : Type 0} ⦃key : Key K⦄ where
  unfoldable pub get : K → JsMap K V → Option V
  get k [] = none
  get k ((j, v) ∷ m) = if key.same j k then some v else get k m

  unfoldable pub set : K → V → JsMap K V → JsMap K V
  set k v [] = (k, v) ∷ []
  set k v ((j, w) ∷ m) = if key.same j k then (j, v) ∷ m else (j, w) ∷ set k v m

  unfoldable pub delete : K → JsMap K V → JsMap K V
  delete k [] = []
  delete k ((j, w) ∷ m) = if key.same j k then m else (j, w) ∷ delete k m

abbrev pub keys : {K V : Type 0} → JsMap K V → List K
keys m = map (λ p. p.0) m

abbrev pub values : {K V : Type 0} → JsMap K V → List V
values m = map (λ p. p.1) m
