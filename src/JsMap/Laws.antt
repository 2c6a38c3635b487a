-- ===== src/JsMap/Laws.antt =====
-- A `Map` after a write, and the distinctness of its keys.
use kafka_node_ts.Prelude.{
  ◌≡◌, ◌≢◌, refl, sym, inl, inr, Bool-cases, none, some, List, [], ◌∷◌, All, if◌then◌else◌, arith,
}
use kafka_node_ts.JsMap.{Key, JsMap, get, set, delete, keys}

-- No key stands twice.
abbrev pub IsDistinct : {K : Type 0} → List K → Type 0
IsDistinct [] = Unit
IsDistinct (k ∷ ks) = All (λ j. j ≢ k) ks × IsDistinct ks

module _ {K V : Type 0} ⦃key : Key K⦄ where
  pub get-set :
      (k j : K) (v : V) (m : JsMap K V)
      → get j (set k v m) ≡ (if key.same k j then some v else get j m)
  unfolding get set
  get-set k j v [] = refl
  get-set k j v ((i, w) ∷ m) =
      ground (arith, key.same_iff k j, key.same_iff i k, key.same_iff i j, get-set k j v m)

  get-none : (k : K) (m : JsMap K V) → All (λ j. j ≢ k) (keys m) → get k m ≡ none
  unfolding get
  get-none k [] h = refl
  get-none k ((i, w) ∷ m) h = ground (arith, key.same_iff i k, get-none k m h.1)

  -- Deleting takes out the key asked for and no other, if no key stands twice.
  pub get-delete :
      (k j : K) (m : JsMap K V)
      → IsDistinct (keys m)
      → get j (delete k m) ≡ (if key.same k j then none else get j m)
  unfolding get delete
  get-delete k j [] d = ground arith
  get-delete k j ((i, w) ∷ m) d = ground (
    arith,
    key.same_iff k j,
    key.same_iff i k,
    key.same_iff i j,
    get-delete k j m d.1,
    get-none j m,
  )

  pub delete-All :
      (P : K → Type 0) (k : K) (m : JsMap K V) → All P (keys m) → All P (keys (delete k m))
  unfolding delete
  delete-All P k [] h = tt
  delete-All P k ((i, w) ∷ m) h = elim (Bool-cases (key.same i k)) [
    | inl same ↦ rw same h.1
    | inr other ↦ rw other (h.0, delete-All P k m h.1)
  ]

  pub set-All :
      (P : K → Type 0) (k : K) (v : V) (m : JsMap K V)
      → P k
      → All P (keys m)
      → All P (keys (set k v m))
  unfolding set
  set-All P k v [] p h = (p, tt)
  set-All P k v ((i, w) ∷ m) p h = elim (Bool-cases (key.same i k)) [
    | inl same ↦ rw same h
    | inr other ↦ rw other (h.0, set-All P k v m p h.1)
  ]

  -- What holds of the entry that is written and of all entries before holds of all after.
  pub set-All_entries :
      (P : K × V → Type 0) (k : K) (v : V) (m : JsMap K V) → P (k, v) → All P m → All P (set k v m)
  unfolding set
  set-All_entries P k v [] p h = (p, tt)
  set-All_entries P k v ((i, w) ∷ m) p h = elim (Bool-cases (key.same i k)) [
    | inl same ↦ rw same (rw ((key.same_iff i k).0 same) p, h.1)
    | inr other ↦ rw other (h.0, set-All_entries P k v m p h.1)
  ]

  pub delete-IsDistinct :
      (k : K) (m : JsMap K V) → IsDistinct (keys m) → IsDistinct (keys (delete k m))
  unfolding delete
  delete-IsDistinct k [] d = tt
  delete-IsDistinct k ((i, w) ∷ m) d = elim (Bool-cases (key.same i k)) [
    | inl same ↦ rw same d.1
    | inr other ↦ rw other (delete-All (λ j. j ≢ i) k m d.0, delete-IsDistinct k m d.1)
  ]

  pub set-IsDistinct :
      (k : K) (v : V) (m : JsMap K V) → IsDistinct (keys m) → IsDistinct (keys (set k v m))
  unfolding set
  set-IsDistinct k v [] d = (tt, tt)
  set-IsDistinct k v ((i, w) ∷ m) d = elim (Bool-cases (key.same i k)) [
    | inl same ↦ rw same d
    | inr other ↦ rw other (
      set-All (λ j. j ≢ i) k v m (λ e. absurd (cc (other, (key.same_iff i k).1 (sym e)))) d.0,
      set-IsDistinct k v m d.1,
    )
  ]
