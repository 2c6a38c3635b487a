-- ===== src/Message/Laws.antt =====
-- src/protocol/Message.ts: the version that is selected, and what the broker's answer leaves.
use kafka_node_ts.Prelude.{
  ◌≡◌, refl, ◌∙◌, inl, inr, true, Bool-cases, if_taken, if_passed, ap, Option, none, some, List, [],
  ◌∷◌, if◌then◌else◌, arith,
}
use kafka_node_ts.Prelude.Int.{ℤ, pos, negsuc, eq_ℤ, leb_ℤ}
use kafka_node_ts.JsMap.{JsMap, int_key, get, set}
use kafka_node_ts.JsMap.Laws.{get-set}
use kafka_node_ts.Message.{
  VersionRange, ApiVersions, set_ranges, update, or_default_range, get_version_range, lies_within,
  if_supported, select_version,
}

leb_ℤ-refl : (a : ℤ) → leb_ℤ a a ≡ true
leb_ℤ-refl (pos a) = ground arith
leb_ℤ-refl (negsuc a) = ground arith

max-within :
    (r : VersionRange)
    → leb_ℤ r.min_version r.max_version ≡ true
    → lies_within r r.max_version ≡ true
max-within r h = rw (h, leb_ℤ-refl r.max_version) refl

if_supported-within :
    (r : VersionRange) (version : Option ℤ) (next : ℤ)
    → lies_within r next ≡ true
    → lies_within r (if_supported r version next) ≡ true
if_supported-within r none next h = h
if_supported-within r (some version) next h = elim (Bool-cases (lies_within r version)) [
  | inl within ↦
      if_taken (λ (n : ℤ). lies_within r n ≡ true) (lies_within r version) _ within within
  | inr outside ↦ if_passed (λ (n : ℤ). lies_within r n ≡ true) (lies_within r version) _ outside h
]

-- The range that counts for a key: the last one that names it, or that which counted before.
abbrev pub last_range : ℤ → Option VersionRange → List VersionRange → Option VersionRange
last_range k before [] = before
last_range k before (r ∷ rs) = last_range k (if eq_ℤ r.api_key k then some r else before) rs

get-set_ranges :
    (k : ℤ) (rs : List VersionRange) (m : JsMap ℤ VersionRange)
    → get k (set_ranges m rs) ≡ last_range k (get k m) rs
unfolding set_ranges
get-set_ranges k [] m = refl
get-set_ranges k (r ∷ rs) m =
    get-set_ranges k rs (set r.api_key r m)
    ∙ ap (λ (o : Option VersionRange). last_range k o rs) (get-set r.api_key k r m)

-- The broker has named a range of versions for the API, in this answer or before, the last of which has
-- a minimum that is not above its maximum. Then the version that is selected, whichever versions are
-- preferred and fallen back on, lies between the two.
pub select_version-within :
    (ranges : List VersionRange) (v : ApiVersions) (api_key : ℤ) (preferred fallback : Option ℤ)
    (r : VersionRange)
    → last_range api_key (get api_key v.version_ranges) ranges ≡ some r
    → leb_ℤ r.min_version r.max_version ≡ true
    → lies_within r (select_version api_key preferred fallback (update ranges v)) ≡ true
unfolding select_version update get_version_range
select_version-within ranges v api_key preferred fallback r e h =
    rw
      (ap (or_default_range api_key (update ranges v))
        (get-set_ranges api_key ranges v.version_ranges ∙ e))
      (if_supported-within r preferred _ (if_supported-within r fallback _ (max-within r h)))
