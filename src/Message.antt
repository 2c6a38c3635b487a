-- ===== src/Message.antt =====
-- src/protocol/Message.ts: the versions of the APIs, and which one to use.
pub mod Laws
pub mod Headers
pub mod HeaderLaws
pub mod Requests
pub mod RequestLaws
use kafka_node_ts.Prelude.{Bool, ◌&&◌, Option, none, some, List, [], ◌∷◌, if◌then◌else◌}
use kafka_node_ts.Prelude.Int.{ℤ, pos, leb_ℤ}
use kafka_node_ts.JsMap.{JsMap, int_key, get, set}

pub record VersionRange : Type 0 where
  pub api_key : ℤ
  pub min_version : ℤ
  pub max_version : ℤ

pub record ApiVersions : Type 0 where
  pub version_ranges : JsMap ℤ VersionRange
  pub default_min_version : ℤ
  pub default_max_version : ℤ

-- `new ApiVersions(defaultMaxVersion)`
abbrev pub new_api_versions : ℤ → ApiVersions
new_api_versions default_max_version = record {
  version_ranges = [];
  default_min_version = pos 0;
  default_max_version = default_max_version;
}

unfoldable pub set_ranges : JsMap ℤ VersionRange → List VersionRange → JsMap ℤ VersionRange
set_ranges m [] = m
set_ranges m (range ∷ ranges) = set_ranges (set range.api_key range m) ranges

unfoldable pub update : List VersionRange → ApiVersions → ApiVersions
update ranges v = record v { version_ranges = set_ranges v.version_ranges ranges }

abbrev pub or_default_range : ℤ → ApiVersions → Option VersionRange → VersionRange
or_default_range api_key v none = record {
  api_key = api_key;
  min_version = v.default_min_version;
  max_version = v.default_max_version;
}
or_default_range api_key v (some range) = range

unfoldable pub get_version_range : ℤ → ApiVersions → VersionRange
get_version_range api_key v = or_default_range api_key v (get api_key v.version_ranges)

abbrev pub max_version_of : ℤ → ApiVersions → ℤ
max_version_of api_key v = (get_version_range api_key v).max_version

abbrev pub min_version_of : ℤ → ApiVersions → ℤ
min_version_of api_key v = (get_version_range api_key v).min_version

abbrev pub lies_within : VersionRange → ℤ → Bool
lies_within range version = leb_ℤ range.min_version version && leb_ℤ version range.max_version

unfoldable pub is_version_supported : ℤ → ℤ → ApiVersions → Bool
is_version_supported api_key version v = lies_within (get_version_range api_key v) version

-- A version that was given and is supported, or what follows.
abbrev pub if_supported : VersionRange → Option ℤ → ℤ → ℤ
if_supported range none next = next
if_supported range (some version) next = if lies_within range version then version else next

unfoldable pub select_version : ℤ → (preferred fallback : Option ℤ) → ApiVersions → ℤ
select_version api_key preferred fallback v =
    let range = get_version_range api_key v in
    if_supported range preferred (if_supported range fallback range.max_version)
