-- ===== src/Network/Responses/Versions.antt =====
-- src/network/protocol/responses/ApiVersionsResponse.ts: version ranges are read back.
use kafka_node_ts.Prelude.{◌≡◌, [], ◌++◌}
use kafka_node_ts.Prelude.Errors.{ok}
use kafka_node_ts.Buffer.{Bytes, IsInt, int_bytes}
use kafka_node_ts.Network.Protocol.Fields.{
  Reads, then_decode-Reads, finish-Reads, take_int-Reads, list_bytes,
}
use kafka_node_ts.Network.Responses.{
  ApiVersionRange, ApiVersionsResponse, parse_range, versions_fields, parse_versions,
}
use kafka_node_ts.Network.Responses.Laws.{IsWireList, wire_list-Reads, value-Reads}

abbrev pub range_bytes : ApiVersionRange → Bytes
range_bytes r =
    int_bytes 2 r.api_key ++ (int_bytes 2 r.min_version ++ (int_bytes 2 r.max_version ++ []))

abbrev pub IsWireRange : ApiVersionRange → Type 0
IsWireRange r = IsInt 2 r.api_key × IsInt 2 r.min_version × IsInt 2 r.max_version

parse_range-Reads : (r : ApiVersionRange) → IsWireRange r → Reads parse_range (range_bytes r) r
unfolding parse_range
parse_range-Reads r (k, lo, hi) = then_decode-Reads _ (take_int-Reads 1 r.api_key k) (
    then_decode-Reads _ (take_int-Reads 1 r.min_version lo)
      (then_decode-Reads _ (take_int-Reads 1 r.max_version hi) (finish-Reads r)))

-- The fields in the order in which the parser reads them.
abbrev pub versions_bytes : ApiVersionsResponse → Bytes
versions_bytes v =
    int_bytes 2 v.error_code
    ++ (int_bytes 4 v.throttle_time_ms ++ (list_bytes range_bytes v.api_versions ++ []))

abbrev pub IsWireVersions : ApiVersionsResponse → Type 0
IsWireVersions v =
    IsInt 2 v.error_code × IsInt 4 v.throttle_time_ms × IsWireList IsWireRange v.api_versions

versions_fields-Reads :
    (v : ApiVersionsResponse) → IsWireVersions v → Reads versions_fields (versions_bytes v) v
unfolding versions_fields
versions_fields-Reads v (e, t, rs) = then_decode-Reads _ (take_int-Reads 1 v.error_code e) (
    then_decode-Reads _ (take_int-Reads 3 v.throttle_time_ms t) (
      then_decode-Reads _
        (wire_list-Reads IsWireRange parse_range range_bytes parse_range-Reads v.api_versions rs)
        (finish-Reads v)))

-- A list of version ranges whose numbers fit their fields is what `ApiVersionsResponse.parse` returns
-- for these bytes: the error code, the throttle time, an int32 count and three int16 numbers for each
-- range. Bytes behind them make no difference.
pub parse_versions-versions_bytes :
    (v : ApiVersionsResponse) (rest : Bytes)
    → IsWireVersions v
    → parse_versions (versions_bytes v ++ rest) ≡ ok v
unfolding parse_versions
parse_versions-versions_bytes v rest w = value-Reads (versions_fields-Reads v w) rest
