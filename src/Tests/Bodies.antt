-- ===== src/Tests/Bodies.antt =====
-- src/network/protocol: the bodies of a metadata request and of the two responses.
use kafka_node_ts.Prelude.{◌≡◌, refl, inl, true, none, some, [], ◌∷◌, ◌++◌, ◌+◌, length, arith}
use kafka_node_ts.Prelude.Int.{pos, negsuc}
use kafka_node_ts.Prelude.Errors.{ok}
use kafka_node_ts.Buffer.{Bytes, alloc, IsInt, fits_int}
use kafka_node_ts.Text.{JsString, utf8}
use kafka_node_ts.Text.RoundTrip.{nil, unit}
use kafka_node_ts.BasicTypes.StringLaws.{IsWireString}
use kafka_node_ts.ClusterMetadata.Changes.{Broker, PartitionMetadata, TopicMetadata}
use kafka_node_ts.Network.Protocol.{write_nullable, read_nullable, write_array, read_array}
use kafka_node_ts.Network.Protocol.RoundTrip.{read_array-write_array}
use kafka_node_ts.Network.Requests.{for_topics, encode_metadata_request}
use kafka_node_ts.Network.Requests.Broker.{read_request, read_request-encode_metadata_request}
use kafka_node_ts.Network.Responses.{
  MetadataResponse, ApiVersionsResponse, parse_metadata, parse_versions, value_of,
}
use kafka_node_ts.Network.Responses.Laws.{
  IsWirePartition, IsWireMetadata, metadata_bytes, parse_metadata-metadata_bytes,
}
use kafka_node_ts.Network.Responses.Versions.{
  IsWireVersions, versions_bytes, parse_versions-versions_bytes,
}

-- The string "a".
abbrev a : JsString
a = 97 ∷ []

a-IsWireString : IsWireString (some a)
a-IsWireString = (unit 97 (inl (omega arith)) nil, unfold fits_int utf8 in refl)

abbrev broker : Broker
broker = record { node_id = pos 1; host = a; port = pos 9092; rack = none }

abbrev partition : PartitionMetadata
partition = record {
  error_code = pos 0;
  partition_index = pos 0;
  leader_id = negsuc 0;
  leader_epoch = pos 4;
  replica_nodes = pos 1 ∷ pos 2 ∷ [];
  isr_nodes = [];
  offline_replicas = pos 2 ∷ [];
}

abbrev topic : TopicMetadata
topic = record {
  error_code = pos 0;
  name = a;
  is_internal = true;
  partitions = partition ∷ [];
  topic_authorized_operations = pos 0;
}

abbrev metadata : MetadataResponse
metadata = record {
  throttle_time_ms = pos 0;
  brokers = broker ∷ [];
  cluster_id = some a;
  controller_id = pos 1;
  topics = topic ∷ [];
  cluster_authorized_operations = pos 0;
}

partition-IsWire : IsWirePartition partition
unfolding fits_int
partition-IsWire =
    (refl, refl, refl, refl, (refl, (refl, (refl, tt))), (refl, tt), (refl, (refl, tt)))

metadata-IsWire : IsWireMetadata metadata
unfolding fits_int
metadata-IsWire = (
  refl,
  (refl, ((refl, a-IsWireString, refl, tt), tt)),
  a-IsWireString,
  refl,
  (refl, ((refl, a-IsWireString, (refl, (partition-IsWire, tt)), refl), tt)),
  refl,
)

parse_metadata-metadata_bytes_example :
    parse_metadata (metadata_bytes metadata ++ 1 ∷ []) ≡ ok metadata
parse_metadata-metadata_bytes_example =
    parse_metadata-metadata_bytes metadata (1 ∷ []) metadata-IsWire

abbrev versions : ApiVersionsResponse
versions = record {
  error_code = pos 0;
  api_versions = record { api_key = pos 3; min_version = pos 0; max_version = pos 12 } ∷ [];
  throttle_time_ms = pos 7;
}

versions-IsWire : IsWireVersions versions
unfolding fits_int
versions-IsWire = (refl, refl, (refl, ((refl, refl, refl), tt)))

parse_versions-versions_bytes_example : parse_versions (versions_bytes versions ++ []) ≡ ok versions
parse_versions-versions_bytes_example = parse_versions-versions_bytes versions [] versions-IsWire

count_fits : IsInt 4 (pos 1)
count_fits = unfold fits_int in refl

read_request-encode_metadata_request_example :
    (b : Bytes) × (encode_metadata_request (for_topics (a ∷ [])) ≡ ok b)
    × (value_of (read_request b (pos 0)) ≡ ok (for_topics (a ∷ [])))
read_request-encode_metadata_request_example =
    read_request-encode_metadata_request (for_topics (a ∷ [])) (count_fits, (a-IsWireString, tt))

abbrev front : Bytes
front = 9 ∷ []

read_array-write_array_example :
    (b : Bytes) × (write_array write_nullable
        (front ++ alloc (length b))
        (some (some a ∷ []))
        (length front)
      ≡ ok (front ++ b, length front + length b))
    × (read_array read_nullable ((front ++ b) ++ 5 ∷ []) (pos (length front))
        ≡ ok (some (some a ∷ []), pos (length front + length b)))
read_array-write_array_example =
    read_array-write_array (some a ∷ []) front (5 ∷ []) count_fits (a-IsWireString, tt)
