-- ===== src/Network/Requests.antt =====
-- src/network/protocol/requests: the bodies of requests. `encode` allocates the size that it has
-- counted, and writes each field where the last one ended.
pub mod Laws
pub mod Broker
use kafka_node_ts.Prelude.{ℕ, ◌+◌, Bool, false, Option, none, some, List, [], ◌∷◌, length}
use kafka_node_ts.Prelude.Int.{ℤ, pos, negsuc}
use kafka_node_ts.Prelude.Errors.{Result, ok, ◌>>=◌}
use kafka_node_ts.Buffer.{Bytes, alloc, write_uint}
use kafka_node_ts.Text.{JsString, byte_length}
use kafka_node_ts.Network.Protocol.{write_boolean}
use kafka_node_ts.Network.Protocol.Filling.{Filling, then_fill, fill_int, fill_text}

pub record MetadataRequest : Type 0 where
  pub topics : Option (List JsString)
  pub allow_auto_topic_creation : Bool
  pub include_cluster_authorized_operations : Bool
  pub include_topic_authorized_operations : Bool

-- `for (const topic of this.topics) size += 2 + Buffer.byteLength(topic)`
unfoldable pub add_topic_sizes : ℕ → List JsString → ℕ
add_topic_sizes size [] = size
add_topic_sizes size (topic ∷ topics) = add_topic_sizes (size + (2 + byte_length topic)) topics

unfoldable pub metadata_request_size : Option (List JsString) → ℕ
metadata_request_size none = 4 + 1 + 1 + 1
metadata_request_size (some topics) = add_topic_sizes 4 topics + 1 + 1 + 1

-- `for (const topic of this.topics) ...`
unfoldable pub fill_topics : List JsString → Filling
fill_topics [] buffer offset = ok (buffer, offset)
fill_topics (topic ∷ topics) buffer offset =
    then_fill (fill_text topic) (fill_topics topics) buffer offset

unfoldable pub fill_topic_list : Option (List JsString) → Filling
fill_topic_list none = fill_int 4 (negsuc 0)
fill_topic_list (some topics) = then_fill (fill_int 4 (pos (length topics))) (fill_topics topics)

-- The fields in their order, each behind the last one.
unfoldable pub metadata_request_fields : MetadataRequest → Filling
metadata_request_fields r = then_fill (fill_topic_list r.topics) (
    then_fill (λ buffer offset. write_boolean buffer r.allow_auto_topic_creation offset)
      (then_fill
        (λ buffer offset. write_boolean buffer r.include_cluster_authorized_operations offset)
        (λ buffer offset. write_boolean buffer r.include_topic_authorized_operations offset)))

-- `MetadataRequest.encode`
unfoldable pub encode_metadata_request : MetadataRequest → Result Bytes
encode_metadata_request r = do
  let buffer = alloc (metadata_request_size r.topics)
  (buffer, offset) ← metadata_request_fields r buffer 0
  ok buffer

-- `MetadataRequest.forAllTopics()` and `MetadataRequest.forTopics(topics)`
abbrev pub for_all_topics : MetadataRequest
for_all_topics = record {
  topics = none;
  allow_auto_topic_creation = false;
  include_cluster_authorized_operations = false;
  include_topic_authorized_operations = false;
}

abbrev pub for_topics : List JsString → MetadataRequest
for_topics topics = record for_all_topics { topics = some topics }

pub record ApiVersionsRequest : Type 0 where
  pub client_software_name : JsString
  pub client_software_version : JsString

-- `ApiVersionsRequest.create()`: 'node-kafka-client' and '1.0.0'.
abbrev pub create_versions_request : ApiVersionsRequest
create_versions_request = record {
  client_software_name =
      110 ∷ 111 ∷ 100 ∷ 101 ∷ 45 ∷ 107 ∷ 97 ∷ 102 ∷ 107 ∷ 97 ∷ 45 ∷ 99 ∷ 108 ∷ 105 ∷ 101 ∷ 110 ∷ 116
      ∷ [];
  client_software_version = 49 ∷ 46 ∷ 48 ∷ 46 ∷ 48 ∷ [];
}

-- `ApiVersionsRequest.encode`
unfoldable pub encode_versions_request : ApiVersionsRequest → Result Bytes
encode_versions_request r = do
  let name = r.client_software_name
  let version = r.client_software_version
  let buffer = alloc (2 + byte_length name + 2 + byte_length version + 4)
  (buffer, offset) ← then_fill (fill_text name) (fill_text version) buffer 0
  write_uint 1 buffer (pos 0) offset
