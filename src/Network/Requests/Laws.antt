-- ===== src/Network/Requests/Laws.antt =====
-- src/network/protocol/requests: the bytes of the requests, and reading them back.
use kafka_node_ts.Prelude.{
  ℕ, ◌+◌, ◌≡◌, refl, ap, ◌∙◌, Bool, Option, none, some, List, [], ◌∷◌, ◌++◌, length, length-append,
  append-nil, append_assoc, map, All, if◌then◌else◌, arith,
}
use kafka_node_ts.Prelude.Int.{pos, negsuc}
use kafka_node_ts.Prelude.Errors.{ok}
use kafka_node_ts.Buffer.{Bytes, alloc, IsInt, fits_int, fits_uint, int_bytes, be_bytes, to_pattern}
use kafka_node_ts.Buffer.Numbers.{length-be_bytes}
use kafka_node_ts.Buffer.Frontier.{write_uint-next}
use kafka_node_ts.Text.{JsString, utf8, byte_length}
use kafka_node_ts.BasicTypes.ArrayLaws.{joined}
use kafka_node_ts.BasicTypes.StringLaws.{IsWireString, string_bytes}
use kafka_node_ts.Network.Protocol.Fields.{list_bytes}
use kafka_node_ts.Network.Protocol.Filling.{
  Filling, then_fill, fill_text, Fills, then_fill-Fills, fill_int-Fills, fill_text-Fills,
  none-Fills, write_boolean-Fills,
}
use kafka_node_ts.Network.Requests.{
  MetadataRequest, add_topic_sizes, metadata_request_size, fill_topics, fill_topic_list,
  metadata_request_fields, encode_metadata_request, ApiVersionsRequest, encode_versions_request,
}

abbrev pub text_bytes : JsString → Bytes
text_bytes s = string_bytes (some s)

abbrev pub topic_list_bytes : Option (List JsString) → Bytes
topic_list_bytes none = int_bytes 4 (negsuc 0)
topic_list_bytes (some topics) = list_bytes text_bytes topics

abbrev pub IsWireTopics : Option (List JsString) → Type 0
IsWireTopics none = Unit
IsWireTopics (some topics) = IsInt 4 (pos (length topics)) × All (λ t. IsWireString (some t)) topics

length-text : (s : JsString) → length (text_bytes s) ≡ 2 + byte_length s
length-text s = omega (
  arith,
  length-append (int_bytes 2 (pos (byte_length s))) (utf8 s),
  length-be_bytes 2 (to_pattern 2 (pos (byte_length s))),
)

fill_topics-Fills :
    (topics : List JsString)
    → All (λ t. IsWireString (some t)) topics
    → Fills (fill_topics topics) (joined (map text_bytes topics))
unfolding fill_topics
fill_topics-Fills [] h = none-Fills
fill_topics-Fills (t ∷ topics) h =
    then_fill-Fills (fill_text-Fills t h.0) (fill_topics-Fills topics h.1)

fill_topic_list-Fills :
    (topics : Option (List JsString))
    → IsWireTopics topics
    → Fills (fill_topic_list topics) (topic_list_bytes topics)
unfolding fill_topic_list
fill_topic_list-Fills none h = fill_int-Fills 4 (negsuc 0) (unfold fits_int in refl)
fill_topic_list-Fills (some topics) h =
    then_fill-Fills (fill_int-Fills 4 (pos (length topics)) h.0) (fill_topics-Fills topics h.1)

-- The size that is counted before is the number of bytes that are written.
add_topic_sizes-length :
    (size : ℕ) (topics : List JsString)
    → add_topic_sizes size topics ≡ size + length (joined (map text_bytes topics))
unfolding add_topic_sizes
add_topic_sizes-length size [] = omega arith
add_topic_sizes-length size (t ∷ topics) = omega (
  arith,
  add_topic_sizes-length (size + (2 + byte_length t)) topics,
  length-append (text_bytes t) (joined (map text_bytes topics)),
  length-text t,
)

metadata_request_size-length :
    (topics : Option (List JsString))
    → metadata_request_size topics ≡ length (topic_list_bytes topics) + 3
unfolding metadata_request_size
metadata_request_size-length none = omega (arith, length-be_bytes 4 (to_pattern 4 (negsuc 0)))
metadata_request_size-length (some topics) = omega (
  arith,
  add_topic_sizes-length 4 topics,
  length-append (int_bytes 4 (pos (length topics))) (joined (map text_bytes topics)),
  length-be_bytes 4 (to_pattern 4 (pos (length topics))),
)

abbrev flag_bytes : Bool → Bytes
flag_bytes b = int_bytes 1 (if b then pos 1 else pos 0)

abbrev pub metadata_request_bytes : MetadataRequest → Bytes
metadata_request_bytes r =
    topic_list_bytes r.topics
    ++ (flag_bytes r.allow_auto_topic_creation
        ++ (flag_bytes r.include_cluster_authorized_operations
            ++ flag_bytes r.include_topic_authorized_operations))

length-flag : (b : Bool) → length (flag_bytes b) ≡ 1
length-flag b = length-be_bytes 1 (to_pattern 1 (if b then pos 1 else pos 0))

metadata_request_fields-Fills :
    (r : MetadataRequest)
    → IsWireTopics r.topics
    → Fills (metadata_request_fields r) (metadata_request_bytes r)
unfolding metadata_request_fields
metadata_request_fields-Fills r h = then_fill-Fills (fill_topic_list-Fills r.topics h) (
    then_fill-Fills (write_boolean-Fills r.allow_auto_topic_creation) (
      then_fill-Fills (write_boolean-Fills r.include_cluster_authorized_operations)
        (write_boolean-Fills r.include_topic_authorized_operations)))

size-length :
    (r : MetadataRequest) → metadata_request_size r.topics ≡ length (metadata_request_bytes r) + 0
size-length r =
    let a = flag_bytes r.allow_auto_topic_creation in
    let b = flag_bytes r.include_cluster_authorized_operations in
    let c = flag_bytes r.include_topic_authorized_operations in
    omega (
      arith,
      metadata_request_size-length r.topics,
      length-append (topic_list_bytes r.topics) (a ++ (b ++ c)),
      length-append a (b ++ c),
      length-append b c,
      length-flag r.allow_auto_topic_creation,
      length-flag r.include_cluster_authorized_operations,
      length-flag r.include_topic_authorized_operations,
    )

filled :
    (fill : Filling) (b : Bytes) (n m : ℕ)
    → Fills fill b
    → n ≡ length b + m
    → fill (alloc n) 0 ≡ ok (b ++ alloc m, length b)
filled fill b n m h e = h.fills [] 0 n m refl e ∙ ap (λ (k : ℕ). ok (b ++ alloc m, k)) (omega arith)

pub encode_metadata_request-eq :
    (r : MetadataRequest)
    → IsWireTopics r.topics
    → encode_metadata_request r ≡ ok (metadata_request_bytes r)
unfolding encode_metadata_request
encode_metadata_request-eq r h =
    rw
      (filled (metadata_request_fields r) (metadata_request_bytes r)
        (metadata_request_size r.topics) 0 (metadata_request_fields-Fills r h) (size-length r))
      (ap ok (append-nil (metadata_request_bytes r)))

-- `ApiVersionsRequest.encode` allocates four bytes for the tagged fields and fills one: the body is the
-- name and the version, each behind its length, and four zeros, where the format has one.
pub encode_versions_request-eq :
    (r : ApiVersionsRequest)
    → IsWireString (some r.client_software_name)
    → IsWireString (some r.client_software_version)
    → encode_versions_request r
      ≡ ok ((text_bytes r.client_software_name ++ text_bytes r.client_software_version) ++ alloc 4)
unfolding encode_versions_request
encode_versions_request-eq r h k =
    let name = r.client_software_name in
    let version = r.client_software_version in
    let b : Bytes = text_bytes name ++ text_bytes version in
    rw
      (filled (then_fill (fill_text name) (fill_text version)) b
        (2 + byte_length name + 2 + byte_length version + 4) 4
        (then_fill-Fills (fill_text-Fills name h) (fill_text-Fills version k))
        (omega (
          arith,
          length-text name,
          length-text version,
          length-append (text_bytes name) (text_bytes version),
        )))
      (write_uint-next b (length b) 4 3 refl 1 (pos 0) (unfold fits_uint in refl) refl
        ∙ ap ok (append_assoc b (int_bytes 1 (pos 0)) (alloc 3))
        ∙ (unfold be_bytes to_pattern in refl))
