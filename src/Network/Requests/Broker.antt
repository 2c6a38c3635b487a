-- ===== src/Network/Requests/Broker.antt =====
-- src/network/protocol/requests/MetadataRequest.ts: what a broker reads from the request.
use kafka_node_ts.Prelude.{
  ℕ, ◌+◌, ◌≡◌, refl, ap, ◌∙◌, sym, Option, none, some, List, [], ◌∷◌, length, All, append-nil,
}
use kafka_node_ts.Prelude.Int.{pos, negsuc}
use kafka_node_ts.Prelude.Errors.{ok}
use kafka_node_ts.Buffer.{Bytes, fits_int, int_bytes}
use kafka_node_ts.Buffer.Numbers.{read_int-at, length-be_bytes}
use kafka_node_ts.Text.{JsString}
use kafka_node_ts.BasicTypes.Numbers.{Decode}
use kafka_node_ts.BasicTypes.StringLaws.{IsWireString}
use kafka_node_ts.Network.Protocol.{read_boolean, read_array}
use kafka_node_ts.Network.Protocol.Fields.{
  Reads, finish, then_decode-Reads, map_decode-Reads, take_text, take_text-Reads, AllRead,
}
use kafka_node_ts.Network.Protocol.RoundTrip.{read_boolean-Reads, read_array-Reads}
use kafka_node_ts.Network.Responses.{◌>>=◌, value_of}
use kafka_node_ts.Network.Requests.{MetadataRequest, encode_metadata_request}
use kafka_node_ts.Network.Requests.Laws.{
  text_bytes, topic_list_bytes, IsWireTopics, metadata_request_bytes, encode_metadata_request-eq,
}

-- The request as the readers of `Protocol.ts` take it apart: `readArray` of strings and three times
-- `readBoolean`.
pub read_request : Decode MetadataRequest
read_request = do
  topics ← read_array take_text
  allow ← read_boolean
  cluster ← read_boolean
  topic ← read_boolean
  finish (record {
    topics = topics;
    allow_auto_topic_creation = allow;
    include_cluster_authorized_operations = cluster;
    include_topic_authorized_operations = topic;
  })

read_array_null-Reads : Reads (read_array take_text) (int_bytes 4 (negsuc 0)) none
unfolding read_array
read_array_null-Reads = record {
  reads = λ pre post.
      rw (read_int-at 3 (length pre) (negsuc 0) pre post refl (unfold fits_int in refl))
        (ap (λ (k : ℕ). ok (none, pos (length pre + k))) (sym (length-be_bytes 4 _)));
}

read_topics-Reads :
    (topics : Option (List JsString))
    → IsWireTopics topics
    → Reads (read_array take_text) (topic_list_bytes topics) topics
read_topics-Reads none h = read_array_null-Reads
read_topics-Reads (some topics) h =
    read_array-Reads take_text text_bytes topics h.0 (all topics h.1)
  where
    all :
        (ts : List JsString) → All (λ t. IsWireString (some t)) ts → AllRead take_text text_bytes ts
    all [] h = tt
    all (t ∷ ts) h = (take_text-Reads t h.0, all ts h.1)

read_request-Reads :
    (r : MetadataRequest) → IsWireTopics r.topics → Reads read_request (metadata_request_bytes r) r
unfolding read_request
read_request-Reads r h = then_decode-Reads _ (read_topics-Reads r.topics h) (
    then_decode-Reads _ (read_boolean-Reads r.allow_auto_topic_creation) (
      then_decode-Reads _ (read_boolean-Reads r.include_cluster_authorized_operations) (
        map_decode-Reads (λ b. record r { include_topic_authorized_operations = b })
          (read_boolean-Reads r.include_topic_authorized_operations))))

-- A metadata request for all topics, or for topics whose names fit the format, is encoded, and the
-- readers of `Protocol.ts` find the same request in its bytes.
pub read_request-encode_metadata_request :
    (r : MetadataRequest)
    → IsWireTopics r.topics
    → (b : Bytes) × (encode_metadata_request r ≡ ok b) × (value_of (read_request b (pos 0)) ≡ ok r)
read_request-encode_metadata_request r h = (
  metadata_request_bytes r,
  encode_metadata_request-eq r h,
  ap (λ (b : Bytes). value_of (read_request b (pos 0)))
        (sym (append-nil (metadata_request_bytes r)))
      ∙ ap value_of ((read_request-Reads r h).reads [] []),
)
