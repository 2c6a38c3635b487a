-- ===== src/Network/Responses/Laws.antt =====
-- src/network/protocol/responses: metadata written as the parser expects it is read back.
use kafka_node_ts.Prelude.{
  ◌≡◌, refl, ap, not, Bool, true, false, some, List, [], ◌∷◌, ◌++◌, length, All, if◌then◌else◌,
}
use kafka_node_ts.Prelude.Int.{ℤ, pos, eq_ℤ}
use kafka_node_ts.Prelude.Errors.{ok}
use kafka_node_ts.Buffer.{Bytes, IsInt, fits_int, int_bytes}
use kafka_node_ts.BasicTypes.Numbers.{Decode}
use kafka_node_ts.BasicTypes.StringLaws.{IsWireString, string_bytes}
use kafka_node_ts.ClusterMetadata.Changes.{Broker, PartitionMetadata, TopicMetadata}
use kafka_node_ts.Network.Protocol.Fields.{
  take_int, take_list, finish, Reads, then_decode-Reads, finish-Reads, take_int-Reads,
  take_text-Reads, take_nullable-Reads, take_list-Reads, list_bytes,
}
use kafka_node_ts.Network.Responses.{
  parse_broker, parse_partition, parse_topic, metadata_fields, parse_metadata, MetadataResponse,
  value_of,
}

-- A list as the wire carries it: a count that fits an int32, and elements that it can carry.
abbrev pub IsWireList {ℓ} : {A : Type ℓ} → (A → Type 0) → List A → Type 0
IsWireList P vs = IsInt 4 (pos (length vs)) × All P vs

module _ {ℓ} {A : Type ℓ} (P : A → Type 0) (decode : Decode A) (bytes_of : A → Bytes)
    (h : (v : A) → P v → Reads decode (bytes_of v) v) where
  pub wire_list-Reads :
      (vs : List A) → IsWireList P vs → Reads (take_list decode) (list_bytes bytes_of vs) vs
  wire_list-Reads vs w = take_list-Reads decode bytes_of vs w.0 (all vs w.1)
    where
      all : (vs : List A) → All P vs → All (λ v. Reads decode (bytes_of v) v) vs
      all [] a = tt
      all (v ∷ vs) a = (h v a.0, all vs a.1)

int32s-Reads :
    (vs : List ℤ)
    → IsWireList (IsInt 4) vs
    → Reads (take_list (take_int 4)) (list_bytes (int_bytes 4) vs) vs
int32s-Reads = wire_list-Reads (IsInt 4) (take_int 4) (int_bytes 4) (take_int-Reads 3)

abbrev pub broker_bytes : Broker → Bytes
broker_bytes b =
    int_bytes 4 b.node_id
    ++ (string_bytes (some b.host) ++ (int_bytes 4 b.port ++ (string_bytes b.rack ++ [])))

abbrev pub IsWireBroker : Broker → Type 0
IsWireBroker b =
    IsInt 4 b.node_id × IsWireString (some b.host) × IsInt 4 b.port × IsWireString b.rack

pub parse_broker-Reads : (b : Broker) → IsWireBroker b → Reads parse_broker (broker_bytes b) b
unfolding parse_broker
parse_broker-Reads b (n, h, p, r) = then_decode-Reads _ (take_int-Reads 3 b.node_id n) (
    then_decode-Reads _ (take_text-Reads b.host h) (
      then_decode-Reads _ (take_int-Reads 3 b.port p)
        (then_decode-Reads _ (take_nullable-Reads b.rack r) (finish-Reads b))))

abbrev pub partition_bytes : PartitionMetadata → Bytes
partition_bytes p =
    int_bytes 2 p.error_code
    ++ (int_bytes 4 p.partition_index
        ++ (int_bytes 4 p.leader_id
            ++ (int_bytes 4 p.leader_epoch
                ++ (list_bytes (int_bytes 4) p.replica_nodes
                    ++ (list_bytes (int_bytes 4) p.isr_nodes
                        ++ (list_bytes (int_bytes 4) p.offline_replicas ++ []))))))

abbrev pub IsWirePartition : PartitionMetadata → Type 0
IsWirePartition p =
    IsInt 2 p.error_code
    × IsInt 4 p.partition_index
    × IsInt 4 p.leader_id
    × IsInt 4 p.leader_epoch
    × IsWireList (IsInt 4) p.replica_nodes
    × IsWireList (IsInt 4) p.isr_nodes
    × IsWireList (IsInt 4) p.offline_replicas

pub parse_partition-Reads :
    (p : PartitionMetadata) → IsWirePartition p → Reads parse_partition (partition_bytes p) p
unfolding parse_partition
parse_partition-Reads p (e, i, l, c, rs, is, os) =
    then_decode-Reads _ (take_int-Reads 1 p.error_code e) (
      then_decode-Reads _ (take_int-Reads 3 p.partition_index i) (
        then_decode-Reads _ (take_int-Reads 3 p.leader_id l) (
          then_decode-Reads _ (take_int-Reads 3 p.leader_epoch c) (
            then_decode-Reads _ (int32s-Reads p.replica_nodes rs) (
              then_decode-Reads _ (int32s-Reads p.isr_nodes is)
                (then_decode-Reads _ (int32s-Reads p.offline_replicas os) (finish-Reads p)))))))

abbrev pub flag : Bool → ℤ
flag b = if b then pos 1 else pos 0

flag-Reads : (b : Bool) → Reads (take_int 1) (int_bytes 1 (flag b)) (flag b)
flag-Reads true = take_int-Reads 0 (pos 1) (unfold fits_int in refl)
flag-Reads false = take_int-Reads 0 (pos 0) (unfold fits_int in refl)

abbrev pub topic_bytes : TopicMetadata → Bytes
topic_bytes t =
    int_bytes 2 t.error_code
    ++ (string_bytes (some t.name)
        ++ (int_bytes 1 (flag t.is_internal)
            ++ (list_bytes partition_bytes t.partitions
                ++ (int_bytes 4 t.topic_authorized_operations ++ []))))

abbrev pub IsWireTopic : TopicMetadata → Type 0
IsWireTopic t =
    IsInt 2 t.error_code
    × IsWireString (some t.name)
    × IsWireList IsWirePartition t.partitions
    × IsInt 4 t.topic_authorized_operations

flag_is : (b : Bool) → not (eq_ℤ (flag b) (pos 0)) ≡ b
flag_is true = refl
flag_is false = refl

-- A flag is read back as the boolean that it stands for.
finish-flag-Reads :
    (t : TopicMetadata)
    → Reads (finish (record t { is_internal = not (eq_ℤ (flag t.is_internal) (pos 0)) })) [] t
finish-flag-Reads t = rw (flag_is t.is_internal) (finish-Reads t)

pub parse_topic-Reads : (t : TopicMetadata) → IsWireTopic t → Reads parse_topic (topic_bytes t) t
unfolding parse_topic
parse_topic-Reads t (e, n, ps, o) = then_decode-Reads _ (take_int-Reads 1 t.error_code e) (
    then_decode-Reads _ (take_text-Reads t.name n) (
      then_decode-Reads _ (flag-Reads t.is_internal) (
        then_decode-Reads _
          (wire_list-Reads IsWirePartition parse_partition partition_bytes parse_partition-Reads
            t.partitions ps)
          (then_decode-Reads _ (take_int-Reads 3 t.topic_authorized_operations o)
            (finish-flag-Reads t)))))

abbrev pub metadata_bytes : MetadataResponse → Bytes
metadata_bytes m =
    int_bytes 4 m.throttle_time_ms
    ++ (list_bytes broker_bytes m.brokers
        ++ (string_bytes m.cluster_id
            ++ (int_bytes 4 m.controller_id
                ++ (list_bytes topic_bytes m.topics
                    ++ (int_bytes 4 m.cluster_authorized_operations ++ [])))))

abbrev pub IsWireMetadata : MetadataResponse → Type 0
IsWireMetadata m =
    IsInt 4 m.throttle_time_ms
    × IsWireList IsWireBroker m.brokers
    × IsWireString m.cluster_id
    × IsInt 4 m.controller_id
    × IsWireList IsWireTopic m.topics
    × IsInt 4 m.cluster_authorized_operations

metadata_fields-Reads :
    (m : MetadataResponse) → IsWireMetadata m → Reads metadata_fields (metadata_bytes m) m
unfolding metadata_fields
metadata_fields-Reads m (t, bs, c, k, ts, o) =
    then_decode-Reads _ (take_int-Reads 3 m.throttle_time_ms t) (
      then_decode-Reads _
        (wire_list-Reads IsWireBroker parse_broker broker_bytes parse_broker-Reads m.brokers bs)
        (then_decode-Reads _ (take_nullable-Reads m.cluster_id c) (
          then_decode-Reads _ (take_int-Reads 3 m.controller_id k) (
            then_decode-Reads _
              (wire_list-Reads IsWireTopic parse_topic topic_bytes parse_topic-Reads m.topics ts)
              (then_decode-Reads _ (take_int-Reads 3 m.cluster_authorized_operations o)
                (finish-Reads m))))))

-- A decoder that reads `v` from `b` reads it at the front of a buffer.
pub value-Reads {ℓ} :
    {A : Type ℓ} {decode : Decode A} {b : Bytes} {v : A}
    → Reads decode b v
    → (rest : Bytes) → value_of (decode (b ++ rest) (pos 0)) ≡ ok v
value-Reads h rest = ap value_of (h.reads [] rest)

-- A metadata response whose numbers, strings and lists fit their fields is what
-- `MetadataResponse.parse` returns for its bytes: the fields in their order, an int32 count before
-- each list, an int16 length before each string and -1 for null. Bytes behind them make no
-- difference.
pub parse_metadata-metadata_bytes :
    (m : MetadataResponse) (rest : Bytes)
    → IsWireMetadata m
    → parse_metadata (metadata_bytes m ++ rest) ≡ ok m
unfolding parse_metadata
parse_metadata-metadata_bytes m rest w = value-Reads (metadata_fields-Reads m w) rest
