-- ===== src/Network/ApiKeys/Laws.antt =====
-- src/network/protocol/ApiKeys.ts: every API's header can be written.
use kafka_node_ts.Prelude.{
  ℕ, zero, suc, ◌<◌, ◌≡◌, refl, sym, ap, ◌∙◌, Option, none, some, List, [], ◌∷◌, arith,
}
use kafka_node_ts.Prelude.Int.{ℤ, pos}
use kafka_node_ts.Buffer.{IsInt, fits_int, fits_uint}
use kafka_node_ts.Text.{JsString}
use kafka_node_ts.BasicTypes.StringLaws.{IsWireString}
use kafka_node_ts.Message.Headers.{new_request_header}
use kafka_node_ts.Message.HeaderLaws.{Fits}
use kafka_node_ts.Network.ApiKeys.{
  ApiKeys, api_key_value, api_version, produce, fetch, list_offsets, metadata, leader_and_isr,
  stop_replica, update_metadata, controlled_shutdown, offset_commit, offset_fetch, find_coordinator,
  join_group, heartbeat, leave_group, sync_group, describe_groups, list_groups, sasl_handshake,
  api_versions, create_topics, delete_topics, delete_records, init_producer_id,
  offset_for_leader_epoch, add_partitions_to_txn, add_offsets_to_txn, end_txn, write_txn_markers,
  txn_offset_commit, describe_acls, create_acls, delete_acls, describe_configs, alter_configs,
  alter_replica_log_dirs, describe_log_dirs, sasl_authenticate, create_partitions,
  create_delegation_token, renew_delegation_token, expire_delegation_token,
  describe_delegation_token, delete_groups, elect_leaders, incremental_alter_configs,
  alter_partition_reassignments, list_partition_reassignments, offset_delete,
  describe_client_quotas, alter_client_quotas, describe_user_scram_credentials,
  alter_user_scram_credentials, vote, begin_quorum_epoch, end_quorum_epoch, describe_quorum,
  alter_partition, update_features, envelope, fetch_snapshot, describe_cluster, describe_producers,
  broker_registration, broker_heartbeat, unregister_broker, describe_transactions,
  list_transactions, allocate_producer_ids, consumer_group_heartbeat,
}

key_bound : (k : ApiKeys) → api_key_value k < 69
key_bound produce = omega arith
key_bound _ = omega arith

version_bound : (k : ApiKeys) → api_version k < 14
version_bound produce = omega arith
version_bound _ = omega arith

-- The members in the order of their numbers.
abbrev all_keys : List ApiKeys
all_keys =
    produce ∷ fetch ∷ list_offsets ∷ metadata ∷ leader_and_isr ∷ stop_replica ∷ update_metadata
    ∷ controlled_shutdown ∷ offset_commit ∷ offset_fetch ∷ find_coordinator ∷ join_group ∷ heartbeat
    ∷ leave_group ∷ sync_group ∷ describe_groups ∷ list_groups ∷ sasl_handshake ∷ api_versions
    ∷ create_topics ∷ delete_topics ∷ delete_records ∷ init_producer_id ∷ offset_for_leader_epoch
    ∷ add_partitions_to_txn ∷ add_offsets_to_txn ∷ end_txn ∷ write_txn_markers ∷ txn_offset_commit
    ∷ describe_acls ∷ create_acls ∷ delete_acls ∷ describe_configs ∷ alter_configs
    ∷ alter_replica_log_dirs ∷ describe_log_dirs ∷ sasl_authenticate ∷ create_partitions
    ∷ create_delegation_token ∷ renew_delegation_token ∷ expire_delegation_token
    ∷ describe_delegation_token ∷ delete_groups ∷ elect_leaders ∷ incremental_alter_configs
    ∷ alter_partition_reassignments ∷ list_partition_reassignments ∷ offset_delete
    ∷ describe_client_quotas ∷ alter_client_quotas ∷ describe_user_scram_credentials
    ∷ alter_user_scram_credentials ∷ vote ∷ begin_quorum_epoch ∷ end_quorum_epoch ∷ describe_quorum
    ∷ alter_partition ∷ update_features ∷ envelope ∷ fetch_snapshot ∷ describe_cluster
    ∷ describe_producers ∷ broker_registration ∷ broker_heartbeat ∷ unregister_broker
    ∷ describe_transactions ∷ list_transactions ∷ allocate_producer_ids ∷ consumer_group_heartbeat
    ∷ []

abbrev nth : ℕ → List ApiKeys → Option ApiKeys
nth n [] = none
nth zero (k ∷ ks) = some k
nth (suc n) (k ∷ ks) = nth n ks

nth-all_keys : (k : ApiKeys) → nth (api_key_value k) all_keys ≡ some k
nth-all_keys produce = refl
nth-all_keys _ = refl

api_key_value_inj : (j k : ApiKeys) → api_key_value j ≡ api_key_value k → j ≡ k
api_key_value_inj j k e =
    some_inj (sym (nth-all_keys j) ∙ ap (λ (n : ℕ). nth n all_keys) e ∙ nth-all_keys k)
  where
    some_inj : some j ≡ some k → j ≡ k
    some_inj h = cc

-- For every API, with a correlation id that fits an int32 and a client id that the format carries: the
-- header with the API's number and the version that `apiVersion` tells fits its fields, and no other
-- API has that number.
pub api_header-Fits :
    (k : ApiKeys) (id : ℤ) (client_id : Option JsString)
    → IsInt 4 id
    → IsWireString client_id
    → Fits (new_request_header (pos (api_key_value k)) (pos (api_version k)) id client_id)
      × ((j : ApiKeys) → api_key_value j ≡ api_key_value k → j ≡ k)
unfolding fits_int fits_uint
api_header-Fits k id client_id fits text = (
  record {
    key_fits = ground (arith, key_bound k);
    version_fits = ground (arith, version_bound k);
    id_fits = fits;
    client_fits = text;
    tag_fits = refl;
  },
  λ j e. api_key_value_inj j k e,
)
