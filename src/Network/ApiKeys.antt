-- ===== src/Network/ApiKeys.antt =====
-- src/network/protocol/ApiKeys.ts, whose enum src/protocol/Message.ts has again as far as it goes:
-- the numbers of the requests, and the version in which each is sent.
pub mod Laws
use kafka_node_ts.Prelude.{ℕ}

pub data ApiKeys : Type 0 where
  produce fetch list_offsets metadata leader_and_isr stop_replica update_metadata : ApiKeys
  controlled_shutdown offset_commit offset_fetch find_coordinator join_group heartbeat : ApiKeys
  leave_group sync_group describe_groups list_groups sasl_handshake api_versions : ApiKeys
  create_topics delete_topics delete_records init_producer_id offset_for_leader_epoch : ApiKeys
  add_partitions_to_txn add_offsets_to_txn end_txn write_txn_markers txn_offset_commit : ApiKeys
  describe_acls create_acls delete_acls describe_configs alter_configs : ApiKeys
  alter_replica_log_dirs describe_log_dirs sasl_authenticate create_partitions : ApiKeys
  create_delegation_token renew_delegation_token expire_delegation_token : ApiKeys
  describe_delegation_token delete_groups elect_leaders incremental_alter_configs : ApiKeys
  alter_partition_reassignments list_partition_reassignments offset_delete : ApiKeys
  describe_client_quotas alter_client_quotas describe_user_scram_credentials : ApiKeys
  alter_user_scram_credentials vote begin_quorum_epoch end_quorum_epoch describe_quorum : ApiKeys
  alter_partition update_features envelope fetch_snapshot describe_cluster : ApiKeys
  describe_producers broker_registration broker_heartbeat unregister_broker : ApiKeys
  describe_transactions list_transactions allocate_producer_ids consumer_group_heartbeat : ApiKeys

-- The number of an enum's member.
abbrev pub api_key_value : ApiKeys → ℕ
api_key_value produce = 0
api_key_value fetch = 1
api_key_value list_offsets = 2
api_key_value metadata = 3
api_key_value leader_and_isr = 4
api_key_value stop_replica = 5
api_key_value update_metadata = 6
api_key_value controlled_shutdown = 7
api_key_value offset_commit = 8
api_key_value offset_fetch = 9
api_key_value find_coordinator = 10
api_key_value join_group = 11
api_key_value heartbeat = 12
api_key_value leave_group = 13
api_key_value sync_group = 14
api_key_value describe_groups = 15
api_key_value list_groups = 16
api_key_value sasl_handshake = 17
api_key_value api_versions = 18
api_key_value create_topics = 19
api_key_value delete_topics = 20
api_key_value delete_records = 21
api_key_value init_producer_id = 22
api_key_value offset_for_leader_epoch = 23
api_key_value add_partitions_to_txn = 24
api_key_value add_offsets_to_txn = 25
api_key_value end_txn = 26
api_key_value write_txn_markers = 27
api_key_value txn_offset_commit = 28
api_key_value describe_acls = 29
api_key_value create_acls = 30
api_key_value delete_acls = 31
api_key_value describe_configs = 32
api_key_value alter_configs = 33
api_key_value alter_replica_log_dirs = 34
api_key_value describe_log_dirs = 35
api_key_value sasl_authenticate = 36
api_key_value create_partitions = 37
api_key_value create_delegation_token = 38
api_key_value renew_delegation_token = 39
api_key_value expire_delegation_token = 40
api_key_value describe_delegation_token = 41
api_key_value delete_groups = 42
api_key_value elect_leaders = 43
api_key_value incremental_alter_configs = 44
api_key_value alter_partition_reassignments = 45
api_key_value list_partition_reassignments = 46
api_key_value offset_delete = 47
api_key_value describe_client_quotas = 48
api_key_value alter_client_quotas = 49
api_key_value describe_user_scram_credentials = 50
api_key_value alter_user_scram_credentials = 51
api_key_value vote = 52
api_key_value begin_quorum_epoch = 53
api_key_value end_quorum_epoch = 54
api_key_value describe_quorum = 55
api_key_value alter_partition = 56
api_key_value update_features = 57
api_key_value envelope = 58
api_key_value fetch_snapshot = 59
api_key_value describe_cluster = 60
api_key_value describe_producers = 61
api_key_value broker_registration = 62
api_key_value broker_heartbeat = 63
api_key_value unregister_broker = 64
api_key_value describe_transactions = 65
api_key_value list_transactions = 66
api_key_value allocate_producer_ids = 67
api_key_value consumer_group_heartbeat = 68

-- `apiVersion`; every member of the enum has an entry, so `|| 0` adds nothing.
abbrev pub api_version : ApiKeys → ℕ
api_version produce = 9
api_version fetch = 13
api_version list_offsets = 7
api_version metadata = 12
api_version leader_and_isr = 6
api_version stop_replica = 3
api_version update_metadata = 7
api_version controlled_shutdown = 3
api_version offset_commit = 8
api_version offset_fetch = 8
api_version find_coordinator = 4
api_version join_group = 9
api_version heartbeat = 4
api_version leave_group = 5
api_version sync_group = 5
api_version describe_groups = 5
api_version list_groups = 4
api_version sasl_handshake = 1
api_version api_versions = 3
api_version create_topics = 7
api_version delete_topics = 6
api_version delete_records = 2
api_version init_producer_id = 4
api_version offset_for_leader_epoch = 4
api_version add_partitions_to_txn = 3
api_version add_offsets_to_txn = 3
api_version end_txn = 3
api_version write_txn_markers = 1
api_version txn_offset_commit = 3
api_version describe_acls = 3
api_version create_acls = 3
api_version delete_acls = 3
api_version describe_configs = 4
api_version alter_configs = 2
api_version alter_replica_log_dirs = 2
api_version describe_log_dirs = 4
api_version sasl_authenticate = 2
api_version create_partitions = 3
api_version create_delegation_token = 3
api_version renew_delegation_token = 2
api_version expire_delegation_token = 2
api_version describe_delegation_token = 3
api_version delete_groups = 2
api_version elect_leaders = 2
api_version incremental_alter_configs = 1
api_version alter_partition_reassignments = 0
api_version list_partition_reassignments = 0
api_version offset_delete = 0
api_version describe_client_quotas = 1
api_version alter_client_quotas = 1
api_version describe_user_scram_credentials = 0
api_version alter_user_scram_credentials = 0
api_version vote = 0
api_version begin_quorum_epoch = 0
api_version end_quorum_epoch = 0
api_version describe_quorum = 0
api_version alter_partition = 0
api_version update_features = 0
api_version envelope = 0
api_version fetch_snapshot = 0
api_version describe_cluster = 0
api_version describe_producers = 0
api_version broker_registration = 0
api_version broker_heartbeat = 0
api_version unregister_broker = 0
api_version describe_transactions = 0
api_version list_transactions = 0
api_version allocate_producer_ids = 0
api_version consumer_group_heartbeat = 0
