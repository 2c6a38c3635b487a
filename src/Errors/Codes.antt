-- ===== src/Errors/Codes.antt =====
-- src/errors/KafkaErrorCodes.ts: the protocol's error codes.
use kafka_node_ts.Prelude.{ℕ}

pub data KafkaErrorCode : Type 0 where
  no_error unknown_server_error offset_out_of_range corrupt_message : KafkaErrorCode
  unknown_topic_or_partition invalid_message leader_not_available request_timed_out : KafkaErrorCode
  broker_not_available replica_not_available message_too_large stale_controller_epoch :
      KafkaErrorCode
  offset_metadata_too_large network_exception coordinator_load_in_progress : KafkaErrorCode
  coordinator_not_available not_coordinator invalid_topic_exception record_list_too_large :
      KafkaErrorCode
  not_enough_replicas not_enough_replicas_after_append invalid_required_acks : KafkaErrorCode
  illegal_generation inconsistent_group_protocol invalid_group_id unknown_member_id : KafkaErrorCode
  invalid_session_timeout rebalance_in_progress invalid_commit_offset_size : KafkaErrorCode
  topic_authorization_failed group_authorization_failed cluster_authorization_failed :
      KafkaErrorCode
  invalid_timestamp unsupported_sasl_mechanism illegal_sasl_state unsupported_version :
      KafkaErrorCode
  topic_already_exists invalid_partitions invalid_replication_factor : KafkaErrorCode
  invalid_replica_assignment invalid_config not_controller invalid_request : KafkaErrorCode
  unsupported_for_message_format policy_violation out_of_order_sequence_number : KafkaErrorCode
  duplicate_sequence_number invalid_producer_epoch invalid_txn_state : KafkaErrorCode
  invalid_producer_id_mapping invalid_transaction_timeout concurrent_transactions : KafkaErrorCode
  transaction_coordinator_fenced transactional_id_authorization_failed security_disabled :
      KafkaErrorCode
  operation_not_attempted kafka_storage_error log_dir_not_found sasl_authentication_failed :
      KafkaErrorCode
  unknown_producer_id reassignment_in_progress delegation_token_auth_disabled : KafkaErrorCode
  delegation_token_not_found delegation_token_owner_mismatch : KafkaErrorCode
  delegation_token_request_not_allowed delegation_token_authorization_failed : KafkaErrorCode
  delegation_token_expired invalid_principal_type non_empty_group group_id_not_found :
      KafkaErrorCode
  fetch_session_id_not_found invalid_fetch_session_epoch listener_not_found : KafkaErrorCode
  topic_deletion_disabled fenced_leader_epoch unknown_leader_epoch : KafkaErrorCode
  unsupported_compression_type stale_broker_epoch offset_not_available member_id_required :
      KafkaErrorCode
  preferred_leader_not_available group_max_size_reached fenced_instance_id : KafkaErrorCode
  eligible_leaders_not_available election_not_needed no_reassignment_in_progress : KafkaErrorCode
  group_subscribed_to_topic invalid_record unstable_offset_commit throttling_quota_exceeded :
      KafkaErrorCode
  producer_fenced resource_not_found duplicate_resource unacceptable_credential : KafkaErrorCode
  inconsistent_voter_set invalid_update_version feature_update_failed : KafkaErrorCode
  principal_deserialization_failure : KafkaErrorCode

-- The number of an enum's member. `no_error` is `NONE`.
abbrev pub error_code_value : KafkaErrorCode → ℕ
error_code_value no_error = 0
error_code_value unknown_server_error = 1
error_code_value offset_out_of_range = 2
error_code_value corrupt_message = 3
error_code_value unknown_topic_or_partition = 4
error_code_value invalid_message = 5
error_code_value leader_not_available = 6
error_code_value request_timed_out = 7
error_code_value broker_not_available = 8
error_code_value replica_not_available = 9
error_code_value message_too_large = 10
error_code_value stale_controller_epoch = 11
error_code_value offset_metadata_too_large = 12
error_code_value network_exception = 13
error_code_value coordinator_load_in_progress = 14
error_code_value coordinator_not_available = 15
error_code_value not_coordinator = 16
error_code_value invalid_topic_exception = 17
error_code_value record_list_too_large = 18
error_code_value not_enough_replicas = 19
error_code_value not_enough_replicas_after_append = 20
error_code_value invalid_required_acks = 21
error_code_value illegal_generation = 22
error_code_value inconsistent_group_protocol = 23
error_code_value invalid_group_id = 24
error_code_value unknown_member_id = 25
error_code_value invalid_session_timeout = 26
error_code_value rebalance_in_progress = 27
error_code_value invalid_commit_offset_size = 28
error_code_value topic_authorization_failed = 29
error_code_value group_authorization_failed = 30
error_code_value cluster_authorization_failed = 31
error_code_value invalid_timestamp = 32
error_code_value unsupported_sasl_mechanism = 33
error_code_value illegal_sasl_state = 34
error_code_value unsupported_version = 35
error_code_value topic_already_exists = 36
error_code_value invalid_partitions = 37
error_code_value invalid_replication_factor = 38
error_code_value invalid_replica_assignment = 39
error_code_value invalid_config = 40
error_code_value not_controller = 41
error_code_value invalid_request = 42
error_code_value unsupported_for_message_format = 43
error_code_value policy_violation = 44
error_code_value out_of_order_sequence_number = 45
error_code_value duplicate_sequence_number = 46
error_code_value invalid_producer_epoch = 47
error_code_value invalid_txn_state = 48
error_code_value invalid_producer_id_mapping = 49
error_code_value invalid_transaction_timeout = 50
error_code_value concurrent_transactions = 51
error_code_value transaction_coordinator_fenced = 52
error_code_value transactional_id_authorization_failed = 53
error_code_value security_disabled = 54
error_code_value operation_not_attempted = 55
error_code_value kafka_storage_error = 56
error_code_value log_dir_not_found = 57
error_code_value sasl_authentication_failed = 58
error_code_value unknown_producer_id = 59
error_code_value reassignment_in_progress = 60
error_code_value delegation_token_auth_disabled = 61
error_code_value delegation_token_not_found = 62
error_code_value delegation_token_owner_mismatch = 63
error_code_value delegation_token_request_not_allowed = 64
error_code_value delegation_token_authorization_failed = 65
error_code_value delegation_token_expired = 66
error_code_value invalid_principal_type = 67
error_code_value non_empty_group = 68
error_code_value group_id_not_found = 69
error_code_value fetch_session_id_not_found = 70
error_code_value invalid_fetch_session_epoch = 71
error_code_value listener_not_found = 72
error_code_value topic_deletion_disabled = 73
error_code_value fenced_leader_epoch = 74
error_code_value unknown_leader_epoch = 75
error_code_value unsupported_compression_type = 76
error_code_value stale_broker_epoch = 77
error_code_value offset_not_available = 78
error_code_value member_id_required = 79
error_code_value preferred_leader_not_available = 80
error_code_value group_max_size_reached = 81
error_code_value fenced_instance_id = 82
error_code_value eligible_leaders_not_available = 83
error_code_value election_not_needed = 84
error_code_value no_reassignment_in_progress = 85
error_code_value group_subscribed_to_topic = 86
error_code_value invalid_record = 87
error_code_value unstable_offset_commit = 88
error_code_value throttling_quota_exceeded = 89
error_code_value producer_fenced = 90
error_code_value resource_not_found = 91
error_code_value duplicate_resource = 92
error_code_value unacceptable_credential = 93
error_code_value inconsistent_voter_set = 94
error_code_value invalid_update_version = 95
error_code_value feature_update_failed = 96
error_code_value principal_deserialization_failure = 97
