-- ===== src/Prelude/Errors.antt =====
-- The error enums of the programs, as the one `anchor_lang::error::Error` that an instruction
-- returns. `AnchorError` lists the framework's own errors that the account checks raise.

-- programs/endpoint/src/errors.rs
pub data LayerZeroError : Type 0 where
  invalid_send_library invalid_receive_library same_value account_not_found : LayerZeroError
  only_send_lib only_receive_lib invalid_expiry only_non_default_lib : LayerZeroError
  invalid_amount invalid_nonce unauthorized payload_hash_not_found : LayerZeroError
  compose_not_found invalid_payload_hash lz_token_unavailable : LayerZeroError
  read_only_account invalid_message_lib writable_account_not_allowed : LayerZeroError

-- programs/uln/src/errors.rs
pub data UlnError : Type 0 where
  unauthorized invalid_amount invalid_executor zero_message_size : UlnError
  invalid_required_dvn_count invalid_optional_dvn_count invalid_optional_dvn_threshold : UlnError
  invalid_confirmations at_least_one_dvn unsorted invalid_treasury_fee_cap : UlnError
  invalid_packet_version invalid_eid verifying invalid_worker_id invalid_option_type : UlnError
  invalid_bps exceeded_max_message_size invalid_executor_program : UlnError
  invalid_account_length invalid_dvn_program invalid_dvn lz_token_unavailable : UlnError
  insufficient_fee invalid_treasury invalid_lz_token_mint invalid_config_type : UlnError
  invalid_confirmation invalid_type1_size invalid_type2_size exceeded_u128 : UlnError
  non_signer invalid_payer : UlnError

-- libs/utils/src/sorted_list_helper.rs
pub data SortedListError : Type 0 where
  not_found invalid_size : SortedListError

-- programs/worker-interface/src/lib.rs
pub data WorkerError : Type 0 where
  permission_denied invalid_size : WorkerError

-- programs/dvn/src/errors.rs
pub data DvnError : Type 0 where
  invalid_signature_len not_admin msg_lib_not_allowed invalid_quorum : DvnError
  invalid_signers_len unique_owners signature_error signer_not_in_committee : DvnError
  too_many_admins too_many_option_types duplicate_signature expired invalid_vid : DvnError
  paused unexpired_execute_hash invalid_amount eid_not_supported : DvnError

-- programs/executor/src/errors.rs
pub data ExecutorError : Type 0 where
  invalid_size paused unsupported_option_type zero_lz_compose_gas_provided : ExecutorError
  zero_lz_receive_gas_provided native_amount_exceeds_cap not_admin : ExecutorError
  not_executor msg_lib_not_allowed too_many_admins too_many_executors : ExecutorError
  too_many_option_types invalid_native_drop_requests_length : ExecutorError
  invalid_native_drop_receiver insufficient_balance eid_not_supported : ExecutorError
  executor_is_admin invalid_owner : ExecutorError

-- programs/pricefeed/src/errors.rs
pub data PriceFeedError : Type 0 where
  too_many_updaters invalid_updater not_found invalid_size : PriceFeedError

-- anchor_lang and the system program
pub data AnchorError : Type 0 where
  account_not_initialized already_in_use constraint_raw constraint_has_one : AnchorError
  constraint_seeds constraint_address account_not_enough_keys invalid_program_id : AnchorError

pub data Error : Type 0 where
  layer_zero : LayerZeroError → Error
  uln : UlnError → Error
  sorted_list : SortedListError → Error
  worker : WorkerError → Error
  dvn : DvnError → Error
  executor : ExecutorError → Error
  price_feed : PriceFeedError → Error
  anchor : AnchorError → Error
