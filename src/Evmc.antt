-- ===== src/Evmc.antt =====
-- src/evmc.rs: the types that cross the boundary to a virtual machine. The plain enums and structs
-- are those of the evmc_sys crate, which include/evmc/evmc.h declares.
pub mod Message
pub mod Interface
pub mod Vm
pub mod Keeps
pub mod Pointers
pub mod Simulates
pub mod Typed
use play_evmone.Base.{ℕ, ◌≡◌, Bool, true, false, Option, List}
use play_evmone.Base.Int.{ℤ}
use play_evmone.Bytes.{Address, FfiBytes, from_ffi, into_ffi}

-- `ffi::evmc_call_kind`
pub data CallKind : Type 0 where
  call delegatecall callcode create create2 : CallKind

-- `ffi::evmc_status_code`
pub data StatusCode : Type 0 where
  success failure revert out_of_gas invalid_instruction undefined_instruction : StatusCode
  stack_overflow stack_underflow bad_jump_destination invalid_memory_access : StatusCode
  call_depth_exceeded static_mode_violation precompile_failure : StatusCode
  contract_validation_failure argument_out_of_range wasm_unreachable_instruction : StatusCode
  wasm_trap internal_error rejected out_of_memory : StatusCode

abbrev pub is_success : StatusCode → Bool
is_success StatusCode.success = true
is_success _ = false

-- `ffi::evmc_storage_status`
pub data StorageStatus : Type 0 where
  unchanged modified modified_again added deleted : StorageStatus

-- `ffi::evmc_revision`
pub data Revision : Type 0 where
  frontier homestead tangerine_whistle spurious_dragon byzantium constantinople : Revision
  petersburg istanbul berlin : Revision

-- `EVMC_MAX_REVISION`
abbrev pub max_revision : Revision
max_revision = Revision.berlin

-- `ffi::evmc_tx_context`
pub record TxContext : Type 0 where
  pub tx_gas_price : FfiBytes 32
  pub tx_origin : FfiBytes 20
  pub block_coinbase : FfiBytes 20
  pub block_number : ℤ
  pub block_timestamp : ℤ
  pub block_gas_limit : ℤ
  pub block_difficulty : FfiBytes 32
  pub chain_id : FfiBytes 32

-- `ffi::evmc_message`. `depth` holds the 32 bits of the `int32_t`; `input_data` is the slice that
-- the pointer and the size describe.
pub record FfiMessage : Type 0 where
  pub kind : CallKind
  pub flags : ℕ
  pub depth : ℕ
  pub gas : ℤ
  pub destination : FfiBytes 20
  pub sender : FfiBytes 20
  pub input_data : List ℕ
  pub value : FfiBytes 32
  pub create2_salt : FfiBytes 32

-- `ffi::evmc_result`. `release` stands for the identity of the release function, and `output_data`
-- is the slice that the pointer and the size describe.
pub record FfiResult : Type 0 where
  pub status_code : StatusCode
  pub gas_left : ℤ
  pub output_data : List ℕ
  pub release : Option ℕ
  pub create_address : FfiBytes 20
  pub padding : List ℕ

-- `ExecutionResult`
pub record ExecutionResult : Type 0 where
  pub status_code : StatusCode
  pub gas_left : ℤ
  pub output_data : List ℕ
  pub release : Option ℕ
  pub create_address : Address
  pub padding : List ℕ

-- `impl From<ffi::evmc_result> for ExecutionResult`: the output is copied.
abbrev pub result_from_ffi : FfiResult → ExecutionResult
result_from_ffi r = record {
  status_code = r.status_code;
  gas_left = r.gas_left;
  output_data = r.output_data;
  release = r.release;
  create_address = from_ffi r.create_address;
  padding = r.padding;
}

-- `impl From<ExecutionResult> for ffi::evmc_result`: the vector is forgotten, its bytes passed on.
abbrev pub result_into_ffi : ExecutionResult → FfiResult
result_into_ffi r = record {
  status_code = r.status_code;
  gas_left = r.gas_left;
  output_data = r.output_data;
  release = r.release;
  create_address = into_ffi r.create_address;
  padding = r.padding;
}

-- `ExecutionMessage`, which dereferences to the message that it borrows.
pub record ExecutionMessage : Type 0 where
  pub inner : FfiMessage
  pub open inner use *

-- `impl From<&ffi::evmc_message> for ExecutionMessage`
abbrev pub message_from_ffi : FfiMessage → ExecutionMessage
message_from_ffi m = record { inner = m }
