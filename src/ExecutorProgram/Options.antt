-- ===== src/ExecutorProgram/Options.antt =====
-- programs/executor/src/options_codec.rs: what the options of an executor ask for. Amounts and gas
-- are words of 128 bits; the receiver of a drop is the number that its bytes spell.
use lz_v2_audit.Prelude.{
  ℕ, List, length, ◌||◌, ◌==◌, if◌then◌else◌, Result, ok, require, ◌>>=◌, ◌>>◌, ExecutorError,
  executor,
}
use lz_v2_audit.Bytes.{to_u16, to_u128, to_bytes32}

abbrev pub option_type_lzreceive : ℕ
option_type_lzreceive = 1

abbrev pub option_type_native_drop : ℕ
option_type_native_drop = 2

abbrev pub option_type_lzcompose : ℕ
option_type_lzcompose = 3

abbrev pub option_type_ordered_execution : ℕ
option_type_ordered_execution = 4

-- The gas and the value.
unfoldable pub decode_lz_receive_params : List ℕ → Result (ℕ × ℕ)
decode_lz_receive_params params = do
  require (length params == 16 || length params == 32) (executor ExecutorError.invalid_size)
  gas ← to_u128 params 0
  value ← if length params == 32 then to_u128 params 16 else ok 0
  ok (gas, value)

-- The amount and the receiver.
unfoldable pub decode_native_drop_params : List ℕ → Result (ℕ × ℕ)
decode_native_drop_params params = do
  require (length params == 48) (executor ExecutorError.invalid_size)
  amount ← to_u128 params 0
  receiver ← to_bytes32 params 16
  ok (amount, receiver)

-- The index, the gas and the value.
unfoldable pub decode_lz_compose_params : List ℕ → Result (ℕ × (ℕ × ℕ))
decode_lz_compose_params params = do
  require (length params == 18 || length params == 34) (executor ExecutorError.invalid_size)
  index ← to_u16 params 0
  gas ← to_u128 params 2
  value ← if length params == 34 then to_u128 params 18 else ok 0
  ok (index, (gas, value))
