-- ===== src/Uln/Options.antt =====
-- programs/uln/src/options_codec.rs: the options of a packet, split by worker. A `HashMap` from the
-- indices of DVNs to their options is a function with a write. `usize` arithmetic on the cursor
-- stays below the length of the options and 2^16 + 3, so it does not overflow.
pub mod Total
pub mod Encoding
pub mod Legacy
use lz_v2_audit.Prelude.{
  ℕ, zero, suc, ◌+◌, List, [], ◌∷◌, ◌++◌, Option, none, some, ◌&&◌, ◌==◌, ltb, leb, length,
  if◌then◌else◌, Result, ok, err, panic, require, ◌>>=◌, ◌>>◌, UlnError, uln, write, nat_eq,
}
use lz_v2_audit.Bytes.{be_bytes, range, to_u8, to_u16, to_u128}
use lz_v2_audit.Worker.{LzOption}

-- DVN index to options
abbrev pub DvnOptions : Type 0
DvnOptions = ℕ → Option (List LzOption)

abbrev pub no_dvn_options : DvnOptions
no_dvn_options idx = none

-- TYPE_3, and the ids of the two kinds of worker.
abbrev pub type_3 : ℕ
type_3 = 3

abbrev pub executor_worker_id : ℕ
executor_worker_id = 1

abbrev pub dvn_worker_id : ℕ
dvn_worker_id = 2

abbrev pub lz_receive_type : ℕ
lz_receive_type = 1

abbrev pub native_drop_type : ℕ
native_drop_type = 2

-- `convert_legacy_options`, type 1: the gas of the execution.
pub convert_type_1 : List ℕ → Result (List LzOption)
convert_type_1 options = do
  require (length options == 34) (uln UlnError.invalid_type1_size)
  high ← to_u128 options 2
  require (high == 0) (uln UlnError.exceeded_u128)
  execution_gas ← to_u128 options 18
  ok (record { option_type = lz_receive_type; params = be_bytes 16 execution_gas } ∷ [])

-- Type 2: the gas, and an amount to drop with its receiver.
pub convert_type_2 : List ℕ → Result (List LzOption)
convert_type_2 options = do
  require (ltb 66 (length options) && leb (length options) 98) (uln UlnError.invalid_type2_size)
  high ← to_u128 options 2
  require (high == 0) (uln UlnError.exceeded_u128)
  execution_gas ← to_u128 options 18
  high_amount ← to_u128 options 34
  require (high_amount == 0) (uln UlnError.exceeded_u128)
  native_drop_amount ← to_u128 options 50
  receiver_bytes ← range 66 (length options) options
  receiver ← range 0 32 receiver_bytes
  ok (
      record { option_type = lz_receive_type; params = be_bytes 16 execution_gas }
      ∷ record {
        option_type = native_drop_type;
        params = be_bytes 16 native_drop_amount ++ receiver;
      }
      ∷ [])

unfoldable pub convert_legacy_options : ℕ → List ℕ → Result (List LzOption)
unfolding convert_type_1 convert_type_2
convert_legacy_options format_type options =
    if format_type == 1
    then convert_type_1 options
    else if format_type == 2
    then convert_type_2 options
    else err (uln UlnError.invalid_option_type)

-- The variables of the loop over the worker options.
pub record Decoding : Type 0 where
  pub cursor : ℕ
  pub executor_options : List LzOption
  pub dvn_options : DvnOptions

-- `dvn_options.get_mut(&idx)`, and a push or an insertion.
abbrev pub push_dvn_option : ℕ → LzOption → DvnOptions → DvnOptions
push_dvn_option idx option options = elim (options idx) [
  | some present ↦ write idx (some (present ++ (option ∷ []))) options
  | none ↦ write idx (some (option ∷ [])) options
]

-- The body of the loop: one worker option, by its worker.
pub decode_executor_option : List ℕ → (cursor option_size : ℕ) → Decoding → Result Decoding
decode_executor_option options cursor option_size d = do
  option_type ← to_u8 options cursor
  params ← range (cursor + 1) (cursor + option_size) options
  ok (record d {
    cursor = cursor + option_size;
    executor_options =
        d.executor_options ++ (record { option_type = option_type; params = params } ∷ []);
  })

pub decode_dvn_option : List ℕ → (cursor option_size : ℕ) → Decoding → Result Decoding
decode_dvn_option options cursor option_size d = do
  idx ← to_u8 options cursor
  option_type ← to_u8 options (cursor + 1)
  params ← range (cursor + 2) (cursor + option_size) options
  ok (record d {
    cursor = cursor + option_size;
    dvn_options =
        push_dvn_option idx (record { option_type = option_type; params = params }) d.dvn_options;
  })

pub decode_worker_option : List ℕ → Decoding → Result Decoding
unfolding decode_executor_option decode_dvn_option
decode_worker_option options d = do
  worker_id ← to_u8 options d.cursor
  option_size ← to_u16 options (d.cursor + 1)
  if worker_id == executor_worker_id
      then decode_executor_option options (d.cursor + 1 + 2) option_size d
      else if worker_id == dvn_worker_id
      then decode_dvn_option options (d.cursor + 1 + 2) option_size d
      else err (uln UlnError.invalid_worker_id)

-- `while cursor < options.len()`, on fuel; `none` if the fuel runs out.
pub decode_worker_options : ℕ → List ℕ → Decoding → Option (Result Decoding)
decode_worker_options zero options d = none
decode_worker_options (suc fuel) options d =
    let rest : Option (Result Decoding) = elim (decode_worker_option options d) [
      | ok d' ↦ decode_worker_options fuel options d'
      | err e ↦ some (err e)
      | panic ↦ some panic
    ] in
    if ltb d.cursor (length options) then rest else some (ok d)

-- Each round reads three bytes at least, so one round for each byte, and one to end, are enough.
abbrev pub run_out : Option (Result Decoding) → Result Decoding
run_out none = panic
run_out (some r) = r

unfoldable pub decode_options : List ℕ → Result (List LzOption × DvnOptions)
unfolding decode_worker_options convert_legacy_options
decode_options options = do
  format_type ← to_u16 options 0
  if ltb format_type type_3
      then (do
        executor_options ← convert_legacy_options format_type options
        ok (executor_options, no_dvn_options))
      else if format_type == type_3
      then (do
        d ← run_out (
            decode_worker_options (suc (length options)) options
              (record { cursor = 2; executor_options = []; dvn_options = no_dvn_options }))
        ok (d.executor_options, d.dvn_options))
      else err (uln UlnError.invalid_option_type)
