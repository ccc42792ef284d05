-- ===== src/Uln/Runs/Options.antt =====
-- Options decoded on concrete bytes.
use lz_v2_audit.Prelude.{ℕ, ◌≡◌, List, [], ◌∷◌, ◌++◌, some, Result, ok, panic, arith}
use lz_v2_audit.Bytes.{be_bytes}
use lz_v2_audit.Worker.{LzOption}
use lz_v2_audit.Uln.Options.{
  Decoding, no_dvn_options, decode_options, decode_worker_options, type_3,
}
use lz_v2_audit.Uln.Options.Total.{enough_fuel}
use lz_v2_audit.Uln.Options.Legacy.{encode_type_2, type_2_options}
use lz_v2_audit.Uln.Options.Encoding.{
  WorkerOption, to_executor, to_dvn, option_bytes, encode_options, for_executor, for_dvn,
  unless_empty,
}
use lz_v2_audit.Uln.Options.Encoding.RoundTrip.{IsSized, decode-encode_options}

abbrev gas_option : LzOption
gas_option = record { option_type = 1; params = 0 ∷ 200 ∷ [] }

abbrev speed_option : LzOption
speed_option = record { option_type = 1; params = [] }

-- Two options for the DVN 3, and one for the executor between them.
abbrev written : List WorkerOption
written = to_dvn 3 speed_option ∷ to_executor gas_option ∷ to_dvn 3 gas_option ∷ []

written-IsSized : IsSized written
unfolding option_bytes
written-IsSized = (omega arith, (omega arith, (omega arith, tt)))

decode-encode_options_example :
    decode_options (be_bytes 2 type_3 ++ encode_options written)
    ≡ ok (gas_option ∷ [], λ idx. unless_empty (for_dvn idx written))
unfolding for_executor
decode-encode_options_example = decode-encode_options written written-IsSized

abbrev start : Decoding
start = record { cursor = 2; executor_options = []; dvn_options = no_dvn_options }

-- An executor option with a size of three, and a fuel of six rounds.
abbrev three_bytes : List ℕ
three_bytes = 0 ∷ 3 ∷ 1 ∷ 0 ∷ 3 ∷ 1 ∷ 7 ∷ 7 ∷ []

enough_fuel_example : (r : Result Decoding) × (decode_worker_options 7 three_bytes start ≡ some r)
enough_fuel_example = enough_fuel 6 three_bytes start (omega arith)

-- A receiver of twenty bytes.
abbrev evm_address : List ℕ
evm_address =
    1 ∷ 2 ∷ 3 ∷ 4 ∷ 5 ∷ 6 ∷ 7 ∷ 8 ∷ 9 ∷ 10 ∷ 11 ∷ 12 ∷ 13 ∷ 14 ∷ 15 ∷ 16 ∷ 17 ∷ 18 ∷ 19 ∷ 20 ∷ []

type_2_options_example : decode_options (encode_type_2 200000 5 evm_address) ≡ panic
type_2_options_example = type_2_options 200000 5 evm_address (omega arith) (omega arith)
