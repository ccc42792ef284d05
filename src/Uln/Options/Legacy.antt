-- ===== src/Uln/Options/Legacy.antt =====
-- Options of the formats before type 3.
use mathlib.Core.List.{append_assoc, append-nil}
use lz_v2_audit.Prelude.{
  ℕ, ◌+◌, ◌^◌, ◌<◌, ◌≡◌, ◌∙◌, refl, List, [], ◌∷◌, ◌++◌, length, length-append, sym, Bool-cases,
  inl, inr, true, ==→eq, ◌==◌, leb, ◌&&◌, if◌then◌else◌, ok, err, panic, UlnError, uln, arith,
}
use lz_v2_audit.Bytes.{be_bytes, range, to_u16, to_u128}
use lz_v2_audit.Bytes.Laws.{length-be_bytes, to_uint-behind, to_uint-first, range-append}
use lz_v2_audit.Worker.{LzOption}
use lz_v2_audit.Uln.Options.{
  no_dvn_options, decode_options, convert_legacy_options, convert_type_1, convert_type_2,
  lz_receive_type, native_drop_type,
}

-- The bytes of type 2: the gas and the amount as words of 256 bits, and the receiver.
abbrev pub encode_type_2 : (gas amount : ℕ) → List ℕ → List ℕ
encode_type_2 gas amount receiver =
    be_bytes 2 2
    ++ (be_bytes 16 0 ++ (be_bytes 16 gas ++ (be_bytes 16 0 ++ (be_bytes 16 amount ++ receiver))))

abbrev pub encode_type_1 : (gas : ℕ) → List ℕ
encode_type_1 gas = be_bytes 2 1 ++ (be_bytes 16 0 ++ (be_bytes 16 gas ++ []))

format : (n : ℕ) (rest : List ℕ) → n < 2 ^ 16 → to_u16 (be_bytes 2 n ++ rest) 0 ≡ ok n
format n rest h = to_uint-first 2 n rest h

-- The options of type 1 ask for an execution with their gas, written in 16 bytes.
pub type_1_options :
    (gas : ℕ)
    → gas < 2 ^ 128
    → decode_options (encode_type_1 gas)
      ≡ ok (record { option_type = lz_receive_type; params = be_bytes 16 gas } ∷ [], no_dvn_options)
unfolding decode_options convert_legacy_options convert_type_1
type_1_options gas h =
    rw (format 1 (be_bytes 16 0 ++ (be_bytes 16 gas ++ [])) (omega arith), size, high, low)
  where
    size : length (encode_type_1 gas) ≡ 34
    size = simp (length-append, length-be_bytes)

    high : to_u128 (encode_type_1 gas) 2 ≡ ok 0
    high = to_uint-behind 2 1 _ 16 2 0 refl ∙ to_uint-first 16 0 _ (omega arith)

    low : to_u128 (encode_type_1 gas) 18 ≡ ok gas
    low =
        to_uint-behind 2 1 _ 16 18 16 refl
        ∙ to_uint-behind 16 0 _ 16 16 0 refl
        ∙ to_uint-first 16 gas _ h

-- The two options of type 2, for a receiver of 32 bytes.
abbrev pub dropped : (gas amount : ℕ) → List ℕ → List LzOption
dropped gas amount receiver =
    record { option_type = lz_receive_type; params = be_bytes 16 gas }
    ∷ record { option_type = native_drop_type; params = be_bytes 16 amount ++ receiver }
    ∷ []

abbrev front : (gas amount : ℕ) → List ℕ
front gas amount =
    be_bytes 2 2 ++ (be_bytes 16 0 ++ (be_bytes 16 gas ++ (be_bytes 16 0 ++ be_bytes 16 amount)))

length-front : (gas amount : ℕ) → length (front gas amount) ≡ 66
length-front gas amount = simp (length-append, length-be_bytes)

type_2-front :
    (gas amount : ℕ) (receiver : List ℕ)
    → encode_type_2 gas amount receiver ≡ front gas amount ++ receiver
type_2-front gas amount receiver = simp append_assoc

length-type_2 :
    (gas amount : ℕ) (receiver : List ℕ)
    → length (encode_type_2 gas amount receiver) ≡ 66 + length receiver
length-type_2 gas amount receiver = rw (
  type_2-front gas amount receiver,
  length-append (front gas amount) receiver,
  length-front gas amount,
)

-- The slice to the end of a buffer.
tail_slice :
    (before after : List ℕ) (start : ℕ)
    → start ≡ length before
    → range start (length (before ++ after)) (before ++ after) ≡ ok after
tail_slice before after start e =
    rw (append-nil after) at
      (range-append before after [] start (length (before ++ after)) e (length-append before after))

first_32 :
    (receiver : List ℕ)
    → leb (length receiver) 32 ≡ true
    → range 0 32 receiver ≡ (if length receiver == 32 then ok receiver else panic)
unfolding range
first_32 receiver h = elim (Bool-cases (length receiver == 32)) [
  | inl e ↦ rw e (
      rw (append-nil receiver) at
        (range-append [] receiver [] 0 32 refl (omega (arith, ==→eq (length receiver) 32 e))))
  | inr e ↦ ground arith
]

module _ (gas amount : ℕ) (receiver : List ℕ) (g : gas < 2 ^ 128) (a : amount < 2 ^ 128) where
  abbrev bytes : List ℕ
  bytes = encode_type_2 gas amount receiver

  gas_words : (to_u128 bytes 2 ≡ ok 0) × (to_u128 bytes 18 ≡ ok gas)
  gas_words = (
    to_uint-behind 2 2 _ 16 2 0 refl ∙ to_uint-first 16 0 _ (omega arith),
    to_uint-behind 2 2 _ 16 18 16 refl
        ∙ to_uint-behind 16 0 _ 16 16 0 refl
        ∙ to_uint-first 16 gas _ g,
  )

  amount_words : (to_u128 bytes 34 ≡ ok 0) × (to_u128 bytes 50 ≡ ok amount)
  amount_words = (
    to_uint-behind 2 2 _ 16 34 32 refl
        ∙ to_uint-behind 16 0 _ 16 32 16 refl
        ∙ to_uint-behind 16 gas _ 16 16 0 refl
        ∙ to_uint-first 16 0 _ (omega arith),
    to_uint-behind 2 2 _ 16 50 48 refl
        ∙ to_uint-behind 16 0 _ 16 48 32 refl
        ∙ to_uint-behind 16 gas _ 16 32 16 refl
        ∙ to_uint-behind 16 0 _ 16 16 0 refl
        ∙ to_uint-first 16 amount _ a,
  )

  tail_range : range 66 (length bytes) bytes ≡ ok receiver
  tail_range =
      rw (type_2-front gas amount receiver)
        (tail_slice (front gas amount) receiver 66 (sym (length-front gas amount)))

  -- Options of type 2 with a gas and an amount of 16 bytes: a receiver of 32 bytes is decoded to an
  -- execution with the gas and a drop of the amount to the receiver, one of 1 to 31 bytes panics,
  -- and an empty one or one of more than 32 bytes is refused.
  pub type_2_options : decode_options bytes ≡ (
      if leb 1 (length receiver) && leb (length receiver) 32
      then (if length receiver == 32
          then ok (dropped gas amount receiver, no_dvn_options)
          else panic)
      else err (uln UlnError.invalid_type2_size))
  unfolding decode_options convert_legacy_options convert_type_2
  type_2_options =
      rw
        (format 2
          (be_bytes 16 0
            ++ (be_bytes 16 gas ++ (be_bytes 16 0 ++ (be_bytes 16 amount ++ receiver))))
          (omega arith))
        (ground (
          arith,
          length-type_2 gas amount receiver,
          gas_words,
          amount_words,
          tail_range,
          first_32 receiver,
        ))
