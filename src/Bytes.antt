-- ===== src/Bytes.antt =====
-- libs/utils/src/bytes_lib.rs: reading big-endian numbers out of a byte slice. A read past the end
-- of the slice panics. `[u8; N]`, `Pubkey` and the words all become the number that their bytes
-- spell, so every reader is `to_uint` at its width in bytes.
pub mod Laws
use lz_v2_audit.Prelude.{
  ℕ, zero, suc, ◌+◌, ◌-◌, ◌*◌, ◌/◌, ◌%◌, ◌&&◌, List, [], ◌∷◌, ◌++◌, length, take, drop, get_elem?,
  none, some, Result, ok, panic, ◌>>=◌, leb, if◌then◌else◌,
}

-- `n.to_be_bytes()` for a number of `width` bytes.
unfoldable pub be_bytes : ℕ → ℕ → List ℕ
be_bytes zero n = []
be_bytes (suc width) n = be_bytes width (n / 256) ++ (n % 256 ∷ [])

-- `from_be_bytes`, with the number read so far.
unfoldable pub from_be_bytes : ℕ → List ℕ → ℕ
from_be_bytes acc [] = acc
from_be_bytes acc (b ∷ bytes) = from_be_bytes (acc * 256 + b) bytes

-- `&bytes[start..start + len]`
unfoldable pub slice : ℕ → ℕ → List ℕ → Result (List ℕ)
slice start len bytes =
    if leb (start + len) (length bytes) then ok (take len (drop start bytes)) else panic

unfoldable pub to_uint : ℕ → ℕ → List ℕ → Result ℕ
unfolding slice from_be_bytes
to_uint width start bytes = do field ← slice start width bytes; ok (from_be_bytes 0 field)

unfoldable pub to_u8 : List ℕ → ℕ → Result ℕ
to_u8 bytes start = elim (get_elem? bytes start) [ none ↦ panic | some b ↦ ok b ]

abbrev pub to_u16 : List ℕ → ℕ → Result ℕ
to_u16 bytes start = to_uint 2 start bytes

abbrev pub to_u32 : List ℕ → ℕ → Result ℕ
to_u32 bytes start = to_uint 4 start bytes

abbrev pub to_u64 : List ℕ → ℕ → Result ℕ
to_u64 bytes start = to_uint 8 start bytes

abbrev pub to_u128 : List ℕ → ℕ → Result ℕ
to_u128 bytes start = to_uint 16 start bytes

-- `to_bytes32`, `to_pubkey` and `to_byte_array::<32>`
abbrev pub to_bytes32 : List ℕ → ℕ → Result ℕ
to_bytes32 bytes start = to_uint 32 start bytes

-- `&bytes[start..end]`
unfoldable pub range : ℕ → ℕ → List ℕ → Result (List ℕ)
range start end bytes =
    if leb start end && leb end (length bytes)
    then ok (take (end - start) (drop start bytes))
    else panic
