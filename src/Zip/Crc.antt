-- ===== src/Zip/Crc.antt =====
-- `crcTable`, `crcUpdate` and `crcOfBlob` of web/static/zip.js. An intermediate value that
-- JavaScript holds as a negative 32-bit integer is here its unsigned value, which `>>>` and `& 1`
-- read alike.
pub mod Sliced
pub mod Bitwise
use k_quickshare.Base.{
  ◌∷◌, [], List, some, none, Option, bit_xor, bit_and, min, ◌/◌, ◌-◌, ◌+◌, suc, zero, drop, take,
  get_or, length, Bytes, if◌then◌else◌, ◌==◌, ltb, ℕ,
}

-- CRC_SLICE
abbrev pub crc_slice : ℕ
crc_slice = 1048576

-- `c & 1 ? 0xedb88320 ^ (c >>> 1) : c >>> 1`
unfoldable pub crc_shift : ℕ → ℕ
crc_shift c = if bit_and c 1 == 0 then c / 2 else bit_xor 0xedb88320 (c / 2)

-- `k` rounds of the inner loop remain.
unfoldable pub crc_rounds : ℕ → ℕ → ℕ
crc_rounds zero c = c
crc_rounds (suc k) c = crc_rounds k (crc_shift c)

-- `left` entries remain, the first of them entry `i`.
unfoldable pub crc_entries : ℕ → ℕ → List ℕ
crc_entries zero i = []
crc_entries (suc left) i = crc_rounds 8 i ∷ crc_entries left (i + 1)

unfoldable pub crc_table : List ℕ
unfolding crc_entries
crc_table = crc_entries 256 0

unfoldable pub crc_update : ℕ → Bytes → ℕ
crc_update c [] = c
crc_update c (b ∷ bytes) =
    crc_update (bit_xor (get_or crc_table (bit_and (bit_xor c b) 0xff) 0) (c / 256)) bytes

-- The loop over the slices of a blob, on fuel; `none` is a loop that has not ended.
unfoldable pub crc_loop : ℕ → ℕ → ℕ → ℕ → Bytes → Option ℕ
crc_loop slice zero off crc content = none
crc_loop slice (suc fuel) off crc content =
    let buf = take (min (off + slice) (length content) - off) (drop off content) in
    let rest = crc_loop slice fuel (off + slice) (crc_update crc buf) content in
    if ltb off (length content) then rest else some crc

unfoldable pub crc_of_blob : Bytes → Option ℕ
unfolding crc_loop
crc_of_blob content =
    elim (crc_loop crc_slice (length content / crc_slice + 2) 0 0xffffffff content) [
      | none ↦ none
      | some crc ↦ some (bit_xor crc 0xffffffff)
    ]
