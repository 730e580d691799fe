-- ===== src/E2e/Header.antt =====
-- `magicFor`, `writeHeader` and `readHeader` of web/static/e2e.js.
pub mod RoundTrip
use k_quickshare.Base.{
  ℕ, ◌+◌, ◌*◌, ◌/◌, [], ◌∷◌, Bool, true, false, ◌||◌, length, take, drop, get_or, if◌then◌else◌,
  ltb, leb, ◌==◌, bit_and, bit_or, Bytes, zeros, write, Result, ok, throw_if, ◌>>=◌, ◌>>◌,
  container_short, not_container, header_truncated, manifest_too_large,
}
use k_quickshare.E2e.{header_fixed, version}

abbrev pub magic3 : Bytes
magic3 = 0x50 ∷ 0x59 ∷ 0x58 ∷ 0x33 ∷ []

abbrev pub magic4 : Bytes
magic4 = 0x50 ∷ 0x59 ∷ 0x58 ∷ 0x34 ∷ []

abbrev pub magic5 : Bytes
magic5 = 0x50 ∷ 0x59 ∷ 0x58 ∷ 0x35 ∷ []

unfoldable pub magic_for : ℕ → Bytes
magic_for v = if leb 5 v then magic5 else if leb 4 v then magic4 else magic3

pub record Header : Type 0 where
  pub manifest : Bytes
  pub body : ℕ

-- The loop that compares each byte of the magic with the object's.
unfoldable pub has_magic : Bytes → Bytes → Bool
has_magic [] ct = true
has_magic (m ∷ ms) [] = false
has_magic (m ∷ ms) (c ∷ ct) = if c == m then has_magic ms ct else false

-- `(ct[4] << 8) | ct[5]`
unfoldable pub header_length : Bytes → ℕ
header_length ct = bit_or (get_or ct 4 0 * 256) (get_or ct 5 0)

unfoldable pub header_magic : Bytes → Bytes
header_magic ct =
    let last = get_or ct 3 0 in
    if last == 0x35 then magic5 else if last == 0x34 then magic4 else magic3

unfoldable pub read_header : Bytes → Result Header
unfolding has_magic header_length header_magic
read_header ct = do
  throw_if (ltb (length ct) header_fixed) container_short
  throw_if (if has_magic (header_magic ct) ct then false else true) not_container
  let len = header_length ct
  throw_if (len == 0 || ltb (length ct) (header_fixed + len)) header_truncated
  ok (record { manifest = take len (drop header_fixed ct); body = header_fixed + len })

-- `version || VERSION`
abbrev pub or_version : ℕ → ℕ
or_version v = if v == 0 then version else v

-- The `set`s and stores into the fresh array.
unfoldable pub lay_out : Bytes → Bytes → Bytes
lay_out magic manifest =
    let blank = zeros (header_fixed + length manifest) in
    let with_magic = write 0 magic blank in
    let with_high = write 4 (bit_and (length manifest / 256) 0xff ∷ []) with_magic in
    let with_low = write 5 (bit_and (length manifest) 0xff ∷ []) with_high in
    write header_fixed manifest with_low

unfoldable pub write_header : Bytes → ℕ → Result Bytes
unfolding magic_for
write_header manifest v = do
  throw_if (ltb 0xffff (length manifest)) manifest_too_large
  ok (lay_out (magic_for (or_version v)) manifest)
