-- ===== src/E2e/Padding.antt =====
-- `padNameBody` and `unpadNameBody` of web/static/e2e.js: the body of a sealed name or note.
pub mod RoundTrip
use k_quickshare.Base.{
  ℕ, ◌+◌, ◌*◌, ◌/◌, [], ◌∷◌, ◌||◌, length, take, drop, get_or, if◌then◌else◌, ltb, ceil_div, ◌==◌,
  bit_and, bit_or, Bytes, zeros, write, Result, ok, throw_if, ◌>>=◌, ◌>>◌, name_malformed,
}
use k_quickshare.E2e.{name_pad}

unfoldable pub padded_size : ℕ → ℕ
padded_size len = ceil_div (2 + len) name_pad * name_pad

unfoldable pub pad_name_body : Bytes → Bytes
unfolding padded_size
pad_name_body json =
    let out = zeros (padded_size (length json)) in
    let with_high = write 0 (bit_and (length json / 256) 0xff ∷ []) out in
    let with_low = write 1 (bit_and (length json) 0xff ∷ []) with_high in write 2 json with_low

unfoldable pub body_length : Bytes → ℕ
body_length body = bit_or (get_or body 0 0 * 256) (get_or body 1 0)

unfoldable pub unpad_name_body : Bytes → Result Bytes
unfolding body_length
unpad_name_body body = if get_or body 0 0 == 0x7b then ok body else do
  let len = body_length body
  throw_if (len == 0 || ltb (length body) (2 + len)) name_malformed
  ok (take len (drop 2 body))
