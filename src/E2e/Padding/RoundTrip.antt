-- ===== src/E2e/Padding/RoundTrip.antt =====
-- A padded body is read back, and its size says no more than the number of 512-byte blocks.
use k_quickshare.Base.{
  drop-zeros, ℕ, suc, Bool-cases, ◌==◌, ◌+◌, ◌-◌, ◌*◌, ◌/◌, ◌%◌, ◌≤◌, ◌<◌, ◌≡◌, ◌≢◌, refl, ◌⊎◌, inl,
  inr, [], ◌∷◌, ◌++◌, length, take, drop, get_or, arith, length-append, take-append,
  length-replicate, bit_or-shift, bit_and-low, Bytes, AreBytes, zeros, ok, take-append-drop,
  length-take,
}
use k_quickshare.E2e.Padding.{padded_size, pad_name_body, unpad_name_body}

-- How many zero bytes follow the JSON.
slack : ℕ → ℕ
slack len = padded_size len - (2 + len)

two_more : (n : ℕ) → 2 + n ≡ suc (suc n)
two_more n = omega arith

padded_size-split : (len : ℕ) → padded_size len ≡ suc (suc (len + slack len))
unfolding slack padded_size
padded_size-split len = omega arith

-- The padded body: the length, the JSON, zeros.
pad_name_body_lem :
    (json : Bytes)
    → length json < 65536
    → pad_name_body json
      ≡ (length json / 256) ∷ (length json % 256) ∷ (json ++ zeros (slack (length json)))
unfolding pad_name_body
pad_name_body_lem json h =
    let hi : length json / 256 % 256 ≡ length json / 256 = omega arith in
    rw (
      padded_size-split (length json),
      bit_and-low 8 (length json / 256),
      bit_and-low 8 (length json),
      hi,
      two_more (length json),
      drop-zeros (length json) (slack (length json)),
    )

-- Unpadding a padded JSON returns it. It is not empty and shorter than 31,488 bytes, so that the
-- high byte of its length is no `{`.
pub unpad-pad :
    (json : Bytes)
    → 0 < length json
    → length json < 0x7b00
    → unpad_name_body (pad_name_body json) ≡ ok json
unfolding unpad_name_body
unpad-pad json pos h =
    let joined = bit_or-shift 8 (length json / 256) (length json % 256) (omega arith) in
    let whole : length json / 256 * 256 + length json % 256 ≡ length json = omega arith in
    rw (pad_name_body_lem json (omega arith), joined)
      (ground (
        arith,
        take-append (length json) json (zeros (slack (length json))) refl,
        length-append json (zeros (slack (length json))),
      ))

-- A padded body is a whole number of 512-byte blocks, the fewest that hold the length and the JSON.
-- The JSON is shorter than 65,536 bytes.
pub length-pad :
    (json : Bytes)
    → length json < 65536
    → (length (pad_name_body json) % 512 ≡ 0)
      × (2 + length json ≤ length (pad_name_body json))
      × (length (pad_name_body json) < 2 + length json + 512)
length-pad json h =
    let size : length (pad_name_body json) ≡ padded_size (length json) =
      rw (pad_name_body_lem json h, padded_size-split (length json))
        (omega (
          arith,
          length-append json (zeros (slack (length json))),
          length-replicate {A = ℕ} (slack (length json)) 0,
        )) in
    rw size (unfold padded_size in (omega arith, omega arith, omega arith))

unpad_checks :
    (x y : ℕ) (r json : Bytes)
    → y < 256
    → x ≢ 0x7b
    → unpad_name_body (x ∷ y ∷ r) ≡ ok json
    → (json ≡ take (x * 256 + y) r) × (0 < x * 256 + y) × (x * 256 + y ≤ length r)
unfolding unpad_name_body
unpad_checks x y r json hy new e = ground (arith, bit_or-shift 8 x y (omega arith))

unpad_split :
    (x y : ℕ) (r json : Bytes)
    → y < 256
    → x ≢ 0x7b
    → unpad_name_body (x ∷ y ∷ r) ≡ ok json
    → (0 < length json)
      × (x ∷ y ∷ r
          ≡ (length json / 256)
            ∷ (length json % 256)
            ∷ (json ++ drop (2 + length json) (x ∷ y ∷ r)))
unpad_split x y r json hy new e =
    let (cut, pos, fits) = unpad_checks x y r json hy new e in
    let size : length (take (x * 256 + y) r) ≡ x * 256 + y =
      omega (arith, length-take (x * 256 + y) r) in
    let hi : (x * 256 + y) / 256 ≡ x = omega arith in
    let lo : (x * 256 + y) % 256 ≡ y = omega arith in
    rw (cut, size)
      (omega arith, rw (hi, lo, two_more (x * 256 + y), take-append-drop (x * 256 + y) r))

-- A body that is read is a version 1 body, returned whole, or one that begins with the length of
-- the JSON and the JSON itself, which is not empty.
pub unpad_sound :
    (body json : Bytes)
    → AreBytes body
    → unpad_name_body body ≡ ok json
    → ((get_or body 0 0 ≡ 0x7b) × (json ≡ body))
      ⊎ ((0 < length json)
          × (body
              ≡ (length json / 256) ∷ (length json % 256) ∷ (json ++ drop (2 + length json) body)))
unpad_sound [] json bytes e = unfold unpad_name_body in cc
unpad_sound (x ∷ []) json (hx, bytes) e =
    unfold unpad_name_body in ground (arith, bit_or-shift 8 x 0 (omega arith))
unpad_sound (x ∷ y ∷ r) json (hx, (hy, hr)) e = elim (Bool-cases (x == 0x7b)) [
  | inl old ↦ inl (ground arith, unfold unpad_name_body in ground arith)
  | inr new ↦ inr (unpad_split x y r json hy (ground arith) e)
]
