-- ===== src/E2e/Header/RoundTrip.antt =====
-- The header that is written is read back, and every header that is read could have been written.
use k_quickshare.Base.{
  manifest_too_large, passed, ltb, ℕ, suc, ◌+◌, ◌*◌, ◌/◌, ◌%◌, ◌≤◌, ◌<◌, ◌≡◌, refl, sym, ap, ◌∙◌,
  [], ◌∷◌, ◌++◌, length, take, get_or, arith, if◌then◌else◌, ◌==◌, bit_or-shift, bit_and-low, Bytes,
  AreBytes, zeros, ok, ltb-le, ltb→ge, ok-injective, ◌⊎◌, inl, inr, drop-all, length-replicate,
  append-nil, take-append, length-append, length-take,
}
use k_quickshare.E2e.{header_fixed}
use k_quickshare.E2e.Header.{
  Header, magic3, magic4, magic5, magic_for, read_header, or_version, lay_out, write_header,
}

six_more : (n : ℕ) → header_fixed + n ≡ suc (suc (suc (suc (suc (suc n)))))
six_more n = omega arith

-- What stands in front of the chunks.
abbrev pub header_bytes : ℕ → Bytes → Bytes
header_bytes v m = magic_for (or_version v) ++ (length m / 256) ∷ (length m % 256) ∷ m

lay_out_lem :
    (a b c d : ℕ) (m : Bytes)
    → length m ≤ 0xffff
    → lay_out (a ∷ b ∷ c ∷ d ∷ []) m ≡ a ∷ b ∷ c ∷ d ∷ (length m / 256) ∷ (length m % 256) ∷ m
unfolding lay_out
lay_out_lem a b c d m h =
    let hi : length m / 256 % 256 ≡ length m / 256 = omega arith in
    rw (
      six_more (length m),
      bit_and-low 8 (length m / 256),
      bit_and-low 8 (length m),
      hi,
      drop-all (length m) (zeros (length m)) (omega (arith, length-replicate {A = ℕ} (length m) 0)),
      append-nil m,
    )

magic_four : (v : ℕ) → (magic_for v ≡ magic3) ⊎ (magic_for v ≡ magic4) ⊎ (magic_for v ≡ magic5)
unfolding magic_for
magic_four v = ground arith

lay_out-magic :
    (v : ℕ) (m : Bytes)
    → length m ≤ 0xffff
    → lay_out (magic_for (or_version v)) m ≡ header_bytes v m
lay_out-magic v m h = elim (magic_four (or_version v)) [
  | inl e ↦ rw e (lay_out_lem _ _ _ _ m h)
  | inr (inl e) ↦ rw e (lay_out_lem _ _ _ _ m h)
  | inr (inr e) ↦ rw e (lay_out_lem _ _ _ _ m h)
]

pub write_header-eq :
    (m : Bytes) (v : ℕ) → length m ≤ 0xffff → write_header m v ≡ ok (header_bytes v m)
unfolding write_header
write_header-eq m v h = rw (ltb-le 0xffff (length m) h) (ap ok (lay_out-magic v m h))

read_bytes :
    (v : ℕ) (m rest : Bytes)
    → 0 < length m
    → length m ≤ 0xffff
    → read_header (header_bytes v m ++ rest)
      ≡ ok (record { manifest = m; body = header_fixed + length m })
unfolding read_header
read_bytes v m rest h k =
    let joined = bit_or-shift 8 (length m / 256) (length m % 256) (omega arith) in
    let whole : length m / 256 * 256 + length m % 256 ≡ length m = omega arith in
    elim (magic_four (or_version v)) [
      | inl e ↦
          rw (e, joined) (ground (arith, take-append (length m) m rest refl, length-append m rest))
      | inr (inl e) ↦
          rw (e, joined) (ground (arith, take-append (length m) m rest refl, length-append m rest))
      | inr (inr e) ↦
          rw (e, joined) (ground (arith, take-append (length m) m rest refl, length-append m rest))
    ]

pub length-header_bytes : (v : ℕ) (m : Bytes) → length (header_bytes v m) ≡ header_fixed + length m
length-header_bytes v m = elim (magic_four (or_version v)) [
  | inl e ↦ rw e (omega arith)
  | inr (inl e) ↦ rw e (omega arith)
  | inr (inr e) ↦ rw e (omega arith)
]

-- Reading back what was written returns the manifest and the place where the chunks begin, whatever
-- follows the header. The manifest is not empty.
pub read_header-write_header :
    (v : ℕ) (m h rest : Bytes)
    → 0 < length m
    → write_header m v ≡ ok h
    → read_header (h ++ rest) ≡ ok (record { manifest = m; body = length h })
unfolding write_header
read_header-write_header v m h rest pos e =
    let (fits, laid) = passed (ltb 0xffff (length m)) manifest_too_large _ e in
    let k : length m ≤ 0xffff = ltb→ge 0xffff (length m) fits in
    let same : h ≡ header_bytes v m = ok-injective (sym laid ∙ ap ok (lay_out-magic v m k)) in
    rw (same, length-header_bytes v m) (read_bytes v m rest pos k)

-- The version that an object's magic stands for.
abbrev pub magic_version : Bytes → ℕ
magic_version ct =
    let last = get_or ct 3 0 in if last == 0x35 then 5 else if last == 0x34 then 4 else 3

-- What the checks of `readHeader` establish of an object that has the six fixed bytes.
read_checks :
    (a b c d x y : ℕ) (r : Bytes) (h : Header)
    → x < 256
    → y < 256
    → read_header (a ∷ b ∷ c ∷ d ∷ x ∷ y ∷ r) ≡ ok h
    → (a ∷ b ∷ c ∷ d ∷ [] ≡ magic_for (magic_version (a ∷ b ∷ c ∷ d ∷ [])))
      × (0 < x * 256 + y)
      × (x * 256 + y ≤ length r)
      × (h ≡ record { manifest = take (x * 256 + y) r; body = header_fixed + (x * 256 + y) })
unfolding read_header magic_for
read_checks a b c d x y r h hx hy e = ground (arith, bit_or-shift 8 x y (omega arith))

rebuilt :
    (a b c d x y : ℕ) (r : Bytes)
    → a ∷ b ∷ c ∷ d ∷ [] ≡ magic_for (magic_version (a ∷ b ∷ c ∷ d ∷ []))
    → y < 256
    → length (take (x * 256 + y) r) ≡ x * 256 + y
    → header_bytes (magic_version (a ∷ b ∷ c ∷ d ∷ [])) (take (x * 256 + y) r)
      ≡ take (header_fixed + (x * 256 + y)) (a ∷ b ∷ c ∷ d ∷ x ∷ y ∷ r)
rebuilt a b c d x y r magic hy size =
    let v : ℕ = magic_version (a ∷ b ∷ c ∷ d ∷ []) in
    let same : or_version v ≡ v = ground arith in
    let hi : (x * 256 + y) / 256 ≡ x = omega arith in
    let lo : (x * 256 + y) % 256 ≡ y = omega arith in
    rw (same, ← magic, six_more (x * 256 + y), size, hi, lo)

-- An object of bytes whose header is read begins with exactly what `writeHeader` writes for the
-- manifest that was read, which is not empty and fits the length field.
pub read_header_sound :
    (ct : Bytes) (h : Header)
    → AreBytes ct
    → read_header ct ≡ ok h
    → (write_header h.manifest (magic_version ct) ≡ ok (take h.body ct))
      × (0 < length h.manifest)
      × (length h.manifest ≤ 0xffff)
      × (h.body ≡ header_fixed + length h.manifest)
      × (h.body ≤ length ct)
unfolding read_header
read_header_sound (a ∷ b ∷ c ∷ d ∷ x ∷ y ∷ r) h (ha, (hb, (hc, (hd, (hx, (hy, hr)))))) e =
    let (magic, pos, fits, shape) = read_checks a b c d x y r h hx hy e in
    let m : Bytes = take (x * 256 + y) r in
    let size : length m ≡ x * 256 + y = omega (arith, length-take (x * 256 + y) r) in
    rw shape (
      write_header-eq m (magic_version (a ∷ b ∷ c ∷ d ∷ [])) (omega arith)
          ∙ ap ok (rebuilt a b c d x y r magic hy size),
      omega arith,
      omega arith,
      omega arith,
      omega arith,
    )
read_header_sound (a ∷ b ∷ c ∷ d ∷ x ∷ []) h bytes e = cc
read_header_sound (a ∷ b ∷ c ∷ d ∷ []) h bytes e = cc
read_header_sound (a ∷ b ∷ c ∷ []) h bytes e = cc
read_header_sound (a ∷ b ∷ []) h bytes e = cc
read_header_sound (a ∷ []) h bytes e = cc
read_header_sound [] h bytes e = cc
