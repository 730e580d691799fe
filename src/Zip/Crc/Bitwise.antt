-- ===== src/Zip/Crc/Bitwise.antt =====
-- The table-driven CRC is the bitwise one.
use k_quickshare.Zip.Crc.{crc_shift, crc_rounds, crc_entries, crc_table, crc_update}
use native.Mathlib.Nat.{two-pow-succ}
use Prim.Native.Nat.{differ}
use k_quickshare.Base.{
  inr, inl, bit_xor_swap, xor_low, xor_half, arith, ◌∷◌, [], ◌⊎◌, ◌∙◌, ap, sym, refl, ◌≡◌, bit_xor,
  bit_and, ◌<◌, ◌^◌, ◌%◌, ◌/◌, ◌*◌, ◌+◌, suc, zero, ℕ, get_or, AreBytes, Bytes, bit_and-low,
  xor_byte, bit_xor_comm,
}

-- The CRC bit by bit: a byte is put into the lowest digits, and eight rounds shift it out.
unfoldable pub crc_bitwise : ℕ → Bytes → ℕ
crc_bitwise c [] = c
crc_bitwise c (b ∷ bytes) = crc_bitwise (crc_rounds 8 (bit_xor c b)) bytes

get_or-crc_entries :
    (left i j : ℕ) → j < left → get_or (crc_entries left i) j 0 ≡ crc_rounds 8 (i + j)
unfolding crc_entries
get_or-crc_entries zero i j h = absurd (omega arith)
get_or-crc_entries (suc left) i zero h = ap (crc_rounds 8) (omega arith)
get_or-crc_entries (suc left) i (suc j) h =
    get_or-crc_entries left (i + 1) j (omega arith) ∙ ap (crc_rounds 8) (omega arith)

crc_shift-eq :
    (c : ℕ)
    → ((c % 2 ≡ 0) × (crc_shift c ≡ c / 2))
      ⊎ ((c % 2 ≡ 1) × (crc_shift c ≡ bit_xor 0xedb88320 (c / 2)))
unfolding crc_shift
crc_shift-eq c = ground (arith, bit_and-low 1 c)

-- A round does not mix digits from above the lowest one in.
crc_shift-xor : (m c : ℕ) → crc_shift (bit_xor (m + m) c) ≡ bit_xor m (crc_shift c)
crc_shift-xor m c =
    let half : bit_xor (m + m) c / 2 ≡ bit_xor m (c / 2) =
      xor_half (m + m) c ∙ ap (λ n. bit_xor n (c / 2)) (omega arith) in
    let even : (m + m) % 2 ≡ 0 = omega arith in
    let low : bit_xor (m + m) c % 2 ≡ c % 2 = xor_low (m + m) c ∙ ap (λ n. differ n (c % 2)) even in
    cases half low (crc_shift-eq c) (crc_shift-eq (bit_xor (m + m) c))
  where
    cases :
        bit_xor (m + m) c / 2 ≡ bit_xor m (c / 2)
        → bit_xor (m + m) c % 2 ≡ c % 2
        → ((c % 2 ≡ 0) × (crc_shift c ≡ c / 2))
          ⊎ ((c % 2 ≡ 1) × (crc_shift c ≡ bit_xor 0xedb88320 (c / 2)))
        → (let d = bit_xor (m + m) c in
            ((d % 2 ≡ 0) × (crc_shift d ≡ d / 2))
            ⊎ ((d % 2 ≡ 1) × (crc_shift d ≡ bit_xor 0xedb88320 (d / 2))))
        → crc_shift (bit_xor (m + m) c) ≡ bit_xor m (crc_shift c)
    cases half low (inl (p, e)) (inl (q, f)) = f ∙ half ∙ ap (bit_xor m) (sym e)
    cases half low (inr (p, e)) (inr (q, f)) =
        f
        ∙ ap (bit_xor 0xedb88320) half
        ∙ bit_xor_swap 0xedb88320 m (c / 2)
        ∙ ap (bit_xor m) (sym e)
    cases half low (inl (p, e)) (inr (q, f)) = absurd (omega arith)
    cases half low (inr (p, e)) (inl (q, f)) = absurd (omega arith)

crc_rounds-xor : (k m c : ℕ) → crc_rounds k (bit_xor (m * 2 ^ k) c) ≡ bit_xor m (crc_rounds k c)
unfolding crc_rounds
crc_rounds-xor zero m c = let one : m * 2 ^ 0 ≡ m = omega arith in rw one refl
crc_rounds-xor (suc k) m c =
    let twice : m * 2 ^ suc k ≡ m * 2 ^ k + m * 2 ^ k =
      omega (arith, ap (λ (t : ℕ). m * t) (two-pow-succ k)) in
    rw (twice, crc_shift-xor (m * 2 ^ k) c) (crc_rounds-xor k m (crc_shift c))

-- One byte through the table.
crc_byte :
    (c b : ℕ)
    → b < 256
    → bit_xor (get_or crc_table (bit_and (bit_xor c b) 0xff) 0) (c / 256)
      ≡ crc_rounds 8 (bit_xor c b)
unfolding crc_table
crc_byte c b h =
    let (split, small, sum) = xor_byte c b h in
    let low : ℕ = bit_xor (c % 256) b in
    let index : bit_and (bit_xor c b) 0xff ≡ low = bit_and-low 8 (bit_xor c b) ∙ (omega arith) in
    ap (λ i. bit_xor (get_or (crc_entries 256 0) i 0) (c / 256)) index
    ∙ ap (λ e. bit_xor e (c / 256))
        (get_or-crc_entries 256 0 low small ∙ ap (crc_rounds 8) (omega arith))
    ∙ bit_xor_comm (crc_rounds 8 low) (c / 256)
    ∙ sym (crc_rounds-xor 8 (c / 256) low)
    ∙ ap (crc_rounds 8) (sym split)

-- On bytes, the CRC through the table, eight bits at a time, is the one that is computed bit by
-- bit.
pub crc_update-crc_bitwise :
    (bytes : Bytes) (c : ℕ) → AreBytes bytes → crc_update c bytes ≡ crc_bitwise c bytes
unfolding crc_update crc_bitwise
crc_update-crc_bitwise [] c h = refl
crc_update-crc_bitwise (b ∷ bytes) c (hb, hs) =
    rw (crc_byte c b hb) (crc_update-crc_bitwise bytes (crc_rounds 8 (bit_xor c b)) hs)
