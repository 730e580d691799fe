-- ===== src/Zip/Crc/Sliced.antt =====
-- Reading a blob in slices computes the CRC of its content.
use k_quickshare.Zip.Crc.{crc_slice, crc_update, crc_loop, crc_of_blob}
use k_quickshare.Base.{
  arith, inr, inl, ◌/◌, drop-all, Bool-cases, ltb→ge, ltb-le, ltb, ◌++◌, ◌∷◌, [], some, ◌∙◌, ap,
  sym, refl, ◌≡◌, bit_xor, min, ◌≤◌, ◌*◌, ◌-◌, ◌+◌, suc, zero, ℕ, take-min, drop-drop,
  take-append-drop, drop, take, length, Bytes,
}

crc_update-append :
    (xs ys : Bytes) (c : ℕ) → crc_update c (xs ++ ys) ≡ crc_update (crc_update c xs) ys
unfolding crc_update
crc_update-append [] ys c = refl
crc_update-append (x ∷ xs) ys c = crc_update-append xs ys _

crc_update-nil : (c : ℕ) → crc_update c [] ≡ c
unfolding crc_update
crc_update-nil c = refl

-- The rest of the content, and what a slice leaves of it.
sliced :
    (slice off c : ℕ) (content : Bytes)
    → crc_update
        (crc_update c (take (min (off + slice) (length content) - off) (drop off content)))
        (drop (off + slice) content)
      ≡ crc_update c (drop off content)
sliced slice off c content =
    let split : take slice (drop off content) ++ drop (off + slice) content ≡ drop off content =
      ap (λ t. take slice (drop off content) ++ t) (sym (drop-drop slice off content))
      ∙ take-append-drop slice (drop off content) in
    rw (take-min off slice content) (
      sym (crc_update-append (take slice (drop off content)) (drop (off + slice) content) c)
      ∙ ap (crc_update c) split)

crc_loop-ends :
    (slice fuel off c : ℕ) (content : Bytes)
    → length content ≤ off + fuel * slice
    → crc_loop slice (suc fuel) off c content ≡ some (crc_update c (drop off content))
unfolding crc_loop
crc_loop-ends slice zero off c content h =
    rw
      (
        ltb-le off (length content) (omega arith),
        drop-all off content (omega arith),
        crc_update-nil c,
      )
      refl
crc_loop-ends slice (suc fuel) off c content h = elim (Bool-cases (ltb off (length content))) [
  | inl more ↦ rw more (
      crc_loop-ends slice fuel (off + slice) _ content (omega arith)
      ∙ ap some (sliced slice off c content))
  | inr over ↦
      rw (over, drop-all off content (ltb→ge off (length content) over), crc_update-nil c) refl
]

-- The loop over the slices ends, and its result is the CRC of the whole content at once.
pub crc_of_blob-eq :
    (content : Bytes)
    → crc_of_blob content ≡ some (bit_xor (crc_update 0xffffffff content) 0xffffffff)
unfolding crc_of_blob
crc_of_blob-eq content =
    let enough : length content ≤ 0 + (length content / crc_slice + 1) * crc_slice = omega arith in
    let fuel : length content / crc_slice + 2 ≡ suc (length content / crc_slice + 1) =
      omega arith in
    let loop : crc_loop crc_slice (length content / crc_slice + 2) 0 0xffffffff content
        ≡ some (crc_update 0xffffffff content) =
      ap (λ n. crc_loop crc_slice n 0 0xffffffff content) fuel
      ∙ crc_loop-ends crc_slice (length content / crc_slice + 1) 0 0xffffffff content enough in
    rw (crc_of_blob, loop) refl
