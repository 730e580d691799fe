-- ===== src/Zip/Archive/Records.antt =====
-- How long the records of an archive are.
use k_quickshare.Zip.Archive.{fill, local_record, end_record}
use k_quickshare.Zip.Stamp.{DosStamp}
use k_quickshare.Base.{
  arith, ◌∷◌, [], List, ◌∙◌, refl, ◌≡◌, ◌≤◌, ◌+◌, ℕ, length-replicate, length, length-write, write,
  zeros, Bytes,
}

-- The fields lie inside the array.
abbrev Fit : List (ℕ × Bytes) → ℕ → Type 0
Fit [] n = Unit
Fit (f ∷ fs) n = (f.0 + length f.1 ≤ n) × Fit fs n

length-fill :
    (fs : List (ℕ × Bytes)) (dst : Bytes) → Fit fs (length dst) → length (fill fs dst) ≡ length dst
unfolding fill
length-fill [] dst h = refl
length-fill (f ∷ fs) dst (hf, h) =
    let size : length (write f.0 f.1 dst) ≡ length dst = length-write f.0 f.1 dst hf in
    length-fill fs (write f.0 f.1 dst) (rw size h) ∙ size

pub length-local_record :
    (stamp : DosStamp) (crc size : ℕ) (name : Bytes)
    → length (local_record stamp crc size name) ≡ 30 + length name
unfolding local_record
length-local_record stamp crc size name =
    let n : length (zeros (30 + length name)) ≡ 30 + length name =
      length-replicate {A = ℕ} (30 + length name) 0 in
    length-fill _ (zeros (30 + length name)) (omega (arith, n)) ∙ n

pub length-end_record : (count size offset : ℕ) → length (end_record count size offset) ≡ 22
unfolding end_record
length-end_record count size offset = length-fill _ (zeros 22) (omega arith)
