-- ===== src/Tests/Containers.antt =====
-- Headers, padding, nonces, texts and reads at concrete inputs.
use k_quickshare.E2e.Header.{lay_out, write_header, read_header}
use k_quickshare.E2e.Header.RoundTrip.{read_header-write_header}
use k_quickshare.E2e.Padding.{unpad_name_body}
use k_quickshare.E2e.Nonce.{chunk_nonce-injective}
use k_quickshare.E2e.Slice.{read_loop, sized, Attempt, Read, read_slice}
use k_quickshare.E2e.Slice.Retry.{FailsOver, Succeeds, read_slice-retries, read_slice-gives_up}
use k_quickshare.Json.{codes}
use k_quickshare.Json.Steps.{IsText}
use k_quickshare.Base.{
  arith, ◌∷◌, [], false, inr, ◌↔◌, refl, ◌≡◌, ◌<◌, ◌+◌, ℕ, err, ok, file_unreadable, length,
  AreBytes, Bytes, if◌then◌else◌, ltb,
}

abbrev two : Bytes
two = 104 ∷ 105 ∷ []

abbrev header : Bytes
header = 0x50 ∷ 0x59 ∷ 0x58 ∷ 0x35 ∷ 0 ∷ 2 ∷ 104 ∷ 105 ∷ []

writes : write_header two 5 ≡ ok header
unfolding write_header lay_out
writes = refl

reads_back : read_header header ≡ ok (record { manifest = two; body = 8 })
reads_back = read_header-write_header 5 two header [] (omega arith) writes

header-AreBytes : AreBytes header
header-AreBytes = omega arith

abbrev body : Bytes
body = 0 ∷ 2 ∷ 104 ∷ 105 ∷ 0 ∷ []

body-AreBytes : AreBytes body
body-AreBytes = omega arith

unpads : unpad_name_body body ≡ ok two
unfolding unpad_name_body
unpads = refl

chunk_nonce-injective_example : length two + 3 ≡ 5
chunk_nonce-injective_example = chunk_nonce-injective 5 5 (omega arith) (omega arith) refl

two-AreBytes : AreBytes two
two-AreBytes = omega arith

-- A disk on which the first two passes fail and the third reads two bytes.
abbrev third_time : ℕ → Attempt
third_time n = record {
  cancelled = false;
  direct = Read.failed;
  via_reader = if ltb n 2 then Read.failed else Read.got two;
}

fails_twice : (i : ℕ) → i < 2 → FailsOver 2 (third_time i)
unfolding sized
fails_twice i h = ground arith

third-Succeeds : Succeeds 2 (third_time 2)
unfolding sized
third-Succeeds = inr (refl, refl)

read_slice-retries_example : (buf : Bytes) × (read_slice 4 6 third_time ≡ ok buf)
read_slice-retries_example =
    read_slice-retries 2 4 6 third_time (omega arith) fails_twice refl third-Succeeds

reads_two : read_slice 4 6 third_time ≡ ok two
unfolding read_slice read_loop sized
reads_two = refl

read_slice-gives_up_example :
    (read_slice 4 6 third_time ≡ err file_unreadable)
    ↔ ((i : ℕ) → i < 4 → FailsOver 2 (third_time i))
read_slice-gives_up_example = read_slice-gives_up 4 6 third_time

is_id : IsText (codes "f1")
is_id = omega arith

is_batch : IsText (codes "b1")
is_batch = omega arith
