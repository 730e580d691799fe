-- ===== src/Tests/Files.antt =====
-- Sealing and opening a small file.
use k_quickshare.E2e.Chunks.{blob_type, or_type, Blob, File, encrypt_file}
use k_quickshare.E2e.Chunks.Sealed.{Holds, IsReadable, piece, container, encrypt_file-returns}
use k_quickshare.E2e.Slice.{Read, sized}
use k_quickshare.E2e.Slice.Retry.{IsHonest}
use k_quickshare.E2e.Manifest.{Size, Manifest, chunk_count, parse_manifest, build_manifest}
use k_quickshare.E2e.Chunks.Older.{open_file-separate}
use k_quickshare.E2e.Chunks.{open_file}
use k_quickshare.E2e.Manifest.{check_manifest, read_json, get_field}
use k_quickshare.Json.Read.{scan, next, unsigned, parse}
use k_quickshare.Json.{Value, Fields}
use k_quickshare.Json.Write.{stringify}
use k_quickshare.Json.Steps.{IsText}
use k_quickshare.E2e.Chunks.RoundTrip.{decrypt_file-encrypt_file, manifest_of}
use k_quickshare.E2e.Chunks.Sound.{decrypt_file_sound}
use k_quickshare.E2e.Chunks.{Opened, decrypt_file, differs}
use k_quickshare.Tests.Instances.{plain, no_numbers}
use k_quickshare.Json.{codes}
use k_quickshare.Tests.Instances.{toy, plain}
use k_quickshare.Base.{
  ◌++◌, some, none, true, Bool, subst, sym, AreBytes, if◌then◌else◌, ltb, arith, ◌∷◌, [], false,
  inl, refl, ◌≡◌, min, ◌<◌, ◌≤◌, ◌*◌, ◌-◌, ◌+◌, ℕ, ok, length-drop, length-take, replicate, drop,
  length, Bytes,
}
use k_quickshare.E2e.Header.{magic_for}
use k_quickshare.E2e.Header.RoundTrip.{magic_version, header_bytes}
use k_quickshare.E2e.Chunks.Stream.{seal_stream}
use k_quickshare.E2e.Nonce.{chunk_nonce}

-- A file on a disk that reads truly, through the first way of reading.
abbrev pub on_disk : Bytes → File
on_disk p = record {
  size = length p;
  reads = λ i n. record {
    cancelled = false;
    direct = Read.got (piece 65536 i p);
    via_reader = Read.failed;
  };
  cancelled = λ i. false;
}

got_IsHonest : (want : ℕ) (b : Bytes) → IsHonest want b (Read.got b)
unfolding sized
got_IsHonest want b buf e = ground arith

failed_IsHonest : (want : ℕ) (b : Bytes) → IsHonest want b Read.failed
unfolding sized
failed_IsHonest want b buf e = cc

pub on_disk-Holds : (p : Bytes) → Holds (on_disk p) p
on_disk-Holds p = (refl, λ i n. (got_IsHonest _ _, failed_IsHonest _ _))

on_disk-IsReadable : (p : Bytes) → IsReadable (on_disk p)
on_disk-IsReadable p =
    λ i. (refl, (0, omega arith, λ j h. absurd (omega arith), refl, inl (piece_length i)))
  where
    piece_length :
        (i : ℕ) → length (piece 65536 i p) ≡ min (i * 65536 + 65536) (length p) - i * 65536
    piece_length i =
        omega (arith, length-take 65536 (drop (i * 65536) p), length-drop (i * 65536) p)

abbrev pub hello : Bytes
hello = 104 ∷ 105 ∷ 33 ∷ []

abbrev pub key : Bytes
key = replicate 32 7

abbrev pub hello_manifest : Bytes
hello_manifest = build_manifest plain (codes "f1") (codes "b1") 3

hello_manifest_fits : (0 < length hello_manifest) × (length hello_manifest ≤ 0xffff)
unfolding build_manifest stringify
hello_manifest_fits = (omega arith, omega arith)

encrypt_file-returns_example :
    (b : Blob) × (encrypt_file toy (on_disk hello) key hello_manifest ≡ ok b)
    × (b.content ≡ container toy key hello_manifest hello)
encrypt_file-returns_example =
    encrypt_file-returns toy (on_disk hello) key hello_manifest hello (on_disk-Holds hello)
      (on_disk-IsReadable hello) hello_manifest_fits.0 hello_manifest_fits.1

pub sealed_hello :
    (b : Blob) × (encrypt_file toy (on_disk hello) key hello_manifest ≡ ok b)
    × (b.content ≡ container toy key hello_manifest hello)
sealed_hello =
    encrypt_file-returns toy (on_disk hello) key hello_manifest hello (on_disk-Holds hello)
      (on_disk-IsReadable hello) hello_manifest_fits.0 hello_manifest_fits.1

pub is_id : IsText (codes "f1")
is_id = omega arith

pub is_batch : IsText (codes "b1")
is_batch = omega arith

abbrev pub opened_hello : Opened
opened_hello = record {
  blob = record {
    content = hello;
    type = blob_type (or_type no_numbers none (codes "text/plain"));
  };
  manifest = some (manifest_of (codes "f1") (codes "b1") 3);
}

abbrev all_bytes : Bytes → Bool
all_bytes [] = true
all_bytes (b ∷ bs) = let rest = all_bytes bs in if ltb b 256 then rest else false

pub all_bytes-AreBytes : (bs : Bytes) → all_bytes bs ≡ true → AreBytes bs
all_bytes-AreBytes [] h = tt
all_bytes-AreBytes (b ∷ bs) h = (ground arith, all_bytes-AreBytes bs (ground arith))

none_expected : differs none hello_manifest ≡ false
unfolding differs
none_expected = refl

pub opens_hello :
    decrypt_file toy plain no_numbers sealed_hello.0.content key none (codes "text/plain")
    ≡ ok opened_hello
opens_hello =
    decrypt_file-encrypt_file toy plain no_numbers (on_disk hello) key (codes "f1") (codes "b1")
      (codes "text/plain") hello none sealed_hello.0 is_id is_batch (on_disk-Holds hello)
      none_expected sealed_hello.1

decrypt_file-encrypt_file_example :
    decrypt_file toy plain no_numbers sealed_hello.0.content key none (codes "text/plain")
    ≡ ok opened_hello
decrypt_file-encrypt_file_example =
    decrypt_file-encrypt_file toy plain no_numbers (on_disk hello) key (codes "f1") (codes "b1")
      (codes "text/plain") hello none sealed_hello.0 is_id is_batch (on_disk-Holds hello)
      none_expected sealed_hello.1

hello-AreBytes : AreBytes (container toy key hello_manifest hello)
unfolding build_manifest stringify magic_for seal_stream chunk_nonce
hello-AreBytes = all_bytes-AreBytes (container toy key hello_manifest hello) refl

decrypt_file_sound_example :
    (length hello ≡ 3)
    × ((m : Bytes) × (parse_manifest plain no_numbers m
          ≡ ok (manifest_of (codes "f1") (codes "b1") 3))
        × (differs none m ≡ false)
        × (sealed_hello.0.content
            ≡ header_bytes (magic_version sealed_hello.0.content) m
              ++ seal_stream toy 65536 (chunk_count 3) 0 key m hello))
decrypt_file_sound_example =
    decrypt_file_sound toy plain no_numbers sealed_hello.0.content key none (codes "text/plain")
      opened_hello (manifest_of (codes "f1") (codes "b1") 3) 3
      (subst AreBytes (sym sealed_hello.2) hello-AreBytes) opens_hello refl refl

abbrev old_manifest : Bytes
old_manifest = codes "{\"v\":2,\"size\":3,\"chunk\":65536,\"chunks\":1}"

abbrev old_fields : Manifest
old_fields = record {
  fields = Value.obj (
      Fields.field (codes "v") (Value.num 2) (
        Fields.field (codes "size") (Value.num 3) (
          Fields.field (codes "chunk") (Value.num 65536)
            (Fields.field (codes "chunks") (Value.num 1) Fields.done))));
  size = Size.whole 3;
  chunks = 1;
}

reads_old : parse_manifest plain no_numbers old_manifest ≡ ok old_fields
unfolding parse_manifest check_manifest read_json parse chunk_count scan next unsigned
reads_old = refl

no_old_type : get_field (codes "type") old_fields.fields ≡ ok none
unfolding get_field
no_old_type = refl

open_file-separate_example :
    open_file toy plain no_numbers 2
      (seal_stream toy 65536 (chunk_count 3) 0 key old_manifest hello)
      key
      (some old_manifest)
      []
    ≡ ok (record {
      blob = record { content = hello; type = blob_type (or_type no_numbers none []) };
      manifest = some old_fields;
    })
open_file-separate_example =
    open_file-separate toy plain no_numbers key 123 (drop 1 old_manifest) [] hello old_fields none
      reads_old refl no_old_type
