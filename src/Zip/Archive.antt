-- ===== src/Zip/Archive.antt =====
-- `build` of web/static/zip.js. `onProgress` only reports and is left out.
pub mod Layout
pub mod Records
use k_quickshare.Zip.Crc.{crc_of_blob}
use k_quickshare.Zip.Stamp.{Date, DosStamp, dos_date_time}
use k_quickshare.Zip.Names.{unique_names}
use k_quickshare.E2e.Platform.{Utf8}
use k_quickshare.Json.{Text}
use k_quickshare.Base.{
  ◌>>◌, ◌>>=◌, ◌++◌, ◌∷◌, [], List, some, none, Option, ◌||◌, ◌+◌, ℕ, ok, zip_too_large, throw_if,
  Result, concat, length, le16, le32, write, zeros, Bytes, ltb,
}

-- MAX32
abbrev pub max32 : ℕ
max32 = 0xffffffff

-- The setters of a `DataView`, and `set`, one after the other.
unfoldable pub fill : List (ℕ × Bytes) → Bytes → Bytes
fill [] dst = dst
fill ((off, src) ∷ fields) dst = fill fields (write off src dst)

unfoldable pub local_record : DosStamp → ℕ → ℕ → Bytes → Bytes
local_record stamp crc size name =
    fill
      ((0, le32 0x04034b50)
        ∷ (4, le16 20)
        ∷ (6, le16 0x0800)
        ∷ (8, le16 0)
        ∷ (10, le16 stamp.time)
        ∷ (12, le16 stamp.date)
        ∷ (14, le32 crc)
        ∷ (18, le32 size)
        ∷ (22, le32 size)
        ∷ (26, le16 (length name))
        ∷ (28, le16 0)
        ∷ (30, name)
        ∷ [])
      (zeros (30 + length name))

unfoldable pub central_record : DosStamp → ℕ → ℕ → Bytes → ℕ → Bytes
central_record stamp crc size name offset =
    fill
      ((0, le32 0x02014b50)
        ∷ (4, le16 20)
        ∷ (6, le16 20)
        ∷ (8, le16 0x0800)
        ∷ (10, le16 0)
        ∷ (12, le16 stamp.time)
        ∷ (14, le16 stamp.date)
        ∷ (16, le32 crc)
        ∷ (20, le32 size)
        ∷ (24, le32 size)
        ∷ (28, le16 (length name))
        ∷ (42, le32 offset)
        ∷ (46, name)
        ∷ [])
      (zeros (46 + length name))

unfoldable pub end_record : ℕ → ℕ → ℕ → Bytes
end_record count size offset =
    fill
      ((0, le32 0x06054b50)
        ∷ (8, le16 count)
        ∷ (10, le16 count)
        ∷ (12, le32 size)
        ∷ (16, le32 offset)
        ∷ [])
      (zeros 22)

-- The loop of `crcOfBlob` ends, so there is always a value.
unfoldable pub crc_value : Bytes → ℕ
crc_value content = elim (crc_of_blob content) [ none ↦ 0 | some crc ↦ crc ]

-- The variables of the loop in `build`.
pub record Archive : Type 0 where
  pub parts : List Bytes
  pub central : List Bytes
  pub offset : ℕ

unfoldable pub add_entry : DosStamp → Bytes → Bytes → Archive → Archive
add_entry stamp name content l =
    let crc = crc_value content in
    let size = length content in
    let head = local_record stamp crc size name in
    record {
      parts = l.parts ++ head ∷ content ∷ [];
      central = l.central ++ central_record stamp crc size name l.offset ∷ [];
      offset = l.offset + (length head + size);
    }

-- The entries that remain, each as the bytes of its name and its content.
unfoldable pub build_loop : DosStamp → List (Bytes × Bytes) → Archive → Result Archive
build_loop stamp [] l = ok l
build_loop stamp ((name, content) ∷ rest) l = do
  throw_if (ltb max32 (length content) || ltb max32 (l.offset + 30 + length name + length content))
      zip_too_large
  build_loop stamp rest (add_entry stamp name content l)

unfoldable pub finish : Archive → Result Bytes
finish l = do
  let size = length (concat l.central)
  throw_if (ltb max32 (l.offset + size + 22)) zip_too_large
  ok (concat (l.parts ++ (l.central ++ end_record (length l.central) size l.offset ∷ [])))

unfoldable pub build_from : DosStamp → List (Bytes × Bytes) → Archive → Result Bytes
build_from stamp items l = do done ← build_loop stamp items l; finish done

abbrev pub named : Utf8 → List Text → List Bytes → List (Bytes × Bytes)
named u (n ∷ ns) (c ∷ cs) = (u.encode n, c) ∷ named u ns cs
named u ns cs = []

-- Names and contents of the entries; `none` is a search for names that has not ended.
unfoldable pub build : Utf8 → Date → List Text → List Bytes → Option (Result Bytes)
build u now names contents = elim (unique_names names) [
  | none ↦ none
  | some unique ↦ some (
      build_from (dos_date_time now) (named u unique contents)
        (record { parts = []; central = []; offset = 0 }))
]
