-- ===== src/Zip/Archive/Layout.antt =====
-- What an archive consists of, and when it is refused.
use native.Mathlib.Nat.{zero-add, add-zero}
use k_quickshare.Zip.Archive.{
  build_loop, build_from, max32, finish, add_entry, Archive, local_record, central_record,
  end_record, crc_value,
}
use k_quickshare.Zip.Stamp.{DosStamp}
use k_quickshare.Base.{
  true, sym, ◌<◌, ◌>>◌, throw_if, ◌||◌, inr, inl, ap, ok, err, zip_too_large, Result, Bool-cases,
  if◌then◌else◌, leb, ltb, append_assoc, append-nil, suc, concat-append, length-append, concat,
  arith, ◌++◌, ◌∷◌, [], List, ◌∙◌, refl, ◌≡◌, ◌≤◌, ◌+◌, ℕ, length, Bytes,
}
use k_quickshare.Zip.Archive.Records.{length-local_record, length-end_record}

-- The local records and the contents, one entry after the other.
unfoldable pub local_part : DosStamp → List (Bytes × Bytes) → Bytes
local_part stamp [] = []
local_part stamp ((name, content) ∷ rest) =
    local_record stamp (crc_value content) (length content) name
    ++ (content ++ local_part stamp rest)

-- The central directory of the entries that come after `before`: each record has the number of
-- bytes that stand in front of its local record.
unfoldable pub directory : DosStamp → ℕ → List (Bytes × Bytes) → Bytes
directory stamp before [] = []
directory stamp before ((name, content) ∷ rest) =
    central_record stamp (crc_value content) (length content) name before
    ++ directory stamp (before + (30 + length name + length content)) rest

-- The bytes that are written when `items` remain.
abbrev whole : DosStamp → List (Bytes × Bytes) → Archive → Bytes
whole stamp items l =
    concat l.parts
    ++ (local_part stamp items
        ++ (concat l.central
            ++ (directory stamp l.offset items
                ++ end_record (length l.central + length items)
                    (length (concat l.central) + length (directory stamp l.offset items))
                    (l.offset + length (local_part stamp items)))))

regroup :
    (p h c l d r e x : Bytes)
    → (p ++ (h ++ (c ++ []))) ++ (l ++ ((d ++ (r ++ [])) ++ (e ++ x)))
      ≡ p ++ ((h ++ (c ++ l)) ++ (d ++ ((r ++ e) ++ x)))
regroup p h c l d r e x = simp (append-nil, append_assoc) refl

abbrev AreCounted : Archive → Type 0
AreCounted l = l.offset ≡ length (concat l.parts)

whole-add_entry :
    (stamp : DosStamp) (name content : Bytes) (rest : List (Bytes × Bytes)) (l : Archive)
    → whole stamp rest (add_entry stamp name content l) ≡ whole stamp ((name, content) ∷ rest) l
unfolding add_entry local_part directory
whole-add_entry stamp name content rest l =
    let h : Bytes = local_record stamp (crc_value content) (length content) name in
    let r : Bytes = central_record stamp (crc_value content) (length content) name l.offset in
    let size : length h ≡ 30 + length name =
      length-local_record stamp (crc_value content) (length content) name in
    let before : l.offset + (length h + length content)
        ≡ l.offset + (30 + length name + length content) =
      omega (arith, size) in
    let e : Bytes = directory stamp (l.offset + (30 + length name + length content)) rest in
    let parts : concat (l.parts ++ h ∷ content ∷ []) ≡ concat l.parts ++ (h ++ (content ++ [])) =
      concat-append l.parts (h ∷ content ∷ []) in
    let central : concat (l.central ++ r ∷ []) ≡ concat l.central ++ (r ++ []) =
      concat-append l.central (r ∷ []) in
    let count : length (l.central ++ r ∷ []) + length rest ≡ length l.central + suc (length rest) =
      omega (arith, length-append l.central (r ∷ [])) in
    let sizes : length (concat l.central ++ (r ++ [])) + length e
        ≡ length (concat l.central) + length (r ++ e) =
      omega (
        arith,
        length-append (concat l.central) (r ++ []),
        length-append r [],
        length-append r e,
      ) in
    let offsets : l.offset + (30 + length name + length content) + length (local_part stamp rest)
        ≡ l.offset + length (h ++ (content ++ local_part stamp rest)) =
      omega (
        arith,
        size,
        length-append h (content ++ local_part stamp rest),
        length-append content (local_part stamp rest),
      ) in
    rw (before, parts, central, count, sizes, offsets)
      (regroup (concat l.parts) h content (local_part stamp rest) (concat l.central) r e _)

abbrev or_too_large : Bytes → Result Bytes
or_too_large archive = if leb (length archive) max32 then ok archive else err zip_too_large

add_entry-AreCounted :
    (stamp : DosStamp) (name content : Bytes) (l : Archive)
    → AreCounted l
    → AreCounted (add_entry stamp name content l)
unfolding add_entry
add_entry-AreCounted stamp name content l h =
    let head : Bytes = local_record stamp (crc_value content) (length content) name in
    let parts : concat (l.parts ++ head ∷ content ∷ [])
        ≡ concat l.parts ++ (head ++ (content ++ [])) =
      concat-append l.parts (head ∷ content ∷ []) in
    rw parts (
      omega (
        arith,
        h,
        length-append (concat l.parts) (head ++ (content ++ [])),
        length-append head (content ++ []),
        length-append content [],
      ))

decided :
    (n : ℕ) (out archive : Bytes)
    → out ≡ archive
    → length archive ≡ n
    → (throw_if (ltb max32 n) zip_too_large >> ok out) ≡ or_too_large archive
decided n out archive same size = rw same (ground arith)

refused : (archive : Bytes) → max32 < length archive → or_too_large archive ≡ err zip_too_large
refused archive h = ground arith

content_large :
    (size offset name total : ℕ)
    → (ltb max32 size || ltb max32 (offset + 30 + name + size)) ≡ true
    → offset + 30 + name + size ≤ total
    → max32 < total
content_large size offset name total h k = ground arith

prefix_le :
    (p h c l x : Bytes) → length p + length h + length c ≤ length (p ++ ((h ++ (c ++ l)) ++ x))
prefix_le p h c l x = omega (
  arith,
  length-append p ((h ++ (c ++ l)) ++ x),
  length-append (h ++ (c ++ l)) x,
  length-append h (c ++ l),
  length-append c l,
)

finish-whole :
    (stamp : DosStamp) (l : Archive) → AreCounted l → finish l ≡ or_too_large (whole stamp [] l)
unfolding finish local_part directory
finish-whole stamp l h =
    let e : Bytes = end_record (length l.central) (length (concat l.central)) l.offset in
    let all : concat (l.parts ++ (l.central ++ e ∷ []))
        ≡ concat l.parts ++ (concat l.central ++ (e ++ [])) =
      concat-append l.parts (l.central ++ e ∷ [])
      ∙ ap (λ t. concat l.parts ++ t) (concat-append l.central (e ∷ [])) in
    let size : length (concat l.parts ++ (concat l.central ++ e))
        ≡ l.offset + length (concat l.central) + 22 =
      omega (
        arith,
        h,
        length-append (concat l.parts) (concat l.central ++ e),
        length-append (concat l.central) e,
        length-end_record (length l.central) (length (concat l.central)) l.offset,
      ) in
    let same : e
        ≡ end_record (length l.central + 0) (length (concat l.central) + 0) (l.offset + 0) =
      rw (add-zero (length l.central), add-zero (length (concat l.central)), add-zero l.offset)
        refl in
    decided (l.offset + length (concat l.central) + 22) _
      (concat l.parts ++ (concat l.central ++ e))
      (all ∙ ap (λ t. concat l.parts ++ (concat l.central ++ t)) (append-nil e)) size
    ∙ ap (λ t. or_too_large (concat l.parts ++ (concat l.central ++ t))) same

entry_fits :
    (stamp : DosStamp) (name content : Bytes) (rest : List (Bytes × Bytes)) (l : Archive)
    → AreCounted l
    → l.offset + 30 + length name + length content ≤ length (whole stamp ((name, content) ∷ rest) l)
unfolding local_part
entry_fits stamp name content rest l h =
    let head : Bytes = local_record stamp (crc_value content) (length content) name in
    omega (
      arith,
      h,
      length-local_record stamp (crc_value content) (length content) name,
      prefix_le (concat l.parts) head content (local_part stamp rest) _,
    )

build_from-whole :
    (stamp : DosStamp) (items : List (Bytes × Bytes)) (l : Archive)
    → AreCounted l
    → build_from stamp items l ≡ or_too_large (whole stamp items l)
unfolding build_from build_loop
build_from-whole stamp [] l h = finish-whole stamp l h
build_from-whole stamp ((name, content) ∷ rest) l h =
    elim (Bool-cases
      (ltb max32 (length content) || ltb max32 (l.offset + 30 + length name + length content))) [
        | inl large ↦ rw large (
            sym (
              refused _ (
                content_large (length content) _ _ _ large
                  (entry_fits stamp name content rest l h))))
        | inr small ↦ rw small (
            build_from-whole stamp rest (add_entry stamp name content l)
              (add_entry-AreCounted stamp name content l h)
            ∙ ap or_too_large (whole-add_entry stamp name content rest l))
      ]

-- The archive of the entries: the local records and contents, the central directory, in which each
-- record has the place of its local record, and the end record.
abbrev pub archive_of : DosStamp → List (Bytes × Bytes) → Bytes
archive_of stamp items =
    local_part stamp items
    ++ (directory stamp 0 items
        ++ end_record (length items) (length (directory stamp 0 items))
            (length (local_part stamp items)))

-- The loop and the closing of `build` yield exactly that archive, with an offset of its local
-- record in every entry of the directory, if it is at most 2^32 - 1 bytes long, and an error
-- otherwise.
pub build_from-archive_of :
    (stamp : DosStamp) (items : List (Bytes × Bytes))
    → build_from stamp items (record { parts = []; central = []; offset = 0 }) ≡ (
        if leb (length (archive_of stamp items)) max32
        then ok (archive_of stamp items)
        else err zip_too_large)
build_from-archive_of stamp items =
    let none_yet : Archive = record { parts = []; central = []; offset = 0 } in
    build_from-whole stamp items none_yet refl
    ∙ ap or_too_large (
        rw
          (
            zero-add (length items),
            zero-add (length (directory stamp 0 items)),
            zero-add (length (local_part stamp items)),
          )
          refl)
