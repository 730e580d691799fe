-- ===== src/Pages/Media.antt =====
-- `isoWalk`, `isoSampleEntries` and `sniffIso` of web/static/app.js: the sample formats of an ISO
-- base media file. A `Blob` is its bytes, and reading it does not fail.
pub mod Budget
pub mod Described
use k_quickshare.Base.{
  ◌++◌, ◌∷◌, [], List, Option, some, none, Bool, true, false, ◌&&◌, ◌||◌, not, ℕ, ◌+◌, ◌-◌, ◌*◌,
  suc, zero, min, Bytes, if◌then◌else◌, ◌==◌, leb, ltb, length, take, drop, get_or,
}
use k_quickshare.Json.{Text, codes, text_eq}

-- `blob.slice(from, to)`
abbrev pub slice : Bytes → ℕ → ℕ → Bytes
slice blob from to = take (to - from) (drop from blob)

-- `be32(b, at)`: four bytes, the first the highest. Past the end they count as 0.
unfoldable pub read_be32 : Bytes → ℕ → ℕ
read_be32 b at =
    get_or b at 0 * 16777216
    + get_or b (at + 1) 0 * 65536
    + get_or b (at + 2) 0 * 256
    + get_or b (at + 3) 0

-- `fourcc(b, at)`
unfoldable pub fourcc : Bytes → ℕ → Text
fourcc b at = get_or b at 0 ∷ get_or b (at + 1) 0 ∷ get_or b (at + 2) 0 ∷ get_or b (at + 3) 0 ∷ []

-- `list.indexOf(t) >= 0`
unfoldable pub is_among : Text → List Text → Bool
is_among t [] = false
is_among t (s ∷ ss) = let rest = is_among t ss in if text_eq t s then true else rest

abbrev pub iso_parents : List Text
iso_parents = codes "moov" ∷ codes "trak" ∷ codes "mdia" ∷ codes "minf" ∷ codes "stbl" ∷ []

abbrev pub iso_openers : List Text
iso_openers =
    codes "ftyp"
    ∷ codes "moov"
    ∷ codes "mdat"
    ∷ codes "wide"
    ∷ codes "skip"
    ∷ codes "free"
    ∷ codes "pnot"
    ∷ []

-- VIDEO_CODECS
abbrev pub video_codecs : List (Text × Text)
video_codecs =
    (codes "avc1", codes "H.264")
    ∷ (codes "avc3", codes "H.264")
    ∷ (codes "hvc1", codes "HEVC (H.265)")
    ∷ (codes "hev1", codes "HEVC (H.265)")
    ∷ (codes "dvh1", codes "Dolby Vision (HEVC)")
    ∷ (codes "dvhe", codes "Dolby Vision (HEVC)")
    ∷ (codes "av01", codes "AV1")
    ∷ (codes "vp08", codes "VP8")
    ∷ (codes "vp09", codes "VP9")
    ∷ (codes "mp4v", codes "MPEG-4 Visual")
    ∷ (codes "jpeg", codes "Motion JPEG")
    ∷ (codes "mjpa", codes "Motion JPEG")
    ∷ (codes "ap4h", codes "Apple ProRes")
    ∷ (codes "ap4x", codes "Apple ProRes")
    ∷ (codes "apch", codes "Apple ProRes")
    ∷ (codes "apcn", codes "Apple ProRes")
    ∷ (codes "apco", codes "Apple ProRes")
    ∷ (codes "apcs", codes "Apple ProRes")
    ∷ []

unfoldable pub codec_in : Text → List (Text × Text) → Option Text
codec_in f [] = none
codec_in f ((k, label) ∷ rest) =
    let found = codec_in f rest in if text_eq f k then some label else found

-- `out` and `budget.n`
pub record Walk : Type 0 where
  pub out : List Text
  pub left : ℕ

-- A box: its size, where its body begins, and its type.
pub record Box : Type 0 where
  pub size : ℕ
  pub body : ℕ
  pub type : Text

-- The size and the body that a header states; `none` ends the walk.
unfoldable pub box_extent : Bytes → ℕ → ℕ → Option (ℕ × ℕ)
unfolding read_be32
box_extent head at end =
    let size = read_be32 head 0 in
    if size == 1
    then (if ltb (length head) 16 || not (read_be32 head 8 == 0)
        then none
        else some (read_be32 head 12, at + 16))
    else if size == 0
    then some (end - at, at + 8)
    else some (size, at + 8)

-- The box at `at`, from its header.
unfoldable pub read_box : Bytes → ℕ → ℕ → Option Box
unfolding box_extent fourcc
read_box head at end = if ltb (length head) 8 then none else elim (box_extent head at end) [
  | none ↦ none
  | some e ↦
      if ltb e.0 (e.1 - at)
      then none
      else some (record { size = e.0; body = e.1; type = fourcc head 4 })
]

-- `isoSampleEntries`: each round takes one from the budget.
unfoldable pub sample_entries : ℕ → Bytes → ℕ → ℕ → List Text → Walk
unfolding read_be32 fourcc
sample_entries zero blob at end out = record { out = out; left = 0 }
sample_entries (suc n) blob at end out =
    let head = slice blob at (at + 8) in
    let size = read_be32 head 0 in
    let with_this = out ++ fourcc head 4 ∷ [] in
    let rest = sample_entries n blob (at + size) end with_this in
    if leb (at + 8) end
    then (if ltb (length head) 8
        then record { out = out; left = n }
        else if ltb size 8
        then record { out = with_this; left = n }
        else rest)
    else record { out = out; left = suc n }

-- Into a box: its sample entries, or the boxes of a parent, which `again` walks.
unfoldable pub enter_box : (ℕ → ℕ → ℕ → Walk → Walk) → Bytes → Box → ℕ → ℕ → Walk → Walk
unfolding sample_entries is_among
enter_box again blob box stop depth w =
    if text_eq box.type (codes "stsd")
    then sample_entries w.left blob (box.body + 8) stop w.out
    else elim (ltb depth 6 && is_among box.type iso_parents) [
      | true ↦ again box.body stop (depth + 1) w
      | false ↦ w
    ]

-- A round of the loop, and those after it.
unfoldable pub iso_round : (ℕ → ℕ → ℕ → Walk → Walk) → Bytes → ℕ → ℕ → ℕ → Walk → Walk
unfolding read_box enter_box
iso_round again blob at end depth w = elim (leb (at + 8) end && ltb 0 w.left) [
  | false ↦ w
  | true ↦
      let spent = record w { left = w.left - 1 } in
      elim (read_box (slice blob at (min (at + 16) end)) at end) [
        | none ↦ spent
        | some box ↦
            again (at + box.size) end depth
              (enter_box again blob box (min (at + box.size) end) depth spent)
      ]
]

-- `isoWalk` on fuel.
unfoldable pub iso_walk : ℕ → Bytes → ℕ → ℕ → ℕ → Walk → Walk
unfolding iso_round
iso_walk zero blob at end depth w = w
iso_walk (suc fuel) blob at end depth w = iso_round (iso_walk fuel blob) blob at end depth w

pub record Media : Type 0 where
  pub formats : List Text
  pub video : Text
  pub label : Text

-- `formats.filter((f) => VIDEO_CODECS[f])[0] || ''`
unfoldable pub first_video : List Text → Text
unfolding codec_in
first_video [] = []
first_video (f ∷ fs) =
    let rest = first_video fs in elim (codec_in f video_codecs) [ some label ↦ f | none ↦ rest ]

unfoldable pub label_of : Text → Text
unfolding codec_in
label_of f = elim (codec_in f video_codecs) [ some label ↦ label | none ↦ [] ]

abbrev pub iso_budget : ℕ
iso_budget = 4000

-- The boxes of the whole blob.
unfoldable pub all_formats : Bytes → List Text
unfolding iso_walk
all_formats blob =
    (iso_walk iso_budget blob 0 (length blob) 0 (record { out = []; left = iso_budget })).out

unfoldable pub sniff_iso : Bytes → Option Media
unfolding all_formats first_video label_of fourcc is_among
sniff_iso blob =
    let head = slice blob 0 8 in
    if ltb (length head) 8
    then none
    else if is_among (fourcc head 4) iso_openers
    then elim (all_formats blob) [
      | [] ↦ none
      | f ∷ fs ↦
          let video = first_video (f ∷ fs) in
          some (record { formats = f ∷ fs; video = video; label = label_of video })
    ]
    else none
