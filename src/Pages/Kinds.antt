-- ===== src/Pages/Kinds.antt =====
-- `iconKindFor` and `previewKindFor` of web/static/app.js. What `toLowerCase` does with a text is
-- an argument.
use k_quickshare.Base.{
  ◌∷◌, [], List, Option, some, none, Bool, true, false, ◌||◌, ◌&&◌, ℕ, ◌+◌, if◌then◌else◌, ◌==◌,
  leb, ltb, drop,
}
use k_quickshare.Json.{Text, Value, codes, text_eq}
use k_quickshare.E2e.Blobs.{or_empty}
use k_quickshare.E2e.Platform.{Coercion}
use k_quickshare.Pages.Media.{is_among}
use k_quickshare.Pages.Upload.Rows.{trim_start, trim_end}

-- ICON_KINDS
pub data FileKind : Type 0 where
  image video audio pdf text doc archive generic : FileKind

-- `String(v || '')`
unfoldable pub string_of : Coercion → Value → Text
string_of co v = elim (or_empty (some v)) [ Value.str s ↦ s | w ↦ co.to_text w ]

-- `t.split(';')[0]`
unfoldable pub before_semicolon : Text → Text
before_semicolon [] = []
before_semicolon (c ∷ t) = let rest = before_semicolon t in if c == 59 then [] else c ∷ rest

unfoldable pub starts_with : Text → Text → Bool
starts_with [] t = true
starts_with (c ∷ p) [] = false
starts_with (c ∷ p) (d ∷ t) = c == d && starts_with p t

-- `t.lastIndexOf('.')`, from the place `i` on.
unfoldable pub dot_place : ℕ → Text → Option ℕ → Option ℕ
dot_place i [] found = found
dot_place i (c ∷ t) found = dot_place (i + 1) t (if c == 46 then some i else found)

-- A name that only begins with a dot has no extension.
unfoldable pub extension : (Text → Text) → Text → Text
unfolding dot_place
extension lower name = elim (dot_place 0 name none) [
  | none ↦ []
  | some i ↦ if ltb 0 i then lower (drop (i + 1) name) else []
]

unfoldable pub media_type : Coercion → (Text → Text) → Value → Text
unfolding string_of before_semicolon
media_type co lower v = trim_end (trim_start (before_semicolon (lower (string_of co v))))

abbrev pub is_readable : Text → Bool
is_readable ct =
    starts_with (codes "text/") ct
    || text_eq ct (codes "application/json")
    || text_eq ct (codes "application/xml")

abbrev pub archives : List Text
archives =
    codes "zip"
    ∷ codes "tar"
    ∷ codes "gz"
    ∷ codes "tgz"
    ∷ codes "bz2"
    ∷ codes "xz"
    ∷ codes "zst"
    ∷ codes "7z"
    ∷ codes "rar"
    ∷ []

abbrev pub documents : List Text
documents =
    codes "doc"
    ∷ codes "docx"
    ∷ codes "odt"
    ∷ codes "xls"
    ∷ codes "xlsx"
    ∷ codes "ods"
    ∷ codes "ppt"
    ∷ codes "pptx"
    ∷ codes "odp"
    ∷ []

unfoldable pub icon_kind_for : Coercion → (Text → Text) → Value → Value → FileKind
unfolding media_type extension starts_with is_among
icon_kind_for co lower content_type name =
    let ct = media_type co lower content_type in
    let ext = extension lower (string_of co name) in
    if starts_with (codes "image/") ct
    then FileKind.image
    else if starts_with (codes "video/") ct
    then FileKind.video
    else if starts_with (codes "audio/") ct
    then FileKind.audio
    else if text_eq ct (codes "application/pdf") || text_eq ext (codes "pdf")
    then FileKind.pdf
    else if is_readable ct
    then FileKind.text
    else if is_among ext archives
    then FileKind.archive
    else if is_among ext documents
    then FileKind.doc
    else FileKind.generic

-- `none` for the empty text: no preview.
unfoldable pub preview_kind_for : Coercion → (Text → Text) → Value → ℕ → Option FileKind
unfolding media_type starts_with
preview_kind_for co lower content_type size =
    let ct = media_type co lower content_type in
    if starts_with (codes "image/") ct
    then some FileKind.image
    else if starts_with (codes "video/") ct
    then some FileKind.video
    else if starts_with (codes "audio/") ct
    then some FileKind.audio
    else if text_eq ct (codes "application/pdf")
    then some FileKind.pdf
    else if is_readable ct
    then (if leb size 2097152 then some FileKind.text else none)
    else none
