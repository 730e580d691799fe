-- ===== src/E2e/Manifest.antt =====
-- `chunkCount`, `buildManifest` and `parseManifest` of web/static/e2e.js.
pub mod RoundTrip
use k_quickshare.Base.{
  if◌then◌else◌, ◌>>◌, some, ◌||◌, not, ◌*◌, manifest_chunks, manifest_size, manifest_version,
  throw_if, Error, ◌==◌, ◌>>=◌, ok, syntax_error, ltb, type_error, ceil_div, none, false, err,
  Result, Bool, Option, max, Bytes, ℕ,
}
use k_quickshare.Json.{Text, Json, Members, Value, Fields, codes, text_eq}
use k_quickshare.Json.Write.{stringify}
use k_quickshare.Json.Read.{parse}
use k_quickshare.E2e.{version, chunk_size}
use k_quickshare.E2e.Platform.{Utf8, Coercion, JsNumber}

-- The last field of the name counts.
unfoldable pub lookup : Text → Fields → Option Value
lookup k Fields.done = none
lookup k (Fields.field j v fs) = elim (lookup k fs) [
  | some w ↦ some w
  | none ↦ if text_eq k j then some v else none
]

-- `m.k`: `undefined` where the field is missing or the value is no object; `null` has no fields.
unfoldable pub get_field : Text → Value → Result (Option Value)
unfolding lookup
get_field k Value.null = err type_error
get_field k (Value.obj fs) = ok (lookup k fs)
get_field k v = ok none

-- `Math.max(1, Math.ceil(size / CHUNK))`
unfoldable pub chunk_count : ℕ → ℕ
chunk_count size = max 1 (ceil_div size chunk_size)

-- A size that was read: not negative, but perhaps not whole.
pub data Size : Type 0 where
  whole : ℕ → Size
  part : ℕ → ℕ → Size

unfoldable pub size_chunks : Size → ℕ
unfolding chunk_count
size_chunks (Size.whole n) = chunk_count n
size_chunks (Size.part n d) = max 1 (ceil_div n (d * chunk_size))

-- `a === size`
unfoldable pub is_size : ℕ → Size → Bool
is_size a (Size.whole n) = a == n
is_size a (Size.part n d) = a * d == n

pub record Manifest : Type 0 where
  pub fields : Value
  pub size : Size
  pub chunks : ℕ

-- `te.encode(JSON.stringify({v, id, batch, size, chunks, chunk}))`
unfoldable pub manifest_json : Text → Text → ℕ → Json
unfolding chunk_count
manifest_json id batch size = Json.obj (
    Members.member (codes "v") (Json.num version) (
      Members.member (codes "id") (Json.str id) (
        Members.member (codes "batch") (Json.str batch) (
          Members.member (codes "size") (Json.num size) (
            Members.member (codes "chunks") (Json.num (chunk_count size))
              (Members.member (codes "chunk") (Json.num chunk_size) Members.done))))))

unfoldable pub build_manifest : Utf8 → Text → Text → ℕ → Bytes
unfolding manifest_json
build_manifest u id batch size = u.encode (stringify (manifest_json id batch size))

-- `v < lo || v > hi`; a comparison with NaN is false.
unfoldable pub outside : ℕ → ℕ → JsNumber → Bool
outside lo hi JsNumber.nan = false
outside lo hi (JsNumber.whole n) = ltb n lo || ltb hi n
outside lo hi (JsNumber.part neg n d) = neg || ltb n (lo * d) || ltb (hi * d) n

unfoldable pub as_number : Coercion → Option Value → JsNumber
as_number co none = JsNumber.nan
as_number co (some Value.null) = JsNumber.whole 0
as_number co (some (Value.bool b)) = if b then JsNumber.whole 1 else JsNumber.whole 0
as_number co (some (Value.num n)) = JsNumber.whole n
as_number co (some (Value.fraction neg n d)) = JsNumber.part neg n d
as_number co (some v) = co.to_number v

-- `typeof m.size !== 'number' || m.size < 0`
unfoldable pub read_size : Option Value → Result Size
read_size (some (Value.num n)) = ok (Size.whole n)
read_size (some (Value.fraction neg n d)) = if neg then err manifest_size else ok (Size.part n d)
read_size _ = err manifest_size

-- `x === n`
unfoldable pub is_number : ℕ → Option Value → Bool
is_number n (some (Value.num m)) = m == n
is_number n _ = false

-- A parse that fails throws.
abbrev pub or_syntax_error : Option Value → Result Value
or_syntax_error none = err syntax_error
or_syntax_error (some v) = ok v

-- `JSON.parse(td.decode(bytes))`
unfoldable pub read_json : Utf8 → Bytes → Result Value
read_json u bytes = or_syntax_error (parse (u.decode bytes))

unfoldable pub check_manifest : Coercion → Value → Result Manifest
unfolding get_field outside as_number read_size is_number size_chunks
check_manifest co m = do
  v ← get_field (codes "v") m
  throw_if (outside 2 version (as_number co v)) manifest_version
  s ← get_field (codes "size") m
  size ← read_size s
  chunk ← get_field (codes "chunk") m
  throw_if (not (is_number chunk_size chunk)) Error.chunk_size
  chunks ← get_field (codes "chunks") m
  throw_if (not (is_number (size_chunks size) chunks)) manifest_chunks
  ok (record { fields = m; size = size; chunks = size_chunks size })

unfoldable pub parse_manifest : Utf8 → Coercion → Bytes → Result Manifest
unfolding read_json check_manifest
parse_manifest u co bytes = do m ← read_json u bytes; check_manifest co m
