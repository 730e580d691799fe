-- ===== src/Pages/Fetches.antt =====
-- `decryptMember` of web/static/app.js: the files that the page of a link fetches and decrypts. Its
-- call is cut at its awaits, so a list of events is an interleaving of the calls of previews,
-- downloads, the gallery and its prefetching.
pub mod Paid
pub mod Sound
use k_quickshare.Base.{
  ◌>>=◌, ◌>>◌, throw_if, ◌∷◌, [], List, Option, some, none, Bool, true, false, ◌&&◌, ℕ, suc, Bytes,
  Result, Error, ok, err, if◌then◌else◌, ◌==◌, manifest_missing,
}
use k_quickshare.Json.{Text, Value, codes, text_eq}
use k_quickshare.E2e.Base64.{b64u_decode}
use k_quickshare.E2e.Blobs.{unwrap_file_key, or_empty}
use k_quickshare.E2e.Chunks.{Blob, Opened, open_file}
use k_quickshare.E2e.Manifest.{Manifest, get_field}
use k_quickshare.E2e.Platform.{Aead, Utf8, Coercion}

-- A row of the page's list, with the key that unwraps its file's. A missing manifest is the empty
-- text.
pub record FileRow (Key : Type 0) : Type 0 where
  pub id : Text
  pub key : Key
  pub wrapped_key : Text
  pub version : ℕ
  pub manifest : Text
  pub content_type : Text
  pub name : Value

-- A promise in `plainCache`: what it awaits, or what it holds.
pub data Promised (Key : Type 0) : Type 0 where
  unwrapping : FileRow Key → Promised Key
  fetching : FileRow Key → Key → Promised Key
  opened : FileRow Key → Blob → Promised Key

-- `plainCache`; the ids that were requested, and those of which the answer or its decryption
-- failed.
pub record Fetches (Key : Type 0) : Type 0 where
  pub cache : Text → Option (Promised Key)
  pub requests : List Text
  pub failures : List Text

abbrev pub no_fetches : {Key : Type 0} → Fetches Key
no_fetches = record { cache = λ id. none; requests = []; failures = [] }

unfoldable pub put : {Key : Type 0} → Text → Option (Promised Key) → Fetches Key → Fetches Key
put id p s = record s { cache = λ j. if text_eq j id then p else s.cache j }

-- How often an id stands in a list.
unfoldable pub count_of : Text → List Text → ℕ
count_of id [] = 0
count_of id (j ∷ js) = let rest = count_of id js in if text_eq id j then suc rest else rest

-- `m.manifest ? b64uDecode(m.manifest) : null`
unfoldable pub manifest_bytes : Text → Result (Option Bytes)
manifest_bytes [] = ok none
manifest_bytes (c ∷ t) = do b ← b64u_decode (c ∷ t); ok (some b)

abbrev pub is_missing : Text → Bool
is_missing [] = true
is_missing (c ∷ t) = false

-- `out.manifest.name || m.name`
unfoldable pub manifest_name : Option Manifest → Value → Result Value
manifest_name none name = ok name
manifest_name (some m) name = do
  stated ← get_field (codes "name") m.fields
  ok (elim (or_empty stated) [ Value.str [] ↦ name | v ↦ v ])

module _ (a : Aead) (u : Utf8) (co : Coercion) where
  open a use {Key}

  unfoldable pub unwrap_row : FileRow Key → Result Key
  unwrap_row row = do raw ← b64u_decode row.wrapped_key; unwrap_file_key a row.key (some raw)

  -- The ciphertext under the row's key: the row with its name, and the file.
  unfoldable pub open_row : FileRow Key → Key → Bytes → Result (FileRow Key × Blob)
  unfolding manifest_bytes manifest_name
  open_row row key buf = do
    throw_if (row.version == 2 && is_missing row.manifest) manifest_missing
    expected ← manifest_bytes row.manifest
    out ← open_file a u co row.version buf key expected row.content_type
    name ← manifest_name out.manifest row.name
    ok (record row { name = name }, out.blob)

  -- A call of decryptMember: a file that is there, or is being fetched, is not asked for again.
  unfoldable pub ask : FileRow Key → Fetches Key → Fetches Key
  unfolding put
  ask row s = elim (s.cache row.id) [
    | some p ↦ s
    | none ↦ put row.id (some (Promised.unwrapping row)) s
  ]

  -- unwrapFileKey has returned, and the request is sent; a failure leaves the cache.
  unfoldable pub unwrap_end : Text → Option (Promised Key) → Fetches Key → Fetches Key
  unfolding unwrap_row put
  unwrap_end id (some (Promised.unwrapping row)) s = elim (unwrap_row row) [
    | err e ↦ put id none s
    | ok key ↦ record (put id (some (Promised.fetching row key)) s) { requests = id ∷ s.requests }
  ]
  unwrap_end id _ s = s

  -- The answer has come, or the request has failed.
  unfoldable pub fetch_end : Text → Result Bytes → Option (Promised Key) → Fetches Key → Fetches Key
  unfolding open_row put
  fetch_end id answer (some (Promised.fetching row key)) s = elim (answer >>= open_row row key) [
    | err e ↦ record (put id none s) { failures = id ∷ s.failures }
    | ok out ↦ put id (some (Promised.opened out.0 out.1)) s
  ]
  fetch_end id answer _ s = s

-- What happens on the page.
pub data FetchEvent (Key : Type 0) : Type 0 where
  asked : FileRow Key → FetchEvent Key
  unwrapped : Text → FetchEvent Key
  answered : Text → Result Bytes → FetchEvent Key

module _ (a : Aead) (u : Utf8) (co : Coercion) where
  open a use {Key}

  unfoldable pub on_fetch_event : FetchEvent Key → Fetches Key → Fetches Key
  unfolding ask unwrap_end fetch_end
  on_fetch_event (FetchEvent.asked row) s = ask a u co row s
  on_fetch_event (FetchEvent.unwrapped id) s = unwrap_end a u co id (s.cache id) s
  on_fetch_event (FetchEvent.answered id answer) s = fetch_end a u co id answer (s.cache id) s

  unfoldable pub on_fetch_events : List (FetchEvent Key) → Fetches Key → Fetches Key
  unfolding on_fetch_event
  on_fetch_events [] s = s
  on_fetch_events (e ∷ es) s = on_fetch_events es (on_fetch_event e s)
