-- ===== src/E2e/Blobs.antt =====
-- The sealed blobs of web/static/e2e.js: wrapped file keys, drop public keys, sender notes, names
-- and rosters. Each is a 12-byte nonce from the browser's generator, here an argument, and a
-- ciphertext.
pub mod Opens
pub mod Contents
pub mod RoundTrip
use k_quickshare.E2e.Platform.{Aead, Utf8, Coercion}
use k_quickshare.E2e.Chunks.{open_chunk, or_text, octet_stream}
use k_quickshare.Json.{Jsons, Text, Json, Members, Value, codes, text_eq}
use k_quickshare.E2e.Manifest.{get_field, is_number, outside, as_number, read_json}
use k_quickshare.E2e.Padding.{pad_name_body, unpad_name_body}
use k_quickshare.Base.{
  List, ◌>>◌, ◌>>=◌, ◌++◌, ◌∷◌, [], some, none, Option, ◌||◌, not, false, true, Bool, ◌+◌, ℕ, err,
  ok, roster_files, roster_batch, roster_version, name_version, note_version, name_empty,
  name_too_long, note_too_long, kem_unavailable, drop_key_length, malformed_roster, malformed_name,
  malformed_note, malformed_drop_key, malformed_wrapped_key, throw_if, Result, Error, drop, take,
  length, write, zeros, Bytes, if◌then◌else◌, ◌==◌, leb, ltb,
}
use k_quickshare.Json.Write.{stringify}
use k_quickshare.E2e.{version, seal_nonce}

-- `out.set(nonce, 0); out.set(sealed, 12)`
unfoldable pub lay_sealed : Bytes → Bytes → Bytes
lay_sealed nonce sealed =
    write seal_nonce sealed (write 0 nonce (zeros (seal_nonce + length sealed)))

-- `v || ''`; a fraction is never 0.
unfoldable pub or_empty : Option Value → Value
or_empty none = Value.str []
or_empty (some Value.null) = Value.str []
or_empty (some (Value.bool b)) = if b then Value.bool b else Value.str []
or_empty (some (Value.num n)) = if n == 0 then Value.str [] else Value.num n
or_empty (some v) = v

unfoldable pub is_text : Text → Option Value → Bool
is_text t (some (Value.str s)) = text_eq t s
is_text t _ = false

-- `typeof v === 'string' && v`
unfoldable pub has_text : Option Value → Bool
has_text (some (Value.str (c ∷ s))) = true
has_text _ = false

unfoldable pub is_array : Option Value → Bool
is_array (some (Value.arr vs)) = true
is_array _ = false

-- The fields of a sender note.
pub record Note : Type 0 where
  pub from : Value
  pub message : Value

unfoldable pub note_json : Text → Text → Json
note_json from message = Json.obj (
    Members.member (codes "v") (Json.num 1) (
      Members.member (codes "from") (Json.str (take 200 from))
        (Members.member (codes "message") (Json.str (take 1000 message)) Members.done)))

unfoldable pub name_json : Text → Text → Json
name_json name type = Json.obj (
    Members.member (codes "v") (Json.num 2) (
      Members.member (codes "name") (Json.str name)
        (Members.member (codes "type") (Json.str (or_text type octet_stream)) Members.done)))

-- A member of a batch as the roster names it.
pub record Member : Type 0 where
  pub id : Text
  pub name : Text
  pub size : ℕ
  pub type : Text
  pub manifest : Text

unfoldable pub member_json : Member → Json
member_json m = Json.obj (
    Members.member (codes "id") (Json.str m.id) (
      Members.member (codes "name") (Json.str m.name) (
        Members.member (codes "size") (Json.num m.size) (
          Members.member (codes "type") (Json.str m.type)
            (Members.member (codes "manifest") (Json.str m.manifest) Members.done)))))

unfoldable pub files_json : List Member → Jsons
unfolding member_json
files_json [] = Jsons.nil
files_json (m ∷ ms) = Jsons.item (member_json m) (files_json ms)

unfoldable pub roster_json : Text → ℕ → List Member → Json
unfolding files_json
roster_json batch seq files = Json.obj (
    Members.member (codes "v") (Json.num version) (
      Members.member (codes "batch") (Json.str batch) (
        Members.member (codes "seq") (Json.num seq)
          (Members.member (codes "files") (Json.arr (files_json files)) Members.done))))

-- `n.v !== 1 && n.v !== 2`, and the name
unfoldable pub check_name : Value → Result Value
unfolding get_field is_number has_text
check_name n = do
  v ← get_field (codes "v") n
  throw_if (not (is_number 1 v || is_number 2 v)) name_version
  name ← get_field (codes "name") n
  throw_if (not (has_text name)) name_empty
  ok n

unfoldable pub check_note : Value → Result Note
unfolding get_field is_number or_empty
check_note n = do
  v ← get_field (codes "v") n
  throw_if (not (is_number 1 v)) note_version
  from ← get_field (codes "from") n
  message ← get_field (codes "message") n
  ok (record { from = or_empty from; message = or_empty message })

unfoldable pub check_roster : Coercion → Text → Value → Result Value
unfolding get_field outside as_number is_text is_array
check_roster co batch r = do
  v ← get_field (codes "v") r
  throw_if (outside 2 version (as_number co v)) roster_version
  b ← get_field (codes "batch") r
  throw_if (not (is_text batch b)) roster_batch
  files ← get_field (codes "files") r
  throw_if (not (is_array files)) roster_files
  ok r

module _ (u : Utf8) where
  unfoldable pub drop_pk_aad : Text → Bytes
  drop_pk_aad public_id = u.encode (codes "pyxis-drop-pk-v1|" ++ public_id)

  unfoldable pub note_aad : Text → Bytes
  note_aad batch = u.encode (codes "pyxis-note-v1|" ++ batch)

  unfoldable pub name_aad : Text → Bytes
  name_aad id = u.encode (codes "pyxis-name-v1|" ++ id)

  unfoldable pub roster_aad : Text → Bytes
  roster_aad batch = u.encode (codes "pyxis-roster-v2|" ++ batch)

module _ (a : Aead) where
  open a use {Key, encrypt, import_key}

  unfoldable pub wrap_file_key : Bytes → Key → Bytes → Bytes
  wrap_file_key nonce batch_key raw = lay_sealed nonce (encrypt batch_key nonce [] raw)

  -- What every opener begins with: `none` is a missing blob, and `e` names the blob.
  unfoldable pub open_sealed : Error → Key → Bytes → Option Bytes → Result Bytes
  open_sealed e key aad none = err e
  open_sealed e key aad (some sealed) = do
    throw_if (leb (length sealed) seal_nonce) e
    open_chunk a key (take seal_nonce sealed) aad (drop seal_nonce sealed)

  unfoldable pub unwrap_file_key : Key → Option Bytes → Result Key
  unwrap_file_key batch_key wrapped = do
    raw ← open_sealed malformed_wrapped_key batch_key [] wrapped
    import_key raw

  module _ (u : Utf8) where
    unfoldable pub seal_drop_public_key : Bytes → Key → Text → Bytes → Bytes
    seal_drop_public_key nonce pk_key public_id public_key =
        lay_sealed nonce (encrypt pk_key nonce (drop_pk_aad u public_id) public_key)

    -- `key_length` is the KEM's PUBLIC_KEY_LEN, `none` where there is no KEM.
    unfoldable pub open_drop_public_key : Option ℕ → Key → Text → Option Bytes → Result Bytes
    open_drop_public_key key_length pk_key public_id sealed = do
      pk ← open_sealed malformed_drop_key pk_key (drop_pk_aad u public_id) sealed
      elim key_length [
        | none ↦ err kem_unavailable
        | some n ↦ if length pk == n then ok pk else err drop_key_length
      ]

    unfoldable pub seal_note : Bytes → Key → Text → Text → Text → Result Bytes
    seal_note nonce note_key batch from message = do
      let json = u.encode (stringify (note_json from message))
      throw_if (ltb 4096 (2 + length json)) note_too_long
      ok (lay_sealed nonce (encrypt note_key nonce (note_aad u batch) (pad_name_body json)))

    unfoldable pub open_note : Key → Text → Option Bytes → Result Note
    open_note note_key batch sealed = do
      body ← open_sealed malformed_note note_key (note_aad u batch) sealed
      json ← unpad_name_body body
      n ← read_json u json
      check_note n

    unfoldable pub seal_name : Bytes → Key → Text → Text → Text → Result Bytes
    seal_name nonce name_key id name type = do
      let json = u.encode (stringify (name_json name type))
      throw_if (ltb 4096 (2 + length json)) name_too_long
      ok (lay_sealed nonce (encrypt name_key nonce (name_aad u id) (pad_name_body json)))

    unfoldable pub open_name : Key → Text → Option Bytes → Result Value
    open_name name_key id sealed = do
      body ← open_sealed malformed_name name_key (name_aad u id) sealed
      json ← unpad_name_body body
      n ← read_json u json
      check_name n

    unfoldable pub seal_roster : Bytes → Key → Text → Json → Bytes
    seal_roster nonce roster_key batch roster =
        lay_sealed nonce
          (encrypt roster_key nonce (roster_aad u batch) (u.encode (stringify roster)))

    unfoldable pub open_roster : Coercion → Key → Text → Option Bytes → Result Value
    open_roster co roster_key batch sealed = do
      body ← open_sealed malformed_roster roster_key (roster_aad u batch) sealed
      r ← read_json u body
      check_roster co batch r
