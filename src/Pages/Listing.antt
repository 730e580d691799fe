-- ===== src/Pages/Listing.antt =====
-- `openNames` of web/static/app.js: the names of the rows that a link's page lists. What
-- `toLowerCase` does with a text is an argument.
pub mod Named
use k_quickshare.Base.{
  ◌>>=◌, ◌∷◌, [], List, Option, some, none, Bool, true, ℕ, if◌then◌else◌, Result, ok, err,
}
use k_quickshare.Json.{Text, Value, codes}
use k_quickshare.E2e.Base64.{b64u_decode}
use k_quickshare.E2e.Blobs.{or_empty, open_name}
use k_quickshare.E2e.Manifest.{get_field}
use k_quickshare.E2e.Platform.{Aead, Utf8, Coercion}
use k_quickshare.Pages.Kinds.{FileKind, icon_kind_for, preview_kind_for}

-- A row with `m.keys.name`. A missing name is the empty text.
pub record Listed (Key : Type 0) : Type 0 where
  pub name : Value
  pub enc_name : Text
  pub manifest_id : Text
  pub name_key : Option Key
  pub content_type : Value
  pub size : ℕ
  pub icon_kind : FileKind
  pub preview_kind : Option FileKind
  pub previews_allowed : Bool
  pub unverified : Bool

-- The name stands for the text of `t('name_sealed')`.
abbrev pub name_sealed : Value
name_sealed = Value.str (codes "name_sealed")

-- `if (opened.type) m.contentType = opened.type`
unfoldable pub or_kept : Value → Value → Value
or_kept (Value.str []) old = old
or_kept v old = v

module _ (a : Aead) (u : Utf8) (co : Coercion) (lower : Text → Text) where
  open a use {Key}

  -- The name and the type of the blob; an absent or empty type is the empty text.
  unfoldable pub read_sealed_name : Key → Text → Text → Result (Value × Value)
  read_sealed_name key id enc_name = do
    sealed ← b64u_decode enc_name
    opened ← open_name a u key id (some sealed)
    name ← get_field (codes "name") opened
    type ← get_field (codes "type") opened
    ok (or_empty name, or_empty type)

  -- What is read of a row without a name; `none` where it is passed over.
  unfoldable pub try_name : Value → Text → Text → Option Key → Option (Result (Value × Value))
  unfolding read_sealed_name
  try_name (Value.str []) (c ∷ enc_name) id (some key) =
      some (read_sealed_name key id (c ∷ enc_name))
  try_name _ _ _ _ = none

  -- The name and the type that were sealed, and the kinds that go with them.
  unfoldable pub show_name : Value × Value → Listed Key → Listed Key
  unfolding or_kept
  show_name n m =
      let type = or_kept n.1 m.content_type in
      record m {
        name = n.0;
        content_type = type;
        icon_kind = icon_kind_for co lower type n.0;
        preview_kind =
            if m.previews_allowed then preview_kind_for co lower type m.size else m.preview_kind;
      }

  unfoldable pub name_row : Listed Key → Listed Key
  unfolding try_name show_name
  name_row m = elim (try_name (or_empty (some m.name)) m.enc_name m.manifest_id m.name_key) [
    | none ↦ m
    | some (err e) ↦ record m { name = name_sealed; unverified = true }
    | some (ok n) ↦ show_name n m
  ]

  unfoldable pub open_names : List (Listed Key) → List (Listed Key)
  unfolding name_row
  open_names [] = []
  open_names (m ∷ ms) = name_row m ∷ open_names ms
