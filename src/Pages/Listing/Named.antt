-- ===== src/Pages/Listing/Named.antt =====
-- The names that the sender has sealed are those that the page shows.
use k_quickshare.Base.{
  none, Option, if◌then◌else◌, List, subst, ◌∙◌, ap, ok-injective, ◌∷◌, [], some, ℕ, ok, refl, ◌≡◌,
  AreBytes, Bytes, length,
}
use k_quickshare.Json.{Text, Value, value, codes}
use k_quickshare.Json.Steps.{IsText}
use k_quickshare.E2e.{seal_nonce}
use k_quickshare.E2e.Base64.{b64u_decode, b64u_encode}
use k_quickshare.E2e.Blobs.{or_empty, open_sealed, open_name, seal_name, name_json}
use k_quickshare.E2e.Manifest.{get_field}
use k_quickshare.E2e.Platform.{Aead, Utf8, Coercion}
use k_quickshare.Pages.Listing.{
  show_name, open_names, read_sealed_name, try_name, or_kept, name_row, Listed,
}
use k_quickshare.E2e.Chunks.{octet_stream, or_text}
use k_quickshare.E2e.Blobs.RoundTrip.{open_name-seal_name}
use k_quickshare.E2e.Base64.RoundTrip.{b64u_decode-b64u_encode}
use k_quickshare.Pages.Kinds.{preview_kind_for, icon_kind_for}

-- A file as its sender has named it.
pub record Named : Type 0 where
  pub first : ℕ
  pub rest : Text
  pub type : Text

module _ (a : Aead) (u : Utf8) (co : Coercion) (lower : Text → Text) where
  open a use {Key}

  -- A row without a name, with the name that was sealed for it.
  abbrev pub IsSealed : Listed Key → Named → Type 0
  IsSealed m n =
      (key : Key) × (nonce : Bytes) × (blob : Bytes) × (m.name ≡ Value.str [])
      × (m.name_key ≡ some key)
      × (m.enc_name ≡ b64u_encode blob)
      × AreBytes blob
      × (length nonce ≡ seal_nonce)
      × (IsText (n.first ∷ n.rest) × IsText n.type)
      × (seal_name a u nonce key m.manifest_id (n.first ∷ n.rest) n.type ≡ ok blob)

  -- The text of a type that is sealed.
  abbrev pub sealed_type : Named → Text
  sealed_type n = or_text n.type octet_stream

  named_fields :
      (n : Named)
      → (get_field (codes "name") (value (name_json (n.first ∷ n.rest) n.type))
          ≡ ok (some (Value.str (n.first ∷ n.rest))))
        × (get_field (codes "type") (value (name_json (n.first ∷ n.rest) n.type))
            ≡ ok (some (Value.str (sealed_type n))))
  unfolding get_field name_json
  named_fields n = (refl, refl)

  kept_type :
      (t : Text) (old : Value)
      → or_kept (Value.str (or_text t octet_stream)) old ≡ Value.str (or_text t octet_stream)
  unfolding or_kept
  kept_type [] old = refl
  kept_type (c ∷ t) old = refl

  nothing_opens : (key : Key) (id : Text) (n : Value) → open_name a u key id (some []) ≡ ok n → ⊥
  unfolding open_name open_sealed
  nothing_opens key id n e = cc

  sealed_text :
      (t : Text) (key : Key) (id : Text) (blob : Bytes) (n : Value)
      → b64u_decode t ≡ ok blob
      → open_name a u key id (some blob) ≡ ok n
      → (c : ℕ) × (r : Text) × (t ≡ c ∷ r)
  unfolding b64u_decode
  sealed_text [] key id blob n d o =
      absurd (nothing_opens key id n (ap (λ b. open_name a u key id (some b)) (ok-injective d) ∙ o))
  sealed_text (c ∷ r) key id blob n d o = (c, r, refl)

  reads :
      (key : Key) (id t : Text) (blob : Bytes) (n : Named)
      → b64u_decode t ≡ ok blob
      → open_name a u key id (some blob) ≡ ok (value (name_json (n.first ∷ n.rest) n.type))
      → read_sealed_name a u co lower key id t
        ≡ ok (Value.str (n.first ∷ n.rest), Value.str (sealed_type n))
  unfolding read_sealed_name or_empty
  reads key id t blob n d o =
      let (name, type) = named_fields n in rw (read_sealed_name, d, o, name, type) refl

  tried :
      (m : Listed Key) (n : Named)
      → IsSealed m n
      → try_name a u co lower (or_empty (some m.name)) m.enc_name m.manifest_id m.name_key
        ≡ some (ok (Value.str (n.first ∷ n.rest), Value.str (sealed_type n)))
  unfolding try_name or_empty
  tried m n (key, nonce, blob, nameless, keyed, sent, bytes, hn, (named, typed), seals) =
      let opens =
        open_name-seal_name a u nonce key m.manifest_id n.first n.rest n.type blob hn named typed
          seals in
      let decodes = b64u_decode-b64u_encode blob bytes in
      let (c, r, text) = sealed_text (b64u_encode blob) key m.manifest_id blob _ decodes opens in
      let read =
        reads key m.manifest_id (c ∷ r) blob n (subst (λ t. b64u_decode t ≡ ok blob) text decodes)
          opens in
      rw (nameless, keyed, sent ∙ text) (ap some read)

  -- The row under the name and the type that were sealed, with the kinds that go with them.
  abbrev pub named : Listed Key → Named → Listed Key
  named m n =
      let name = Value.str (n.first ∷ n.rest) in
      let type = Value.str (sealed_type n) in
      record m {
        name = name;
        content_type = type;
        icon_kind = icon_kind_for co lower type name;
        preview_kind =
            if m.previews_allowed then preview_kind_for co lower type m.size else m.preview_kind;
      }

  shown :
      (m : Listed Key) (name t : Value)
      → or_kept t m.content_type ≡ t
      → show_name a u co lower (name, t) m ≡ record m {
        name = name;
        content_type = t;
        icon_kind = icon_kind_for co lower t name;
        preview_kind =
            if m.previews_allowed then preview_kind_for co lower t m.size else m.preview_kind;
      }
  unfolding show_name
  shown m name t e =
      ap
        (λ k. record m {
          name = name;
          content_type = k;
          icon_kind = icon_kind_for co lower k name;
          preview_kind =
              if m.previews_allowed then preview_kind_for co lower k m.size else m.preview_kind;
        })
        e

  row_named : (m : Listed Key) (n : Named) → IsSealed m n → name_row a u co lower m ≡ named m n
  unfolding name_row
  row_named m n h =
      rw (name_row, tried m n h)
        (shown m (Value.str (n.first ∷ n.rest)) (Value.str (sealed_type n))
          (kept_type n.type m.content_type))

  -- Some of the rows have a name that was sealed for them; of the others nothing is known.
  abbrev pub AreSealed : List (Listed Key) → List (Option Named) → Type 0
  AreSealed [] [] = Unit {0}
  AreSealed [] (n ∷ ns) = ⊥
  AreSealed (m ∷ ms) [] = ⊥
  AreSealed (m ∷ ms) (none ∷ ns) = AreSealed ms ns
  AreSealed (m ∷ ms) (some n ∷ ns) = IsSealed m n × AreSealed ms ns

  -- The rows that the page shows, each beside the row that was listed.
  abbrev pub AreNamed : List (Listed Key) → List (Option Named) → List (Listed Key) → Type 0
  AreNamed [] [] [] = Unit {0}
  AreNamed (m ∷ ms) (none ∷ ns) (r ∷ rs) = AreNamed ms ns rs
  AreNamed (m ∷ ms) (some n ∷ ns) (r ∷ rs) = (r ≡ named m n) × AreNamed ms ns rs
  AreNamed _ _ _ = ⊥

  -- Whatever the other rows of a listing are, a row whose name was sealed for its manifest's id,
  -- under the key that the page has for it, gets that name, the type that was sealed with it and
  -- the icon of these, and the preview of the type where previews are allowed; nothing else of it
  -- is changed, and no row is added or left out. It has no name yet, the nonce has 12 bytes, the
  -- blob is bytes, and the name and the type are texts.
  pub open_names-sealed :
      (ms : List (Listed Key)) (ns : List (Option Named))
      → AreSealed ms ns
      → AreNamed ms ns (open_names a u co lower ms)
  unfolding open_names
  open_names-sealed [] [] h = tt
  open_names-sealed [] (n ∷ ns) h = elim h [ ]
  open_names-sealed (m ∷ ms) [] h = elim h [ ]
  open_names-sealed (m ∷ ms) (none ∷ ns) h = open_names-sealed ms ns h
  open_names-sealed (m ∷ ms) (some n ∷ ns) (h, hs) = (row_named m n h, open_names-sealed ms ns hs)
