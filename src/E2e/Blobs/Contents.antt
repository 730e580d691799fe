-- ===== src/E2e/Blobs/Contents.antt =====
-- The JSON inside the sealed blobs: what is written has valid texts and passes the checks, and what
-- the checks establish.
use k_quickshare.E2e.Blobs.{
  has_text, check_roster, Member, member_json, files_json, roster_json, is_text, is_array,
  note_json, name_json, check_name, check_note,
}
use k_quickshare.E2e.Platform.{Coercion, Utf8}
use k_quickshare.E2e.Manifest.{get_field, is_number, outside, as_number}
use k_quickshare.E2e.Padding.{pad_name_body, unpad_name_body}
use k_quickshare.E2e.Padding.RoundTrip.{unpad-pad}
use k_quickshare.Json.{codes, text_eq, Values, Text, Json, Members, Value, value}
use k_quickshare.Json.Steps.{HaveTexts, IsText, HasTexts}
use k_quickshare.Json.Write.{stringify}
use k_quickshare.Base.{
  List, none, Option, ◌||◌, not, true, ◌∙◌, ap, sym, roster_files, roster_batch, roster_version,
  name_version, name_empty, ok-injective, passed, All, not-eq-false, arith, ◌∷◌, [], some, false,
  refl, ◌≡◌, ◌<◌, ◌+◌, ℕ, ok, >>=-eq-ok, All-take, take, length, ==_self, ltb,
}
use k_quickshare.E2e.{version}

some_text :
    (k : Text) (j : Json) (ms : Members) → 0 < length (stringify (Json.obj (Members.member k j ms)))
unfolding stringify
some_text k j ms = omega arith

-- A padded JSON text, short enough for sealing, is unpadded.
unpad_json :
    (u : Utf8) (k : Text) (j : Json) (ms : Members)
    → let bytes = u.encode (stringify (Json.obj (Members.member k j ms))) in
      ltb 4096 (2 + length bytes) ≡ false → unpad_name_body (pad_name_body bytes) ≡ ok bytes
unpad_json u k j ms fits =
    let o : Json = Json.obj (Members.member k j ms) in
    let pos : 0 < length (u.encode (stringify o)) =
      omega (arith, u.length_encode (stringify o), some_text k j ms) in
    unpad-pad (u.encode (stringify o)) pos (ground arith)

pub name_json-HasTexts :
    (name type : Text) → IsText name → IsText type → HasTexts (name_json name type)
unfolding name_json
name_json-HasTexts name [] hn ht =
    (omega arith, tt, (omega arith, hn, (omega arith, omega arith, tt)))
name_json-HasTexts name (c ∷ type) hn ht =
    (omega arith, tt, (omega arith, hn, (omega arith, ht, tt)))

pub note_json-HasTexts :
    (from message : Text) → IsText from → IsText message → HasTexts (note_json from message)
unfolding note_json
note_json-HasTexts from message hf hm = (
  omega arith,
  tt,
  (omega arith, All-take _ 200 from hf, (omega arith, All-take _ 1000 message hm, tt)),
)

pub check_name-json :
    (c : ℕ) (name type : Text)
    → check_name (value (name_json (c ∷ name) type)) ≡ ok (value (name_json (c ∷ name) type))
unfolding check_name name_json
check_name-json c name type = refl

pub check_note-json :
    (from message : Text)
    → check_note (value (note_json from message))
      ≡ ok (record { from = Value.str (take 200 from); message = Value.str (take 1000 message) })
unfolding check_note note_json
check_note-json from message = refl

pub unpad_name_json :
    (u : Utf8) (name type : Text)
    → let json = u.encode (stringify (name_json name type)) in
      ltb 4096 (2 + length json) ≡ false → unpad_name_body (pad_name_body json) ≡ ok json
unfolding name_json
unpad_name_json u name type fits = unpad_json u _ _ _ fits

pub unpad_note_json :
    (u : Utf8) (from message : Text)
    → let json = u.encode (stringify (note_json from message)) in
      ltb 4096 (2 + length json) ≡ false → unpad_name_body (pad_name_body json) ≡ ok json
unfolding note_json
unpad_note_json u from message fits = unpad_json u _ _ _ fits

pub checked_name : (r n : Value) → check_name r ≡ ok n → r ≡ n
unfolding check_name
checked_name r n e =
    let (v, got_v, e1) = >>=-eq-ok (get_field (codes "v") r) _ e in
    let (known, e2) = passed (not (is_number 1 v || is_number 2 v)) name_version _ e1 in
    let (name, got_name, e3) = >>=-eq-ok (get_field (codes "name") r) _ e2 in
    let (named, e4) = passed (not (has_text name)) name_empty _ e3 in ok-injective e4

pub text_eq_self : (t : Text) → text_eq t t ≡ true
text_eq_self [] = refl
text_eq_self (c ∷ t) = rw (==_self c) (text_eq_self t)

pub text_eq→eq : (s t : Text) → text_eq s t ≡ true → s ≡ t
text_eq→eq [] [] h = refl
text_eq→eq [] (d ∷ t) h = cc
text_eq→eq (c ∷ s) [] h = cc
text_eq→eq (c ∷ s) (d ∷ t) h = ground (arith, text_eq→eq s t)

-- Every text of a member consists of 16-bit code units.
abbrev pub MemberHasTexts : Member → Type 0
MemberHasTexts m = IsText m.id × IsText m.name × IsText m.type × IsText m.manifest

files_json-HaveTexts :
    (files : List Member) → All MemberHasTexts files → HaveTexts (files_json files)
unfolding files_json member_json
files_json-HaveTexts [] h = tt
files_json-HaveTexts (m ∷ ms) ((hi, hn, ht, hm), hs) = (
  (omega arith, hi, (omega arith, hn, (omega arith, tt, (omega arith, ht, (omega arith, hm, tt))))),
  files_json-HaveTexts ms hs,
)

pub roster_json-HasTexts :
    (batch : Text) (seq : ℕ) (files : List Member)
    → IsText batch
    → All MemberHasTexts files
    → HasTexts (roster_json batch seq files)
unfolding roster_json
roster_json-HasTexts batch seq files hb hf = (
  omega arith,
  tt,
  (omega arith, hb, (omega arith, tt, (omega arith, files_json-HaveTexts files hf, tt))),
)

pub check_roster-json :
    (co : Coercion) (batch : Text) (seq : ℕ) (files : List Member)
    → check_roster co batch (value (roster_json batch seq files))
      ≡ ok (value (roster_json batch seq files))
unfolding check_roster roster_json
check_roster-json co batch seq files = rw (text_eq_self batch) refl

is_text→eq : (t : Text) (v : Option Value) → is_text t v ≡ true → v ≡ some (Value.str t)
unfolding is_text
is_text→eq t (some (Value.str s)) h = ap (λ x. some (Value.str x)) (sym (text_eq→eq t s h))
is_text→eq t none h = cc
is_text→eq t (some Value.null) h = cc
is_text→eq t (some (Value.bool b)) h = cc
is_text→eq t (some (Value.num n)) h = cc
is_text→eq t (some (Value.fraction s n d)) h = cc
is_text→eq t (some (Value.arr vs)) h = cc
is_text→eq t (some (Value.obj fs)) h = cc

is_array→arr : (v : Option Value) → is_array v ≡ true → (vs : Values) × (v ≡ some (Value.arr vs))
unfolding is_array
is_array→arr (some (Value.arr vs)) h = (vs, refl)
is_array→arr none h = cc
is_array→arr (some Value.null) h = cc
is_array→arr (some (Value.bool b)) h = cc
is_array→arr (some (Value.num n)) h = cc
is_array→arr (some (Value.fraction s n d)) h = cc
is_array→arr (some (Value.str s)) h = cc
is_array→arr (some (Value.obj fs)) h = cc

pub checked_roster :
    (co : Coercion) (batch : Text) (r r' : Value)
    → check_roster co batch r ≡ ok r'
    → (r ≡ r')
      × (get_field (codes "batch") r' ≡ ok (some (Value.str batch)))
      × ((vs : Values) × (get_field (codes "files") r' ≡ ok (some (Value.arr vs))))
unfolding check_roster
checked_roster co batch r r' e =
    let (v, got_v, e1) = >>=-eq-ok (get_field (codes "v") r) _ e in
    let (known, e2) = passed (outside 2 version (as_number co v)) roster_version _ e1 in
    let (b, got_b, e3) = >>=-eq-ok (get_field (codes "batch") r) _ e2 in
    let (named, e4) = passed (not (is_text batch b)) roster_batch _ e3 in
    let (files, got_files, e5) = >>=-eq-ok (get_field (codes "files") r) _ e4 in
    let (listed, e6) = passed (not (is_array files)) roster_files _ e5 in
    let same : r ≡ r' = ok-injective e6 in
    let (vs, is_vs) = is_array→arr files (not-eq-false _ listed) in
    (
      same,
      ap (get_field (codes "batch")) (sym same)
          ∙ got_b
          ∙ ap ok (is_text→eq batch b (not-eq-false _ named)),
      (vs, ap (get_field (codes "files")) (sym same) ∙ got_files ∙ ap ok is_vs),
    )
