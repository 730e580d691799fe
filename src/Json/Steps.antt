-- ===== src/Json/Steps.antt =====
-- The steps of the readers on what was written.
use k_quickshare.Base.{
  ℕ, suc, ◌≤◌, ◌<◌, ◌≡◌, refl, ap, ◌∙◌, [], ◌∷◌, ◌++◌, Bool, false, ◌||◌, some, ◌==◌, arith,
  append_assoc, inl, inr, All,
}
use k_quickshare.Json.{Text, Value, Values, Fields, Json, Jsons, Members, value, values, fields}
use k_quickshare.Json.{num, str, arr, obj, nil, item, done, member}
use k_quickshare.Json.Write.{
  quote_text, quoted, decimal, stringify, stringify_items, stringify_members,
}
use k_quickshare.Json.Read.{
  plain, Parsed, scan, unsigned, skip_space, read_field, read_fields, read_items, read_array,
  read_object, read_first, read_value, text_value,
}
use k_quickshare.Json.Texts.{scan-quote_text}
use k_quickshare.Json.Numbers.{Ends, unsigned-decimal, decimal-head}

abbrev pub IsText : Text → Type 0
IsText = All (λ c. c < 65536)

-- Every text of the value consists of 16-bit code units.
abbrev mutual
  pub HasTexts : Json → Type 0
  HasTexts (num n) = Unit
  HasTexts (str s) = IsText s
  HasTexts (arr js) = HaveTexts js
  HasTexts (obj ms) = MembersHaveTexts ms

  pub HaveTexts : Jsons → Type 0
  HaveTexts nil = Unit
  HaveTexts (item j js) = HasTexts j × HaveTexts js

  pub MembersHaveTexts : Members → Type 0
  MembersHaveTexts done = Unit
  MembersHaveTexts (member k j ms) = IsText k × HasTexts j × MembersHaveTexts ms

is_white : ℕ → Bool
is_white c = c == 32 || c == 9 || c == 10 || c == 13

skip_space-stop : (c : ℕ) (s : Text) → is_white c ≡ false → skip_space (c ∷ s) ≡ c ∷ s
unfolding skip_space is_white
skip_space-stop c s h = rw h

-- How a written value begins.
record Begins (c : ℕ) : Type 0 where
  visible : is_white c ≡ false
  no_bracket : (c == b']') ≡ false

head : (j : Json) → (c : ℕ) × (t : Text) × (stringify j ≡ c ∷ t) × Begins c
unfolding stringify quoted is_white
head (num n) =
    let (c, t, e, lo, hi) = decimal-head n in
    (c, t, e, record { visible = ground arith; no_bracket = ground arith })
head (str s) = (b'"', _, refl, record { visible = refl; no_bracket = refl })
head (arr nil) = (b'[', _, refl, record { visible = refl; no_bracket = refl })
head (arr (item j js)) = (b'[', _, refl, record { visible = refl; no_bracket = refl })
head (obj done) = (b'{', _, refl, record { visible = refl; no_bracket = refl })
head (obj (member k j ms)) = (b'{', _, refl, record { visible = refl; no_bracket = refl })

module _ (pv : Text → Parsed Value) (f : ℕ) where
  first-str : (t s : Text) → IsText t → read_first pv f (quoted t ++ s) ≡ some (Value.str t, s)
  unfolding quoted read_first
  first-str t s h =
      ap text_value
        (ap (scan plain) (append_assoc (quote_text t) (b'"' ∷ []) s) ∙ scan-quote_text t s h)

  first-digit :
      (c : ℕ) (s : Text) → b'0' ≤ c → c ≤ b'9' → read_first pv f (c ∷ s) ≡ unsigned false (c ∷ s)
  unfolding read_first
  first-digit c s lo hi = ground arith

  first-num : (n : ℕ) (s : Text) → Ends s → read_first pv f (decimal n ++ s) ≡ some (Value.num n, s)
  first-num n s h =
      let (c, t, e, lo, hi) = decimal-head n in
      rw e (first-digit c (t ++ s) lo hi) ∙ rw e at (unsigned-decimal n s h)

-- The steps of the readers on what was written.
pub items-step :
    (pv : Text → Parsed Value) (f : ℕ) (r s1 s2 : Text) (v : Value) (vs : Values)
    → pv r ≡ some (v, s1)
    → read_items pv f s1 ≡ some (vs, s2)
    → read_items pv (suc f) (b',' ∷ r) ≡ some (Values.item v vs, s2)
items-step pv f r s1 s2 v vs one rest = unfold read_items skip_space in rw (one, rest)

pub name-step :
    (pv : Text → Parsed Value) (k r s1 : Text) (v : Value)
    → IsText k
    → pv r ≡ some (v, s1)
    → read_field pv (quoted k ++ (b':' ∷ r)) ≡ some ((k, v), s1)
name-step pv k r s1 v hk one =
    unfold read_field quoted skip_space in
    rw (append_assoc (quote_text k) (b'"' ∷ []) (b':' ∷ r), scan-quote_text k (b':' ∷ r) hk, one)

pub fields-step :
    (pv : Text → Parsed Value) (f : ℕ) (r s1 s2 : Text) (k : Text) (v : Value) (fs : Fields)
    → read_field pv r ≡ some ((k, v), s1)
    → read_fields pv f s1 ≡ some (fs, s2)
    → read_fields pv (suc f) (b',' ∷ r) ≡ some (Fields.field k v fs, s2)
fields-step pv f r s1 s2 k v fs one rest = unfold read_fields skip_space in rw (one, rest)

array-step :
    (pv : Text → Parsed Value) (f c : ℕ) (r s1 s2 : Text) (v : Value) (vs : Values)
    → Begins c
    → pv (c ∷ r) ≡ some (v, s1)
    → read_items pv f s1 ≡ some (vs, s2)
    → read_first pv f (b'[' ∷ c ∷ r) ≡ some (Value.arr (Values.item v vs), s2)
array-step pv f c r s1 s2 v vs b one rest =
    unfold read_first in
    rw (skip_space-stop c r b.visible) (unfold read_array in rw (b.no_bracket, one, rest))

object-step :
    (pv : Text → Parsed Value) (f c : ℕ) (r s1 s2 k : Text) (v : Value) (fs : Fields)
    → is_white c ≡ false
    → (c == b'}') ≡ false
    → read_field pv (c ∷ r) ≡ some ((k, v), s1)
    → read_fields pv f s1 ≡ some (fs, s2)
    → read_first pv f (b'{' ∷ c ∷ r) ≡ some (Value.obj (Fields.field k v fs), s2)
object-step pv f c r s1 s2 k v fs white brace one rest =
    unfold read_first in
    rw (skip_space-stop c r white) (unfold read_object in rw (brace, one, rest))

pub items-Ends : (js : Jsons) (s : Text) → Ends (stringify_items js ++ s)
unfolding stringify_items
items-Ends nil s = inr (inl refl)
items-Ends (item j js) s = inl refl

pub members-Ends : (ms : Members) (s : Text) → Ends (stringify_members ms ++ s)
unfolding stringify_members
members-Ends done s = inr (inr refl)
members-Ends (member k j ms) s = inl refl

-- The reader of a value starts at its first character.
value-step :
    (f c : ℕ) (s : Text)
    → is_white c ≡ false
    → read_value (suc f) (c ∷ s) ≡ read_first (read_value f) f (c ∷ s)
unfolding read_value
value-step f c s white = rw (skip_space-stop c s white)

pub number-value :
    (f n : ℕ) (s : Text) → Ends s → read_value (suc f) (decimal n ++ s) ≡ some (Value.num n, s)
number-value f n s h =
    let (c, t, e, lo, hi) = decimal-head n in
    rw e (value-step f c (t ++ s) (unfold is_white in ground arith))
    ∙ rw e at (first-num (read_value f) f n s h)

pub text-value :
    (f : ℕ) (t s : Text) → IsText t → read_value (suc f) (quoted t ++ s) ≡ some (Value.str t, s)
text-value f t s h = started ∙ first-str (read_value f) f t s h
  where
    started : read_value (suc f) (quoted t ++ s) ≡ read_first (read_value f) f (quoted t ++ s)
    started = unfold quoted in value-step f b'"' _ (unfold is_white in refl)

pub array-value :
    (f : ℕ) (j : Json) (js : Jsons) (s1 s2 : Text)
    → read_value f (stringify j ++ s1) ≡ some (value j, s1)
    → read_items (read_value f) f s1 ≡ some (values js, s2)
    → read_value (suc f) (b'[' ∷ (stringify j ++ s1)) ≡ some (value (arr (item j js)), s2)
array-value f j js s1 s2 one rest =
    let (c, t, e, b) = head j in
    value-step f b'[' (stringify j ++ s1) (unfold is_white in refl)
    ∙ rw e
        (array-step (read_value f) f c (t ++ s1) s1 s2 (value j) (values js) b (rw e at one) rest)

pub object-value :
    (f : ℕ) (k : Text) (j : Json) (ms : Members) (s1 s2 : Text)
    → IsText k
    → read_value f (stringify j ++ s1) ≡ some (value j, s1)
    → read_fields (read_value f) f s1 ≡ some (fields ms, s2)
    → read_value (suc f) (b'{' ∷ (quoted k ++ b':' ∷ (stringify j ++ s1)))
      ≡ some (value (obj (member k j ms)), s2)
object-value f k j ms s1 s2 hk one rest =
    let named = name-step (read_value f) k (stringify j ++ s1) s1 (value j) hk one in
    value-step f b'{' _ (unfold is_white in refl)
    ∙ (unfold quoted in
        object-step (read_value f) f b'"' _ s1 s2 k (value j) (fields ms) (unfold is_white in refl)
          refl named rest)

pub empty-array :
    (f : ℕ) (s : Text) → read_value (suc f) (b'[' ∷ b']' ∷ s) ≡ some (Value.arr Values.nil, s)
unfolding read_value read_first read_array skip_space
empty-array f s = refl

pub empty-object :
    (f : ℕ) (s : Text) → read_value (suc f) (b'{' ∷ b'}' ∷ s) ≡ some (Value.obj Fields.done, s)
unfolding read_value read_first read_object skip_space
empty-object f s = refl

pub items-end :
    (pv : Text → Parsed Value) (f : ℕ) (s : Text)
    → read_items pv (suc f) (b']' ∷ s) ≡ some (Values.nil, s)
unfolding read_items skip_space
items-end pv f s = refl

pub members-end :
    (pv : Text → Parsed Value) (f : ℕ) (s : Text)
    → read_fields pv (suc f) (b'}' ∷ s) ≡ some (Fields.done, s)
unfolding read_fields skip_space
members-end pv f s = refl
