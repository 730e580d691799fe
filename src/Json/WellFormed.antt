-- ===== src/Json/WellFormed.antt =====
-- The text that is written has no lone half of a surrogate pair, so UTF-8 carries it unchanged.
use k_quickshare.Json.{Members, Jsons, Text, Json, num, str, arr, obj, nil, item, done, member}
use k_quickshare.Base.{
  arith, ◌++◌, ◌∷◌, [], ◌||◌, ◌&&◌, false, true, Bool, inr, inl, refl, ◌≡◌, ◌<◌, ◌%◌, ◌/◌, suc,
  zero, ℕ, Bool-cases, if◌then◌else◌, ◌==◌, ltb,
}
use k_quickshare.Json.Write.{
  has_mark, stringify_members, is_low, stringify_items, is_high, backslash, is_well_formed, decimal,
  hex4, decimal_loop, quoted, stringify, hex_digit, quote_text, quote_unit,
}

-- A text without a lone half, step by step.
data Wf : Text → Type 0 where
  wf_nil : Wf []
  wf_unit : {c : ℕ} {t : Text} → (is_high c || is_low c) ≡ false → Wf t → Wf (c ∷ t)
  wf_pair : {c d : ℕ} {t : Text} → is_high c ≡ true → is_low d ≡ true → Wf t → Wf (c ∷ d ∷ t)

wf_cons :
    (c : ℕ) (t : Text)
    → (is_high c || is_low c) ≡ false
    → is_well_formed t ≡ true
    → is_well_formed (c ∷ t) ≡ true
wf_cons c [] h ht = ground arith
wf_cons c (d ∷ t) h ht = ground arith

Wf-sound : {t : Text} → Wf t → is_well_formed t ≡ true
Wf-sound wf_nil = refl
Wf-sound (wf_unit {c} {t} h w) = wf_cons c t h (Wf-sound w)
Wf-sound (wf_pair {c} {d} {t} hc hd w) = rw (hc, hd) (Wf-sound w)

Wf-append : {s t : Text} → Wf s → Wf t → Wf (s ++ t)
Wf-append wf_nil w = w
Wf-append (wf_unit h v) w = wf_unit h (Wf-append v w)
Wf-append (wf_pair hc hd v) w = wf_pair hc hd (Wf-append v w)

-- A character below the surrogates.
Wf-low : {c : ℕ} {t : Text} → c < 0xd800 → Wf t → Wf (c ∷ t)
Wf-low h w = wf_unit (ground arith) w

Wf-decimal_loop : (f n : ℕ) → Wf (decimal_loop f n)
unfolding decimal_loop
Wf-decimal_loop zero n = wf_nil
Wf-decimal_loop (suc f) n = elim (Bool-cases (ltb n 10)) [
  | inl one ↦ rw one (Wf-low (ground arith) wf_nil)
  | inr more ↦ rw more (Wf-append (Wf-decimal_loop f (n / 10)) (Wf-low (omega arith) wf_nil))
]

hex_digit-lt : (d : ℕ) → d < 16 → hex_digit d < 0xd800
unfolding hex_digit
hex_digit-lt d h = ground arith

Wf-hex4 : (c : ℕ) → Wf (hex4 c)
unfolding hex4
Wf-hex4 c = Wf-low (hex_digit-lt (c / 4096 % 16) (omega arith)) (
    Wf-low (hex_digit-lt (c / 256 % 16) (omega arith)) (
      Wf-low (hex_digit-lt (c / 16 % 16) (omega arith))
        (Wf-low (hex_digit-lt (c % 16) (omega arith)) wf_nil)))

Wf-if : (b : Bool) (x y : Text) → (b ≡ true → Wf x) → (b ≡ false → Wf y) → Wf (if b then x else y)
Wf-if true x y hx hy = hx refl
Wf-if false x y hx hy = hy refl

-- A two-character escape.
Wf-escape : {c : ℕ} → c < 0xd800 → Wf (backslash ∷ c ∷ [])
Wf-escape h = Wf-low (omega arith) (Wf-low h wf_nil)

Wf-quote_unit : (c : ℕ) → Wf (quote_unit c)
unfolding quote_unit
Wf-quote_unit c =
    Wf-if (c == 8) _ _ (λ e. Wf-escape (omega arith))
      λ e8.
        Wf-if (c == 9) _ _ (λ e. Wf-escape (omega arith))
          λ e9.
            Wf-if (c == 10) _ _ (λ e. Wf-escape (omega arith))
              λ e10.
                Wf-if (c == 12) _ _ (λ e. Wf-escape (omega arith))
                  λ e12.
                    Wf-if (c == 13) _ _ (λ e. Wf-escape (omega arith))
                      λ e13.
                        Wf-if (c == b'"' || c == backslash) _ _ (λ e. Wf-escape (ground arith))
                          λ eq.
                            Wf-if (ltb c 32 || is_high c || is_low c) _ _
                              (λ e. Wf-low (omega arith) (Wf-low (omega arith) (Wf-hex4 c)))
                              λ plain. wf_unit (ground arith) wf_nil

Wf-quote_text : (t : Text) → Wf (quote_text t)
unfolding quote_text
Wf-quote_text [] = wf_nil
Wf-quote_text (c ∷ []) = Wf-quote_unit c
Wf-quote_text (c ∷ d ∷ s) =
    Wf-if (is_high c && is_low d) _ _ (λ e. wf_pair (ground arith) (ground arith) (Wf-quote_text s))
      λ e. Wf-append (Wf-quote_unit c) (Wf-quote_text (d ∷ s))

Wf-quoted : (t : Text) → Wf (quoted t)
unfolding quoted
Wf-quoted t = Wf-low (omega arith) (Wf-append (Wf-quote_text t) (Wf-low (omega arith) wf_nil))

mutual
  unfolding stringify decimal

  Wf-stringify : (j : Json) → Wf (stringify j)
  Wf-stringify (num n) = Wf-decimal_loop (suc n) n
  Wf-stringify (str t) = Wf-quoted t
  Wf-stringify (arr nil) = Wf-low (omega arith) (Wf-low (omega arith) wf_nil)
  Wf-stringify (arr (item j js)) = Wf-low (omega arith) (Wf-append (Wf-stringify j) (Wf-items js))
  Wf-stringify (obj done) = Wf-low (omega arith) (Wf-low (omega arith) wf_nil)
  Wf-stringify (obj (member k j ms)) =
      Wf-low (omega arith) (
        Wf-append (Wf-quoted k) (Wf-low (omega arith) (Wf-append (Wf-stringify j) (Wf-members ms))))

  Wf-items : (js : Jsons) → Wf (stringify_items js)
  Wf-items nil = Wf-low (omega arith) wf_nil
  Wf-items (item j js) = Wf-low (omega arith) (Wf-append (Wf-stringify j) (Wf-items js))

  Wf-members : (ms : Members) → Wf (stringify_members ms)
  Wf-members done = Wf-low (omega arith) wf_nil
  Wf-members (member k j ms) =
      Wf-low (omega arith) (
        Wf-append (Wf-quoted k) (Wf-low (omega arith) (Wf-append (Wf-stringify j) (Wf-members ms))))

-- For every value, also one with lone halves in its texts.
pub is_well_formed-stringify : (j : Json) → is_well_formed (stringify j) ≡ true
is_well_formed-stringify j = Wf-sound (Wf-stringify j)

has_mark-append : (s t : Text) → has_mark s ≡ false → has_mark t ≡ false → has_mark (s ++ t) ≡ false
has_mark-append [] t h k = k
has_mark-append (c ∷ s) t h k = h

has_mark-decimal_loop : (f n : ℕ) → has_mark (decimal_loop f n) ≡ false
unfolding decimal_loop
has_mark-decimal_loop zero n = refl
has_mark-decimal_loop (suc f) n = elim (Bool-cases (ltb n 10)) [
  | inl one ↦ rw one (ground arith)
  | inr more ↦ rw more (
      has_mark-append (decimal_loop f (n / 10)) _ (has_mark-decimal_loop f (n / 10)) (ground arith))
]

-- What is written as JSON begins with a digit, a quotation mark, a bracket or a brace.
pub has_mark-stringify : (j : Json) → has_mark (stringify j) ≡ false
unfolding stringify decimal quoted
has_mark-stringify (num n) = has_mark-decimal_loop (suc n) n
has_mark-stringify (str t) = refl
has_mark-stringify (arr nil) = refl
has_mark-stringify (arr (item j js)) = refl
has_mark-stringify (obj done) = refl
has_mark-stringify (obj (member k j ms)) = refl
