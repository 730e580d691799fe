-- ===== src/Json/Texts.antt =====
-- Texts: what is written between quotes is read back.
use k_quickshare.Base.{
  ℕ, suc, ◌+◌, ◌*◌, ◌/◌, ◌%◌, ◌<◌, ◌≡◌, refl, sym, ap, ◌∙◌, [], ◌∷◌, ◌++◌, Bool, true, false, not,
  ◌&&◌, ◌||◌, some, if◌then◌else◌, ltb, leb, ◌==◌, arith, append_assoc, Bool-cases, inl, inr, All,
}
use k_quickshare.Json.{Text}
use k_quickshare.Json.Write.{backslash, is_high, is_low, hex_digit, hex4, quote_unit, quote_text}
use k_quickshare.Json.Read.{
  Mode, plain, escape, unit, close, emit, go, Parsed, cons_to, scan, next, escaped, hex_value,
  hex_move,
}

-- One step of the reader of texts.
scan-emit :
    (m : Mode) (c u : ℕ) (s : Text) → next m c ≡ emit u → scan m (c ∷ s) ≡ cons_to u (scan plain s)
unfolding scan
scan-emit m c u s e = rw (e, scan)

scan-go : (m m' : Mode) (c : ℕ) (s : Text) → next m c ≡ go m' → scan m (c ∷ s) ≡ scan m' s
unfolding scan
scan-go m m' c s e = rw (e, scan)

scan-close : (m : Mode) (c : ℕ) (s : Text) → next m c ≡ close → scan m (c ∷ s) ≡ some ([], s)
unfolding scan
scan-close m c s e = rw (e, scan)

-- The four digits of a code unit are read back.
hex_value-digit : (d : ℕ) → d < 16 → hex_value (hex_digit d) ≡ some d
unfolding hex_value hex_digit
hex_value-digit d h = ground arith

hex_move-digit :
    (left acc c d : ℕ) → hex_value c ≡ some d → next (unit left acc) c ≡ hex_move left acc (some d)
unfolding next
hex_move-digit left acc c d e = ap (hex_move left acc) e

hex_go :
    (left acc d : ℕ) (s : Text)
    → d < 16
    → scan (unit (suc (suc left)) acc) (hex_digit d ∷ s) ≡ scan (unit (suc left) (acc * 16 + d)) s
hex_go left acc d s h =
    scan-go (unit (suc (suc left)) acc) (unit (suc left) (acc * 16 + d)) (hex_digit d) s (
      hex_move-digit (suc (suc left)) acc (hex_digit d) d (hex_value-digit d h)
      ∙ unfold hex_move in ground arith)

hex_last :
    (acc d : ℕ) (s : Text)
    → d < 16
    → scan (unit 1 acc) (hex_digit d ∷ s) ≡ cons_to (acc * 16 + d) (scan plain s)
hex_last acc d s h =
    scan-emit (unit 1 acc) (hex_digit d) (acc * 16 + d) s
      (hex_move-digit 1 acc (hex_digit d) d (hex_value-digit d h) ∙ unfold hex_move in refl)

scan-hex4 :
    (c : ℕ) (s : Text) → c < 65536 → scan (unit 4 0) (hex4 c ++ s) ≡ cons_to c (scan plain s)
unfolding hex4
scan-hex4 c s h =
    let whole : (((0 * 16 + c / 4096 % 16) * 16 + c / 256 % 16) * 16 + c / 16 % 16) * 16 + c % 16
        ≡ c =
      omega arith in
    hex_go 2 0 (c / 4096 % 16)
      (hex_digit (c / 256 % 16) ∷ hex_digit (c / 16 % 16) ∷ hex_digit (c % 16) ∷ s) (omega arith)
    ∙ hex_go 1 (0 * 16 + c / 4096 % 16) (c / 256 % 16)
        (hex_digit (c / 16 % 16) ∷ hex_digit (c % 16) ∷ s) (omega arith)
    ∙ hex_go 0 ((0 * 16 + c / 4096 % 16) * 16 + c / 256 % 16) (c / 16 % 16) (hex_digit (c % 16) ∷ s)
        (omega arith)
    ∙ hex_last (((0 * 16 + c / 4096 % 16) * 16 + c / 256 % 16) * 16 + c / 16 % 16) (c % 16) s
        (omega arith)
    ∙ ap (λ u. cons_to u (scan plain s)) whole

abbrev is_plain : ℕ → Bool
is_plain c = leb 32 c && not (c == b'"') && not (c == backslash)

next-plain : (c : ℕ) → is_plain c ≡ true → next plain c ≡ emit c
unfolding next
next-plain c h = ground arith

next-backslash : next plain backslash ≡ go escape
unfolding next
next-backslash = refl

scan-escape :
    (c u : ℕ) (s : Text)
    → escaped c ≡ emit u
    → scan plain (backslash ∷ c ∷ s) ≡ cons_to u (scan plain s)
scan-escape c u s e =
    scan-go plain escape backslash (c ∷ s) next-backslash
    ∙ scan-emit escape c u s (unfold next in e)

scan-unicode :
    (c : ℕ) (s : Text)
    → c < 65536
    → scan plain (backslash ∷ b'u' ∷ (hex4 c ++ s)) ≡ cons_to c (scan plain s)
scan-unicode c s h =
    scan-go plain escape backslash _ next-backslash
    ∙ scan-go escape (unit 4 0) b'u' _ (unfold next escaped in refl)
    ∙ scan-hex4 c s h

-- Either branch of a test is read to the same result.
scan-if :
    {r : Parsed Text} (b : Bool) (x y s : Text)
    → (b ≡ true → scan plain (x ++ s) ≡ r)
    → (b ≡ false → scan plain (y ++ s) ≡ r)
    → scan plain ((if b then x else y) ++ s) ≡ r
scan-if true x y s f g = f refl
scan-if false x y s f g = g refl

-- The two-character escape of the code unit `u`.
scan-short :
    (c u k : ℕ) (s : Text)
    → escaped k ≡ emit u
    → c ≡ u
    → scan plain (backslash ∷ k ∷ s) ≡ cons_to c (scan plain s)
scan-short c u k s e same = scan-escape k u s e ∙ ap (λ v. cons_to v (scan plain s)) (sym same)

escaped_self : (c : ℕ) → (c == b'"' || c == backslash) ≡ true → escaped c ≡ emit c
unfolding escaped
escaped_self c h = ground arith

-- A code unit that was written in any of the ways is read back.
scan-quote_unit :
    (c : ℕ) (s : Text) → c < 65536 → scan plain (quote_unit c ++ s) ≡ cons_to c (scan plain s)
unfolding quote_unit
scan-quote_unit c s h =
    scan-if (c == 8) _ _ s (λ e. scan-short c 8 b'b' s (unfold escaped in refl) (ground arith))
      λ e8.
        scan-if (c == 9) _ _ s (λ e. scan-short c 9 b't' s (unfold escaped in refl) (ground arith))
          λ e9.
            scan-if (c == 10) _ _ s
              (λ e. scan-short c 10 b'n' s (unfold escaped in refl) (ground arith))
              λ e10.
                scan-if (c == 12) _ _ s
                  (λ e. scan-short c 12 b'f' s (unfold escaped in refl) (ground arith))
                  λ e12.
                    scan-if (c == 13) _ _ s
                      (λ e. scan-short c 13 b'r' s (unfold escaped in refl) (ground arith))
                      λ e13.
                        scan-if (c == b'"' || c == backslash) _ _ s
                          (λ e. scan-short c c c s (escaped_self c e) refl)
                          λ eq.
                            scan-if (ltb c 32 || is_high c || is_low c) _ _ s
                              (λ e. scan-unicode c s h)
                              λ eu. scan-emit plain c c s (next-plain c (ground arith))

-- A text that was written between quotes is read back.
pub scan-quote_text :
    (t rest : Text)
    → All (λ c. c < 65536) t
    → scan plain (quote_text t ++ b'"' ∷ rest) ≡ some (t, rest)
unfolding quote_text
scan-quote_text [] rest h = scan-close plain b'"' rest (unfold next in refl)
scan-quote_text (c ∷ []) rest (hc, h) =
    scan-quote_unit c (b'"' ∷ rest) hc ∙ rw (scan-close plain b'"' rest (unfold next in refl))
scan-quote_text (c ∷ d ∷ s) rest (hc, (hd, h)) = elim (Bool-cases (is_high c && is_low d)) [
  | inl pair ↦ rw pair (
      scan-emit plain c c _ (next-plain c (ground arith))
      ∙ ap (cons_to c) (scan-emit plain d d _ (next-plain d (ground arith)))
      ∙ rw (scan-quote_text s rest h))
  | inr single ↦
      rw single
        (rw append_assoc (scan-quote_unit c _ hc ∙ rw (scan-quote_text (d ∷ s) rest (hd, h))))
]
