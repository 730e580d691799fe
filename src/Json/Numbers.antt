-- ===== src/Json/Numbers.antt =====
-- Numbers: the decimal digits that are written are read back.
use k_quickshare.Base.{
  ℕ, zero, suc, ◌+◌, ◌-◌, ◌*◌, ◌/◌, ◌%◌, ◌≤◌, ◌<◌, ◌≡◌, refl, ap, ◌∙◌, List, [], ◌∷◌, ◌++◌, true,
  false, some, ltb, length, arith, append_assoc, length-append, Bool-cases, inl, inr, ◌⊎◌,
}
use k_quickshare.Json.{Text, Value}
use k_quickshare.Json.Write.{decimal, decimal_loop}
use k_quickshare.Json.Read.{digits, number_of, after_whole, unsigned, is_digit}

-- What may follow a value: nothing, or the end of an item.
abbrev pub Ends : Text → Type 0
Ends [] = Unit
Ends (c ∷ s) = (c ≡ b',') ⊎ (c ≡ b']') ⊎ (c ≡ b'}')

digits-digit :
    (acc count d : ℕ) (s : Text)
    → d < 10
    → digits acc count ((d + b'0') ∷ s) ≡ digits (acc * 10 + d) (count + 1) s
unfolding digits
digits-digit acc count d s h =
    let shown : is_digit (d + b'0') ≡ true = ground arith in
    let back : d + b'0' - b'0' ≡ d = omega arith in rw (shown, back)

decimal_loop-one : (f n : ℕ) → ltb n 10 ≡ true → decimal_loop (suc f) n ≡ (n + b'0') ∷ []
unfolding decimal_loop
decimal_loop-one f n e = rw e

decimal_loop-more :
    (f n : ℕ)
    → ltb n 10 ≡ false
    → decimal_loop (suc f) n ≡ decimal_loop f (n / 10) ++ (n % 10 + b'0') ∷ []
unfolding decimal_loop
decimal_loop-more f n e = rw e

digits-loop :
    (f n : ℕ) (s : Text)
    → n < f
    → digits 0 0 (decimal_loop f n ++ s) ≡ digits n (length (decimal_loop f n)) s
digits-loop zero n s h = absurd (omega arith)
digits-loop (suc f) n s h = elim (Bool-cases (ltb n 10)) [
  | inl one ↦
      rw (decimal_loop-one f n one)
        (digits-digit 0 0 n s (ground arith) ∙ ap (λ k. digits k 1 s) (omega arith))
  | inr more ↦
      let last : List ℕ = (n % 10 + b'0') ∷ [] in
      let whole : n / 10 * 10 + n % 10 ≡ n = omega arith in
      rw
        (
          decimal_loop-more f n more,
          append_assoc (decimal_loop f (n / 10)) last s,
          length-append (decimal_loop f (n / 10)) last,
        )
        (digits-loop f (n / 10) _ (ground arith)
          ∙ digits-digit (n / 10) (length (decimal_loop f (n / 10))) (n % 10) s (omega arith)
          ∙ ap (λ k. digits k (length (decimal_loop f (n / 10)) + 1) s) whole)
]

digits_stop : (n count : ℕ) (s : Text) → Ends s → digits n count s ≡ (n, count, s)
unfolding digits
digits_stop n count [] h = refl
digits_stop n count (c ∷ s) h = ground arith

-- A number is written with at least one digit, and begins with 0 only if it is 0.
decimal_shape :
    (f n : ℕ)
    → n < f
    → (c : ℕ) × (t : Text) × (decimal_loop f n ≡ c ∷ t)
      × (b'0' ≤ c)
      × (c ≤ b'9')
      × ((c ≡ b'0') → n ≡ 0)
decimal_shape zero n h = absurd (omega arith)
decimal_shape (suc f) n h = elim (Bool-cases (ltb n 10)) [
  | inl one ↦ (n + b'0', [], decimal_loop-one f n one, omega arith, ground arith, λ e. omega arith)
  | inr more ↦
      let (c, t, e, lo, hi, lead) = decimal_shape f (n / 10) (ground arith) in
      (
        c,
        t ++ (n % 10 + b'0') ∷ [],
        rw (decimal_loop-more f n more, e),
        lo,
        hi,
        λ z. ground (arith, lead z),
      )
]

number_of-whole : (n : ℕ) → number_of false n 1 ≡ Value.num n
unfolding number_of
number_of-whole n = ground arith

after_whole_stop : (n : ℕ) (s : Text) → Ends s → after_whole false n s ≡ some (Value.num n, s)
unfolding after_whole
after_whole_stop n [] h = ap (λ v. some (v, [])) (number_of-whole n)
after_whole_stop n (c ∷ s) h = ground (arith, number_of-whole n)

single_zero : (n : ℕ) → n ≡ 0 → length (decimal_loop (suc n) n) ≡ 1
unfolding decimal_loop
single_zero n e = rw e

unsigned-shape :
    (n c : ℕ) (t s : Text)
    → digits 0 0 (c ∷ (t ++ s)) ≡ (n, suc (length t), s)
    → (c ≡ b'0' → length t ≡ 0)
    → Ends s
    → unsigned false (c ∷ (t ++ s)) ≡ some (Value.num n, s)
unsigned-shape n c t s read lead h =
    unfold unsigned in rw read (ground (arith, after_whole_stop n s h))

unsigned-parts :
    (n c : ℕ) (t s : Text)
    → decimal_loop (suc n) n ≡ c ∷ t
    → (c ≡ b'0' → n ≡ 0)
    → Ends s
    → unsigned false (decimal_loop (suc n) n ++ s) ≡ some (Value.num n, s)
unsigned-parts n c t s e lead h =
    let read =
      digits-loop (suc n) n s (omega arith) ∙ digits_stop n (length (decimal_loop (suc n) n)) s h in
    rw e (
      unsigned-shape n c t s (rw e at read)
        (λ z. let one : suc (length t) ≡ 1 = rw e at (single_zero n (lead z)) in omega arith) h)

-- A written number is read back, where the end of an item follows.
pub unsigned-decimal :
    (n : ℕ) (s : Text) → Ends s → unsigned false (decimal n ++ s) ≡ some (Value.num n, s)
unfolding decimal
unsigned-decimal n s h =
    let (c, t, e, lo, hi, lead) = decimal_shape (suc n) n (omega arith) in
    unsigned-parts n c t s e lead h

-- The first character of a written number is a digit.
pub decimal-head : (n : ℕ) → (c : ℕ) × (t : Text) × (decimal n ≡ c ∷ t) × (b'0' ≤ c) × (c ≤ b'9')
unfolding decimal
decimal-head n =
    let (c, t, e, lo, hi, lead) = decimal_shape (suc n) n (omega arith) in (c, t, e, lo, hi)
