-- ===== src/Zip/Names/Search.antt =====
-- The search for a free name ends: more candidates than names that were seen.
use k_quickshare.Zip.Names.{Seen, seen_get, is_seen, candidate, free_number}
use k_quickshare.Json.{Json, Value, Text, text_eq}
use k_quickshare.Json.Write.{stringify, decimal}
use k_quickshare.Base.{
  ◌++◌, ◌∙◌, ap, sym, take-append, length-append, drop, take, arith, ◌∷◌, [], some, false, true,
  inr, inl, ◌≢◌, refl, ◌≡◌, ◌<◌, ◌≤◌, ◌+◌, suc, zero, ℕ, length, Bool-cases, if◌then◌else◌,
}
use k_quickshare.E2e.Blobs.Contents.{text_eq→eq}
use k_quickshare.Json.RoundTrip.{parse-stringify}
use k_quickshare.Json.Read.{parse}

-- The seen names but one.
without : Text → Seen → Seen
without x [] = []
without x (p ∷ seen) = let rest = without x seen in if text_eq x p.0 then rest else p ∷ rest

length-without : (x : Text) (seen : Seen) → length (without x seen) ≤ length seen
unfolding without
length-without x [] = omega arith
length-without x (p ∷ seen) = ground (arith, length-without x seen)

is_seen-shorter :
    (x : Text) (seen : Seen) → is_seen x seen ≡ true → length (without x seen) < length seen
unfolding without is_seen seen_get
is_seen-shorter x [] h = cc
is_seen-shorter x (p ∷ seen) h = ground (arith, length-without x seen, is_seen-shorter x seen)

without-keeps :
    (x y : Text) (seen : Seen) → y ≢ x → is_seen y (without x seen) ≡ false → is_seen y seen ≡ false
unfolding without is_seen seen_get
without-keeps x y [] h e = refl
without-keeps x y (p ∷ seen) h e =
    ground (arith, without-keeps x y seen h, text_eq→eq x p.0, text_eq→eq y p.0)

decimal-injective : (m n : ℕ) → decimal m ≡ decimal n → m ≡ n
unfolding stringify
decimal-injective m n e =
    let same : some (Value.num m) ≡ some (Value.num n) =
      sym (parse-stringify (Json.num m) tt) ∙ ap parse e ∙ parse-stringify (Json.num n) tt in
    cc

cancel_front : (s x y : Text) → s ++ x ≡ s ++ y → x ≡ y
cancel_front [] x y e = e
cancel_front (c ∷ s) x y e = cancel_front s x y cc

cancel_back : (x y r : Text) → x ++ r ≡ y ++ r → x ≡ y
cancel_back x y r e =
    let size : length x ≡ length y =
      omega (arith, ap length e, length-append x r, length-append y r) in
    sym (take-append (length x) x r refl)
    ∙ ap (take (length x)) e
    ∙ take-append (length x) y r (sym size)

candidate-injective :
    (stem ext : Text) (m n : ℕ) → candidate stem ext m ≡ candidate stem ext n → m ≡ n
unfolding candidate
candidate-injective stem ext m n e =
    let tail : 32 ∷ 40 ∷ (decimal m ++ (41 ∷ ext)) ≡ 32 ∷ 40 ∷ (decimal n ++ (41 ∷ ext)) =
      cancel_front stem _ _ e in
    decimal-injective m n (cancel_back (decimal m) (decimal n) (41 ∷ ext) (ap (drop 2) tail))

empty_fresh : (x : Text) (seen : Seen) → length seen ≤ 0 → is_seen x seen ≡ false
unfolding is_seen seen_get
empty_fresh x [] h = refl
empty_fresh x (p ∷ seen) h = absurd (omega arith)

-- Of more different names than were seen, one was not.
some_free :
    (size : ℕ) (seen : Seen) (f : ℕ → Text)
    → length seen ≤ size
    → ((i j : ℕ) → f i ≡ f j → i ≡ j)
    → (j : ℕ) × (j ≤ size) × (is_seen (f j) seen ≡ false)
some_free zero seen f h inj = (0, omega arith, empty_fresh (f 0) seen h)
some_free (suc size) seen f h inj = elim (Bool-cases (is_seen (f 0) seen)) [
  | inr fresh ↦ (0, omega arith, fresh)
  | inl used ↦
      let shorter = is_seen-shorter (f 0) seen used in
      let (j, small, fresh) =
        some_free size (without (f 0) seen) (λ i. f (i + 1)) (omega arith)
          (λ i k e. step i k (inj (i + 1) (k + 1) e)) in
      (
        j + 1,
        omega arith,
        without-keeps (f 0) (f (j + 1)) seen (λ e. later j (inj (j + 1) 0 e)) fresh,
      )
]
  where
    step : (i k : ℕ) → i + 1 ≡ k + 1 → i ≡ k
    step i k e = omega arith

    later : (j : ℕ) → j + 1 ≡ 0 → ⊥
    later j e = omega arith

free_number-finds :
    (j fuel n : ℕ) (stem ext : Text) (seen : Seen)
    → j < fuel
    → is_seen (candidate stem ext (n + j)) seen ≡ false
    → (k : ℕ) × (free_number fuel n stem ext seen ≡ some k)
      × (is_seen (candidate stem ext k) seen ≡ false)
unfolding free_number
free_number-finds j zero n stem ext seen h fresh = absurd (omega arith)
free_number-finds zero (suc fuel) n stem ext seen h fresh =
    let here : is_seen (candidate stem ext n) seen ≡ false =
      ap (λ i. is_seen (candidate stem ext i) seen) (omega arith) ∙ fresh in
    (n, rw here refl, here)
free_number-finds (suc j) (suc fuel) n stem ext seen h fresh =
    elim (Bool-cases (is_seen (candidate stem ext n) seen)) [
      | inr here ↦ (n, rw here refl, here)
      | inl used ↦
          let at : n + 1 + j ≡ n + suc j = omega arith in
          let (k, found, free) =
            free_number-finds j fuel (n + 1) stem ext seen (omega arith)
              (ap (λ i. is_seen (candidate stem ext i) seen) at ∙ fresh) in
          (k, rw used found, free)
    ]

-- With as much fuel as the code's search is given, it finds a number whose name is free.
pub free_number-ends :
    (n : ℕ) (stem ext : Text) (seen : Seen)
    → (k : ℕ) × (free_number (suc (length seen)) n stem ext seen ≡ some k)
      × (is_seen (candidate stem ext k) seen ≡ false)
free_number-ends n stem ext seen =
    let (j, small, fresh) =
      some_free (length seen) seen (λ i. candidate stem ext (n + i)) (omega arith)
        (λ i k e. same_offset i k (candidate-injective stem ext (n + i) (n + k) e)) in
    free_number-finds j (suc (length seen)) n stem ext seen (omega arith) fresh
  where
    same_offset : (i k : ℕ) → n + i ≡ n + k → i ≡ k
    same_offset i k e = omega arith
