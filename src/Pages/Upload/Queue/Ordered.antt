-- ===== src/Pages/Upload/Queue/Ordered.antt =====
-- The order in which the calls of the upload queue wait, begin and return.
use k_quickshare.Base.{
  ◌⊎◌, ◌-◌, ◌==◌, Bool-cases, inr, inl, some-injective, Option-cases, ◌++◌, some, subst, sym, ◌+◌,
  get_elem?, arith, ◌∷◌, [], List, true, suc, zero, ℕ, All, ◌≡◌,
}
use k_quickshare.Pages.Upload.Runs.{Phase, Run, Site, Event, on_event, step}
use k_quickshare.Pages.Upload.Queue.{may_begin, Queue, update, has_returned, Entry}
use k_quickshare.Pages.Upload.Rows.{Row}

abbrev IsBefore : Entry → Type 0
IsBefore x = x.run.phase ≡ Phase.waiting

abbrev IsAfter : Entry → Type 0
IsAfter x = has_returned x.run.phase ≡ true

-- Of `n` calls that have begun, all but the last have returned; the others wait.
abbrev pub IsOrdered : ℕ → List Entry → Type 0
IsOrdered zero xs = All IsBefore xs
IsOrdered (suc n) [] = ⊥
IsOrdered (suc zero) (x ∷ xs) = All IsBefore xs
IsOrdered (suc (suc n)) (x ∷ xs) = IsAfter x × IsOrdered (suc n) xs

pub step-IsAfter :
    (site : Site) (n : ℕ) (e : Event) (run : Run) (row : Row)
    → has_returned run.phase ≡ true
    → has_returned (step site n e (run, row)).0.phase ≡ true
unfolding step on_event has_returned
step-IsAfter site n e run row h = ground arith

abbrev pub IsTurn : Event → Type 0
IsTurn Event.turn = Unit
IsTurn _ = ⊥

pub step-IsBefore :
    (site : Site) (n : ℕ) (e : Event) (run : Run) (row : Row)
    → ¬ (IsTurn e)
    → run.phase ≡ Phase.waiting
    → (step site n e (run, row)).0.phase ≡ Phase.waiting
unfolding step on_event
step-IsBefore site n e run row ne h = ground arith

-- What replaces an entry waits, or has returned, if the entry did.
abbrev IsLike : Entry → Entry → Type 0
IsLike x y = (IsBefore x → IsBefore y) × (IsAfter x → IsAfter y)

update-IsBefore :
    (n : ℕ) (x y : Entry) (xs : List Entry)
    → get_elem? xs n ≡ some x
    → IsLike x y
    → All IsBefore xs
    → All IsBefore (update n y xs)
update-IsBefore n x y [] at like h = tt
update-IsBefore zero x y (z ∷ zs) at like (h, hs) =
    (like.0 (subst IsBefore (some-injective at) h), hs)
update-IsBefore (suc n) x y (z ∷ zs) at like (h, hs) = (h, update-IsBefore n x y zs at like hs)

pub update-IsOrdered :
    (k n : ℕ) (x y : Entry) (xs : List Entry)
    → get_elem? xs n ≡ some x
    → IsLike x y
    → IsOrdered k xs
    → IsOrdered k (update n y xs)
update-IsOrdered zero n x y xs at like h = update-IsBefore n x y xs at like h
update-IsOrdered (suc k) n x y [] at like h = absurd h
update-IsOrdered (suc zero) zero x y (z ∷ zs) at like h = h
update-IsOrdered (suc zero) (suc n) x y (z ∷ zs) at like h = update-IsBefore n x y zs at like h
update-IsOrdered (suc (suc k)) zero x y (z ∷ zs) at like (h, hs) =
    (like.1 (subst IsAfter (some-injective at) h), hs)
update-IsOrdered (suc (suc k)) (suc n) x y (z ∷ zs) at like (h, hs) =
    (h, update-IsOrdered (suc k) n x y zs at like hs)

begin-IsOrdered :
    (k : ℕ) (x w : Entry) (xs : List Entry)
    → get_elem? xs k ≡ some x
    → get_elem? xs (suc k) ≡ some w
    → IsAfter x
    → IsOrdered (suc k) xs
    → IsOrdered (suc (suc k)) xs
begin-IsOrdered k x w [] at next after h = absurd h
begin-IsOrdered zero x w (z ∷ []) at next after h = cc
begin-IsOrdered zero x w (z ∷ z' ∷ zs) at next after (h, hs) =
    (subst IsAfter (sym (some-injective at)) after, hs)
begin-IsOrdered (suc k) x w (z ∷ zs) at next after (h, hs) =
    (h, begin-IsOrdered k x w zs at next after hs)

pub last-IsOrdered :
    (k : ℕ) (y : Entry) (xs : List Entry) → IsOrdered (suc k) xs → IsOrdered (suc k) (update k y xs)
last-IsOrdered k y [] h = absurd h
last-IsOrdered zero y (z ∷ zs) h = h
last-IsOrdered (suc k) y (z ∷ zs) (h, hs) = (h, last-IsOrdered k y zs hs)

pub may_begin_cases :
    (q : Queue)
    → may_begin q ≡ true
    → (q.begun ≡ 0) ⊎ ((x : Entry) × (get_elem? q.entries (q.begun - 1) ≡ some x) × IsAfter x)
unfolding may_begin has_returned
may_begin_cases q free = elim (Option-cases (get_elem? q.entries (q.begun - 1))) [
  | inl at ↦ inl (ground arith)
  | inr (x, at) ↦ elim (Bool-cases (q.begun == 0)) [
    | inl first ↦ inl (ground arith)
    | inr later ↦ inr (x, at, ground arith)
  ]
]

-- A call may begin where none has, or where the last one that has begun has returned.
pub free-IsOrdered :
    (k : ℕ) (w : Entry) (xs : List Entry)
    → get_elem? xs k ≡ some w
    → (k ≡ 0) ⊎ ((x : Entry) × (get_elem? xs (k - 1) ≡ some x) × IsAfter x)
    → IsOrdered k xs
    → IsOrdered (suc k) xs
free-IsOrdered zero w [] at free h = cc
free-IsOrdered zero w (z ∷ zs) at free (h, hs) = hs
free-IsOrdered (suc k) w xs at (inl e) h = absurd (omega arith)
free-IsOrdered (suc k) w xs at (inr (x, before, after)) h =
    let pred : suc k - 1 ≡ k = omega arith in
    begin-IsOrdered k x w xs (subst (λ i. get_elem? xs i ≡ some x) pred before) at after h

pub append-IsOrdered :
    (k : ℕ) (x : Entry) (xs : List Entry) → IsBefore x → IsOrdered k xs → IsOrdered k (xs ++ x ∷ [])
append-IsOrdered zero x xs hx h = after xs h
  where
    after : (xs : List Entry) → All IsBefore xs → All IsBefore (xs ++ x ∷ [])
    after [] h = (hx, tt)
    after (z ∷ zs) (h, hs) = (h, after zs hs)
append-IsOrdered (suc k) x [] hx h = absurd h
append-IsOrdered (suc zero) x (z ∷ zs) hx h = append-IsOrdered zero x zs hx h
append-IsOrdered (suc (suc k)) x (z ∷ zs) hx (h, hs) = (h, append-IsOrdered (suc k) x zs hx hs)

abbrev pub IsPreparing : Phase → Type 0
IsPreparing Phase.linking = Unit
IsPreparing Phase.sealing = Unit
IsPreparing _ = ⊥

before_idle : (x : Entry) → IsBefore x → IsPreparing x.run.phase → ⊥
before_idle x h p = ground arith

after_idle : (x : Entry) → IsAfter x → IsPreparing x.run.phase → ⊥
unfolding has_returned
after_idle x h p = ground arith

pub ordered_last :
    (k i : ℕ) (x : Entry) (xs : List Entry)
    → IsOrdered k xs
    → get_elem? xs i ≡ some x
    → IsPreparing x.run.phase
    → i + 1 ≡ k
ordered_last k i x [] h at p = cc
ordered_last zero zero x (z ∷ zs) (h, hs) at p =
    absurd (before_idle x (subst IsBefore (some-injective at) h) p)
ordered_last zero (suc i) x (z ∷ zs) (h, hs) at p =
    absurd (grind (arith, ordered_last zero i x zs hs at p))
ordered_last (suc zero) zero x (z ∷ zs) h at p = omega arith
ordered_last (suc zero) (suc i) x (z ∷ zs) h at p =
    absurd (grind (arith, ordered_last zero i x zs h at p))
ordered_last (suc (suc k)) zero x (z ∷ zs) (h, hs) at p =
    absurd (after_idle x (subst IsAfter (some-injective at) h) p)
ordered_last (suc (suc k)) (suc i) x (z ∷ zs) (h, hs) at p =
    omega (arith, ordered_last (suc k) i x zs hs at p)
