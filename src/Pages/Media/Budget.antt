-- ===== src/Pages/Media/Budget.antt =====
-- The budget of the walk over a media file, and its fuel.
use k_quickshare.Base.{
  false, ◌&&◌, inr, inl, ◌∙◌, ap, sym, refl, min, ◌-◌, Option-cases, Bool-cases, leb, ltb, arith,
  ◌++◌, ◌∷◌, [], List, ◌≤◌, ◌+◌, suc, zero, ℕ, length-append, length, Bytes, ◌≡◌,
}
use k_quickshare.Pages.Media.{
  iso_budget, all_formats, iso_parents, is_among, Box, read_box, enter_box, iso_round, read_be32,
  fourcc, slice, iso_walk, sample_entries, Walk,
}
use k_quickshare.Json.{codes, text_eq, Text}

-- A walk goes on from another: it has at most as much left, and each format has cost one.
abbrev IsOnward : Walk → Walk → Type 0
IsOnward w v = (v.left ≤ w.left) × (length v.out + v.left ≤ length w.out + w.left)

IsOnward-then : (w v x : Walk) → IsOnward w v → IsOnward v x → IsOnward w x
IsOnward-then w v x (a, b) (c, d) = (omega arith, omega arith)

sample_entries-IsOnward :
    (n : ℕ) (blob : Bytes) (at end : ℕ) (out : List Text)
    → IsOnward (record { out = out; left = n }) (sample_entries n blob at end out)
unfolding sample_entries
sample_entries-IsOnward zero blob at end out = (omega arith, omega arith)
sample_entries-IsOnward (suc n) blob at end out =
    let head = slice blob at (at + 8) in
    let grown : length (out ++ fourcc head 4 ∷ []) ≡ length out + 1 =
      length-append out (fourcc head 4 ∷ []) in
    let (l, s) =
      sample_entries-IsOnward n blob (at + read_be32 head 0) end (out ++ fourcc head 4 ∷ []) in
    ground arith

module _ (again : ℕ → ℕ → ℕ → Walk → Walk)
    (h : (at end depth : ℕ) (w : Walk) → IsOnward w (again at end depth w)) where
  enter_box-IsOnward :
      (blob : Bytes) (box : Box) (stop depth : ℕ) (w : Walk)
      → IsOnward w (enter_box again blob box stop depth w)
  unfolding enter_box
  enter_box-IsOnward blob box stop depth w =
      let entries = sample_entries-IsOnward w.left blob (box.body + 8) stop w.out in
      elim (Bool-cases (text_eq box.type (codes "stsd"))) [
        | inl e ↦ rw (enter_box, e) entries
        | inr e ↦ elim (Bool-cases (ltb depth 6 && is_among box.type iso_parents)) [
          | inl p ↦ rw (enter_box, e, p) (h box.body stop (depth + 1) w)
          | inr p ↦ rw (enter_box, e, p) (omega arith, omega arith)
        ]
      ]

  iso_round-IsOnward :
      (blob : Bytes) (at end depth : ℕ) (w : Walk)
      → IsOnward w (iso_round again blob at end depth w)
  unfolding iso_round
  iso_round-IsOnward blob at end depth w = elim (Bool-cases (leb (at + 8) end && ltb 0 w.left)) [
    | inr e ↦ rw (iso_round, e) (omega arith, omega arith)
    | inl e ↦
        let spent : Walk = record w { left = w.left - 1 } in
        elim (Option-cases (read_box (slice blob at (min (at + 16) end)) at end)) [
          | inl r ↦ rw (iso_round, e, r) (omega arith, omega arith)
          | inr (box, r) ↦
              let inner = enter_box again blob box (min (at + box.size) end) depth spent in
              let first =
                IsOnward-then w spent inner (omega arith, omega arith)
                  (enter_box-IsOnward blob box (min (at + box.size) end) depth spent) in
              rw (iso_round, e, r)
                (IsOnward-then w inner _ first (h (at + box.size) end depth inner))
        ]
  ]

iso_walk-IsOnward :
    (fuel : ℕ) (blob : Bytes) (at end depth : ℕ) (w : Walk)
    → IsOnward w (iso_walk fuel blob at end depth w)
unfolding iso_walk
iso_walk-IsOnward zero blob at end depth w = (omega arith, omega arith)
iso_walk-IsOnward (suc fuel) blob at end depth w =
    iso_round-IsOnward (iso_walk fuel blob) (iso_walk-IsOnward fuel blob) blob at end depth w

module _ (f g : ℕ → ℕ → ℕ → Walk → Walk) (n : ℕ)
    (h : (at end depth : ℕ) (w : Walk) → IsOnward w (f at end depth w))
    (same : (at end depth : ℕ) (w : Walk) → w.left ≤ n → f at end depth w ≡ g at end depth w) where
  enter_box-same :
      (blob : Bytes) (box : Box) (stop depth : ℕ) (w : Walk)
      → w.left ≤ n
      → enter_box f blob box stop depth w ≡ enter_box g blob box stop depth w
  unfolding enter_box
  enter_box-same blob box stop depth w le = elim (Bool-cases (text_eq box.type (codes "stsd"))) [
    | inl e ↦ rw (enter_box, e) refl
    | inr e ↦ elim (Bool-cases (ltb depth 6 && is_among box.type iso_parents)) [
      | inl p ↦ rw (enter_box, e, p) (same box.body stop (depth + 1) w le)
      | inr p ↦ rw (enter_box, e, p) refl
    ]
  ]

  iso_round-same :
      (blob : Bytes) (at end depth : ℕ) (w : Walk)
      → w.left ≤ suc n
      → iso_round f blob at end depth w ≡ iso_round g blob at end depth w
  unfolding iso_round
  iso_round-same blob at end depth w le = elim (Bool-cases (leb (at + 8) end && ltb 0 w.left)) [
    | inr e ↦ rw (iso_round, e) refl
    | inl e ↦
        let spent : Walk = record w { left = w.left - 1 } in
        elim (Option-cases (read_box (slice blob at (min (at + 16) end)) at end)) [
          | inl r ↦ rw (iso_round, e, r) refl
          | inr (box, r) ↦
              let stop = min (at + box.size) end in
              let few : spent.left ≤ n = omega arith in
              let inner = enter_box-IsOnward f h blob box stop depth spent in
              rw (iso_round, e, r)
                (same (at + box.size) end depth (enter_box f blob box stop depth spent)
                    (omega (arith, inner.0))
                  ∙ ap (g (at + box.size) end depth) (enter_box-same blob box stop depth spent few))
        ]
  ]

empty_budget :
    (fuel : ℕ) (blob : Bytes) (at end depth : ℕ) (w : Walk)
    → w.left ≤ 0
    → iso_walk fuel blob at end depth w ≡ w
unfolding iso_walk iso_round
empty_budget zero blob at end depth w h = refl
empty_budget (suc fuel) blob at end depth w h =
    let shut : (leb (at + 8) end && ltb 0 w.left) ≡ false = ground arith in
    rw (iso_walk, iso_round, shut) refl

-- Fuel beyond what is left of the budget changes nothing.
iso_walk-fuel :
    (f g : ℕ) (blob : Bytes) (at end depth : ℕ) (w : Walk)
    → w.left ≤ f
    → w.left ≤ g
    → iso_walk f blob at end depth w ≡ iso_walk g blob at end depth w
unfolding iso_walk
iso_walk-fuel zero g blob at end depth w hf hg = sym (empty_budget g blob at end depth w hf)
iso_walk-fuel (suc f) zero blob at end depth w hf hg = empty_budget (suc f) blob at end depth w hg
iso_walk-fuel (suc f) (suc g) blob at end depth w hf hg =
    iso_round-same (iso_walk f blob) (iso_walk g blob) (min f g) (iso_walk-IsOnward f blob)
      (λ at end depth w le. iso_walk-fuel f g blob at end depth w (omega arith) (omega arith)) blob
      at end depth w (omega arith)

-- The walk over a file ends within its budget of 4,000: more fuel finds the same formats, and at
-- most 4,000 of them.
pub all_formats_bounded :
    (blob : Bytes) (fuel : ℕ)
    → iso_budget ≤ fuel
    → (all_formats blob
        ≡ (iso_walk fuel blob 0 (length blob) 0 (record { out = []; left = iso_budget })).out)
      × (length (all_formats blob) ≤ iso_budget)
unfolding all_formats
all_formats_bounded blob fuel h =
    let start : Walk = record { out = []; left = iso_budget } in
    let (l, s) = iso_walk-IsOnward iso_budget blob 0 (length blob) 0 start in
    (
      ap (λ w. w.out) (iso_walk-fuel iso_budget fuel blob 0 (length blob) 0 start (omega arith) h),
      omega arith,
    )
