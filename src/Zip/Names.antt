-- ===== src/Zip/Names.antt =====
-- `uniqueNames` of web/static/zip.js. The object `seen` is the list of its keys and values, the
-- newest first; a missing entry name is the empty text.
pub mod Search
pub mod Distinct
use k_quickshare.Json.{Text, codes, text_eq}
use k_quickshare.Json.Write.{decimal}
use k_quickshare.E2e.Chunks.{or_text}
use k_quickshare.Base.{
  ◌++◌, ◌∷◌, [], List, some, none, Option, ◌||◌, false, true, Bool, ◌+◌, suc, zero, ℕ, drop, take,
  length, if◌then◌else◌, ◌==◌, ltb,
}

abbrev pub Seen : Type 0
Seen = List (Text × ℕ)

-- `seen[name]`
unfoldable pub seen_get : Text → Seen → Option ℕ
seen_get name [] = none
seen_get name ((k, n) ∷ seen) =
    let rest = seen_get name seen in if text_eq name k then some n else rest

-- `seen[name] !== undefined`
unfoldable pub is_seen : Text → Seen → Bool
unfolding seen_get
is_seen name seen = elim (seen_get name seen) [ none ↦ false | some n ↦ true ]

-- A run of `/` and `\` becomes one `_`; `run` tells that one has just been written.
unfoldable pub squash : Bool → Text → Text
squash run [] = []
squash run (c ∷ s) =
    let inside = squash true s in
    let outside = squash false s in
    if c == b'/' || c == b'\\' then (if run then inside else b'_' ∷ inside) else c ∷ outside

unfoldable pub strip_dots : Text → Text
strip_dots [] = []
strip_dots (c ∷ s) = let rest = strip_dots s in if c == b'.' then rest else c ∷ s

unfoldable pub zip_name : Text → Text
unfolding squash strip_dots
zip_name name = or_text (strip_dots (squash false (or_text name (codes "file")))) (codes "file")

-- `lastIndexOf('.')` from place `i` on, or `found`; 0 stands for a dot in front or for none.
unfoldable pub last_dot : ℕ → Text → ℕ → ℕ
last_dot i [] found = found
last_dot i (c ∷ s) found = last_dot (i + 1) s (if c == b'.' then i else found)

unfoldable pub stem_of : Text → Text
unfolding last_dot
stem_of name = let dot = last_dot 0 name 0 in if ltb 0 dot then take dot name else name

unfoldable pub ext_of : Text → Text
unfolding last_dot
ext_of name = let dot = last_dot 0 name 0 in if ltb 0 dot then drop dot name else []

unfoldable pub candidate : Text → Text → ℕ → Text
candidate stem ext n = stem ++ (32 ∷ 40 ∷ (decimal n ++ (41 ∷ ext)))

-- The search for a number whose name is free, on fuel; `none` is a search that has not ended.
unfoldable pub free_number : ℕ → ℕ → Text → Text → Seen → Option ℕ
free_number zero n stem ext seen = none
free_number (suc fuel) n stem ext seen =
    let next = free_number fuel (n + 1) stem ext seen in
    if is_seen (candidate stem ext n) seen then next else some n

-- One entry: its name in the archive, and what has been seen after it.
unfoldable pub place_name : Text → Seen → Option (Text × Seen)
place_name name seen = elim (seen_get name seen) [
  | none ↦ some (name, (name, 1) ∷ seen)
  | some k ↦ elim (free_number (suc (length seen)) (k + 1) (stem_of name) (ext_of name) seen) [
    | none ↦ none
    | some n ↦ some (
      candidate (stem_of name) (ext_of name) n,
      (candidate (stem_of name) (ext_of name) n, 1) ∷ (name, n) ∷ seen,
    )
  ]
]

unfoldable pub names_from : List Text → Seen → Option (List Text)
names_from [] seen = some []
names_from (e ∷ es) seen = elim (place_name (zip_name e) seen) [
  | none ↦ none
  | some placed ↦ elim (names_from es placed.1) [ none ↦ none | some rest ↦ some (placed.0 ∷ rest) ]
]

unfoldable pub unique_names : List Text → Option (List Text)
unique_names entries = names_from entries []
