-- ===== src/Json/RoundTrip.antt =====
-- What is written is read back: `JSON.parse (JSON.stringify j)` is `j`.
use k_quickshare.Base.{
  ℕ, zero, suc, ◌+◌, ◌≤◌, ◌<◌, ◌≡◌, ap, [], ◌∷◌, ◌++◌, some, length, arith, append_assoc,
  append-nil, length-append,
}
use k_quickshare.Json.{Text, Json, Jsons, Members, value, values, fields}
use k_quickshare.Json.{num, str, arr, obj, nil, item, done, member}
use k_quickshare.Json.Write.{quoted, stringify, stringify_items, stringify_members}
use k_quickshare.Json.Read.{read_fields, read_items, read_value, at_end, parse}
use k_quickshare.Json.Numbers.{Ends}
use k_quickshare.Json.Steps.{
  name-step, fields-step, members-end, MembersHaveTexts, items-step, items-end, HaveTexts,
  members-Ends, object-value, empty-object, items-Ends, array-value, empty-array, text-value,
  number-value, HasTexts,
}

-- How much fuel the reader needs.
abbrev mutual
  weight : Json → ℕ
  weight (num n) = 0
  weight (str s) = 0
  weight (arr nil) = 0
  weight (arr (item j js)) = suc (weight j + weight_items js)
  weight (obj done) = 0
  weight (obj (member k j ms)) = suc (weight j + weight_members ms)

  weight_items : Jsons → ℕ
  weight_items nil = 1
  weight_items (item j js) = suc (weight j + weight_items js)

  weight_members : Members → ℕ
  weight_members done = 1
  weight_members (member k j ms) = suc (weight j + weight_members ms)

weight_items_pos : (js : Jsons) → 0 < weight_items js
weight_items_pos nil = omega arith
weight_items_pos (item j js) = omega arith

weight_members_pos : (ms : Members) → 0 < weight_members ms
weight_members_pos done = omega arith
weight_members_pos (member k j ms) = omega arith

mutual
  unfolding stringify

  read-stringify :
      (j : Json) (f : ℕ) (s : Text)
      → HasTexts j
      → Ends s
      → weight j < f
      → read_value f (stringify j ++ s) ≡ some (value j, s)
  read-stringify j zero s h e w = absurd (omega arith)
  read-stringify (num n) (suc f) s h e w = number-value f n s e
  read-stringify (str t) (suc f) s h e w = text-value f t s h
  read-stringify (arr nil) (suc f) s h e w = empty-array f s
  read-stringify (arr (item j js)) (suc f) s (hj, hjs) e w = rw append_assoc (
      array-value f j js (stringify_items js ++ s) s
        (read-stringify j f (stringify_items js ++ s) hj (items-Ends js s)
          (omega (arith, weight_items_pos js)))
        (read-items js f f s hjs (omega arith) (omega arith)))
  read-stringify (obj done) (suc f) s h e w = empty-object f s
  read-stringify (obj (member k j ms)) (suc f) s (hk, hj, hms) e w =
      rw
        (
          append_assoc (quoted k) (b':' ∷ (stringify j ++ stringify_members ms)) s,
          append_assoc (stringify j) (stringify_members ms) s,
        )
        (object-value f k j ms (stringify_members ms ++ s) s hk
          (read-stringify j f (stringify_members ms ++ s) hj (members-Ends ms s)
            (omega (arith, weight_members_pos ms)))
          (read-members ms f f s hms (omega arith) (omega arith)))

  read-items :
      (js : Jsons) (f g : ℕ) (s : Text)
      → HaveTexts js
      → weight_items js ≤ f
      → weight_items js ≤ g
      → read_items (read_value f) g (stringify_items js ++ s) ≡ some (values js, s)
  read-items js f zero s h w w' = absurd (omega (arith, weight_items_pos js))
  read-items nil f (suc g) s h w w' = items-end (read_value f) g s
  read-items (item j js) f (suc g) s (hj, hjs) w w' = rw append_assoc (
      items-step (read_value f) g (stringify j ++ (stringify_items js ++ s))
        (stringify_items js ++ s) s (value j) (values js)
        (read-stringify j f (stringify_items js ++ s) hj (items-Ends js s)
          (omega (arith, weight_items_pos js)))
        (read-items js f g s hjs (omega arith) (omega arith)))

  read-members :
      (ms : Members) (f g : ℕ) (s : Text)
      → MembersHaveTexts ms
      → weight_members ms ≤ f
      → weight_members ms ≤ g
      → read_fields (read_value f) g (stringify_members ms ++ s) ≡ some (fields ms, s)
  read-members ms f zero s h w w' = absurd (omega (arith, weight_members_pos ms))
  read-members done f (suc g) s h w w' = members-end (read_value f) g s
  read-members (member k j ms) f (suc g) s (hk, hj, hms) w w' =
      rw
        (
          append_assoc (quoted k) (b':' ∷ (stringify j ++ stringify_members ms)) s,
          append_assoc (stringify j) (stringify_members ms) s,
        )
        (fields-step (read_value f) g _ (stringify_members ms ++ s) s k (value j) (fields ms)
          (name-step (read_value f) k (stringify j ++ (stringify_members ms ++ s))
            (stringify_members ms ++ s) (value j) hk
            (read-stringify j f (stringify_members ms ++ s) hj (members-Ends ms s)
              (omega (arith, weight_members_pos ms))))
          (read-members ms f g s hms (omega arith) (omega arith)))

-- A text has a character for each unit of fuel.
mutual
  unfolding stringify

  weight-le : (j : Json) → weight j ≤ length (stringify j)
  weight-le (num n) = omega arith
  weight-le (str t) = omega arith
  weight-le (arr nil) = omega arith
  weight-le (arr (item j js)) =
      omega
        (arith, weight-le j, weight_items-le js, length-append (stringify j) (stringify_items js))
  weight-le (obj done) = omega arith
  weight-le (obj (member k j ms)) = omega (
    arith,
    weight-le j,
    weight_members-le ms,
    length-append (stringify j) (stringify_members ms),
    length-append (quoted k) (b':' ∷ (stringify j ++ stringify_members ms)),
  )

  weight_items-le : (js : Jsons) → weight_items js ≤ length (stringify_items js)
  weight_items-le nil = omega arith
  weight_items-le (item j js) =
      omega
        (arith, weight-le j, weight_items-le js, length-append (stringify j) (stringify_items js))

  weight_members-le : (ms : Members) → weight_members ms ≤ length (stringify_members ms)
  weight_members-le done = omega arith
  weight_members-le (member k j ms) = omega (
    arith,
    weight-le j,
    weight_members-le ms,
    length-append (stringify j) (stringify_members ms),
    length-append (quoted k) (b':' ∷ (stringify j ++ stringify_members ms)),
  )

-- Parsing the text of a value whose texts are 16-bit code units returns the value.
pub parse-stringify : (j : Json) → HasTexts j → parse (stringify j) ≡ some (value j)
unfolding parse
parse-stringify j h =
    let read = read-stringify j (suc (length (stringify j))) [] h tt (omega (arith, weight-le j)) in
    ap at_end (rw append-nil at read)
