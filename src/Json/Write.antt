-- ===== src/Json/Write.antt =====
-- `JSON.stringify`, without white space.
use k_quickshare.Base.{
  false, not, true, ℕ, zero, suc, ◌+◌, ◌/◌, ◌%◌, [], ◌∷◌, ◌++◌, Bool, ◌&&◌, ◌||◌, if◌then◌else◌,
  ltb, leb, ◌==◌,
}
use k_quickshare.Json.{Text, Json, Jsons, Members, num, str, arr, obj, nil, item, done, member}

-- The decimal digits of a number; a number has at most as many digits as fuel below.
unfoldable pub decimal_loop : ℕ → ℕ → Text
decimal_loop zero n = []
decimal_loop (suc f) n =
    let more = decimal_loop f (n / 10) ++ (n % 10 + b'0') ∷ [] in
    if ltb n 10 then (n + b'0') ∷ [] else more

unfoldable pub decimal : ℕ → Text
unfolding decimal_loop
decimal n = decimal_loop (suc n) n

abbrev pub is_high : ℕ → Bool
is_high c = leb 0xd800 c && leb c 0xdbff

abbrev pub is_low : ℕ → Bool
is_low c = leb 0xdc00 c && leb c 0xdfff

-- A text that begins with a byte order mark.
abbrev pub has_mark : Text → Bool
has_mark [] = false
has_mark (c ∷ t) = c == 0xfeff

-- No half of a surrogate pair stands alone.
abbrev pub is_well_formed : Text → Bool
is_well_formed [] = true
is_well_formed (c ∷ []) = not (is_high c || is_low c)
is_well_formed (c ∷ d ∷ s) =
    let pair = is_well_formed s in
    let single = not (is_high c || is_low c) && is_well_formed (d ∷ s) in
    if is_high c && is_low d then pair else single

unfoldable pub hex_digit : ℕ → ℕ
hex_digit d = if ltb d 10 then d + b'0' else d + 87

unfoldable pub hex4 : ℕ → Text
unfolding hex_digit
hex4 c =
    hex_digit (c / 4096 % 16)
    ∷ hex_digit (c / 256 % 16)
    ∷ hex_digit (c / 16 % 16)
    ∷ hex_digit (c % 16)
    ∷ []

abbrev pub backslash : ℕ
backslash = 92

-- One code unit that is no half of a surrogate pair.
unfoldable pub quote_unit : ℕ → Text
unfolding hex4
quote_unit c =
    if c == 8
    then backslash ∷ b'b' ∷ []
    else if c == 9
    then backslash ∷ b't' ∷ []
    else if c == 10
    then backslash ∷ b'n' ∷ []
    else if c == 12
    then backslash ∷ b'f' ∷ []
    else if c == 13
    then backslash ∷ b'r' ∷ []
    else if c == b'"' || c == backslash
    then backslash ∷ c ∷ []
    else if ltb c 32 || is_high c || is_low c
    then backslash ∷ b'u' ∷ hex4 c
    else c ∷ []

-- The halves of a surrogate pair are written as they are, a lone half is escaped.
unfoldable pub quote_text : Text → Text
unfolding quote_unit
quote_text [] = []
quote_text (c ∷ []) = quote_unit c
quote_text (c ∷ d ∷ s) =
    let pair = c ∷ d ∷ quote_text s in
    let single = quote_unit c ++ quote_text (d ∷ s) in
    if is_high c && is_low d then pair else single

unfoldable pub quoted : Text → Text
unfolding quote_text
quoted s = b'"' ∷ (quote_text s ++ b'"' ∷ [])

unfoldable mutual
  unfolding decimal quoted

  pub stringify : Json → Text
  stringify (num n) = decimal n
  stringify (str s) = quoted s
  stringify (arr nil) = b'[' ∷ b']' ∷ []
  stringify (arr (item j js)) = b'[' ∷ (stringify j ++ stringify_items js)
  stringify (obj done) = b'{' ∷ b'}' ∷ []
  stringify (obj (member k j ms)) =
      b'{' ∷ (quoted k ++ b':' ∷ (stringify j ++ stringify_members ms))

  -- What follows the first item, and the first member.
  pub stringify_items : Jsons → Text
  stringify_items nil = b']' ∷ []
  stringify_items (item j js) = b',' ∷ (stringify j ++ stringify_items js)

  pub stringify_members : Members → Text
  stringify_members done = b'}' ∷ []
  stringify_members (member k j ms) =
      b',' ∷ (quoted k ++ b':' ∷ (stringify j ++ stringify_members ms))
