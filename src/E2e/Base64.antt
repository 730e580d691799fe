-- ===== src/E2e/Base64.antt =====
-- `b64uEncode` and `b64uDecode` of web/static/e2e.js, over the browser's `btoa` and `atob`, which
-- stand here as the HTML standard defines them. A text is the list of its code units.
pub mod RoundTrip
use k_quickshare.Base.{
  ℕ, ◌+◌, ◌-◌, ◌*◌, ◌/◌, ◌%◌, List, [], ◌∷◌, map, Option, none, some, Bool, ◌||◌, ◌&&◌, length,
  if◌then◌else◌, ltb, leb, ◌==◌, Bytes, Result, ok, err, ◌>>=◌, invalid_character,
}

-- The alphabet: A-Z, a-z, 0-9, + and /.
unfoldable pub b64_char : ℕ → ℕ
b64_char v =
    if ltb v 26
    then v + 65
    else if ltb v 52
    then v + 71
    else if ltb v 62
    then v - 4
    else if v == 62
    then b'+'
    else b'/'

unfoldable pub b64_value : ℕ → Option ℕ
b64_value c =
    if leb b'A' c && leb c b'Z'
    then some (c - 65)
    else if leb b'a' c && leb c b'z'
    then some (c - 71)
    else if leb b'0' c && leb c b'9'
    then some (c + 4)
    else if c == b'+'
    then some 62
    else if c == b'/'
    then some 63
    else none

unfoldable pub btoa : Bytes → List ℕ
unfolding b64_char
btoa [] = []
btoa (a ∷ []) = b64_char (a / 4) ∷ b64_char (a % 4 * 16) ∷ b'=' ∷ b'=' ∷ []
btoa (a ∷ b ∷ []) =
    b64_char (a / 4) ∷ b64_char (a % 4 * 16 + b / 16) ∷ b64_char (b % 16 * 4) ∷ b'=' ∷ []
btoa (a ∷ b ∷ c ∷ r) =
    b64_char (a / 4)
    ∷ b64_char (a % 4 * 16 + b / 16)
    ∷ b64_char (b % 16 * 4 + c / 64)
    ∷ b64_char (c % 64)
    ∷ btoa r

-- `.replace(/x/g, y)` for one character
unfoldable pub replace_all : ℕ → ℕ → List ℕ → List ℕ
replace_all x y s = map (λ c. if c == x then y else c) s

-- `.replace(/=+$/, '')`: a run of `=` at the very end goes.
unfoldable pub end_cons : ℕ → List ℕ → List ℕ
end_cons c [] = if c == b'=' then [] else c ∷ []
end_cons c (x ∷ r) = c ∷ x ∷ r

unfoldable pub strip_end : List ℕ → List ℕ
unfolding end_cons
strip_end [] = []
strip_end (c ∷ s) = end_cons c (strip_end s)

unfoldable pub b64u_encode : Bytes → List ℕ
unfolding btoa replace_all strip_end
b64u_encode bytes = strip_end (replace_all b'/' b'_' (replace_all b'+' b'-' (btoa bytes)))

-- ASCII whitespace, which `atob` removes: tab, line feed, form feed, carriage return, space.
unfoldable pub is_space : ℕ → Bool
is_space c = c == 9 || c == 10 || c == 12 || c == 13 || c == 32

unfoldable pub without_space : List ℕ → List ℕ
unfolding is_space
without_space [] = []
without_space (c ∷ s) = let rest = without_space s in if is_space c then rest else c ∷ rest

-- One `=` off the end, if one stands there.
unfoldable pub drop_pad : List ℕ → List ℕ
drop_pad [] = []
drop_pad (c ∷ []) = if c == b'=' then [] else c ∷ []
drop_pad (c ∷ d ∷ s) = c ∷ drop_pad (d ∷ s)

-- A text of whole groups loses one or two `=` at its end; any other keeps its characters.
unfoldable pub unpadded : List ℕ → List ℕ
unfolding drop_pad
unpadded s =
    let t = drop_pad s in
    if length s % 4 == 0 then (if length t == length s then t else drop_pad t) else s

unfoldable pub b64_groups : List (Option ℕ) → Result Bytes
b64_groups [] = ok []
b64_groups (some u ∷ some v ∷ []) = ok ((u * 4 + v / 16) ∷ [])
b64_groups (some u ∷ some v ∷ some w ∷ []) = ok ((u * 4 + v / 16) ∷ (v % 16 * 16 + w / 4) ∷ [])
b64_groups (some u ∷ some v ∷ some w ∷ some x ∷ r) = do
  rest ← b64_groups r
  ok ((u * 4 + v / 16) ∷ (v % 16 * 16 + w / 4) ∷ (w % 4 * 64 + x) ∷ rest)
b64_groups _ = err invalid_character

unfoldable pub atob : List ℕ → Result Bytes
unfolding without_space unpadded b64_value b64_groups
atob s = b64_groups (map b64_value (unpadded (without_space s)))

unfoldable pub b64u_decode : List ℕ → Result Bytes
unfolding replace_all atob
b64u_decode str = atob (replace_all b'_' b'/' (replace_all b'-' b'+' str))
