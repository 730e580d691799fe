-- ===== src/Json/Read.antt =====
-- `JSON.parse`. White space may stand between tokens; texts and numbers follow the JSON grammar.
use k_quickshare.Base.{
  ℕ, zero, suc, ◌+◌, ◌-◌, ◌*◌, ◌/◌, ◌%◌, ◌^◌, [], ◌∷◌, Bool, true, false, not, ◌&&◌, ◌||◌, Option,
  none, some, if◌then◌else◌, ltb, leb, ◌==◌, length,
}
use k_quickshare.Json.{Text, Value, Values, Fields}
use k_quickshare.Json.Write.{backslash}

infixl 5 ◌>>=◌
abbrev pub ◌>>=◌ {ℓ κ} : {A : Type ℓ} {B : Type κ} → Option A → (A → Option B) → Option B
none >>= f = none
some a >>= f = f a

-- A part that was read, and the text that follows it.
abbrev pub Parsed : Type 0 → Type 0
Parsed A = Option (A × Text)

unfoldable pub skip_space : Text → Text
skip_space [] = []
skip_space (c ∷ s) =
    let rest = skip_space s in if c == 32 || c == 9 || c == 10 || c == 13 then rest else c ∷ s

-- The reader of a text after its opening quote: in plain text, after a backslash, or after `\u` and
-- some of its four digits.
pub data Mode : Type 0 where
  plain : Mode
  escape : Mode
  unit : ℕ → ℕ → Mode

pub data Move : Type 0 where
  close : Move
  fail : Move
  emit : ℕ → Move
  go : Mode → Move

unfoldable pub hex_value : ℕ → Option ℕ
hex_value c =
    if leb b'0' c && leb c b'9'
    then some (c - b'0')
    else if leb b'a' c && leb c b'f'
    then some (c - 87)
    else if leb b'A' c && leb c b'F'
    then some (c - 55)
    else none

unfoldable pub escaped : ℕ → Move
escaped c =
    if c == b'"' || c == backslash || c == b'/'
    then emit c
    else if c == b'b'
    then emit 8
    else if c == b't'
    then emit 9
    else if c == b'n'
    then emit 10
    else if c == b'f'
    then emit 12
    else if c == b'r'
    then emit 13
    else if c == b'u'
    then go (unit 4 0)
    else fail

unfoldable pub hex_move : ℕ → ℕ → Option ℕ → Move
hex_move left acc none = fail
hex_move left acc (some d) =
    if left == 1 then emit (acc * 16 + d) else go (unit (left - 1) (acc * 16 + d))

unfoldable pub next : Mode → ℕ → Move
unfolding escaped hex_value hex_move
next plain c =
    if c == b'"'
    then close
    else if c == backslash
    then go escape
    else if ltb c 32
    then fail
    else emit c
next escape c = escaped c
next (unit left acc) c = hex_move left acc (hex_value c)

abbrev pub cons_to : ℕ → Parsed Text → Parsed Text
cons_to c none = none
cons_to c (some (t, r)) = some (c ∷ t, r)

unfoldable pub scan : Mode → Text → Parsed Text
scan m [] = none
scan m (c ∷ s) = elim (next m c) [
  | close ↦ some ([], s)
  | fail ↦ none
  | emit u ↦ cons_to u (scan plain s)
  | go m' ↦ scan m' s
]

abbrev pub is_digit : ℕ → Bool
is_digit c = leb b'0' c && leb c b'9'

-- The run of digits at the front, as a number with what was read before it, their count, and the
-- rest.
unfoldable pub digits : ℕ → ℕ → Text → ℕ × ℕ × Text
digits acc count [] = (acc, count, [])
digits acc count (c ∷ s) =
    let more = digits (acc * 10 + (c - b'0')) (count + 1) s in
    if is_digit c then more else (acc, count, c ∷ s)

-- The number ± n / d; the program does not tell -0 from 0.
unfoldable pub number_of : Bool → ℕ → ℕ → Value
number_of neg n d =
    if n == 0
    then Value.num 0
    else if not neg && n % d == 0
    then Value.num (n / d)
    else Value.fraction neg n d

-- The exponent behind `e` or `E`: the digits, which may not be missing, scale the fraction.
unfoldable pub exponent : Bool → Bool → ℕ → ℕ → Text → Parsed Value
unfolding digits number_of
exponent neg down n d s =
    let (e, count, r) = digits 0 0 s in
    if count == 0
    then none
    else if down
    then some (number_of neg n (d * 10 ^ e), r)
    else some (number_of neg (n * 10 ^ e) d, r)

unfoldable pub signed_exponent : Bool → ℕ → ℕ → Text → Parsed Value
unfolding exponent
signed_exponent neg n d [] = none
signed_exponent neg n d (c ∷ s) =
    if c == b'-'
    then exponent neg true n d s
    else if c == b'+'
    then exponent neg false n d s
    else exponent neg false n d (c ∷ s)

unfoldable pub after_fraction : Bool → ℕ → ℕ → Text → Parsed Value
unfolding signed_exponent
after_fraction neg n d [] = some (number_of neg n d, [])
after_fraction neg n d (c ∷ s) =
    if c == b'e' || c == b'E' then signed_exponent neg n d s else some (number_of neg n d, c ∷ s)

unfoldable pub fraction_part : Bool → ℕ → Text → Parsed Value
unfolding after_fraction digits
fraction_part neg n s =
    let (f, count, r) = digits n 0 s in
    if count == 0 then none else after_fraction neg f (10 ^ count) r

unfoldable pub after_whole : Bool → ℕ → Text → Parsed Value
unfolding fraction_part
after_whole neg n [] = after_fraction neg n 1 []
after_whole neg n (c ∷ s) =
    if c == b'.' then fraction_part neg n s else after_fraction neg n 1 (c ∷ s)

-- The whole part: a single 0, or digits that do not begin with 0.
unfoldable pub unsigned : Bool → Text → Parsed Value
unfolding digits after_whole
unsigned neg [] = none
unsigned neg (c ∷ s) =
    let (n, count, r) = digits 0 0 (c ∷ s) in
    if count == 0 || (c == b'0' && ltb 1 count) then none else after_whole neg n r

-- The letters of `true`, `false` and `null`.
unfoldable pub expect : Text → Value → Text → Parsed Value
expect [] v s = some (v, s)
expect (w ∷ ws) v [] = none
expect (w ∷ ws) v (c ∷ s) = if c == w then expect ws v s else none

-- The readers of an array's and an object's contents take the reader of a value; fuel counts their
-- items. Each looks at the first character that is no space.
unfoldable pub read_items : (Text → Parsed Value) → ℕ → Text → Parsed Values
read_items pv zero s = none
read_items pv (suc f) s = elim (skip_space s) [
  | [] ↦ none
  | c ∷ r ↦ elim (c == b',') [
    | true ↦ pv r >>= λ (v, s1). read_items pv f s1 >>= λ (vs, s2). some (Values.item v vs, s2)
    | false ↦ if c == b']' then some (Values.nil, r) else none
  ]
]

abbrev pub colon_value : (Text → Parsed Value) → Text → Text → Parsed (Text × Value)
colon_value pv k [] = none
colon_value pv k (c ∷ r) = if c == b':' then (pv r >>= λ (v, s). some ((k, v), s)) else none

-- A name, a colon and a value.
unfoldable pub read_name : (Text → Parsed Value) → Text → Parsed (Text × Value)
read_name pv [] = none
read_name pv (c ∷ r) =
    if c == b'"' then (scan plain r >>= λ (k, s1). colon_value pv k (skip_space s1)) else none

unfoldable pub read_field : (Text → Parsed Value) → Text → Parsed (Text × Value)
unfolding read_name
read_field pv s = read_name pv (skip_space s)

unfoldable pub read_fields : (Text → Parsed Value) → ℕ → Text → Parsed Fields
read_fields pv zero s = none
read_fields pv (suc f) s = elim (skip_space s) [
  | [] ↦ none
  | c ∷ r ↦ elim (c == b',') [
    | true ↦ read_field pv r >>= λ (kv, s1).
        read_fields pv f s1 >>= λ (fs, s2). some (Fields.field kv.0 kv.1 fs, s2)
    | false ↦ if c == b'}' then some (Fields.done, r) else none
  ]
]

-- What follows `[` and `{`: an empty array or object closes at once.
unfoldable pub read_array : (Text → Parsed Value) → ℕ → Text → Parsed Value
read_array pv f [] = none
read_array pv f (c ∷ r) =
    if c == b']'
    then some (Value.arr Values.nil, r)
    else (pv (c ∷ r) >>= λ (v, s1).
        read_items pv f s1 >>= λ (vs, s2). some (Value.arr (Values.item v vs), s2))

unfoldable pub read_object : (Text → Parsed Value) → ℕ → Text → Parsed Value
read_object pv f [] = none
read_object pv f (c ∷ r) =
    if c == b'}'
    then some (Value.obj Fields.done, r)
    else (read_field pv (c ∷ r) >>= λ (kv, s1).
        read_fields pv f s1 >>= λ (fs, s2). some (Value.obj (Fields.field kv.0 kv.1 fs), s2))

abbrev pub text_value : Parsed Text → Parsed Value
text_value none = none
text_value (some (t, s)) = some (Value.str t, s)

-- The first character says what kind of value follows.
unfoldable pub read_first : (Text → Parsed Value) → ℕ → Text → Parsed Value
read_first pv f [] = none
read_first pv f (c ∷ r) =
    if c == b'"'
    then text_value (scan plain r)
    else if c == b'['
    then read_array pv f (skip_space r)
    else if c == b'{'
    then read_object pv f (skip_space r)
    else if c == b't'
    then expect (b'r' ∷ b'u' ∷ b'e' ∷ []) (Value.bool true) r
    else if c == b'f'
    then expect (b'a' ∷ b'l' ∷ b's' ∷ b'e' ∷ []) (Value.bool false) r
    else if c == b'n'
    then expect (b'u' ∷ b'l' ∷ b'l' ∷ []) Value.null r
    else if c == b'-'
    then unsigned true r
    else unsigned false (c ∷ r)

unfoldable pub read_value : ℕ → Text → Parsed Value
read_value zero s = none
read_value (suc f) s = read_first (read_value f) f (skip_space s)

abbrev pub at_end : Parsed Value → Option Value
at_end none = none
at_end (some (v, r)) = elim (skip_space r) [ [] ↦ some v | c ∷ t ↦ none ]

-- `JSON.parse(s)`, `none` where it throws. Values nest, and lists have items, no deeper and no more
-- than the text has characters.
unfoldable pub parse : Text → Option Value
unfolding read_value read_first read_array read_object read_items read_fields read_field skip_space
parse s = at_end (read_value (suc (length s)) s)
