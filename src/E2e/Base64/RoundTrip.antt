-- ===== src/E2e/Base64/RoundTrip.antt =====
-- The text form of a byte array: what its characters are, and that it is read back.
use k_quickshare.Base.{
  ℕ, ◌+◌, ◌*◌, ◌/◌, ◌%◌, ◌≤◌, ◌<◌, ◌≡◌, ◌≢◌, refl, ap, ap₂, ◌∙◌, length-map, List, [], ◌∷◌, map,
  some, false, ◌⊎◌, length, All, arith, if◌then◌else◌, ◌==◌, Bytes, AreBytes, ok, ceil_div,
}
use k_quickshare.E2e.Base64.{
  b64_char, b64_value, replace_all, end_cons, strip_end, b64u_encode, is_space, without_space,
  drop_pad, unpadded, b64_groups, atob, b64u_decode,
}

-- The numbers below 64 that the characters stand for.
abbrev pub sextets : Bytes → List ℕ
sextets [] = []
sextets (a ∷ []) = (a / 4) ∷ (a % 4 * 16) ∷ []
sextets (a ∷ b ∷ []) = (a / 4) ∷ (a % 4 * 16 + b / 16) ∷ (b % 16 * 4) ∷ []
sextets (a ∷ b ∷ c ∷ r) =
    (a / 4) ∷ (a % 4 * 16 + b / 16) ∷ (b % 16 * 4 + c / 64) ∷ (c % 64) ∷ sextets r

abbrev IsSextet : ℕ → Type 0
IsSextet v = v < 64

All-sextets : (bs : Bytes) → AreBytes bs → All IsSextet (sextets bs)
All-sextets [] h = tt
All-sextets (a ∷ []) h = omega arith
All-sextets (a ∷ b ∷ []) h = omega arith
All-sextets (a ∷ b ∷ c ∷ r) (ha, (hb, (hc, hr))) =
    (omega arith, (omega arith, (omega arith, (omega arith, All-sextets r hr))))

-- The URL form of one character.
url : ℕ → ℕ
url c = let d = if c == b'+' then b'-' else c in if d == b'/' then b'_' else d

-- Letters, digits, `-` and `_`: what needs no escape in a URL.
abbrev pub IsUrlChar : ℕ → Type 0
IsUrlChar c =
    ((b'A' ≤ c) × (c ≤ b'Z'))
    ⊎ ((b'a' ≤ c) × (c ≤ b'z'))
    ⊎ ((b'0' ≤ c) × (c ≤ b'9'))
    ⊎ (c ≡ b'-')
    ⊎ (c ≡ b'_')

url-IsUrlChar : (v : ℕ) → v < 64 → IsUrlChar (url (b64_char v))
unfolding url b64_char
url-IsUrlChar v h = ground arith

url-ne : (v : ℕ) → v < 64 → url (b64_char v) ≢ b'='
unfolding url b64_char
url-ne v h = ground arith

unurl : ℕ → ℕ
unurl c = let d = if c == b'-' then b'+' else c in if d == b'_' then b'/' else d

unurl-url : (v : ℕ) → v < 64 → unurl (url (b64_char v)) ≡ b64_char v
unfolding url unurl b64_char
unurl-url v h = ground arith

value-char : (v : ℕ) → v < 64 → b64_value (b64_char v) ≡ some v
unfolding b64_value b64_char
value-char v h = ground arith

space-char : (v : ℕ) → v < 64 → is_space (b64_char v) ≡ false
unfolding is_space b64_char
space-char v h = ground arith

char-ne : (v : ℕ) → v < 64 → b64_char v ≢ b'='
unfolding b64_char
char-ne v h = ground arith

end_cons_ne : (c : ℕ) (t : List ℕ) → c ≢ b'=' → end_cons c t ≡ c ∷ t
unfolding end_cons
end_cons_ne c [] h = ground arith
end_cons_ne c (x ∷ t) h = refl

-- What is left of a text whose first character is the URL form of a sextet.
abbrev url_text : List ℕ → List ℕ
url_text s = strip_end (replace_all b'/' b'_' (replace_all b'+' b'-' s))

url_text-char :
    (v : ℕ) (s : List ℕ) → v < 64 → url_text (b64_char v ∷ s) ≡ url (b64_char v) ∷ url_text s
unfolding replace_all strip_end url
url_text-char v s h = end_cons_ne _ _ (unfold url in url-ne v h)

abbrev text_of : List ℕ → List ℕ
text_of vs = map (λ v. url (b64_char v)) vs

b64u_encode-eq : (bs : Bytes) → AreBytes bs → b64u_encode bs ≡ text_of (sextets bs)
unfolding b64u_encode
b64u_encode-eq [] h = refl
b64u_encode-eq (a ∷ []) h =
    rw (url_text-char (a / 4) _ (omega arith), url_text-char (a % 4 * 16) _ (omega arith))
b64u_encode-eq (a ∷ b ∷ []) h = rw (
  url_text-char (a / 4) _ (omega arith),
  url_text-char (a % 4 * 16 + b / 16) _ (omega arith),
  url_text-char (b % 16 * 4) _ (omega arith),
)
b64u_encode-eq (a ∷ b ∷ c ∷ r) (ha, (hb, (hc, hr))) = rw (
  url_text-char (a / 4) _ (omega arith),
  url_text-char (a % 4 * 16 + b / 16) _ (omega arith),
  url_text-char (b % 16 * 4 + c / 64) _ (omega arith),
  url_text-char (c % 64) _ (omega arith),
  ← b64u_encode-eq r hr,
)

abbrev chars : List ℕ → List ℕ
chars vs = map b64_char vs

-- The decoder's replacements undo the encoder's.
unurl-text :
    (vs : List ℕ)
    → All IsSextet vs
    → replace_all b'_' b'/' (replace_all b'-' b'+' (text_of vs)) ≡ chars vs
unfolding replace_all
unurl-text [] h = refl
unurl-text (v ∷ vs) (hv, hs) =
    ap₂ (λ x xs. x ∷ xs) (unfold unurl in unurl-url v hv) (unurl-text vs hs)

without_space-chars : (vs : List ℕ) → All IsSextet vs → without_space (chars vs) ≡ chars vs
unfolding without_space
without_space-chars [] h = refl
without_space-chars (v ∷ vs) (hv, hs) = rw (space-char v hv, without_space-chars vs hs)

drop_pad-chars : (vs : List ℕ) → All IsSextet vs → drop_pad (chars vs) ≡ chars vs
unfolding drop_pad
drop_pad-chars [] h = refl
drop_pad-chars (v ∷ []) (hv, hs) = ground (arith, char-ne v hv)
drop_pad-chars (v ∷ w ∷ vs) (hv, hs) = ap (λ s. b64_char v ∷ s) (drop_pad-chars (w ∷ vs) hs)

unpadded-chars : (vs : List ℕ) → All IsSextet vs → unpadded (chars vs) ≡ chars vs
unfolding unpadded
unpadded-chars vs h = rw (drop_pad-chars vs h, drop_pad-chars vs h) (ground arith)

values-chars : (vs : List ℕ) → All IsSextet vs → map b64_value (chars vs) ≡ map some vs
values-chars [] h = refl
values-chars (v ∷ vs) (hv, hs) = ap₂ (λ x xs. x ∷ xs) (value-char v hv) (values-chars vs hs)

b64_groups-sextets : (bs : Bytes) → AreBytes bs → b64_groups (map some (sextets bs)) ≡ ok bs
unfolding b64_groups
b64_groups-sextets [] h = refl
b64_groups-sextets (a ∷ []) h = ground arith
b64_groups-sextets (a ∷ b ∷ []) h = ground arith
b64_groups-sextets (a ∷ b ∷ c ∷ r) (ha, (hb, (hc, hr))) =
    rw (b64_groups-sextets r hr) (ground arith)

-- Decoding the text of a byte array returns the array.
pub b64u_decode-b64u_encode : (bs : Bytes) → AreBytes bs → b64u_decode (b64u_encode bs) ≡ ok bs
unfolding b64u_decode
b64u_decode-b64u_encode bs h =
    let hs : All IsSextet (sextets bs) = All-sextets bs h in
    rw (b64u_encode-eq bs h, unurl-text (sextets bs) hs)
      (unfold atob in
        rw
          (
            without_space-chars (sextets bs) hs,
            unpadded-chars (sextets bs) hs,
            values-chars (sextets bs) hs,
          )
          (b64_groups-sextets bs h))

IsUrlChar-text : (vs : List ℕ) → All IsSextet vs → All IsUrlChar (text_of vs)
IsUrlChar-text [] h = tt
IsUrlChar-text (v ∷ vs) (hv, hs) = (url-IsUrlChar v hv, IsUrlChar-text vs hs)

length-sextets : (bs : Bytes) → length (sextets bs) ≡ ceil_div (4 * length bs) 3
length-sextets [] = refl
length-sextets (a ∷ []) = refl
length-sextets (a ∷ b ∷ []) = refl
length-sextets (a ∷ b ∷ c ∷ r) = omega (arith, length-sextets r)

-- The text of an array of bytes has only letters, digits, `-` and `_`, and four characters for
-- three bytes, rounded up.
pub b64u_encode_shape :
    (bs : Bytes)
    → AreBytes bs
    → All IsUrlChar (b64u_encode bs) × (length (b64u_encode bs) ≡ ceil_div (4 * length bs) 3)
b64u_encode_shape bs h =
    rw (b64u_encode-eq bs h)
      (IsUrlChar-text _ (All-sextets bs h), length-map _ (sextets bs) ∙ length-sextets bs)
