-- ===== src/Tests/Instances.antt =====
-- Concrete functions with the laws of `Aead`, `Kdf`, `Kem` and `Utf8`, to run the code on.
use k_quickshare.E2e.Platform.{Aead, Kdf, Kem, Utf8, Coercion, JsNumber}
use k_quickshare.Base.{
  length-replicate, arith, ◌++◌, ◌∷◌, [], some, none, Option, ◌∙◌, ap, sym, refl, ◌≡◌, ◌%◌, ◌*◌,
  ◌+◌, suc, zero, ℕ, err, ok, operation_error, ok-injective, length-take, length-append, replicate,
  take, length, zeros, Bytes, ==_self, if◌then◌else◌, ◌==◌,
}

abbrev pub sum : Bytes → ℕ
sum [] = 0
sum (b ∷ bs) = b + sum bs

-- Takes `n` copies of `t` off the front.
abbrev pub strip : ℕ → ℕ → Bytes → Option Bytes
strip t zero c = some c
strip t (suc n) [] = none
strip t (suc n) (b ∷ c) = let rest = strip t n c in if b == t then rest else none

pub strip-replicate : (t n : ℕ) (p : Bytes) → strip t n (replicate n t ++ p) ≡ some p
strip-replicate t zero p = refl
strip-replicate t (suc n) p = rw (==_self t) (strip-replicate t n p)

pub replicate-strip : (t n : ℕ) (c p : Bytes) → strip t n c ≡ some p → replicate n t ++ p ≡ c
replicate-strip t zero c p e = cc
replicate-strip t (suc n) [] p e = cc
replicate-strip t (suc n) (b ∷ c) p e = ground (arith, replicate-strip t n c p)

-- The tag of a toy cipher: a byte of the key, the nonce and the additional data, 16 times.
abbrev pub tag : Bytes → Bytes → Bytes → ℕ
tag key iv aad = (sum key + 3 * sum iv + 5 * sum aad) % 256

abbrev pub toy : Aead
toy = record {
  Key = Bytes;
  import_key = λ raw. if length raw == 32 then ok raw else err operation_error;
  encrypt = λ key iv aad p. replicate 16 (tag key iv aad) ++ p;
  decrypt = λ key iv aad c. strip (tag key iv aad) 16 c;
  import_32 = λ raw h. (raw, rw (h) refl);
  decrypt_encrypt = λ key iv aad p. strip-replicate (tag key iv aad) 16 p;
  encrypt_decrypt = λ key iv aad c p e. replicate-strip (tag key iv aad) 16 c p e;
  length_encrypt = λ key iv aad p. omega arith;
}

abbrev pub plain : Utf8
plain = record {
  encode = λ t. t;
  decode = λ b. b;
  length_encode = λ t. omega arith;
  decode_encode = λ t h k. refl;
}

abbrev pub no_numbers : Coercion
no_numbers = record { to_number = λ v. JsNumber.nan; to_text = λ v. [] }

pub hkdf_length : (m s i : Bytes) → length (take 32 (i ++ (m ++ (s ++ zeros 32)))) ≡ 32
hkdf_length m s i = omega (
  arith,
  length-take 32 (i ++ (m ++ (s ++ zeros 32))),
  length-append i (m ++ (s ++ zeros 32)),
  length-append m (s ++ zeros 32),
  length-append s (zeros 32),
  length-replicate {A = ℕ} 32 0,
)

abbrev pub toy_kdf : Kdf
toy_kdf = record {
  hkdf = λ m s i. take 32 (i ++ (m ++ (s ++ zeros 32)));
  pbkdf2 = λ password salt n. password ++ salt;
  sha256 = λ b. b;
  length_hkdf = λ m s i. hkdf_length m s i;
}

abbrev pub toy_kem : Kem
toy_kem = record {
  public_key = λ seed. seed;
  encapsulate = λ coins pk. ok (coins, coins ++ pk);
  decapsulate = λ ct seed. ok (ct ++ seed);
  decapsulate_encapsulate = λ seed coins ct ss e.
      ap (λ r. ok (r.0 ++ seed)) (sym (ok-injective e)) ∙ ap (λ r. ok r.1) (ok-injective e);
}
