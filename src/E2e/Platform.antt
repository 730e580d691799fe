-- ===== src/E2e/Platform.antt =====
-- What the browser provides and this repository does not implement: AES-GCM, the key derivations
-- and the digest of WebCrypto, the UTF-8 coders, and JavaScript's conversions of texts, arrays and
-- objects to numbers and texts.
use k_quickshare.Base.{false, ◌≤◌, ℕ, ◌+◌, ◌≡◌, Bool, true, Option, some, length, Bytes, Result, ok}
use k_quickshare.Json.{Text, Value}
use k_quickshare.Json.Write.{is_well_formed, has_mark}

-- AES-GCM with a 12-byte nonce and a 16-byte tag. Decryption accepts exactly what encryption yields
-- under the same key, nonce and additional data.
pub record Aead : Type 1 where
  pub Key : Type 0
  pub import_key : Bytes → Result Key
  pub encrypt : Key → Bytes → Bytes → Bytes → Bytes
  pub decrypt : Key → Bytes → Bytes → Bytes → Option Bytes
  pub import_32 : (raw : Bytes) → length raw ≡ 32 → (k : Key) × (import_key raw ≡ ok k)
  pub decrypt_encrypt :
      (k : Key) (iv aad p : Bytes) → decrypt k iv aad (encrypt k iv aad p) ≡ some p
  pub encrypt_decrypt :
      (k : Key) (iv aad c p : Bytes) → decrypt k iv aad c ≡ some p → encrypt k iv aad p ≡ c
  pub length_encrypt : (k : Key) (iv aad p : Bytes) → length (encrypt k iv aad p) ≡ length p + 16

-- HKDF-SHA256 to 32 bytes (material, salt, info), PBKDF2-SHA256 to 32 bytes (password, salt,
-- iterations) and SHA-256.
pub record Kdf : Type 0 where
  pub hkdf : Bytes → Bytes → Bytes → Bytes
  pub pbkdf2 : Bytes → Bytes → ℕ → Bytes
  pub sha256 : Bytes → Bytes
  pub length_hkdf : (m s i : Bytes) → length (hkdf m s i) ≡ 32

-- The X-Wing KEM of web/static/mlkem.js, which is vendored: the public key of a seed, encapsulation
-- from the coins that it draws, and decapsulation.
pub record Kem : Type 0 where
  pub public_key : Bytes → Bytes
  pub encapsulate : Bytes → Bytes → Result (Bytes × Bytes)
  pub decapsulate : Bytes → Bytes → Result Bytes
  pub decapsulate_encapsulate :
      (seed coins ct ss : Bytes)
      → encapsulate coins (public_key seed) ≡ ok (ct, ss)
      → decapsulate ct seed ≡ ok ss

-- `TextEncoder` and `TextDecoder`. A code unit takes at least one byte, and a surrogate pair four.
-- A byte order mark at the front is not decoded.
pub record Utf8 : Type 0 where
  pub encode : Text → Bytes
  pub decode : Bytes → Text
  pub length_encode : (t : Text) → length t ≤ length (encode t)
  pub decode_encode :
      (t : Text) → is_well_formed t ≡ true → has_mark t ≡ false → decode (encode t) ≡ t

-- What a comparison makes of a value.
pub data JsNumber : Type 0 where
  nan : JsNumber
  whole : ℕ → JsNumber
  part : Bool → ℕ → ℕ → JsNumber

pub record Coercion : Type 0 where
  pub to_number : Value → JsNumber
  pub to_text : Value → Text
