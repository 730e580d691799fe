-- ===== src/Base/Results.antt =====
-- Fallible code: what an `async` function resolves to, or the error that it rejects with.
use mathlib.Core.Path.{◌≡◌, refl}
use mathlib.Core.Logic.{◌⊎◌, inl, inr}
use mathlib.Core.Bool.{Bool, true, false}

-- The errors that the modelled files throw, each named for its message.
pub data Error : Type 0 where
  invalid_character operation_error syntax_error : Error
  malformed_wrapped_key malformed_drop_key malformed_note malformed_name malformed_roster : Error
  drop_key_length kem_unavailable : Error
  note_too_long name_too_long name_malformed name_empty : Error
  note_version name_version roster_version manifest_version : Error
  roster_batch roster_files : Error
  manifest_size chunk_size manifest_chunks manifest_required manifest_too_large : Error
  container_short not_container header_truncated : Error
  ciphertext_length plain_length metadata_mismatch type_error : Error
  aborted file_unreadable zip_too_large : Error
  drop_full drop_closed http_status network_error manifest_missing : Error

-- What a call comes back with.
pub data Result {ℓ} (Out : Type ℓ) : Type ℓ where
  err : Error → Result Out
  ok : Out → Result Out

-- `await`: the rest runs on the value, and an error is passed on.
infixl 5 ◌>>=◌
abbrev pub ◌>>=◌ {ℓ κ} : {In : Type ℓ} {Out : Type κ} → Result In → (In → Result Out) → Result Out
err e >>= next = err e
ok x >>= next = next x

-- `if (b) throw e;`
abbrev pub throw_if : Bool → Error → Result (Unit {0})
throw_if true e = err e
throw_if false e = ok tt

-- A statement and those after it.
infixl 5 ◌>>◌
abbrev pub ◌>>◌ {κ} : {Out : Type κ} → Result (Unit {0}) → Result Out → Result Out
first >> after = first >>= λ _. after

-- A call that returns has returned from its parts.
pub >>=-eq-ok {ℓ κ} :
    {In : Type ℓ} {Out : Type κ} (call : Result In) (next : In → Result Out) {y : Out}
    → (call >>= next) ≡ ok y
    → (x : In) × (call ≡ ok x) × (next x ≡ ok y)
>>=-eq-ok (err e) next same = cc
>>=-eq-ok (ok x) next same = (x, refl, same)

-- The check was passed.
pub passed {ℓ} :
    {B : Type ℓ} (b : Bool) (e : Error) (k : Result B) {r : B}
    → (throw_if b e >> k) ≡ ok r
    → (b ≡ false) × (k ≡ ok r)
passed true e k h = cc
passed false e k h = (refl, h)

pub Result-cases {ℓ} :
    {A : Type ℓ} (r : Result A) → ((a : A) × (r ≡ ok a)) ⊎ ((e : Error) × (r ≡ err e))
Result-cases (ok a) = inl (a, refl)
Result-cases (err e) = inr (e, refl)

pub ok-injective {ℓ} : {A : Type ℓ} {a b : A} → ok a ≡ ok b → a ≡ b
ok-injective e = cc
