-- ===== src/Backup/Cipher.antt =====
-- internal/security/crypto.go: encryption with AES-GCM, which is an interface here. Bytes are
-- numbers.
use mini_dock.Prelude.{
  ℕ, ◌+◌, ◌≡◌, ◌<◌, Bool, Option, none, some, List, length, ◌==◌, if◌then◌else◌, Result, ok, err,
  invalid_argument,
}

-- crypto/aes and crypto/cipher: whether a key has one of the lengths that AES takes, the sizes of
-- GCM, and its two functions, on a key, a nonce, a text and additional data.
pub record Gcm : Type 0 where
  pub key_fits : List ℕ → Bool
  pub nonce_size : ℕ
  pub overhead : ℕ
  pub seal : List ℕ → List ℕ → List ℕ → List ℕ → List ℕ
  pub open_ : List ℕ → List ℕ → List ℕ → List ℕ → Option (List ℕ)

-- What the documentation of GCM says: the sizes, that what was sealed opens under the same nonce
-- and data, and that nothing else opens.
pub record IsGcm (g : Gcm) : Type 0 where
  pub some_nonce : 0 < g.nonce_size
  pub some_overhead : 0 < g.overhead
  pub length_seal :
      (key nonce text aad : List ℕ) → length (g.seal key nonce text aad) ≡ length text + g.overhead
  pub open-seal :
      (key nonce text aad : List ℕ) → g.open_ key nonce (g.seal key nonce text aad) aad ≡ some text
  pub open_sound :
      (key nonce sealed aad : List ℕ) {text : List ℕ}
      → g.open_ key nonce sealed aad ≡ some text
      → sealed ≡ g.seal key nonce text aad

-- A call of Go that may also panic: gcm.Open does on a nonce of the wrong length.
pub data Outcome (A : Type 0) : Type 0 where
  returns : A → Outcome A
  fails : Outcome A
  panics : Outcome A

-- GCMParameters
abbrev pub gcm_parameters : Gcm → List ℕ → Result (ℕ × ℕ)
gcm_parameters g key =
    if g.key_fits key then ok (g.nonce_size, g.overhead) else err invalid_argument

-- EncryptWithAAD; `nonce` is what the random source gives, of the size of a nonce.
abbrev pub encrypt_with_aad : Gcm → List ℕ → List ℕ → List ℕ → List ℕ → Result (List ℕ × List ℕ)
encrypt_with_aad g nonce key plaintext additional_data =
    if g.key_fits key
    then ok (nonce, g.seal key nonce plaintext additional_data)
    else err invalid_argument

abbrev pub outcome_of : Option (List ℕ) → Outcome (List ℕ)
outcome_of none = fails
outcome_of (some text) = returns text

-- DecryptWithAAD
abbrev pub decrypt_with_aad : Gcm → List ℕ → List ℕ → List ℕ → List ℕ → Outcome (List ℕ)
decrypt_with_aad g key nonce ciphertext additional_data =
    if g.key_fits key
    then (if length nonce == g.nonce_size
        then outcome_of (g.open_ key nonce ciphertext additional_data)
        else panics)
    else fails
