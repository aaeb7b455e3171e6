-- ===== src/Backup/Format/Opened.antt =====
-- internal/backup/format.go: Open, on what Seal makes and on other headers.
use mathlib.Core.Path.{ap₂}
use mini_dock.Prelude.{
  ℕ, ◌+◌, ◌%◌, ◌≡◌, sym, ◌∙◌, ◌<◌, ◌≤◌, refl, ltb, not, zero, suc, ◌≢◌, Bool-cases, inl, inr, ◌||◌,
  ◌==◌, ap, true, false, List, [], ◌∷◌, ◌++◌, arith, length, length-append, take, drop, take-append,
  drop-append, ok,
}
use mini_dock.Backup.Cipher.{Gcm, IsGcm, outcome_of, returns, panics, decrypt_with_aad}
use mini_dock.Backup.Format.{
  seal, open_backup, header, put_uint64, uint64, same_bytes, magic, byte_at, bad_lengths,
  header_size, version,
}

uint64-put_uint64 : (n : ℕ) → uint64 (put_uint64 n) ≡ n % 18446744073709551616
uint64-put_uint64 n = omega arith

-- What Open does once its guards are passed.
open-passed :
    (g : Gcm) (key encoded : List ℕ)
    → (ltb (length encoded) header_size || not (same_bytes (take 4 encoded) magic)) ≡ false
    → (byte_at 4 encoded == version) ≡ true
    → bad_lengths encoded (byte_at 5 encoded) (uint64 (take 8 (drop 6 encoded))) ≡ false
    → open_backup g key encoded
      ≡ decrypt_with_aad g key
          (take (byte_at 5 encoded) (drop header_size encoded))
          (drop (byte_at 5 encoded) (drop header_size encoded))
          (take header_size encoded)
unfolding open_backup
open-passed g key encoded a b c = rw (a, b, c) refl

decrypt-passed :
    (g : Gcm) (key nonce ciphertext aad : List ℕ)
    → g.key_fits key ≡ true
    → length nonce ≡ g.nonce_size
    → decrypt_with_aad g key nonce ciphertext aad ≡ outcome_of (g.open_ key nonce ciphertext aad)
decrypt-passed g key nonce ciphertext aad fits sized = ground arith

decrypt-panics :
    (g : Gcm) (key nonce ciphertext aad : List ℕ)
    → g.key_fits key ≡ true
    → length nonce ≢ g.nonce_size
    → decrypt_with_aad g key nonce ciphertext aad ≡ panics
decrypt-panics g key nonce ciphertext aad fits other = ground arith

pub length-take : (n : ℕ) (xs : List ℕ) → n ≤ length xs → length (take n xs) ≡ n
length-take zero xs h = refl
length-take (suc n) [] h = absurd (omega arith)
length-take (suc n) (x ∷ xs) h = omega (arith, length-take n xs)

module _ (g : Gcm) (key nonce : List ℕ) (fits : g.key_fits key ≡ true)
    (sized : length nonce ≡ g.nonce_size) where
  -- An envelope of a nonce and a ciphertext is read as these parts.
  open-parts :
      (ciphertext : List ℕ) (c : ℕ)
      → 0 < length nonce
      → length nonce < 256
      → c ≡ length ciphertext
      → 0 < c
      → c + 300 < 18446744073709551616
      → open_backup g key (header (length nonce) c ++ (nonce ++ ciphertext))
        ≡ outcome_of (g.open_ key nonce ciphertext (header (length nonce) c))
  open-parts ciphertext c some_nonce small len positive bound =
      let n : ℕ = length nonce in
      let all : length (nonce ++ ciphertext) ≡ n + c =
        omega (arith, length-append nonce ciphertext) in
      let byte : n % 256 ≡ n = omega arith in
      let word : uint64 (put_uint64 c) ≡ c = uint64-put_uint64 c ∙ omega arith in
      let fine : bad_lengths (header n c ++ (nonce ++ ciphertext)) (n % 256) (uint64 (put_uint64 c))
          ≡ false =
        rw (byte, word, all) (ground arith) in
      let front : take (n % 256) (nonce ++ ciphertext) ≡ nonce =
        rw byte (take-append nonce ciphertext) in
      let back : drop (n % 256) (nonce ++ ciphertext) ≡ ciphertext =
        rw byte (drop-append nonce ciphertext) in
      open-passed g key (header n c ++ (nonce ++ ciphertext)) (rw all (ground arith)) refl fine
      ∙ ap₂ (λ a b. decrypt_with_aad g key a b (header n c)) front back
      ∙ decrypt-passed g key nonce ciphertext (header n c) fits sized

-- What Seal returns.
seal-parts :
    (g : Gcm) (nonce key database : List ℕ) {encoded : List ℕ}
    → seal g nonce key database ≡ ok encoded
    → (g.key_fits key ≡ true)
      × (0 < length database)
      × (g.nonce_size < 256)
      × (encoded
          ≡ header g.nonce_size (length database + g.overhead)
            ++ (nonce
                ++ g.seal key nonce database (header g.nonce_size (length database + g.overhead))))
unfolding seal
seal-parts g nonce key database {encoded} h = elim (Bool-cases (length database == 0)) [
  | inl empty ↦ absurd (ground arith)
  | inr full ↦ elim (Bool-cases (g.key_fits key)) [
    | inr unfit ↦ absurd (ground arith)
    | inl fits ↦ elim (Bool-cases (ltb 255 g.nonce_size)) [
      | inl long ↦ absurd (ground arith)
      | inr short ↦ (fits, ground arith, ground arith, ground arith)
    ]
  ]
]

module _ (g : Gcm) (laws : IsGcm g) (key : List ℕ) where
  -- What Seal returns for a database of fewer than 2^63 bytes with its tag, under a nonce of GCM's
  -- size, Open returns as that database.
  pub open_backup-seal :
      (nonce database : List ℕ) {encoded : List ℕ}
      → length nonce ≡ g.nonce_size
      → length database + g.overhead < 9223372036854775808
      → seal g nonce key database ≡ ok encoded
      → open_backup g key encoded ≡ returns database
  open_backup-seal nonce database {encoded} sized bound h =
      let (fits, full, small, shape) = seal-parts g nonce key database h in
      let aad : List ℕ = header (length nonce) (length database + g.overhead) in
      let ciphertext : List ℕ = g.seal key nonce database aad in
      let same : encoded
          ≡ header (length nonce) (length database + g.overhead) ++ (nonce ++ ciphertext) =
        rw sized shape in
      rw same (
        open-parts g key nonce fits sized ciphertext (length database + g.overhead)
          (omega (arith, laws.some_nonce)) (omega arith)
          (sym (laws.length_seal key nonce database aad)) (omega (arith, laws.some_overhead))
          (omega arith))
      ∙ ap outcome_of (laws.open-seal key nonce database aad)

-- An encoding whose header is well-formed, and whose lengths add up, but whose nonce has not GCM's
-- length, makes Open panic.
pub open_backup-panics :
    (g : Gcm) (key rest : List ℕ) (n c : ℕ)
    → g.key_fits key ≡ true
    → 0 < n
    → n < 256
    → n ≢ g.nonce_size
    → 0 < c
    → c < 9223372036854775808
    → length rest ≡ n + c
    → open_backup g key (header n c ++ rest) ≡ panics
open_backup-panics g key rest n c fits some_nonce small other positive bound all =
    let byte : n % 256 ≡ n = omega arith in
    let word : uint64 (put_uint64 c) ≡ c = uint64-put_uint64 c ∙ omega arith in
    let fine : bad_lengths (header n c ++ rest) (n % 256) (uint64 (put_uint64 c)) ≡ false =
      rw (byte, word, all) (ground arith) in
    let wrong : length (take (n % 256) rest) ≢ g.nonce_size =
      rw (byte) (λ e. other (sym (length-take n rest (omega arith)) ∙ e)) in
    open-passed g key (header n c ++ rest) (rw all (ground arith)) refl fine
    ∙ decrypt-panics g key (take (n % 256) rest) (drop (n % 256) rest) (header n c) fits wrong
