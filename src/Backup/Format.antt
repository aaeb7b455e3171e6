-- ===== src/Backup/Format.antt =====
-- internal/backup/format.go: the versioned envelope of a backup.
pub mod Opened
pub mod Sealed
mod Tests
use mini_dock.Prelude.{
  ℕ, zero, suc, ◌+◌, ◌*◌, ◌/◌, ◌%◌, Bool, true, false, not, ◌&&◌, ◌||◌, List, [], ◌∷◌, ◌++◌, ltb,
  ◌==◌, if◌then◌else◌, length, take, drop, Result, ok, err, invalid_argument,
}
use mini_dock.Backup.Cipher.{
  Gcm, Outcome, fails, gcm_parameters, encrypt_with_aad, decrypt_with_aad,
}

abbrev pub magic : List ℕ
magic = 77 ∷ 68 ∷ 66 ∷ 75 ∷ []

-- Version and headerSize
abbrev pub version : ℕ
version = 1

abbrev pub header_size : ℕ
header_size = 14

-- binary.BigEndian.PutUint64
abbrev pub put_uint64 : ℕ → List ℕ
put_uint64 n =
    n / 72057594037927936 % 256
    ∷ n / 281474976710656 % 256
    ∷ n / 1099511627776 % 256
    ∷ n / 4294967296 % 256
    ∷ n / 16777216 % 256
    ∷ n / 65536 % 256
    ∷ n / 256 % 256
    ∷ n % 256
    ∷ []

-- binary.BigEndian.Uint64, the first byte first.
abbrev pub uint64_from : ℕ → List ℕ → ℕ
uint64_from n [] = n
uint64_from n (b ∷ bs) = uint64_from (n * 256 + b) bs

abbrev pub uint64 : List ℕ → ℕ
uint64 bs = uint64_from 0 bs

-- encoded[i], which the guards keep within the slice.
abbrev pub byte_at : ℕ → List ℕ → ℕ
byte_at i [] = 0
byte_at zero (b ∷ bs) = b
byte_at (suc i) (b ∷ bs) = byte_at i bs

abbrev pub same_bytes : List ℕ → List ℕ → Bool
same_bytes [] [] = true
same_bytes (a ∷ as_) (b ∷ bs) = a == b && same_bytes as_ bs
same_bytes _ _ = false

abbrev pub header : ℕ → ℕ → List ℕ
header nonce_size ciphertext_len = magic ++ (version ∷ nonce_size % 256 ∷ put_uint64 ciphertext_len)

abbrev pub enveloped : List ℕ → Result (List ℕ × List ℕ) → Result (List ℕ)
enveloped head (ok (nonce, ciphertext)) = ok (head ++ (nonce ++ ciphertext))
enveloped head (err e) = err e

abbrev pub seal_sized : Gcm → List ℕ → List ℕ → List ℕ → Result (ℕ × ℕ) → Result (List ℕ)
seal_sized g nonce key database (err e) = err e
seal_sized g nonce key database (ok (nonce_size, overhead)) =
    if ltb 255 nonce_size
    then err invalid_argument
    else (let head = header nonce_size (length database + overhead) in
        enveloped head (encrypt_with_aad g nonce key database head))

-- Seal
unfoldable pub seal : Gcm → List ℕ → List ℕ → List ℕ → Result (List ℕ)
seal g nonce key database =
    if length database == 0
    then err invalid_argument
    else seal_sized g nonce key database (gcm_parameters g key)

-- The lengths of the header do not fit the encoding; the sum is one of 64 bits.
abbrev pub bad_lengths : List ℕ → ℕ → ℕ → Bool
bad_lengths encoded nonce_len ciphertext_len =
    nonce_len == 0
    || (ciphertext_len == 0
        || (ltb (length encoded) ciphertext_len
            || not (
                (header_size + nonce_len + ciphertext_len) % 18446744073709551616
                == length encoded)))

-- Open
unfoldable pub open_backup : Gcm → List ℕ → List ℕ → Outcome (List ℕ)
open_backup g key encoded =
    if ltb (length encoded) header_size || not (same_bytes (take 4 encoded) magic)
    then fails
    else if not (byte_at 4 encoded == version)
    then fails
    else (let nonce_len = byte_at 5 encoded in
        let rest = drop header_size encoded in
        if bad_lengths encoded nonce_len (uint64 (take 8 (drop 6 encoded)))
        then fails
        else decrypt_with_aad g key (take nonce_len rest) (drop nonce_len rest)
            (take header_size encoded))
