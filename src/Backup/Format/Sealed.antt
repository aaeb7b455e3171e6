-- ===== src/Backup/Format/Sealed.antt =====
-- internal/backup/format.go: Open and the one form of a header that it accepts.
use mathlib.Core.Path.{ap₂}
use mini_dock.Prelude.{
  ℕ, zero, suc, ◌+◌, ◌%◌, ◌≡◌, ◌<◌, ◌≤◌, refl, ap, sym, ◌∙◌, List, [], ◌∷◌, ◌++◌, arith, length,
  take, drop, All, ltb, not, ◌||◌, ◌==◌, true, false, Bool-cases, Option-cases, inl, inr, some, ok,
  length-append,
}
use mini_dock.Backup.Cipher.{Gcm, IsGcm, returns, fails, decrypt_with_aad}
use mini_dock.Backup.Format.{
  put_uint64, uint64, open_backup, seal, header, magic, version, header_size, same_bytes, byte_at,
  bad_lengths,
}
use mini_dock.Backup.Format.Opened.{length-take}

put_uint64-uint64 :
    (a b c d e f g h : ℕ)
    → a < 256
    → b < 256
    → c < 256
    → d < 256
    → e < 256
    → f < 256
    → g < 256
    → h < 256
    → put_uint64 (uint64 (a ∷ b ∷ c ∷ d ∷ e ∷ f ∷ g ∷ h ∷ [])) ≡ a ∷ b ∷ c ∷ d ∷ e ∷ f ∷ g ∷ h ∷ []
put_uint64-uint64 a b c d e f g h ha hb hc hd he hf hg hh = ground arith

decrypt-returns :
    (g : Gcm) (key nonce ciphertext aad : List ℕ) {text : List ℕ}
    → decrypt_with_aad g key nonce ciphertext aad ≡ returns text
    → (g.key_fits key ≡ true)
      × (length nonce ≡ g.nonce_size)
      × (g.open_ key nonce ciphertext aad ≡ some text)
decrypt-returns g key nonce ciphertext aad {text} h = elim (Bool-cases (g.key_fits key)) [
  | inr unfit ↦ absurd (ground arith)
  | inl fits ↦ elim (Bool-cases (length nonce == g.nonce_size)) [
    | inr other ↦ absurd (ground arith)
    | inl same ↦ elim (Option-cases (g.open_ key nonce ciphertext aad)) [
      | inl refused ↦ absurd (ground arith)
      | inr (found, e) ↦ (fits, ground arith, ground arith)
    ]
  ]
]

fails_never : {E : Type 0} {text : List ℕ} → fails ≡ returns text → E
fails_never {E} {text} h = absurd (ground arith)

open-returns :
    (g : Gcm) (key encoded : List ℕ) {text : List ℕ}
    → open_backup g key encoded ≡ returns text
    → ((ltb (length encoded) header_size || not (same_bytes (take 4 encoded) magic)) ≡ false)
      × ((byte_at 4 encoded == version) ≡ true)
      × (bad_lengths encoded (byte_at 5 encoded) (uint64 (take 8 (drop 6 encoded))) ≡ false)
      × (decrypt_with_aad g key
            (take (byte_at 5 encoded) (drop header_size encoded))
            (drop (byte_at 5 encoded) (drop header_size encoded))
            (take header_size encoded)
          ≡ returns text)
unfolding open_backup
open-returns g key encoded {text} h =
    elim (Bool-cases
      (ltb (length encoded) header_size || not (same_bytes (take 4 encoded) magic))) [
        | inl short ↦ absurd (ground arith)
        | inr long ↦ elim (Bool-cases (byte_at 4 encoded == version)) [
          | inr other ↦ absurd (ground arith)
          | inl current ↦
              elim (Bool-cases
                (bad_lengths encoded (byte_at 5 encoded) (uint64 (take 8 (drop 6 encoded))))) [
                  | inl bad ↦ fails_never (rw (long, current, bad) at h)
                  | inr good ↦ (long, current, good, rw (long, current, good) at h)
                ]
        ]
      ]

-- The bytes of a header, and what follows it.
data IsEnvelope : List ℕ → Type 0 where
  fields :
      (m0 m1 m2 m3 v n a b c d e f g h : ℕ) (rest : List ℕ)
      → IsEnvelope (m0 ∷ m1 ∷ m2 ∷ m3 ∷ v ∷ n ∷ a ∷ b ∷ c ∷ d ∷ e ∷ f ∷ g ∷ h ∷ rest)

envelope : (xs : List ℕ) → 14 ≤ length xs → IsEnvelope xs
envelope [] l = absurd (omega arith)
envelope (m0 ∷ []) l = absurd (omega arith)
envelope (m0 ∷ m1 ∷ []) l = absurd (omega arith)
envelope (m0 ∷ m1 ∷ m2 ∷ []) l = absurd (omega arith)
envelope (m0 ∷ m1 ∷ m2 ∷ m3 ∷ []) l = absurd (omega arith)
envelope (m0 ∷ m1 ∷ m2 ∷ m3 ∷ v ∷ []) l = absurd (omega arith)
envelope (m0 ∷ m1 ∷ m2 ∷ m3 ∷ v ∷ n ∷ []) l = absurd (omega arith)
envelope (m0 ∷ m1 ∷ m2 ∷ m3 ∷ v ∷ n ∷ a ∷ []) l = absurd (omega arith)
envelope (m0 ∷ m1 ∷ m2 ∷ m3 ∷ v ∷ n ∷ a ∷ b ∷ []) l = absurd (omega arith)
envelope (m0 ∷ m1 ∷ m2 ∷ m3 ∷ v ∷ n ∷ a ∷ b ∷ c ∷ []) l = absurd (omega arith)
envelope (m0 ∷ m1 ∷ m2 ∷ m3 ∷ v ∷ n ∷ a ∷ b ∷ c ∷ d ∷ []) l = absurd (omega arith)
envelope (m0 ∷ m1 ∷ m2 ∷ m3 ∷ v ∷ n ∷ a ∷ b ∷ c ∷ d ∷ e ∷ []) l = absurd (omega arith)
envelope (m0 ∷ m1 ∷ m2 ∷ m3 ∷ v ∷ n ∷ a ∷ b ∷ c ∷ d ∷ e ∷ f ∷ []) l = absurd (omega arith)
envelope (m0 ∷ m1 ∷ m2 ∷ m3 ∷ v ∷ n ∷ a ∷ b ∷ c ∷ d ∷ e ∷ f ∷ g ∷ []) l = absurd (omega arith)
envelope (m0 ∷ m1 ∷ m2 ∷ m3 ∷ v ∷ n ∷ a ∷ b ∷ c ∷ d ∷ e ∷ f ∷ g ∷ h ∷ rest) l =
    IsEnvelope.fields m0 m1 m2 m3 v n a b c d e f g h rest

-- The header that Seal writes for the lengths that Open reads is the one that it has read.
header-fields :
    (m0 m1 m2 m3 v n a b c d e f g h : ℕ) (rest : List ℕ)
    → All (λ x. x < 256) (m0 ∷ m1 ∷ m2 ∷ m3 ∷ v ∷ n ∷ a ∷ b ∷ c ∷ d ∷ e ∷ f ∷ g ∷ h ∷ rest)
    → same_bytes (m0 ∷ m1 ∷ m2 ∷ m3 ∷ []) magic ≡ true
    → (v == version) ≡ true
    → header n (uint64 (a ∷ b ∷ c ∷ d ∷ e ∷ f ∷ g ∷ h ∷ []))
      ≡ m0 ∷ m1 ∷ m2 ∷ m3 ∷ v ∷ n ∷ a ∷ b ∷ c ∷ d ∷ e ∷ f ∷ g ∷ h ∷ []
header-fields m0 m1 m2 m3 v n a b c d e f g h rest
      (_, (_, (_, (_, (_, (hn, (ha, (hb, (hc, (hd, (he, (hf, (hg, (hh, _)))))))))))))) same
      current =
    let word = put_uint64-uint64 a b c d e f g h ha hb hc hd he hf hg hh in
    let e0 : 77 ≡ m0 = ground arith in
    let e1 : 68 ≡ m1 = ground arith in
    let e2 : 66 ≡ m2 = ground arith in
    let e3 : 75 ≡ m3 = ground arith in
    let e4 : 1 ≡ v = ground arith in
    let e5 : n % 256 ≡ n = omega arith in
    ap (λ w. magic ++ (version ∷ n % 256 ∷ w)) word
    ∙ rw (sym e0, sym e1, sym e2, sym e3, sym e4, e5) refl

seal-ok :
    (g : Gcm) (nonce key database : List ℕ)
    → g.key_fits key ≡ true
    → 0 < length database
    → g.nonce_size < 256
    → seal g nonce key database
      ≡ ok (
          header g.nonce_size (length database + g.overhead)
          ++ (nonce
              ++ g.seal key nonce database (header g.nonce_size (length database + g.overhead))))
unfolding seal
seal-ok g nonce key database fits full small =
    let nonempty : (length database == 0) ≡ false = ground arith in
    let short : ltb 255 g.nonce_size ≡ false = ground arith in ground arith

take-drop : (n : ℕ) (xs : List ℕ) → take n xs ++ drop n xs ≡ xs
take-drop zero xs = refl
take-drop (suc n) [] = refl
take-drop (suc n) (x ∷ xs) = ap (◌∷◌ x) (take-drop n xs)

good-lengths :
    (encoded rest : List ℕ) (n c : ℕ)
    → length encoded ≡ 14 + length rest
    → length encoded < 9223372036854775808
    → n < 256
    → bad_lengths encoded n c ≡ false
    → length rest ≡ n + c
good-lengths encoded rest n c e bound small good = ground arith

module _ (g : Gcm) (laws : IsGcm g) (key : List ℕ) where
  sealed-fields :
      (encoded : List ℕ) {database : List ℕ}
      → IsEnvelope encoded
      → All (λ b. b < 256) encoded
      → length encoded < 9223372036854775808
      → open_backup g key encoded ≡ returns database
      → 0 < length database
      → seal g (take g.nonce_size (drop 14 encoded)) key database ≡ ok encoded
  sealed-fields _ {database} (IsEnvelope.fields m0 m1 m2 m3 v n a b c d e f k h rest) bytes bound
        opens full =
      let (long, current, good, opened) = open-returns g key _ opens in
      let small : n < 256 = bytes.1.1.1.1.1.0 in
      let len : ℕ = uint64 (a ∷ b ∷ c ∷ d ∷ e ∷ f ∷ k ∷ h ∷ []) in
      let aad : List ℕ = m0 ∷ m1 ∷ m2 ∷ m3 ∷ v ∷ n ∷ a ∷ b ∷ c ∷ d ∷ e ∷ f ∷ k ∷ h ∷ [] in
      let nonce : List ℕ = take n rest in
      let ciphertext : List ℕ = drop n rest in
      let (fits, sized, inner) = decrypt-returns g key nonce ciphertext aad opened in
      let all : length rest ≡ n + len =
        good-lengths (aad ++ rest) rest n len (omega arith) bound small good in
      let taken : length nonce ≡ n = length-take n rest (omega arith) in
      let size : g.nonce_size ≡ n = sym sized ∙ taken in
      let whole : nonce ++ ciphertext ≡ rest = take-drop n rest in
      let sound : ciphertext ≡ g.seal key nonce database aad =
        laws.open_sound key nonce ciphertext aad inner in
      let lens : length nonce + length ciphertext ≡ length rest =
        sym (length-append nonce ciphertext) ∙ ap (λ xs. length xs) whole in
      let tagged : length ciphertext ≡ length database + g.overhead =
        ap (λ xs. length xs) sound ∙ laws.length_seal key nonce database aad in
      let same_len : length database + g.overhead ≡ len = omega arith in
      let head : header n len ≡ aad =
        header-fields m0 m1 m2 m3 v n a b c d e f k h rest bytes (ground arith) current in
      let heads : header g.nonce_size (length database + g.overhead) ≡ aad =
        ap₂ (λ i j. header i j) size same_len ∙ head in
      ap (λ i. seal g (take i rest) key database) size
      ∙ seal-ok g nonce key database fits full (rw size small)
      ∙ ap (λ hd. ok (hd ++ (nonce ++ g.seal key nonce database hd))) heads
      ∙ ap (λ t. ok (aad ++ (nonce ++ t))) (sym sound)
      ∙ ap (λ t. ok (aad ++ t)) whole

  -- If Open returns a database that is not empty from bytes of fewer than 2^63, then these bytes
  -- are what Seal returns for that database under the nonce that they hold.
  pub seal-open_backup :
      (encoded : List ℕ) {database : List ℕ}
      → All (λ b. b < 256) encoded
      → length encoded < 9223372036854775808
      → open_backup g key encoded ≡ returns database
      → 0 < length database
      → seal g (take g.nonce_size (drop 14 encoded)) key database ≡ ok encoded
  seal-open_backup encoded {database} bytes bound opens full =
      let long = (open-returns g key encoded opens).0 in
      sealed-fields encoded (envelope encoded (ground arith)) bytes bound opens full
