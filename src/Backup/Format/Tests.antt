-- ===== src/Backup/Format/Tests.antt =====
-- A backup under a toy cipher, which prepends the tag 9 to the text and takes every key.
use mini_dock.Prelude.{
  ℕ, ◌≡◌, refl, true, Option, none, some, List, [], ◌∷◌, ◌++◌, arith, ◌==◌, if◌then◌else◌, ok,
}
use mini_dock.Backup.Cipher.{Gcm, IsGcm, returns, panics}
use mini_dock.Backup.Format.{seal, open_backup, header}
use mini_dock.Backup.Format.Sealed.{seal-open_backup}
use mini_dock.Backup.Format.Opened.{open_backup-seal, open_backup-panics}

abbrev opened : List ℕ → Option (List ℕ)
opened [] = none
opened (tag ∷ text) = if tag == 9 then some text else none

abbrev toy : Gcm
toy = record {
  key_fits = λ key. true;
  nonce_size = 2;
  overhead = 1;
  seal = λ key nonce text aad. 9 ∷ text;
  open_ = λ key nonce sealed aad. opened sealed;
}

opened_sound : (sealed : List ℕ) {text : List ℕ} → opened sealed ≡ some text → sealed ≡ 9 ∷ text
opened_sound [] h = absurd (ground arith)
opened_sound (tag ∷ rest) {text} h = ground arith

toy-IsGcm : IsGcm toy
toy-IsGcm = record {
  some_nonce = omega arith;
  some_overhead = omega arith;
  length_seal = λ key nonce text aad. omega arith;
  open-seal = λ key nonce text aad. refl;
  open_sound = λ key nonce sealed aad h. opened_sound sealed h;
}

sealed_example : seal toy (5 ∷ 6 ∷ []) [] (1 ∷ 2 ∷ []) ≡ ok (header 2 3 ++ (5 ∷ 6 ∷ 9 ∷ 1 ∷ 2 ∷ []))
unfolding seal
sealed_example = refl

open_backup-seal_example :
    open_backup toy [] (header 2 3 ++ (5 ∷ 6 ∷ 9 ∷ 1 ∷ 2 ∷ [])) ≡ returns (1 ∷ 2 ∷ [])
open_backup-seal_example =
    open_backup-seal toy toy-IsGcm [] (5 ∷ 6 ∷ []) (1 ∷ 2 ∷ []) refl (omega arith) sealed_example

open_backup-panics_example : open_backup toy [] (header 1 3 ++ (5 ∷ 9 ∷ 1 ∷ 2 ∷ [])) ≡ panics
open_backup-panics_example =
    open_backup-panics toy [] (5 ∷ 9 ∷ 1 ∷ 2 ∷ []) 1 3 refl (omega arith) (omega arith)
      (λ e. omega arith) (omega arith) (omega arith) refl

seal-open_backup_example :
    seal toy (5 ∷ 6 ∷ []) [] (1 ∷ 2 ∷ []) ≡ ok (header 2 3 ++ (5 ∷ 6 ∷ 9 ∷ 1 ∷ 2 ∷ []))
seal-open_backup_example =
    seal-open_backup toy toy-IsGcm [] (header 2 3 ++ (5 ∷ 6 ∷ 9 ∷ 1 ∷ 2 ∷ [])) (ground arith)
      (omega arith) open_backup-seal_example (omega arith)
