-- ===== src/Store/Secrets/Exclusive.antt =====
-- internal/store/store.go: the names of secrets and of public configuration, over the calls that
-- save them.
use text.Mathlib.Text.{starts_with}
use text.Mathlib.TextPositions.{starts_with-append}
use mini_dock.Prelude.{
  ℕ, ◌≡◌, ◌<◌, ◌^◌, refl, String, true, false, inl, inr, List, [], ◌∷◌, All, any, arith, Bool-cases,
  ◌==◌, eq_iff, and-eq-true, if◌then◌else◌,
}
use mini_dock.Prelude.Rows.{delete_where}
use mini_dock.Store.Secrets.{
  Vault, Secret, ConfigurationRow, is_secret, is_configuration, put_configuration_row,
  application_secret_scope, valid_environment_and_target, put_secret, put_application_secret,
  delete_application_secret, record_secret_use, add_audit, put_application_configuration,
  delete_application_configuration,
}
use mini_dock.Store.Secrets.Scopes.{application_secret_scope_inj}
use mini_dock.Store.Secrets.Changes.{
  IsExclusive, any-delete_where, shrunk, secret_added, configuration_added, same_tables,
  secrets-add_audit, configuration-add_audit,
}

-- The calls that write these tables; `put_system` is PutSecret under a scope of the program's own.
pub data VaultCall : Type 0 where
  put_system : (scope name : String) (nonce ciphertext : List ℕ) → VaultCall
  save_secret :
      (application_id : ℕ) (environment target name : String) (nonce ciphertext : List ℕ)
      → VaultCall
  remove_secret : (application_id : ℕ) (environment target name : String) → VaultCall
  use_secrets : (application_id : ℕ) (environment target : String) (names : List String) → VaultCall
  save_configuration : (application_id : ℕ) (environment target name value : String) → VaultCall
  remove_configuration : (application_id : ℕ) (environment target name : String) → VaultCall

unfoldable pub vault_call : Vault → ℕ × VaultCall → Vault
vault_call v (now, put_system scope name nonce ciphertext) =
    put_secret now v scope name nonce ciphertext
vault_call v (now, save_secret i e t name nonce ciphertext) =
    (put_application_secret now v i e t name nonce ciphertext).0
vault_call v (now, remove_secret i e t name) = (delete_application_secret now v i e t name).0
vault_call v (now, use_secrets i e t names) = (record_secret_use now v i e t names).0
vault_call v (now, save_configuration i e t name value) =
    (put_application_configuration now v i e t name value).0
vault_call v (now, remove_configuration i e t name) =
    (delete_application_configuration v i e t name).0

abbrev pub vault_calls : Vault → List (ℕ × VaultCall) → Vault
vault_calls v [] = v
vault_calls v (c ∷ cs) = vault_calls (vault_call v c) cs

-- Ids are those of an int64, and a scope of the program's own is no application's.
abbrev pub IsOrdinary : ℕ × VaultCall → Type 0
IsOrdinary (now, put_system scope name nonce ciphertext) = starts_with scope "application:" ≡ false
IsOrdinary (now, save_secret i e t name nonce ciphertext) = i < 10 ^ 19
IsOrdinary (now, save_configuration i e t name value) = i < 10 ^ 19
IsOrdinary _ = Unit

put_system-IsExclusive :
    (now : ℕ) (v : Vault) (scope name : String) (nonce ciphertext : List ℕ)
    → starts_with scope "application:" ≡ false
    → IsExclusive v
    → IsExclusive (put_secret now v scope name nonce ciphertext)
put_system-IsExclusive now v scope name nonce ciphertext own x =
    let row : Secret = record {
      scope = scope;
      name = name;
      nonce = nonce;
      ciphertext = ciphertext;
      updated_at = now;
    } in
    secret_added v (put_secret now v scope name nonce ciphertext) row x refl refl
      λ i e t name' hi valid h.
        let same : scope ≡ application_secret_scope i e t =
          (eq_iff scope (application_secret_scope i e t)).0 (and-eq-true _ _ h).0 in
        let prefixed : starts_with scope "application:" ≡ true =
          rw same (starts_with-append "application:" _) in
        absurd (ground arith)

save_secret-IsExclusive :
    (now : ℕ) (v : Vault) (i : ℕ) (e t name : String) (nonce ciphertext : List ℕ)
    → i < 10 ^ 19
    → IsExclusive v
    → IsExclusive (put_application_secret now v i e t name nonce ciphertext).0
unfolding put_application_secret
save_secret-IsExclusive now v i e t name nonce ciphertext hi x =
    let scope : String = application_secret_scope i e t in
    let row : Secret = record {
      scope = scope;
      name = name;
      nonce = nonce;
      ciphertext = ciphertext;
      updated_at = now;
    } in
    let stored : Vault = put_secret now v scope name nonce ciphertext in
    let action : String = if any (is_secret scope name) v.secrets then "rotated" else "created" in
    elim (Bool-cases (valid_environment_and_target e t)) [
      | inr bad ↦ rw bad x
      | inl valid ↦ elim (Bool-cases (any (is_configuration i e t name) v.configuration)) [
        | inl taken ↦ rw (valid, taken) x
        | inr free ↦
            rw (valid, free)
              (same_tables stored (add_audit now stored i e t name action).0
                (secret_added v stored row x refl refl λ i' e' t' name' hi' valid' h.
                  let same : scope ≡ application_secret_scope i' e' t' =
                    (eq_iff scope (application_secret_scope i' e' t')).0 (and-eq-true _ _ h).0 in
                  let named : name ≡ name' = (eq_iff name name').0 (and-eq-true _ _ h).1 in
                  let (ei, ee, et) =
                    application_secret_scope_inj i i' e e' t t' hi hi' valid valid' same in
                  rw (← ei, ← ee, ← et, ← named) free)
                (secrets-add_audit now stored i e t name action)
                (configuration-add_audit now stored i e t name action))
      ]
    ]

remove_secret-IsExclusive :
    (now : ℕ) (v : Vault) (i : ℕ) (e t name : String)
    → IsExclusive v
    → IsExclusive (delete_application_secret now v i e t name).0
unfolding delete_application_secret
remove_secret-IsExclusive now v i e t name x =
    let hit = is_secret (application_secret_scope i e t) name in
    let rest : Vault = record v { secrets = delete_where hit v.secrets } in
    elim (Bool-cases (any hit v.secrets)) [
      | inr missing ↦ rw missing x
      | inl found ↦ rw found (
          same_tables rest (add_audit now rest i e t name "deleted").0
            (shrunk v rest x
              (λ scope other h. any-delete_where hit (is_secret scope other) v.secrets h)
              (λ i' e' t' other h. h))
            (secrets-add_audit now rest i e t name "deleted")
            (configuration-add_audit now rest i e t name "deleted"))
    ]

use_secrets-IsExclusive :
    (now : ℕ) (v : Vault) (i : ℕ) (e t : String) (names : List String)
    → IsExclusive v
    → IsExclusive (record_secret_use now v i e t names).0
unfolding record_secret_use
use_secrets-IsExclusive now v i e t [] x = x
use_secrets-IsExclusive now v i e t (name ∷ names) x =
    let next = add_audit now v i e t name "used" in
    elim (Bool-cases (any (λ k. k == i) v.application_ids)) [
      | inr unknown ↦ rw unknown x
      | inl known ↦
          let step = use_secrets-IsExclusive now next.0 i e t names (
            same_tables v next.0 x (secrets-add_audit now v i e t name "used")
              (configuration-add_audit now v i e t name "used")) in
          rw known (rw known at step)
    ]

save_configuration-IsExclusive :
    (now : ℕ) (v : Vault) (i : ℕ) (e t name value : String)
    → IsExclusive v
    → IsExclusive (put_application_configuration now v i e t name value).0
unfolding put_application_configuration
save_configuration-IsExclusive now v i e t name value x =
    let row : ConfigurationRow = record {
      application_id = i;
      environment = e;
      target = t;
      name = name;
      value = value;
      updated_at = now;
    } in
    elim (Bool-cases (valid_environment_and_target e t)) [
      | inr bad ↦ rw bad x
      | inl valid ↦
          elim (Bool-cases (any (is_secret (application_secret_scope i e t) name) v.secrets)) [
            | inl taken ↦ rw (valid, taken) x
            | inr free ↦ elim (Bool-cases (any (λ k. k == i) v.application_ids)) [
              | inr unknown ↦ rw (valid, free, unknown) x
              | inl known ↦
                  rw (valid, free, known)
                    (configuration_added v
                      (record v { configuration = put_configuration_row row v.configuration }) row x
                      refl refl free)
            ]
          ]
    ]

remove_configuration-IsExclusive :
    (v : Vault) (i : ℕ) (e t name : String)
    → IsExclusive v
    → IsExclusive (delete_application_configuration v i e t name).0
unfolding delete_application_configuration
remove_configuration-IsExclusive v i e t name x =
    let hit = is_configuration i e t name in
    elim (Bool-cases (any hit v.configuration)) [
      | inr missing ↦ rw missing x
      | inl found ↦ rw found (
          shrunk v (record v { configuration = delete_where hit v.configuration }) x
            (λ scope other h. h)
            (λ i' e' t' other h.
              any-delete_where hit (is_configuration i' e' t' other) v.configuration h))
    ]

vault_call-IsExclusive :
    (v : Vault) (c : ℕ × VaultCall) → IsOrdinary c → IsExclusive v → IsExclusive (vault_call v c)
unfolding vault_call
vault_call-IsExclusive v (now, put_system scope name nonce ciphertext) o x =
    put_system-IsExclusive now v scope name nonce ciphertext o x
vault_call-IsExclusive v (now, save_secret i e t name nonce ciphertext) o x =
    save_secret-IsExclusive now v i e t name nonce ciphertext o x
vault_call-IsExclusive v (now, remove_secret i e t name) o x =
    remove_secret-IsExclusive now v i e t name x
vault_call-IsExclusive v (now, use_secrets i e t names) o x =
    use_secrets-IsExclusive now v i e t names x
vault_call-IsExclusive v (now, save_configuration i e t name value) o x =
    save_configuration-IsExclusive now v i e t name value x
vault_call-IsExclusive v (now, remove_configuration i e t name) o x =
    remove_configuration-IsExclusive v i e t name x

-- Whatever secrets and public configuration are stored, removed and used: if no name was both a
-- secret and a public configuration of one target, none is afterwards. Ids are those of an int64,
-- and the scope of a system secret is no application's.
pub vault_calls-IsExclusive :
    (v : Vault) (cs : List (ℕ × VaultCall))
    → All IsOrdinary cs
    → IsExclusive v
    → IsExclusive (vault_calls v cs)
vault_calls-IsExclusive v [] o x = x
vault_calls-IsExclusive v (c ∷ cs) o x =
    vault_calls-IsExclusive (vault_call v c) cs o.1 (vault_call-IsExclusive v c o.0 x)
