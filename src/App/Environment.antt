-- ===== src/App/Environment.antt =====
-- internal/app/server.go: deploymentConfiguration, which reads the public configuration and opens
-- the secrets of an application for one release.
pub mod Opened
pub mod Public
pub mod Stored
mod Tests
use mini_dock.Prelude.{
  ℕ, String, Bool, true, false, List, [], ◌∷◌, map, Result, ok, err, if◌then◌else◌,
}
use mini_dock.Store.Secrets.{
  Vault, ConfigurationRow, SecretMetadata, application_secrets, application_secret,
  application_configuration, record_secret_use,
}
use mini_dock.Backup.Cipher.{Gcm, Outcome, returns, fails, panics, decrypt_with_aad}
use mini_dock.App.Configuration.{Values, put, with_values, Codec, DeploymentConfiguration}

-- result[value.Name] = value.Value, row by row.
unfoldable pub collect : List ConfigurationRow → Values → Values
collect [] m = m
collect (c ∷ cs) m = collect cs (put c.name c.value m)

abbrev pub names_of : Values → List String
names_of = map (λ (v : String × String). v.0)

abbrev pub is_empty {ℓ} : {A : Type ℓ} → List A → Bool
is_empty [] = true
is_empty (x ∷ xs) = false

-- What the calls need besides the tables: AES-GCM, the codec, SQLite's order of names, and the text
-- of decrypted bytes. An empty key is a locked panel.
pub record Opener : Type 0 where
  pub gcm : Gcm
  pub codec : Codec
  pub name_le : String → String → Bool
  pub text_of : List ℕ → String
  pub key : List ℕ

-- configurationValues
abbrev pub configuration_values : Opener → Vault → ℕ → String → String → Values
configuration_values o v id environment target =
    collect (application_configuration o.name_le v id environment target) []

-- security.Decrypt of a stored secret
abbrev pub opened_secret : Opener → Result (List ℕ × List ℕ) → Outcome (List ℕ)
opened_secret o (err e) = fails
opened_secret o (ok (nonce, ciphertext)) = decrypt_with_aad o.gcm o.key nonce ciphertext []

abbrev pub and_value : Opener → String → Outcome (List ℕ) → Outcome Values → Outcome Values
and_value o name (returns text) (returns rest) = returns (put name (o.text_of text) rest)
and_value o name (returns text) other = other
and_value o name fails other = fails
and_value o name panics other = panics

-- The loop of deploymentSecrets. No two secrets of a target have one name, so the order of the
-- pairs does not matter.
unfoldable pub secret_values :
    Opener → Vault → ℕ → String → String → List SecretMetadata → Outcome Values
secret_values o v id environment target [] = returns []
secret_values o v id environment target (m ∷ ms) =
    and_value o m.name (opened_secret o (application_secret v id environment target m.name))
      (secret_values o v id environment target ms)

abbrev pub recorded_use : ℕ → Vault → ℕ → String → String → Outcome Values → Vault × Outcome Values
recorded_use now v id environment target fails = (v, fails)
recorded_use now v id environment target panics = (v, panics)
recorded_use now v id environment target (returns values) =
    let answer = record_secret_use now v id environment target (names_of values) in
    (answer.0, elim answer.1 [ ok _ ↦ returns values | err e ↦ fails ])

-- deploymentSecrets
unfoldable pub deployment_secrets :
    Opener → ℕ → Vault → ℕ → String → String → Vault × Outcome Values
deployment_secrets o now v id environment target =
    let metadata = application_secrets o.name_le v id environment target in
    if is_empty metadata
    then (v, returns [])
    else if is_empty o.key
    then (v, fails)
    else recorded_use now v id environment target (secret_values o v id environment target metadata)

abbrev pub merged :
    Opener
    → Values
    → Values
    → Values
    → Vault × Outcome Values
    → Vault × Outcome DeploymentConfiguration
merged o runtime build_args build_secrets (v, fails) = (v, fails)
merged o runtime build_args build_secrets (v, panics) = (v, panics)
merged o runtime build_args build_secrets (v, returns runtime_secrets) = (
  v,
  returns (record {
    runtime = with_values runtime_secrets runtime;
    build_args = build_args;
    build_secrets = build_secrets;
    public_runtime = runtime;
    effective_runtime_configuration = o.codec.non_secret_runtime_configuration runtime;
    configuration_digest = o.codec.public_configuration_digest runtime build_args;
    reuse_image = "";
    reuse_source_revision = "";
    reuse_source_fingerprint = "";
  }),
)

abbrev pub with_build_secrets :
    Opener
    → ℕ
    → ℕ
    → String
    → Values
    → Values
    → Vault × Outcome Values
    → Vault × Outcome DeploymentConfiguration
with_build_secrets o now id environment runtime build_args (v, fails) = (v, fails)
with_build_secrets o now id environment runtime build_args (v, panics) = (v, panics)
with_build_secrets o now id environment runtime build_args (v, returns build_secrets) =
    merged o runtime build_args build_secrets (deployment_secrets o now v id environment "runtime")

-- deploymentConfiguration
unfoldable pub deployment_configuration :
    Opener → ℕ → Vault → ℕ → String → Vault × Outcome DeploymentConfiguration
deployment_configuration o now v id environment =
    with_build_secrets o now id environment (configuration_values o v id environment "runtime")
      (configuration_values o v id environment "build")
      (deployment_secrets o now v id environment "build")
