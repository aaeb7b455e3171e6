-- ===== src/App/Environment/Public.antt =====
-- internal/app/server.go: deploymentConfiguration, against the stored public configuration.
use mini_dock.Prelude.{
  ℕ, ◌≡◌, ◌<◌, ◌^◌, refl, String, Bool, true, false, inl, inr, Option, none, some, List, [], ◌∷◌,
  arith, any, Bool-cases,
}
use mini_dock.Store.Secrets.{
  Vault, application_secrets, application_secret_scope, is_secret, is_configuration,
  record_secret_use, valid_environment_and_target, add_audit,
}
use mini_dock.Store.Secrets.Changes.{IsExclusive, secrets-add_audit}
use mini_dock.Backup.Cipher.{Outcome, returns, fails, panics}
use mini_dock.App.Configuration.{Values, value_of, with_values, DeploymentConfiguration}
use mini_dock.App.Configuration.Restored.{value-with_values, or_value}
use mini_dock.App.Environment.{
  Opener, configuration_values, secret_values, recorded_use, deployment_secrets, merged,
  with_build_secrets, deployment_configuration, is_empty, names_of,
}
use mini_dock.App.Environment.Stored.{IsStored, configuration_values-IsStored}
use mini_dock.App.Environment.Opened.{configuration-known, deployment_secrets-named}

secrets-record_secret_use :
    (now : ℕ) (v : Vault) (i : ℕ) (e t : String) (names : List String)
    → (record_secret_use now v i e t names).0.secrets ≡ v.secrets
unfolding record_secret_use
secrets-record_secret_use now v i e t [] = refl
secrets-record_secret_use now v i e t (name ∷ names) = ground (
  arith,
  secrets-record_secret_use now (add_audit now v i e t name "used").0 i e t names,
  secrets-add_audit now v i e t name "used",
)

secrets-deployment_secrets :
    (o : Opener) (now : ℕ) (v : Vault) (i : ℕ) (e t : String)
    → (deployment_secrets o now v i e t).0.secrets ≡ v.secrets
unfolding deployment_secrets
secrets-deployment_secrets o now v i e t =
    let ms = application_secrets o.name_le v i e t in
    elim (Bool-cases (is_empty ms)) [
      | inl nothing ↦ rw nothing refl
      | inr some_ ↦ elim (Bool-cases (is_empty o.key)) [
        | inl locked ↦ rw (some_, locked) refl
        | inr open_ ↦ rw (some_, open_) (after (secret_values o v i e t ms))
      ]
    ]
  where
    after : (r : Outcome Values) → (recorded_use now v i e t r).0.secrets ≡ v.secrets
    after (returns values) = secrets-record_secret_use now v i e t (names_of values)
    after fails = refl
    after panics = refl

-- What a configuration is made of.
abbrev IsMade : Opener → Values → Values → Values → DeploymentConfiguration → Type 0
IsMade o secrets runtime build_args c =
    (c.runtime ≡ with_values secrets runtime)
    × (c.public_runtime ≡ runtime)
    × (c.build_args ≡ build_args)
    × (c.effective_runtime_configuration ≡ o.codec.non_secret_runtime_configuration runtime)
    × (c.configuration_digest ≡ o.codec.public_configuration_digest runtime build_args)

merged-returns :
    (o : Opener) (runtime build_args build_secrets : Values) (r : Vault × Outcome Values)
    {c : DeploymentConfiguration}
    → (merged o runtime build_args build_secrets r).1 ≡ returns c
    → (s : Values) × (r.1 ≡ returns s) × IsMade o s runtime build_args c
merged-returns o runtime build_args build_secrets (v, returns s) {c} h =
    (s, refl, (ground arith, ground arith, ground arith, ground arith, ground arith))
merged-returns o runtime build_args build_secrets (v, fails) {c} h = absurd (ground arith)
merged-returns o runtime build_args build_secrets (v, panics) {c} h = absurd (ground arith)

with_build_secrets-returns :
    (o : Opener) (now i : ℕ) (e : String) (runtime build_args : Values) (r : Vault × Outcome Values)
    {c : DeploymentConfiguration}
    → (with_build_secrets o now i e runtime build_args r).1 ≡ returns c
    → (s : Values) × ((deployment_secrets o now r.0 i e "runtime").1 ≡ returns s)
      × IsMade o s runtime build_args c
with_build_secrets-returns o now i e runtime build_args (v, returns b) {c} h =
    merged-returns o runtime build_args b (deployment_secrets o now v i e "runtime") h
with_build_secrets-returns o now i e runtime build_args (v, fails) {c} h = absurd (ground arith)
with_build_secrets-returns o now i e runtime build_args (v, panics) {c} h = absurd (ground arith)

-- A name with a public value is no secret's and has that value at runtime, and any other name that
-- has a value is a secret's. `known` says whether the name is that of a stored secret.
abbrev pub AtRuntime : Bool → Option String → Option String → Type 0
AtRuntime known (some value) at_runtime = (known ≡ false) × (at_runtime ≡ some value)
AtRuntime known none (some value) = known ≡ true
AtRuntime known none none = Unit

choice :
    (secret public : Option String) (known : Bool)
    → ((text : String) → secret ≡ some text → known ≡ true)
    → ((text : String) → public ≡ some text → known ≡ false)
    → AtRuntime known public (or_value secret public)
choice none none known of_secret of_public = tt
choice none (some value) known of_secret of_public = (of_public value refl, refl)
choice (some text) none known of_secret of_public = of_secret text refl
choice (some text) (some value) known of_secret of_public =
    absurd (ground (arith, of_secret text refl, of_public value refl))

excluded :
    (i : ℕ) (e t name : String) (v : Vault)
    → IsExclusive v
    → i < 10 ^ 19
    → valid_environment_and_target e t ≡ true
    → any (is_configuration i e t name) v.configuration ≡ true
    → any (is_secret (application_secret_scope i e t) name) v.secrets ≡ false
excluded i e t name v x hi valid h =
    elim (Bool-cases (any (is_secret (application_secret_scope i e t) name) v.secrets)) [
      | inl secret ↦ absurd (ground (arith, x.apart i e t name hi valid secret))
      | inr free ↦ free
    ]

-- What a configuration has under a name, against the tables.
pub record KeepsPublic (o : Opener) (v : Vault) (i : ℕ) (e name : String)
    (c : DeploymentConfiguration) : Type 0 where
  pub public_stored : IsStored v i e "runtime" name (value_of name c.public_runtime)
  pub build_stored : IsStored v i e "build" name (value_of name c.build_args)
  pub at_runtime :
      AtRuntime
        (any (is_secret (application_secret_scope i e "runtime") name) v.secrets)
        (value_of name c.public_runtime)
        (value_of name c.runtime)
  pub recorded :
      c.effective_runtime_configuration ≡ o.codec.non_secret_runtime_configuration c.public_runtime
  pub digested :
      c.configuration_digest ≡ o.codec.public_configuration_digest c.public_runtime c.build_args

-- If secrets and public configuration have no name in common, and deploymentConfiguration succeeds
-- for a valid environment, then a name has a public value exactly if the table of public
-- configuration has a row for it at runtime, and it is the value of such a row; likewise for the
-- build arguments and the rows for the build. A name with a public value is that of no secret at
-- runtime, and has that value at runtime; any other name that has a value at runtime is that of a
-- secret of the application. The runtime configuration that the release records, and the digest,
-- are made of the public values.
pub deployment_configuration-KeepsPublic :
    (o : Opener) (now : ℕ) (v : Vault) (i : ℕ) (e : String) {c : DeploymentConfiguration}
    → IsExclusive v
    → i < 10 ^ 19
    → valid_environment_and_target e "runtime" ≡ true
    → (deployment_configuration o now v i e).1 ≡ returns c
    → (name : String) → KeepsPublic o v i e name c
unfolding deployment_configuration
deployment_configuration-KeepsPublic o now v i e {c} x hi valid h name =
    let public = configuration_values o v i e "runtime" in
    let build = deployment_secrets o now v i e "build" in
    let (s, opened, made) =
      with_build_secrets-returns o now i e public (configuration_values o v i e "build") build h in
    let (runtime_is, public_is, build_is, recorded_is, digest_is) = made in
    let same : build.0.secrets ≡ v.secrets = secrets-deployment_secrets o now v i e "build" in
    let scope : String = application_secret_scope i e "runtime" in
    let of_secret : (text : String)
        → value_of name s ≡ some text
        → any (is_secret scope name) v.secrets ≡ true =
      λ text f.
        rw same at (deployment_secrets-named o now build.0 i e "runtime" opened name text f) in
    let of_public : (text : String)
        → value_of name public ≡ some text
        → any (is_secret scope name) v.secrets ≡ false =
      λ text f.
        excluded i e "runtime" name v x hi valid
          (configuration-known o v i e "runtime" name text f) in
    record {
      public_stored = rw public_is (configuration_values-IsStored o v i e "runtime" name);
      build_stored = rw build_is (configuration_values-IsStored o v i e "build" name);
      at_runtime =
          rw (public_is, runtime_is, value-with_values s public name)
            (choice (value_of name s) (value_of name public) _ of_secret of_public);
      recorded = rw public_is recorded_is;
      digested = rw (public_is, build_is) digest_is;
    }
