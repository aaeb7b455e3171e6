-- ===== src/App/Environment/Tests.antt =====
-- A release of an application with one secret and one public value, under a toy cipher that prepends
-- a tag.
use mini_dock.Prelude.{
  ℕ, ◌≡◌, refl, true, Option, none, some, List, [], ◌∷◌, arith, ◌==◌, if◌then◌else◌,
}
use mini_dock.Prelude.Decimal.{decimal}
use mini_dock.Prelude.Rows.{find_where}
use mini_dock.Store.PanelTests.{empty_vault, empty_vault-IsExclusive}
use mini_dock.Store.Secrets.{
  Vault, put_application_secret, put_secret_row, put_application_configuration,
  put_configuration_row, application_secrets, application_configuration, record_secret_use,
}
use mini_dock.Store.Secrets.Changes.{IsExclusive}
use mini_dock.Store.Secrets.Exclusive.{
  VaultCall, save_secret, save_configuration, vault_call, vault_calls, vault_calls-IsExclusive,
}
use mini_dock.Backup.Cipher.{returns}
use mini_dock.App.Configuration.{with_values, DeploymentConfiguration}
use mini_dock.App.Environment.{
  Opener, collect, secret_values, deployment_secrets, deployment_configuration,
}
use mini_dock.App.Environment.Public.{KeepsPublic, deployment_configuration-KeepsPublic}

abbrev untagged : List ℕ → Option (List ℕ)
untagged [] = none
untagged (tag ∷ text) = if tag == 9 then some text else none

abbrev toy_opener : Opener
toy_opener = record {
  gcm = record {
    key_fits = λ key. true;
    nonce_size = 1;
    overhead = 1;
    seal = λ key nonce text aad. 9 ∷ text;
    open_ = λ key nonce sealed aad. untagged sealed;
  };
  codec = record {
    parse_object = λ text. none;
    print_object = λ values. none;
    quote = λ text. text;
    recorded_configuration = λ text. none;
    non_secret_runtime_configuration = λ values. "{}";
    public_configuration_digest = λ runtime build. "digest";
  };
  name_le = λ a b. true;
  text_of = λ bytes. "opened";
  key = 1 ∷ [];
}

abbrev stored_values : List (ℕ × VaultCall)
stored_values =
    (2, save_secret 7 "production" "runtime" "TOKEN" (5 ∷ []) (9 ∷ 8 ∷ []))
    ∷ (3, save_configuration 7 "production" "runtime" "MODE" "fast")
    ∷ []

abbrev vault : Vault
vault = vault_calls empty_vault stored_values

vault-IsExclusive : IsExclusive vault
vault-IsExclusive =
    vault_calls-IsExclusive empty_vault stored_values (omega arith, (omega arith, tt))
      empty_vault-IsExclusive

abbrev release : DeploymentConfiguration
release = record {
  runtime = ("TOKEN", "opened") ∷ ("MODE", "fast") ∷ [];
  build_args = [];
  build_secrets = [];
  public_runtime = ("MODE", "fast") ∷ [];
  effective_runtime_configuration = "{}";
  configuration_digest = "digest";
  reuse_image = "";
  reuse_source_revision = "";
  reuse_source_fingerprint = "";
}

configuration_returned :
    (deployment_configuration toy_opener 9 vault 7 "production").1 ≡ returns release
unfolding deployment_configuration deployment_secrets application_secrets vault_call
    put_application_configuration put_application_secret put_secret_row decimal secret_values
    find_where record_secret_use with_values collect application_configuration put_configuration_row
configuration_returned = refl

deployment_configuration-KeepsPublic_example :
    KeepsPublic toy_opener vault 7 "production" "MODE" release
deployment_configuration-KeepsPublic_example =
    deployment_configuration-KeepsPublic toy_opener 9 vault 7 "production" vault-IsExclusive
      (omega arith) refl configuration_returned "MODE"
