-- ===== src/Store/Secrets.antt =====
-- internal/store/store.go: encrypted secrets, their audit, and the public configuration of an
-- application. A nonce and a ciphertext are lists of bytes.
pub mod Scopes
pub mod Changes
pub mod Exclusive
use mini_dock.Prelude.{
  ℕ, String, Bool, ◌&&◌, ◌||◌, Option, none, some, List, [], ◌∷◌, map, ◌==◌, ◌=s=◌, if◌then◌else◌,
  any, take, Result, ok, err, not_found, invalid_argument, name_in_use, constraint_failed, Done,
  done, not,
}
use mini_dock.Prelude.Decimal.{◌+s+◌, decimal}
use mini_dock.Prelude.Rows.{where_rows, delete_where, find_where, sort_by}
use text.Mathlib.Text.{starts_with}

pub record Secret : Type 0 where
  pub scope : String
  pub name : String
  pub nonce : List ℕ
  pub ciphertext : List ℕ
  pub updated_at : ℕ

pub record AuditRow : Type 0 where
  pub application_id : ℕ
  pub environment : String
  pub target : String
  pub name : String
  pub action : String
  pub created_at : ℕ

pub record ConfigurationRow : Type 0 where
  pub application_id : ℕ
  pub environment : String
  pub target : String
  pub name : String
  pub value : String
  pub updated_at : ℕ

-- The tables secrets, secret_audit and application_configuration, with the keys of the table of
-- applications, to which the last two refer.
pub record Vault : Type 0 where
  pub secrets : List Secret
  pub audit : List AuditRow
  pub configuration : List ConfigurationRow
  pub application_ids : List ℕ

abbrev pub knows : Vault → ℕ → Bool
knows v application_id = any (λ i. i == application_id) v.application_ids

-- WHERE scope = ? AND name = ?
abbrev pub is_secret : String → String → Secret → Bool
is_secret scope name x = x.scope =s= scope && x.name =s= name

-- INSERT … ON CONFLICT(scope, name) DO UPDATE, which sets every other column.
unfoldable pub put_secret_row : Secret → List Secret → List Secret
put_secret_row x [] = x ∷ []
put_secret_row x (y ∷ ys) = if is_secret x.scope x.name y then x ∷ ys else y ∷ put_secret_row x ys

-- PutSecret
abbrev pub put_secret : ℕ → Vault → String → String → List ℕ → List ℕ → Vault
put_secret now v scope name nonce ciphertext =
    let row : Secret = record {
      scope = scope;
      name = name;
      nonce = nonce;
      ciphertext = ciphertext;
      updated_at = now;
    } in
    record v { secrets = put_secret_row row v.secrets }

abbrev pub sealed_value : Option Secret → Result (List ℕ × List ℕ)
sealed_value none = err not_found
sealed_value (some x) = ok (x.nonce, x.ciphertext)

-- Secret
abbrev pub secret : Vault → String → String → Result (List ℕ × List ℕ)
secret v scope name = sealed_value (find_where (is_secret scope name) v.secrets)

-- applicationSecretScope
abbrev pub application_secret_scope : ℕ → String → String → String
application_secret_scope application_id environment target =
    "application:" +s+ decimal application_id +s+ ":" +s+ environment +s+ ":" +s+ target

-- validEnvironmentAndTarget
abbrev pub valid_environment_and_target : String → String → Bool
valid_environment_and_target environment target =
    (environment =s= "production" || environment =s= "staging")
    && (target =s= "runtime" || target =s= "build")

abbrev pub is_configuration : ℕ → String → String → String → ConfigurationRow → Bool
is_configuration application_id environment target name c =
    c.application_id == application_id
    && (c.environment =s= environment && (c.target =s= target && c.name =s= name))

-- INSERT INTO secret_audit, whose foreign key is the application.
abbrev pub add_audit : ℕ → Vault → ℕ → String → String → String → String → Vault × Done
add_audit now v application_id environment target name action =
    let row : AuditRow = record {
      application_id = application_id;
      environment = environment;
      target = target;
      name = name;
      action = action;
      created_at = now;
    } in
    if knows v application_id
    then (record v { audit = row ∷ v.audit }, done)
    else (v, err constraint_failed)

-- PutApplicationSecret. The secret stays if the audit fails.
unfoldable pub put_application_secret :
    ℕ → Vault → ℕ → String → String → String → List ℕ → List ℕ → Vault × Done
put_application_secret now v application_id environment target name nonce ciphertext =
    if not (valid_environment_and_target environment target)
    then (v, err invalid_argument)
    else if any (is_configuration application_id environment target name) v.configuration
    then (v, err name_in_use)
    else (let scope = application_secret_scope application_id environment target in
        let exists = any (is_secret scope name) v.secrets in
        add_audit now (put_secret now v scope name nonce ciphertext) application_id environment
          target name (if exists then "rotated" else "created"))

pub record SecretMetadata : Type 0 where
  pub name : String
  pub environment : String
  pub target : String
  pub updated_at : ℕ

abbrev pub metadata : String → String → Secret → SecretMetadata
metadata environment target x = record {
  name = x.name;
  environment = environment;
  target = target;
  updated_at = x.updated_at;
}

-- ApplicationSecrets; `name_le` is SQLite's order of names.
unfoldable pub application_secrets :
    (String → String → Bool) → Vault → ℕ → String → String → List SecretMetadata
unfolding where_rows sort_by
application_secrets name_le v application_id environment target =
    let scope = application_secret_scope application_id environment target in
    map (metadata environment target) (
      sort_by (λ a b. name_le a.name b.name)
        (where_rows (λ (x : Secret). x.scope =s= scope) v.secrets))

-- ApplicationSecret
abbrev pub application_secret : Vault → ℕ → String → String → String → Result (List ℕ × List ℕ)
application_secret v application_id environment target name =
    secret v (application_secret_scope application_id environment target) name

-- HasSecrets: the pattern `application:<id>:%` is a prefix. LIKE also matches a prefix in capitals,
-- which no scope of the program has.
abbrev pub has_secrets : Vault → ℕ → Bool
has_secrets v application_id =
    any (λ (x : Secret). starts_with x.scope ("application:" +s+ decimal application_id +s+ ":"))
      v.secrets

-- DeleteApplicationSecret
unfoldable pub delete_application_secret : ℕ → Vault → ℕ → String → String → String → Vault × Done
delete_application_secret now v application_id environment target name =
    let scope = application_secret_scope application_id environment target in
    if any (is_secret scope name) v.secrets
    then add_audit now (record v { secrets = delete_where (is_secret scope name) v.secrets })
        application_id environment target name "deleted"
    else (v, err not_found)

-- RecordSecretUse: one row per name, until one fails.
unfoldable pub record_secret_use : ℕ → Vault → ℕ → String → String → List String → Vault × Done
record_secret_use now v application_id environment target [] = (v, done)
record_secret_use now v application_id environment target (name ∷ names) =
    if knows v application_id
    then record_secret_use now (add_audit now v application_id environment target name "used").0
        application_id environment target names
    else (v, err constraint_failed)

-- SecretAudit: newest first.
abbrev pub secret_audit : Vault → ℕ → List AuditRow
secret_audit v application_id =
    take 30 (where_rows (λ (a : AuditRow). a.application_id == application_id) v.audit)

unfoldable pub put_configuration_row :
    ConfigurationRow → List ConfigurationRow → List ConfigurationRow
put_configuration_row x [] = x ∷ []
put_configuration_row x (y ∷ ys) =
    if is_configuration x.application_id x.environment x.target x.name y
    then x ∷ ys
    else y ∷ put_configuration_row x ys

-- PutApplicationConfiguration
unfoldable pub put_application_configuration :
    ℕ → Vault → ℕ → String → String → String → String → Vault × Done
put_application_configuration now v application_id environment target name value =
    let row : ConfigurationRow = record {
      application_id = application_id;
      environment = environment;
      target = target;
      name = name;
      value = value;
      updated_at = now;
    } in
    if not (valid_environment_and_target environment target)
    then (v, err invalid_argument)
    else if any (is_secret (application_secret_scope application_id environment target) name)
        v.secrets
    then (v, err name_in_use)
    else if knows v application_id
    then (record v { configuration = put_configuration_row row v.configuration }, done)
    else (v, err constraint_failed)

abbrev pub of_target : ℕ → String → String → ConfigurationRow → Bool
of_target application_id environment target c =
    c.application_id == application_id && (c.environment =s= environment && c.target =s= target)

-- ApplicationConfiguration
unfoldable pub application_configuration :
    (String → String → Bool) → Vault → ℕ → String → String → List ConfigurationRow
unfolding where_rows sort_by
application_configuration name_le v application_id environment target =
    sort_by (λ (a : ConfigurationRow) b. name_le a.name b.name)
      (where_rows (of_target application_id environment target) v.configuration)

-- DeleteApplicationConfiguration
unfoldable pub delete_application_configuration :
    Vault → ℕ → String → String → String → Vault × Done
delete_application_configuration v application_id environment target name =
    let hit = is_configuration application_id environment target name in
    if any hit v.configuration
    then (record v { configuration = delete_where hit v.configuration }, done)
    else (v, err not_found)
