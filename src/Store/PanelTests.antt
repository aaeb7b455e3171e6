-- ===== src/Store/PanelTests.antt =====
-- Applications, secrets and the master password on small tables.
use mini_dock.Prelude.{
  ℕ, ◌≡◌, ◌⊎◌, refl, true, false, List, [], ◌∷◌, arith, ok, err, constraint_failed, done,
}
use text.Mathlib.Text.{starts_with}
use mini_dock.Store.Samples.{next_id, next_id-IsAbove, shop, blog}
use mini_dock.Store.Tables.{Application}
use mini_dock.Store.Applications.Sound.{
  ApplicationCall, create, automate, move, application_calls, AreSound, application_calls-AreSound,
}
use mini_dock.Store.Secrets.{Vault}
use mini_dock.Store.Secrets.Changes.{IsExclusive}
use mini_dock.Store.Secrets.Exclusive.{
  VaultCall, put_system, save_secret, save_configuration, remove_secret, vault_calls,
  vault_calls-IsExclusive,
}
use mini_dock.Store.Settings.{SecurityConfig, initialize_security, security_config, is_initialized}
use mini_dock.Store.Settings.Initialized.{initialize_security_once}

abbrev two_applications : List Application
two_applications = shop ∷ blog ∷ []

two_applications-AreSound : AreSound two_applications
two_applications-AreSound = record {
  confirmable = (refl, (refl, tt));
  differ = (((refl, λ e. omega arith), tt), (tt, tt));
}

abbrev calls : List ApplicationCall
calls =
    create 9 (record shop { name = "docs"; domain = "docs.example.test" })
    ∷ move 8 "shop.example.test"
    ∷ automate 7 true true false
    ∷ []

application_calls-AreSound_example : AreSound (application_calls next_id two_applications calls)
application_calls-AreSound_example =
    application_calls-AreSound next_id next_id-IsAbove two_applications calls
      two_applications-AreSound

abbrev pub empty_vault : Vault
empty_vault = record { secrets = []; audit = []; configuration = []; application_ids = 7 ∷ [] }

pub empty_vault-IsExclusive : IsExclusive empty_vault
empty_vault-IsExclusive = record {
  apart = λ i environment target name hi valid h. absurd (ground arith);
}

abbrev vault_history : List (ℕ × VaultCall)
vault_history =
    (1, put_system "github" "private_key" (5 ∷ []) (9 ∷ []))
    ∷ (2, save_secret 7 "production" "runtime" "TOKEN" (5 ∷ []) (9 ∷ []))
    ∷ (3, save_configuration 7 "production" "runtime" "TOKEN" "public")
    ∷ (4, remove_secret 7 "production" "runtime" "TOKEN")
    ∷ (5, save_configuration 7 "production" "runtime" "TOKEN" "public")
    ∷ []

github_is_no_application : starts_with "github" "application:" ≡ false
github_is_no_application = refl

vault_calls-IsExclusive_example : IsExclusive (vault_calls empty_vault vault_history)
vault_calls-IsExclusive_example =
    vault_calls-IsExclusive empty_vault vault_history
      (github_is_no_application, (omega arith, (omega arith, (tt, (omega arith, tt)))))
      empty_vault-IsExclusive

abbrev first_config : SecurityConfig
first_config = record { salt = 1 ∷ []; verifier_nonce = 2 ∷ []; verifier_cipher = 3 ∷ [] }

abbrev other_config : SecurityConfig
other_config = record { salt = 4 ∷ []; verifier_nonce = 5 ∷ []; verifier_cipher = 6 ∷ [] }

initialize_security_once_example :
    let (s', answer) = initialize_security [] first_config in
    ((answer ≡ done)
      × (security_config s' ≡ ok first_config)
      × (is_initialized s' ≡ true)
      × (initialize_security s' other_config ≡ (s', err constraint_failed)))
    ⊎ ((answer ≡ err constraint_failed) × (s' ≡ []))
initialize_security_once_example = initialize_security_once [] first_config other_config
