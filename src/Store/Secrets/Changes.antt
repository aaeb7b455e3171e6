-- ===== src/Store/Secrets/Changes.antt =====
-- How a change of the tables keeps secrets and public configuration apart.
use mini_dock.Prelude.{
  ℕ, ◌≡◌, ◌<◌, ◌^◌, refl, ap, ◌∙◌, sym, String, Bool, true, false, ◌&&◌, ◌||◌, inl, inr, List, [],
  ◌∷◌, any, arith, Bool-cases, ◌=s=◌, eq_iff, and-eq-true,
}
use mini_dock.Prelude.Rows.{delete_where}
use mini_dock.Store.Secrets.{
  Vault, Secret, ConfigurationRow, is_secret, is_configuration, put_secret_row,
  put_configuration_row, application_secret_scope, valid_environment_and_target, add_audit,
}

-- No name is both a secret and a public configuration of one target.
pub record IsExclusive (v : Vault) : Type 0 where
  pub apart :
      (i : ℕ) (environment target name : String)
      → i < 10 ^ 19
      → valid_environment_and_target environment target ≡ true
      → any (is_secret (application_secret_scope i environment target) name) v.secrets ≡ true
      → any (is_configuration i environment target name) v.configuration ≡ false

any-put_secret_row :
    (scope name : String) (x : Secret) (xs : List Secret)
    → any (is_secret scope name) (put_secret_row x xs)
      ≡ (is_secret scope name x || any (is_secret scope name) xs)
unfolding put_secret_row
any-put_secret_row scope name x [] = refl
any-put_secret_row scope name x (y ∷ ys) = elim (Bool-cases (is_secret x.scope x.name y)) [
  | inl hit ↦
      let same_scope : y.scope ≡ x.scope =
        (eq_iff y.scope x.scope).0 (and-eq-true (y.scope =s= x.scope) (y.name =s= x.name) hit).0 in
      let same_name : y.name ≡ x.name =
        (eq_iff y.name x.name).0 (and-eq-true (y.scope =s= x.scope) (y.name =s= x.name) hit).1 in
      let same : is_secret scope name y ≡ is_secret scope name x =
        ap (λ s. s =s= scope && y.name =s= name) same_scope
        ∙ ap (λ s. x.scope =s= scope && s =s= name) same_name in
      rw hit (ground (arith, same))
  | inr miss ↦ rw miss (ground (arith, any-put_secret_row scope name x ys))
]

or_skip : (a b c : Bool) → (a || c) ≡ true → (a || (b || c)) ≡ true
or_skip a b c h = ground arith

or_step : (a b c d : Bool) → (d ≡ true → (a || c) ≡ true) → (b || d) ≡ true → (a || (b || c)) ≡ true
or_step a true c d step h = ground arith
or_step a false c d step h = step h

any-put_configuration_row :
    (i : ℕ) (e t name : String) (x : ConfigurationRow) (xs : List ConfigurationRow)
    → any (is_configuration i e t name) (put_configuration_row x xs) ≡ true
    → (is_configuration i e t name x || any (is_configuration i e t name) xs) ≡ true
unfolding put_configuration_row
any-put_configuration_row i e t name x [] h = h
any-put_configuration_row i e t name x (y ∷ ys) h =
    let new = is_configuration i e t name x in
    let here = is_configuration i e t name y in
    let rest = any (is_configuration i e t name) ys in
    elim (Bool-cases (is_configuration x.application_id x.environment x.target x.name y)) [
      | inl hit ↦ or_skip new here rest (rw hit at h)
      | inr miss ↦
          or_step new here rest (any (is_configuration i e t name) (put_configuration_row x ys))
            (any-put_configuration_row i e t name x ys) (rw miss at h)
    ]

pub any-delete_where {ℓ} :
    {A : Type ℓ} (p q : A → Bool) (xs : List A)
    → any q xs ≡ false
    → any q (delete_where p xs) ≡ false
unfolding delete_where
any-delete_where p q [] h = refl
any-delete_where p q (x ∷ xs) h = ground (arith, any-delete_where p q xs)

-- A step keeps the invariant if it shows no new secret and no new configuration.
pub shrunk :
    (v v' : Vault)
    → IsExclusive v
    → ((scope name : String)
        → any (is_secret scope name) v.secrets ≡ false
        → any (is_secret scope name) v'.secrets ≡ false)
    → ((i : ℕ) (e t name : String)
        → any (is_configuration i e t name) v.configuration ≡ false
        → any (is_configuration i e t name) v'.configuration ≡ false)
    → IsExclusive v'
shrunk v v' x fewer_secrets fewer_configuration = record {
  apart = λ i e t name hi valid h.
      elim (Bool-cases (any (is_secret (application_secret_scope i e t) name) v.secrets)) [
        | inl before ↦ fewer_configuration i e t name (x.apart i e t name hi valid before)
        | inr never ↦
            absurd (ground (arith, fewer_secrets (application_secret_scope i e t) name never))
      ];
}

either_false : (a b : Bool) → (a || b) ≡ false → (a ≡ false) × (b ≡ false)
either_false a b h = ground arith

-- A new secret is under a name that has no configuration.
pub secret_added :
    (v v' : Vault) (row : Secret)
    → IsExclusive v
    → v'.secrets ≡ put_secret_row row v.secrets
    → v'.configuration ≡ v.configuration
    → ((i : ℕ) (e t name : String)
        → i < 10 ^ 19
        → valid_environment_and_target e t ≡ true
        → is_secret (application_secret_scope i e t) name row ≡ true
        → any (is_configuration i e t name) v.configuration ≡ false)
    → IsExclusive v'
secret_added v v' row x secrets configuration fresh = record {
  apart = λ i e t name hi valid h.
      let scope : String = application_secret_scope i e t in
      let found : (is_secret scope name row || any (is_secret scope name) v.secrets) ≡ true =
        sym (any-put_secret_row scope name row v.secrets) ∙ rw secrets at h in
      rw configuration (elim (Bool-cases (is_secret scope name row)) [
        | inl new ↦ fresh i e t name hi valid new
        | inr old ↦ x.apart i e t name hi valid (ground arith)
      ]);
}

row_key :
    (row : ConfigurationRow) (i : ℕ) (e t name : String)
    → is_configuration i e t name row ≡ true
    → (row.application_id ≡ i) × (row.environment ≡ e) × (row.target ≡ t) × (row.name ≡ name)
row_key row i e t name h =
    ground (arith, eq_iff row.environment e, eq_iff row.target t, eq_iff row.name name)

-- A new configuration is under a name that is no secret.
pub configuration_added :
    (v v' : Vault) (row : ConfigurationRow)
    → IsExclusive v
    → v'.secrets ≡ v.secrets
    → v'.configuration ≡ put_configuration_row row v.configuration
    → any
        (is_secret
          (application_secret_scope row.application_id row.environment row.target)
          row.name)
        v.secrets
      ≡ false
    → IsExclusive v'
configuration_added v v' row x secrets configuration fresh = record {
  apart = λ i e t name hi valid h.
      let before = rw secrets at h in
      elim (Bool-cases (any (is_configuration i e t name) v'.configuration)) [
        | inr none_ ↦ none_
        | inl some_ ↦ elim (Bool-cases (is_configuration i e t name row)) [
          | inl new ↦
              let (ei, ee, et, en) = row_key row i e t name new in
              absurd (ground (arith, rw (ei, ee, et, en) at fresh))
          | inr old ↦ absurd (
              ground (
                arith,
                x.apart i e t name hi valid before,
                any-put_configuration_row i e t name row v.configuration
                    (rw configuration at some_),
              ))
        ]
      ];
}

module _ (now : ℕ) (v : Vault) (i : ℕ) (e t name action : String) where
  pub secrets-add_audit : (add_audit now v i e t name action).0.secrets ≡ v.secrets
  secrets-add_audit = ground arith

  pub configuration-add_audit :
      (add_audit now v i e t name action).0.configuration ≡ v.configuration
  configuration-add_audit = ground arith

pub same_tables :
    (v v' : Vault)
    → IsExclusive v
    → v'.secrets ≡ v.secrets
    → v'.configuration ≡ v.configuration
    → IsExclusive v'
same_tables v v' x secrets configuration =
    shrunk v v' x (λ scope name h. rw secrets h) (λ i e t name h. rw configuration h)
