-- ===== src/App/Environment/Opened.antt =====
-- internal/app/server.go: the names of public values and of opened secrets, against the tables.
use mathlib.Core.List.{Memᴰ}
use mini_dock.Prelude.{
  ℕ, ◌≡◌, refl, String, Bool, true, ◌||◌, inl, inr, some, List, [], ◌∷◌, arith, any, All, All-mono,
  Bool-cases, ◌=s=◌, =s=_refl, eq_iff,
}
use mini_dock.Prelude.Rows.{where_rows}
use mini_dock.Prelude.Rows.Members.{any_of_All, any_of_Memᴰ, where_rows-Memᴰ, All-map}
use mini_dock.Prelude.Rows.Order.{All-sort_by}
use mini_dock.Store.Secrets.{
  Vault, Secret, ConfigurationRow, SecretMetadata, application_secrets, application_secret,
  application_secret_scope, application_configuration, is_secret, is_configuration, of_target,
  metadata,
}
use mini_dock.Backup.Cipher.{Outcome, returns, fails, panics}
use mini_dock.App.Configuration.{Values, value_of}
use mini_dock.App.Environment.{
  Opener, collect, configuration_values, secret_values, and_value, opened_secret, recorded_use,
  deployment_secrets, is_empty,
}

-- A name that has a value is among the pairs, and a collected one among the rows.
value_of-named :
    (m : Values) (name value : String)
    → value_of name m ≡ some value
    → any (λ (v : String × String). v.0 =s= name) m ≡ true
unfolding value_of
value_of-named [] name value h = absurd (ground arith)
value_of-named (v ∷ m) name value h = ground (arith, value_of-named m name value)

value_of-collect :
    (rows : List ConfigurationRow) (m : Values) (name value : String)
    → value_of name (collect rows m) ≡ some value
    → (any (λ (c : ConfigurationRow). c.name =s= name) rows
        || any (λ (v : String × String). v.0 =s= name) m)
      ≡ true
unfolding collect
value_of-collect [] m name value h = value_of-named m name value h
value_of-collect (c ∷ rows) m name value h =
    or_turn (any (λ (r : ConfigurationRow). r.name =s= name) rows) (c.name =s= name)
      (any (λ (v : String × String). v.0 =s= name) m)
      (value_of-collect rows ((c.name, c.value) ∷ m) name value h)
  where
    or_turn : (a b d : Bool) → (a || (b || d)) ≡ true → ((b || a) || d) ≡ true
    or_turn a b d e = ground arith

-- A public value has a row in the table.
pub configuration-known :
    (o : Opener) (v : Vault) (i : ℕ) (e t name value : String)
    → value_of name (configuration_values o v i e t) ≡ some value
    → any (is_configuration i e t name) v.configuration ≡ true
unfolding application_configuration
configuration-known o v i e t name value h =
    let rows = application_configuration o.name_le v i e t in
    let listed : any (λ (c : ConfigurationRow). c.name =s= name) rows ≡ true =
      let both = value_of-collect rows [] name value h in ground arith in
    let (row, named, both) =
      any_of_All (λ (c : ConfigurationRow). c.name =s= name)
        (λ c. Memᴰ c v.configuration × (of_target i e t c ≡ true)) rows listed
        (All-sort_by _ (λ c. Memᴰ c v.configuration × (of_target i e t c ≡ true)) _
          (where_rows-Memᴰ (of_target i e t) v.configuration)) in
    let of : of_target i e t row ≡ true = both.1 in
    any_of_Memᴰ (is_configuration i e t name) v.configuration row both.0 (ground arith)

-- The metadata of secrets names stored ones.
metadata-known :
    (name_le : String → String → Bool) (v : Vault) (i : ℕ) (e t : String)
    → All
        (λ (m : SecretMetadata).
          any (is_secret (application_secret_scope i e t) m.name) v.secrets ≡ true)
        (application_secrets name_le v i e t)
unfolding application_secrets
metadata-known name_le v i e t =
    let scope : String = application_secret_scope i e t in
    All-map (λ (m : SecretMetadata). any (is_secret scope m.name) v.secrets ≡ true) (metadata e t) _
      (All-sort_by _ (λ (x : Secret). any (is_secret scope x.name) v.secrets ≡ true) _
        (All-mono (λ (x : Secret). Memᴰ x v.secrets × ((x.scope =s= scope) ≡ true)) _
          (λ x h.
            let same = =s=_refl x.name in
            any_of_Memᴰ (is_secret scope x.name) v.secrets x h.0 (ground arith))
          (where_rows (λ (x : Secret). x.scope =s= scope) v.secrets)
          (where_rows-Memᴰ (λ (x : Secret). x.scope =s= scope) v.secrets)))

and_value-returns :
    (o : Opener) (name : String) (text : Outcome (List ℕ)) (rest : Outcome Values) {s : Values}
    → and_value o name text rest ≡ returns s
    → (value : String) × (tail : Values) × (rest ≡ returns tail) × (s ≡ (name, value) ∷ tail)
and_value-returns o name (returns text) (returns rest) {s} h =
    (o.text_of text, rest, refl, ground arith)
and_value-returns o name (returns text) fails {s} h = absurd (ground arith)
and_value-returns o name (returns text) panics {s} h = absurd (ground arith)
and_value-returns o name fails rest {s} h = absurd (ground arith)
and_value-returns o name panics rest {s} h = absurd (ground arith)

-- The names of opened secrets are those of the metadata.
secret_values-named :
    (o : Opener) (v : Vault) (i : ℕ) (e t : String) (ms : List SecretMetadata) {s : Values}
    → secret_values o v i e t ms ≡ returns s
    → (name value : String) → value_of name s ≡ some value
    → any (λ (m : SecretMetadata). m.name =s= name) ms ≡ true
unfolding secret_values value_of
secret_values-named o v i e t [] {s} h name value found =
    let empty : s ≡ [] = ground arith in absurd (ground (arith, rw empty at found))
secret_values-named o v i e t (m ∷ ms) {s} h name value found =
    let (value', tail, rest, shape) =
      and_value-returns o m.name (opened_secret o (application_secret v i e t m.name))
        (secret_values o v i e t ms) h in
    elim (Bool-cases (m.name =s= name)) [
      | inl hit ↦ rw hit refl
      | inr miss ↦
          rw miss
            (secret_values-named o v i e t ms rest name value (rw miss at (rw shape at found)))
    ]

recorded_use-returns :
    (now : ℕ) (v : Vault) (i : ℕ) (e t : String) (r : Outcome Values) {s : Values}
    → (recorded_use now v i e t r).1 ≡ returns s
    → r ≡ returns s
recorded_use-returns now v i e t (returns values) {s} h = ground arith
recorded_use-returns now v i e t fails {s} h = absurd (ground arith)
recorded_use-returns now v i e t panics {s} h = absurd (ground arith)

module _ (o : Opener) (now : ℕ) (v : Vault) (i : ℕ) (e t : String) where
  pub deployment_secrets-named :
      {s : Values}
      → (deployment_secrets o now v i e t).1 ≡ returns s
      → (name value : String) → value_of name s ≡ some value
      → any (is_secret (application_secret_scope i e t) name) v.secrets ≡ true
  unfolding deployment_secrets value_of
  deployment_secrets-named {s} h name value found =
      let ms = application_secrets o.name_le v i e t in
      elim (Bool-cases (is_empty ms)) [
        | inl nothing ↦
            let empty : s ≡ [] = ground (arith, rw nothing at h) in
            absurd (ground (arith, rw empty at found))
        | inr some_ ↦ elim (Bool-cases (is_empty o.key)) [
          | inl locked ↦ absurd (ground (arith, rw (some_, locked) at h))
          | inr open_ ↦
              let opened =
                recorded_use-returns now v i e t (secret_values o v i e t ms)
                  (rw (some_, open_) at h) in
              let listed = secret_values-named o v i e t ms opened name value found in
              let (m, same, known) =
                any_of_All (λ (m : SecretMetadata). m.name =s= name) _ ms listed
                  (metadata-known o.name_le v i e t) in
              rw ((eq_iff m.name name).0 same) at known
        ]
      ]
