-- ===== src/App/Environment/Stored.antt =====
-- internal/app/server.go: configurationValues, row by row against the table.
use mathlib.Core.List.{Memᴰ}
use mini_dock.Prelude.{
  ℕ, ◌≡◌, refl, ◌⊎◌, String, true, false, inl, inr, Option, none, some, List, [], ◌∷◌, arith, any,
  All, Bool-cases, ◌=s=◌,
}
use mini_dock.Prelude.Rows.{where_rows}
use mini_dock.Prelude.Rows.Members.{where_rows-Memᴰ}
use mini_dock.Prelude.Rows.Order.{All-sort_by, All-of_sort_by}
use mini_dock.Store.Secrets.{
  Vault, ConfigurationRow, application_configuration, is_configuration, of_target,
}
use mini_dock.App.Configuration.{Values, value_of}
use mini_dock.App.Environment.{Opener, collect, configuration_values}

-- The table has a row for the name with the value, or it has no row for the name.
abbrev pub IsStored : Vault → ℕ → String → String → String → Option String → Type 0
IsStored v i e t name (some value) =
    (row : ConfigurationRow) × Memᴰ row v.configuration
    × (is_configuration i e t name row ≡ true)
    × (row.value ≡ value)
IsStored v i e t name none = any (is_configuration i e t name) v.configuration ≡ false

collected_from :
    (P : ConfigurationRow → Type 0) (rows : List ConfigurationRow) (m : Values)
    (name value : String)
    → All P rows
    → value_of name (collect rows m) ≡ some value
    → ((row : ConfigurationRow) × P row × ((row.name =s= name) ≡ true) × (row.value ≡ value))
      ⊎ (value_of name m ≡ some value)
unfolding collect value_of
collected_from P [] m name value all h = inr h
collected_from P (c ∷ rows) m name value all h =
    elim (collected_from P rows ((c.name, c.value) ∷ m) name value all.1 h) [
      | inl row ↦ inl row
      | inr first ↦ elim (Bool-cases (c.name =s= name)) [
        | inl hit ↦ inl (c, all.0, hit, ground arith)
        | inr miss ↦ inr (rw miss at first)
      ]
    ]

never_collected :
    (rows : List ConfigurationRow) (m : Values) (name : String)
    → value_of name (collect rows m) ≡ none
    → All (λ (c : ConfigurationRow). (c.name =s= name) ≡ false) rows × (value_of name m ≡ none)
unfolding collect value_of
never_collected [] m name h = (tt, h)
never_collected (c ∷ rows) m name h =
    let (later, first) = never_collected rows ((c.name, c.value) ∷ m) name h in
    elim (Bool-cases (c.name =s= name)) [
      | inl hit ↦ absurd (ground arith)
      | inr miss ↦ ((miss, later), rw miss at first)
    ]

any_configuration_none :
    (i : ℕ) (e t name : String) (rows : List ConfigurationRow)
    → All (λ (c : ConfigurationRow). (c.name =s= name) ≡ false) (where_rows (of_target i e t) rows)
    → any (is_configuration i e t name) rows ≡ false
unfolding where_rows
any_configuration_none i e t name [] h = refl
any_configuration_none i e t name (c ∷ rows) h = elim (Bool-cases (of_target i e t c)) [
  | inl hit ↦
      let (first, rest) = rw hit at h in
      let later = any_configuration_none i e t name rows rest in ground arith
  | inr miss ↦ let later = any_configuration_none i e t name rows (rw miss at h) in ground arith
]

pub configuration_values-IsStored :
    (o : Opener) (v : Vault) (i : ℕ) (e t name : String)
    → IsStored v i e t name (value_of name (configuration_values o v i e t))
unfolding application_configuration value_of
configuration_values-IsStored o v i e t name =
    go (value_of name (configuration_values o v i e t)) refl
  where
    go :
        (found : Option String)
        → value_of name (configuration_values o v i e t) ≡ found
        → IsStored v i e t name found
    go (some value) h =
        let In : ConfigurationRow → Type 0 =
          λ c. Memᴰ c v.configuration × (of_target i e t c ≡ true) in
        let listed =
          All-sort_by (λ (a : ConfigurationRow) b. o.name_le a.name b.name) In _
            (where_rows-Memᴰ (of_target i e t) v.configuration) in
        elim (collected_from In (application_configuration o.name_le v i e t) [] name value listed
          h) [
            | inl (row, stored, named, same) ↦ (row, stored.0, ground arith, same)
            | inr never ↦ absurd (ground arith)
          ]
    go none h = any_configuration_none i e t name v.configuration (
        All-of_sort_by (λ (a : ConfigurationRow) b. o.name_le a.name b.name) _ _
          (never_collected (application_configuration o.name_le v i e t) [] name h).0)
