-- ===== src/Store/Settings/Initialized.antt =====
-- internal/store/store.go: InitializeSecurity, over two calls.
use mini_dock.Prelude.{
  ◌≡◌, refl, true, false, [], ◌∷◌, any, arith, Bool-cases, inl, inr, ◌⊎◌, ok, err, done,
  constraint_failed,
}
use mini_dock.Prelude.Rows.{count_where, find_where}
use mini_dock.Store.Settings.{
  Settings, SecurityConfig, has_key, is_initialized, initialize_security, security_config,
}

pub salt_counted :
    (s : Settings)
    → count_where (has_key "security.salt") s ≡ 1
    → any (has_key "security.salt") s ≡ true
unfolding count_where
salt_counted [] h = absurd (ground arith)
salt_counted (x ∷ xs) h = elim (Bool-cases (has_key "security.salt" x)) [
  | inl hit ↦ rw hit refl
  | inr miss ↦ rw miss (salt_counted xs (rw miss at h))
]

no_row :
    (s : Settings)
    → any (has_key "security.salt") s ≡ false
    → count_where (has_key "security.salt") s ≡ 0
unfolding count_where
no_row [] h = refl
no_row (x ∷ xs) h = ground (arith, no_row xs)

-- InitializeSecurity either stores all of a configuration, which SecurityConfig then returns, or
-- fails and changes nothing. Once it has succeeded, the panel is initialized, and any further call
-- fails and changes nothing.
pub initialize_security_once :
    (s : Settings) (c d : SecurityConfig)
    → let (s', answer) = initialize_security s c in
      ((answer ≡ done)
        × (security_config s' ≡ ok c)
        × (is_initialized s' ≡ true)
        × (initialize_security s' d ≡ (s', err constraint_failed)))
      ⊎ ((answer ≡ err constraint_failed) × (s' ≡ s))
unfolding initialize_security security_config is_initialized find_where count_where
initialize_security_once s c d = elim (Bool-cases (any (has_key "security.salt") s)) [
  | inl taken ↦ inr (rw taken (refl, refl))
  | inr free ↦ elim (Bool-cases (any (has_key "security.verifier_nonce") s)) [
    | inl taken ↦ inr (rw (free, taken) (refl, refl))
    | inr free' ↦ elim (Bool-cases (any (has_key "security.verifier_cipher") s)) [
      | inl taken ↦ inr (rw (free, free', taken) (refl, refl))
      | inr free'' ↦
          let absent = no_row s free in
          inl (rw (free, free', free'', absent) (refl, refl, refl, refl))
    ]
  ]
]
