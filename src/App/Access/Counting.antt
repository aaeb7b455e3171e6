-- ===== src/App/Access/Counting.antt =====
-- What an unlock and a setup do to the table of failed attempts.
use Prim.Native.String.{len}
use mini_dock.Prelude.{
  ℕ, ◌≤◌, ◌≡◌, refl, ap, sym, ◌∙◌, ◌⊎◌, String, Bool, true, false, not, Option, none, some, List,
  [], arith, Bool-cases, inl, inr, ltb, ◌=s=◌, if◌then◌else◌, Result, ok, err, Done, ◌||◌,
}
use mini_dock.Store.Unlock.{
  Attempts, unlock_lockout_until, register_failed_unlock, clear_unlock_failures,
}
use mini_dock.Store.Settings.{Settings, SecurityConfig, security_config, is_initialized}
use mini_dock.Backup.Cipher.{encrypt_with_aad}
use mini_dock.App.Access.{
  Panel, Request, Reply, Crypto, redirected, refused, setup_page, too_many, wrong_password, served,
  new_session, derive_key, validate_key, unlock_scope, with_key, when_cleared, with_config,
  with_lockout, unlock, setup, initialized_with, with_verifier, with_new_key,
}
use mini_dock.App.Access.Granted.{KnowsPassword}

abbrev pub is_wrong : Reply → ℕ
is_wrong wrong_password = 1
is_wrong _ = 0

pub is_wrong-le : (reply : Reply) → is_wrong reply ≤ 1
is_wrong-le (redirected location) = omega arith
is_wrong-le (refused status) = omega arith
is_wrong-le (setup_page message) = omega arith
is_wrong-le (too_many until) = omega arith
is_wrong-le wrong_password = omega arith
is_wrong-le served = omega arith

module _ (k : Crypto) (r : Request) where
  attempts-new_session :
      (now : ℕ) (id : Option String) (p : Panel) → (new_session now id p).attempts ≡ p.attempts
  attempts-new_session now none p = refl
  attempts-new_session now (some i) p = refl

  -- An unlock leaves the attempts, or counts a failure where no lockout runs, or succeeds.
  pub unlock_cases :
      (p : Panel)
      → let scope = unlock_scope k r.remote_addr in
        (((unlock k r p).0.attempts ≡ p.attempts) × (is_wrong (unlock k r p).1 ≡ 0))
        ⊎ (((unlock k r p).0.attempts ≡ (register_failed_unlock p.attempts scope r.at).0)
            × (unlock_lockout_until p.attempts scope r.at ≡ ok none))
        ⊎ (((unlock k r p).0.attempts ≡ (clear_unlock_failures p.attempts scope).0)
            × KnowsPassword k p r)
  unfolding unlock
  unlock_cases p = parsed r.form_ok
    where
      scope : String
      scope = unlock_scope k r.remote_addr

      Cases : Panel × Reply → Type 0
      Cases a =
          ((a.0.attempts ≡ p.attempts) × (is_wrong a.1 ≡ 0))
          ⊎ ((a.0.attempts ≡ (register_failed_unlock p.attempts scope r.at).0)
              × (unlock_lockout_until p.attempts scope r.at ≡ ok none))
          ⊎ ((a.0.attempts ≡ (clear_unlock_failures p.attempts scope).0) × KnowsPassword k p r)

      cleared :
          (key : List ℕ) (a : Attempts × Done)
          → clear_unlock_failures p.attempts scope ≡ a
          → KnowsPassword k p r
          → Cases (when_cleared k r key p a)
      cleared key (attempts, err e) c knows = inl (refl, refl)
      cleared key (attempts, ok _) c knows =
          inr (inr (attempts-new_session r.at r.session _ ∙ sym (ap (λ x. x.0) c), knows))

      keyed :
          (c : SecurityConfig) (answer : Result (List ℕ))
          → unlock_lockout_until p.attempts scope r.at ≡ ok none
          → security_config p.settings ≡ ok c
          → derive_key k r.password c.salt ≡ answer
          → Cases (with_key k r scope c p answer)
      keyed c (err e) open_ stored derived = inl (refl, refl)
      keyed c (ok key) open_ stored derived = elim (Bool-cases (validate_key k key c)) [
        | inr wrong ↦ rw wrong (inr (inl (refl, open_)))
        | inl right ↦ rw right (
            cleared key (clear_unlock_failures p.attempts scope) refl (record {
              config = c;
              key = key;
              stored = stored;
              derived = derived;
              valid = right;
              not_locked_out = open_;
            }))
      ]

      configured :
          (c : Result SecurityConfig)
          → unlock_lockout_until p.attempts scope r.at ≡ ok none
          → security_config p.settings ≡ c
          → Cases (with_config k r scope p c)
      configured (err e) open_ stored = inl (refl, refl)
      configured (ok c) open_ stored = keyed c (derive_key k r.password c.salt) open_ stored refl

      lockout :
          (l : Result (Option ℕ))
          → unlock_lockout_until p.attempts scope r.at ≡ l
          → Cases (with_lockout k r scope p l)
      lockout (err e) open_ = inl (refl, refl)
      lockout (ok (some until)) open_ = inl (refl, refl)
      lockout (ok none) open_ = configured (security_config p.settings) open_ refl

      parsed :
          (form_ok : Bool)
          → Cases (
              if not form_ok
              then (p, refused 400)
              else with_lockout k r scope p (unlock_lockout_until p.attempts scope r.at))
      parsed false = inl (refl, refl)
      parsed true = lockout (unlock_lockout_until p.attempts scope r.at) refl

  pub attempts-setup : (p : Panel) → (setup k r p).0.attempts ≡ p.attempts
  unfolding setup
  attempts-setup p = elim (Bool-cases (is_initialized p.settings)) [
    | inl before ↦ rw before refl
    | inr first ↦ elim (Bool-cases (r.form_ok)) [
      | inr bad ↦ rw (first, bad) refl
      | inl fine ↦
          elim (Bool-cases
            (ltb (len r.password) 12 || not (r.password =s= r.password_confirmation))) [
              | inl weak ↦ rw (first, fine, weak) refl
              | inr strong ↦ rw (first, fine, strong) (keyed (derive_key k r.password r.salt))
            ]
    ]
  ]
    where
      stored :
          (key : List ℕ) (answer : Settings × Done)
          → (initialized_with k r key p answer).0.attempts ≡ p.attempts
      stored key (settings, err e) = refl
      stored key (settings, ok _) = attempts-new_session r.at r.session _

      verified :
          (key : List ℕ) (sealed : Result (List ℕ × List ℕ))
          → (with_verifier k r key p sealed).0.attempts ≡ p.attempts
      verified key (err e) = refl
      verified key (ok (nonce, cipher)) = stored key _

      keyed : (key : Result (List ℕ)) → (with_new_key k r p key).0.attempts ≡ p.attempts
      keyed (err e) = refl
      keyed (ok key) = verified key (encrypt_with_aad k.gcm r.nonce key k.verifier [])
