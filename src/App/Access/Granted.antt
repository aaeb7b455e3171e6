-- ===== src/App/Access/Granted.antt =====
-- internal/app/server.go: setup, unlock, lock and the sessions, over a history of requests.
use Prim.Native.String.{len}
use mathlib.Core.Path.{subst}
use mini_dock.Prelude.{
  ℕ, ◌+◌, ◌≡◌, ◌<◌, refl, String, true, false, not, ◌||◌, Option, none, some, List, [], ◌∷◌, All,
  All-mono, arith, Bool-cases, inl, inr, ltb, ltb→lt, ◌=s=◌, eq_iff, and-eq-true, Result, ok, err,
  Done,
}
use mini_dock.Prelude.Rows.{find_where, delete_where}
use mini_dock.Prelude.Rows.Laws.{All-delete_where, All-Memᴰ, find_where-Memᴰ, find_where_test}
use mini_dock.Store.Unlock.{Attempts, unlock_lockout_until, clear_unlock_failures}
use mini_dock.Store.Settings.{Settings, SecurityConfig, is_initialized, security_config}
use mini_dock.Backup.Cipher.{encrypt_with_aad}
use mini_dock.App.Access.{
  Panel, Session, Request, Crypto, session_duration, is_session, is_over, new_session, lock,
  is_alive, authorized, derive_key, validate_key, unlock_scope, with_key, when_cleared, with_config,
  with_lockout, unlock, setup, initialized_with, with_verifier, with_new_key,
}

pub data Event : Type 0 where
  unlocking : Request → Event
  setting_up : Request → Event
  locking : Event

abbrev pub access_step : Crypto → Event → Panel → Panel
access_step k (unlocking r) p = (unlock k r p).0
access_step k (setting_up r) p = (setup k r p).0
access_step k locking p = lock p

-- The panel after a history, whose newest event stands first.
abbrev pub after : Crypto → Panel → List Event → Panel
after k start [] = start
after k start (e ∷ es) = access_step k e (after k start es)

-- The password of the request opens the stored verifier, and its origin is not locked out.
pub record KnowsPassword (k : Crypto) (p : Panel) (r : Request) : Type 0 where
  pub config : SecurityConfig
  pub key : List ℕ
  pub stored : security_config p.settings ≡ ok config
  pub derived : derive_key k r.password config.salt ≡ ok key
  pub valid : validate_key k key config ≡ true
  pub not_locked_out : unlock_lockout_until p.attempts (unlock_scope k r.remote_addr) r.at ≡ ok none

-- A history has granted a session until `expires`: by an unlock with the password, or by the setup
-- of the password, and the panel was not locked since.
pub data HasSession (k : Crypto) (start : Panel) (id : String) (expires : ℕ)
    : List Event → Type 0 where
  by_unlock :
      (r : Request) (es : List Event)
      → KnowsPassword k (after k start es) r
      → r.session ≡ some id
      → expires ≡ r.at + session_duration
      → HasSession k start id expires (unlocking r ∷ es)
  by_setup :
      (r : Request) (es : List Event)
      → is_initialized (after k start es).settings ≡ false
      → r.session ≡ some id
      → expires ≡ r.at + session_duration
      → HasSession k start id expires (setting_up r ∷ es)
  kept_by_unlock :
      (r : Request) (es : List Event)
      → HasSession k start id expires es
      → HasSession k start id expires (unlocking r ∷ es)
  kept_by_setup :
      (r : Request) (es : List Event)
      → HasSession k start id expires es
      → HasSession k start id expires (setting_up r ∷ es)

-- A new session passes a test that the old ones pass too.
new_session-All :
    (P : Session → Type 0) (now : ℕ) (id : Option String) (p : Panel)
    → ((i : String) → id ≡ some i → P (record { id = i; expires = now + session_duration }))
    → All P p.sessions
    → All P (new_session now id p).sessions
new_session-All P now none p new h = h
new_session-All P now (some i) p new h = (
  new i refl,
  All-delete_where P (is_session i) (delete_where (is_over now) p.sessions)
      (All-delete_where P (is_over now) p.sessions h),
)

module _ (k : Crypto) (r : Request) (P : Session → Type 0) where
  cleared-All :
      (key : List ℕ) (p : Panel) (answer : Attempts × Done)
      → ((i : String)
          → r.session ≡ some i
          → P (record { id = i; expires = r.at + session_duration }))
      → All P p.sessions
      → All P (when_cleared k r key p answer).0.sessions
  cleared-All key p (attempts, err e) new h = h
  cleared-All key p (attempts, ok _) new h = new_session-All P r.at r.session _ new h

  unlock-All :
      (p : Panel)
      → (KnowsPassword k p r
          → (i : String) → r.session ≡ some i
          → P (record { id = i; expires = r.at + session_duration }))
      → All P p.sessions
      → All P (unlock k r p).0.sessions
  unfolding unlock
  unlock-All p new h = elim (Bool-cases (r.form_ok)) [
    | inr bad ↦ rw bad h
    | inl fine ↦
        rw fine (lockout (unlock_lockout_until p.attempts (unlock_scope k r.remote_addr) r.at) refl)
  ]
    where
      scope : String
      scope = unlock_scope k r.remote_addr

      keyed :
          (c : SecurityConfig) (derived : Result (List ℕ))
          → unlock_lockout_until p.attempts scope r.at ≡ ok none
          → security_config p.settings ≡ ok c
          → derive_key k r.password c.salt ≡ derived
          → All P (with_key k r scope c p derived).0.sessions
      keyed c (err e) open_ stored d = h
      keyed c (ok key) open_ stored d = elim (Bool-cases (validate_key k key c)) [
        | inr wrong ↦ rw wrong h
        | inl right ↦ rw right (
            cleared-All key p (clear_unlock_failures p.attempts scope)
              (new (record {
                config = c;
                key = key;
                stored = stored;
                derived = d;
                valid = right;
                not_locked_out = open_;
              }))
              h)
      ]

      configured :
          (c : Result SecurityConfig)
          → unlock_lockout_until p.attempts scope r.at ≡ ok none
          → security_config p.settings ≡ c
          → All P (with_config k r scope p c).0.sessions
      configured (err e) open_ stored = h
      configured (ok c) open_ stored = keyed c (derive_key k r.password c.salt) open_ stored refl

      lockout :
          (l : Result (Option ℕ))
          → unlock_lockout_until p.attempts scope r.at ≡ l
          → All P (with_lockout k r scope p l).0.sessions
      lockout (err e) open_ = h
      lockout (ok (some until)) open_ = h
      lockout (ok none) open_ = configured (security_config p.settings) open_ refl

  setup-All :
      (p : Panel)
      → (is_initialized p.settings ≡ false
          → (i : String) → r.session ≡ some i
          → P (record { id = i; expires = r.at + session_duration }))
      → All P p.sessions
      → All P (setup k r p).0.sessions
  unfolding setup
  setup-All p new h = elim (Bool-cases (is_initialized p.settings)) [
    | inl before ↦ rw before h
    | inr first ↦ elim (Bool-cases (r.form_ok)) [
      | inr bad ↦ rw (first, bad) h
      | inl fine ↦
          elim (Bool-cases
            (ltb (len r.password) 12 || not (r.password =s= r.password_confirmation))) [
              | inl weak ↦ rw (first, fine, weak) h
              | inr strong ↦ rw (first, fine, strong) (keyed first (derive_key k r.password r.salt))
            ]
    ]
  ]
    where
      stored :
          (key : List ℕ) (answer : Settings × Done)
          → is_initialized p.settings ≡ false
          → All P (initialized_with k r key p answer).0.sessions
      stored key (settings, err e) first = h
      stored key (settings, ok _) first = new_session-All P r.at r.session _ (new first) h

      verified :
          (key : List ℕ) (sealed : Result (List ℕ × List ℕ))
          → is_initialized p.settings ≡ false
          → All P (with_verifier k r key p sealed).0.sessions
      verified key (err e) first = h
      verified key (ok (nonce, cipher)) first = stored key _ first

      keyed :
          is_initialized p.settings ≡ false
          → (key : Result (List ℕ)) → All P (with_new_key k r p key).0.sessions
      keyed first (err e) = h
      keyed first (ok key) = verified key (encrypt_with_aad k.gcm r.nonce key k.verifier []) first

sessions_granted :
    (k : Crypto) (start : Panel) (es : List Event)
    → start.sessions ≡ []
    → All (λ (s : Session). HasSession k start s.id s.expires es) (after k start es).sessions
unfolding lock
sessions_granted k start [] empty = rw empty tt
sessions_granted k start (unlocking r ∷ es) empty =
    unlock-All k r (λ s. HasSession k start s.id s.expires (unlocking r ∷ es)) (after k start es)
      (λ knows i fresh. HasSession.by_unlock r es knows fresh refl)
      (All-mono _ _ (λ s h. HasSession.kept_by_unlock r es h) (after k start es).sessions
        (sessions_granted k start es empty))
sessions_granted k start (setting_up r ∷ es) empty =
    setup-All k r (λ s. HasSession k start s.id s.expires (setting_up r ∷ es)) (after k start es)
      (λ first i fresh. HasSession.by_setup r es first fresh refl)
      (All-mono _ _ (λ s h. HasSession.kept_by_setup r es h) (after k start es).sessions
        (sessions_granted k start es empty))
sessions_granted k start (locking ∷ es) empty = tt

-- After any history of setups, unlocks and locks of a panel that starts without sessions, a
-- request is authorized only with the cookie of a session that does not end before it, and that
-- was granted by the first setup, or by an unlock with the master password from an origin that was
-- not locked out, with no lock of the panel since.
pub authorized-HasSession :
    (k : Crypto) (start : Panel) (es : List Event) (now : ℕ) (id : String)
    → start.sessions ≡ []
    → authorized now (some id) (after k start es) ≡ true
    → (expires : ℕ) × HasSession k start id expires es × (now < expires)
unfolding authorized
authorized-HasSession k start es now id empty h =
    found (find_where (is_session id) (after k start es).sessions) refl (and-eq-true _ _ h).1
  where
    found :
        (row : Option Session)
        → find_where (is_session id) (after k start es).sessions ≡ row
        → is_alive now row ≡ true
        → (expires : ℕ) × HasSession k start id expires es × (now < expires)
    found none e alive = absurd (ground arith)
    found (some s) e alive =
        let granted =
          All-Memᴰ (λ (s : Session). HasSession k start s.id s.expires es)
            (after k start es).sessions s (sessions_granted k start es empty)
            (find_where-Memᴰ (is_session id) (after k start es).sessions e) in
        let same : s.id ≡ id =
          (eq_iff s.id id).0 (find_where_test (is_session id) (after k start es).sessions e) in
        (
          s.expires,
          subst (λ i. HasSession k start i s.expires es) same granted,
          ltb→lt now s.expires alive,
        )
