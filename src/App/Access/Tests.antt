-- ===== src/App/Access/Tests.antt =====
-- A panel under a toy key derivation and a toy cipher: a key is the length of the password, and a
-- sealed text carries its key.
use Prim.Native.String.{len}
use mini_dock.Prelude.{
  ℕ, ◌≡◌, ◌≢◌, ◌<◌, ◌≤◌, ◌∙◌, sym, ap, refl, String, true, false, ltb, Option, none, some, List, [],
  ◌∷◌, arith, ◌==◌, eq_iff, if◌then◌else◌, Result, ok,
}
use mini_dock.Prelude.Rows.{find_where, delete_where, count_where}
use mini_dock.Store.Unlock.{
  unlock_lockout_until, register_failed_unlock, clear_unlock_failures, in_scope, put_attempt,
}
use mini_dock.Store.Unlock.Account.{counting, Shows}
use mini_dock.Store.Settings.{SecurityConfig, initialize_security, security_config, is_initialized}
use mini_dock.App.Access.{
  validate_key, derive_key, Panel, Request, Crypto, authorized, unlock, setup, lock,
}
use mini_dock.App.Access.Granted.{
  Event, unlocking, setting_up, locking, after, HasSession, KnowsPassword, authorized-HasSession,
}
use mini_dock.App.Access.Guessing.{guesses, AllFail, guesses-le-five}

abbrev opened_by : ℕ → List ℕ → Option (List ℕ)
opened_by key [] = none
opened_by key (k ∷ text) = if k == key then some text else none

abbrev head_of : List ℕ → ℕ
head_of [] = 0
head_of (x ∷ xs) = x

abbrev toy : Crypto
toy = record {
  pbkdf2 = λ password salt. ok (len password ∷ []);
  gcm = record {
    key_fits = λ key. true;
    nonce_size = 1;
    overhead = 1;
    seal = λ key nonce text aad. head_of key ∷ text;
    open_ = λ key nonce sealed aad. opened_by (head_of key) sealed;
  };
  verifier = 42 ∷ [];
  mac = λ key session. session;
  hex_digest = λ text. text;
  split_host = λ address. some address;
}

abbrev request : ℕ → String → String → Request
request at password session = record {
  at = at;
  remote_addr = "10.0.0.1";
  form_ok = true;
  password = password;
  password_confirmation = password;
  cookie = none;
  salt = 1 ∷ 2 ∷ 3 ∷ 4 ∷ 5 ∷ 6 ∷ 7 ∷ 8 ∷ 9 ∷ 10 ∷ 11 ∷ 12 ∷ 13 ∷ 14 ∷ 15 ∷ 16 ∷ [];
  nonce = 1 ∷ [];
  session = some session;
}

abbrev fresh_panel : Panel
fresh_panel = record { key = []; sessions = []; attempts = []; settings = [] }

-- Eleven characters of twelve bytes are long enough.
accepts_bytes : ltb (len "contraseñas") 12 ≡ false
accepts_bytes = refl

abbrev history : List Event
history =
    unlocking (request 9 "correct horse" "b")
    ∷ unlocking (request 8 "wrong" "x")
    ∷ locking
    ∷ setting_up (request 5 "correct horse" "a")
    ∷ []

history_authorizes : authorized 100 (some "b") (after toy fresh_panel history) ≡ true
unfolding authorized unlock setup lock find_where delete_where count_where initialize_security
    security_config is_initialized unlock_lockout_until register_failed_unlock clear_unlock_failures
    put_attempt
history_authorizes = refl

authorized-HasSession_example :
    (expires : ℕ) × HasSession toy fresh_panel "b" expires history × (100 < expires)
authorized-HasSession_example =
    authorized-HasSession toy fresh_panel history 100 "b" refl history_authorizes

-- The panel is set up and locked, and two wrong passwords come.
abbrev locked_panel : Panel
locked_panel = after toy fresh_panel (locking ∷ setting_up (request 5 "correct horse" "a") ∷ [])

abbrev tries : List Event
tries = unlocking (request 20 "wrong" "x") ∷ unlocking (request 21 "false" "x") ∷ []

-- The configuration that the setup has stored.
abbrev stored_config : SecurityConfig
stored_config = record {
  salt = (request 5 "" "").salt;
  verifier_nonce = 1 ∷ [];
  verifier_cipher = 13 ∷ 42 ∷ [];
}

ok_inj : {A : Type 0} {x y : A} → ◌≡◌ {A = Result A} (ok x) (ok y) → x ≡ y
ok_inj e = cc

refused_password :
    (p : Panel) (r : Request)
    → security_config p.settings ≡ ok stored_config
    → derive_key toy r.password stored_config.salt ≡ ok (5 ∷ [])
    → ¬ KnowsPassword toy p r
refused_password p r stored derived knows =
    let same : stored_config ≡ knows.config = ok_inj (sym stored ∙ knows.stored) in
    let same_key : 5 ∷ [] ≡ knows.key = ok_inj (
      sym derived
      ∙ ap (λ (c : SecurityConfig). derive_key toy r.password c.salt) same
      ∙ knows.derived) in
    let checked : validate_key toy (5 ∷ []) stored_config ≡ true =
      ap (λ (key : List ℕ). validate_key toy key stored_config) same_key
      ∙ ap (λ (c : SecurityConfig). validate_key toy knows.key c) same
      ∙ knows.valid in
    absurd (ground arith)

tries-AllFail : AllFail toy "unlock:10.0.0.1" 20 tries locked_panel
unfolding unlock setup lock find_where delete_where count_where initialize_security security_config
    is_initialized unlock_lockout_until register_failed_unlock clear_unlock_failures put_attempt
tries-AllFail = (
  (λ own. (refused_password _ (request 20 "wrong" "x") refl refl, ground arith, ground arith)),
  (
    (λ own. (refused_password _ (request 21 "false" "x") refl refl, ground arith, ground arith)),
    tt,
  ),
)

locked_panel-Shows :
    Shows (find_where (in_scope "unlock:10.0.0.1") locked_panel.attempts) (counting 0)
unfolding lock setup find_where delete_where count_where initialize_security is_initialized
locked_panel-Shows = refl

named : ◌≢◌ {A = String} "unlock:10.0.0.1" ""
named e = ground (arith, eq_iff "unlock:10.0.0.1" "")

guesses-le-five_example : guesses toy "unlock:10.0.0.1" tries locked_panel ≤ 5
guesses-le-five_example =
    guesses-le-five toy "unlock:10.0.0.1" named 20 tries locked_panel (counting 0)
      locked_panel-Shows (omega arith) tries-AllFail
