-- ===== src/App/Access.antt =====
-- internal/app/server.go: the setup, the lock of the panel, its sessions and the CSRF check, with
-- the master key of internal/security/crypto.go.
pub mod Granted
pub mod Counting
pub mod Guessing
mod Tests
use text.Mathlib.Text.{starts_with}
use Prim.Native.String.{len}
use mini_dock.Prelude.{
  ℕ, ◌+◌, ◌*◌, String, Bool, true, false, not, ◌&&◌, ◌||◌, Option, none, some, List, [], ◌∷◌,
  length, ltb, ◌==◌, ◌=s=◌, if◌then◌else◌, Result, ok, err, invalid_argument, Done,
}
use mini_dock.Prelude.Decimal.{◌+s+◌}
use mini_dock.Prelude.Rows.{find_where, delete_where}
use mini_dock.Store.Tables.{second}
use mini_dock.Store.Unlock.{
  Attempts, unlock_lockout_until, register_failed_unlock, clear_unlock_failures,
}
use mini_dock.Store.Settings.{
  Settings, SecurityConfig, is_initialized, initialize_security, security_config,
}
use mini_dock.Backup.Cipher.{
  Gcm, Outcome, returns, fails, panics, encrypt_with_aad, decrypt_with_aad,
}

-- A session, by the value of its cookie, and when it expires.
pub record Session : Type 0 where
  pub id : String
  pub expires : ℕ

-- The App: an empty key is a locked panel.
pub record Panel : Type 0 where
  pub key : List ℕ
  pub sessions : List Session
  pub attempts : Attempts
  pub settings : Settings

-- What the handlers get from the standard library and from the outside: PBKDF2, AES-GCM, the bytes
-- of the constant `verifier`, HMAC-SHA-256 in base64, SHA-256 in hexadecimal, and the host of an
-- address.
pub record Crypto : Type 0 where
  pub pbkdf2 : String → List ℕ → Result (List ℕ)
  pub gcm : Gcm
  pub verifier : List ℕ
  pub mac : List ℕ → String → String
  pub hex_digest : String → String
  pub split_host : String → Option String

-- A request: who sends it and when, its form, and the cookie minidock_session. `salt`, `nonce` and
-- `session` are what the random source gives while it is served; a session is none where it fails.
pub record Request : Type 0 where
  pub at : ℕ
  pub remote_addr : String
  pub form_ok : Bool
  pub password : String
  pub password_confirmation : String
  pub cookie : Option String
  pub salt : List ℕ
  pub nonce : List ℕ
  pub session : Option String

pub data Reply : Type 0 where
  redirected : (location : String) → Reply
  refused : (status : ℕ) → Reply
  setup_page : (message : Bool) → Reply
  too_many : (until : ℕ) → Reply
  wrong_password : Reply
  served : Reply

-- 12 * time.Hour
abbrev pub session_duration : ℕ
session_duration = 43_200 * second

abbrev pub is_session : String → Session → Bool
is_session id s = s.id =s= id

abbrev pub is_over : ℕ → Session → Bool
is_over now s = ltb s.expires now

-- newSession: it drops the sessions that are over.
abbrev pub new_session : ℕ → Option String → Panel → Panel
new_session now none p = p
new_session now (some id) p =
    let rest = delete_where (is_session id) (delete_where (is_over now) p.sessions) in
    record p { sessions = record { id = id; expires = now + session_duration } ∷ rest }

-- Where newSession fails, its answer comes before the redirection.
abbrev pub session_reply : Option String → Reply
session_reply none = refused 500
session_reply (some id) = redirected "/"

-- setKey
abbrev pub set_key : List ℕ → Panel → Panel
set_key key p = record p { key = key }

-- Lock, which the handler `lock` calls: the sessions go with the key.
unfoldable pub lock : Panel → Panel
lock p = record p { key = []; sessions = [] }

abbrev pub is_alive : ℕ → Option Session → Bool
is_alive now none = false
is_alive now (some s) = ltb now s.expires

abbrev pub has_key_bytes : List ℕ → Bool
has_key_bytes key = not (length key == 0)

-- authorized
unfoldable pub authorized : ℕ → Option String → Panel → Bool
authorized now none p = false
authorized now (some id) p =
    has_key_bytes p.key && is_alive now (find_where (is_session id) p.sessions)

module _ (k : Crypto) where
  -- DeriveKey
  abbrev pub derive_key : String → List ℕ → Result (List ℕ)
  derive_key password salt =
      if ltb (length salt) 16 then err invalid_argument else k.pbkdf2 password salt

  abbrev pub same_list : List ℕ → List ℕ → Bool
  same_list [] [] = true
  same_list (a ∷ xs) (b ∷ ys) = a == b && same_list xs ys
  same_list _ _ = false

  abbrev pub is_verifier : Outcome (List ℕ) → Bool
  is_verifier (returns text) = same_list text k.verifier
  is_verifier fails = false
  is_verifier panics = false

  -- ValidateKey
  abbrev pub validate_key : List ℕ → SecurityConfig → Bool
  validate_key key c =
      is_verifier (decrypt_with_aad k.gcm key c.verifier_nonce c.verifier_cipher [])

  abbrev pub origin_host : String → Option String → String
  origin_host address none = address
  origin_host address (some host) = if host =s= "" then address else host

  -- unlockScope
  abbrev pub unlock_scope : String → String
  unlock_scope address = "unlock:" +s+ k.hex_digest (origin_host address (k.split_host address))

  abbrev pub when_cleared : Request → List ℕ → Panel → Attempts × Done → Panel × Reply
  when_cleared r key p (attempts, err e) = (p, refused 503)
  when_cleared r key p (attempts, ok _) = (
    new_session r.at r.session (set_key key (record p { attempts = attempts })),
    session_reply r.session,
  )

  -- The end of `unlock`: the password is right.
  abbrev pub opened : Request → String → List ℕ → Panel → Panel × Reply
  opened r scope key p = when_cleared r key p (clear_unlock_failures p.attempts scope)

  abbrev pub failed_reply : Result (Option ℕ) → Reply
  failed_reply (err e) = refused 503
  failed_reply (ok until) = wrong_password

  -- The password is wrong.
  abbrev pub not_opened : Request → String → Panel → Panel × Reply
  not_opened r scope p =
      let answer = register_failed_unlock p.attempts scope r.at in
      (record p { attempts = answer.0 }, failed_reply answer.1)

  abbrev pub with_key : Request → String → SecurityConfig → Panel → Result (List ℕ) → Panel × Reply
  with_key r scope c p (err e) = (p, refused 500)
  with_key r scope c p (ok key) =
      if validate_key key c then opened r scope key p else not_opened r scope p

  abbrev pub with_config : Request → String → Panel → Result SecurityConfig → Panel × Reply
  with_config r scope p (err e) = (p, refused 503)
  with_config r scope p (ok c) = with_key r scope c p (derive_key r.password c.salt)

  abbrev pub with_lockout : Request → String → Panel → Result (Option ℕ) → Panel × Reply
  with_lockout r scope p (err e) = (p, refused 503)
  with_lockout r scope p (ok (some until)) = (p, too_many until)
  with_lockout r scope p (ok none) = with_config r scope p (security_config p.settings)

  -- unlock
  unfoldable pub unlock : Request → Panel → Panel × Reply
  unlock r p =
      if not (r.form_ok)
      then (p, refused 400)
      else (let scope = unlock_scope r.remote_addr in
          with_lockout r scope p (unlock_lockout_until p.attempts scope r.at))

  abbrev pub initialized_with : Request → List ℕ → Panel → Settings × Done → Panel × Reply
  initialized_with r key p (settings, err e) = (record p { settings = settings }, setup_page true)
  initialized_with r key p (settings, ok _) = (
    new_session r.at r.session (set_key key (record p { settings = settings })),
    session_reply r.session,
  )

  abbrev pub with_verifier : Request → List ℕ → Panel → Result (List ℕ × List ℕ) → Panel × Reply
  with_verifier r key p (err e) = (p, refused 500)
  with_verifier r key p (ok (nonce, cipher)) = initialized_with r key p (
      initialize_security p.settings
        (record { salt = r.salt; verifier_nonce = nonce; verifier_cipher = cipher }))

  abbrev pub with_new_key : Request → Panel → Result (List ℕ) → Panel × Reply
  with_new_key r p (err e) = (p, refused 500)
  with_new_key r p (ok key) =
      with_verifier r key p (encrypt_with_aad k.gcm r.nonce key k.verifier [])

  -- setup; the salt and the nonce are random. As Go's len, `len` counts the bytes of UTF-8.
  unfoldable pub setup : Request → Panel → Panel × Reply
  setup r p =
      if is_initialized p.settings
      then (p, redirected "/unlock")
      else if not (r.form_ok)
      then (p, refused 400)
      else if ltb (len r.password) 12 || not (r.password =s= r.password_confirmation)
      then (p, setup_page true)
      else with_new_key r p (derive_key r.password r.salt)

  -- csrfTokenFor
  abbrev pub csrf_token_for : String → Panel → String
  csrf_token_for session p = if has_key_bytes p.key then k.mac p.key session else ""

  -- csrfCheck outside of the test environment: whether the next handler is called. `posts` says that
  -- the method is POST, and `token` is that of the form, or else of the header.
  abbrev pub is_exempt : String → Bool
  is_exempt path = starts_with path "/webhooks/" || (path =s= "/setup" || path =s= "/unlock")

  abbrev pub token_fits : String → String → Bool
  token_fits expected actual = not (expected =s= "") && actual =s= expected

  abbrev pub checked_token : Option String → String → Panel → Reply
  checked_token none token p = redirected "/unlock"
  checked_token (some session) token p =
      if token_fits (csrf_token_for session p) token then served else refused 403

  unfoldable pub csrf_check : ℕ → Bool → String → Option String → String → Panel → Reply
  csrf_check now posts path cookie token p =
      if posts && not (is_exempt path)
      then (if authorized now cookie p then checked_token cookie token p else redirected "/unlock")
      else served
