-- ===== src/Store/Settings.antt =====
-- internal/store/store.go: the table of settings, with the salt and the verifier of the master
-- password. A value is a list of bytes.
pub mod Initialized
use mini_dock.Prelude.{
  ℕ, String, Bool, Option, none, some, List, [], ◌∷◌, ◌==◌, ◌=s=◌, if◌then◌else◌, any, Result, ok,
  err, not_found, constraint_failed, Done, done,
}
use mini_dock.Prelude.Rows.{count_where, find_where, update_where}

pub record Setting : Type 0 where
  pub key : String
  pub value : List ℕ

abbrev pub Settings : Type 0
Settings = List Setting

abbrev pub has_key : String → Setting → Bool
has_key key x = x.key =s= key

pub record SecurityConfig : Type 0 where
  pub salt : List ℕ
  pub verifier_nonce : List ℕ
  pub verifier_cipher : List ℕ

-- IsInitialized
unfoldable pub is_initialized : Settings → Bool
is_initialized s = count_where (has_key "security.salt") s == 1

-- INSERT, which the primary key refuses.
abbrev pub insert_setting : String → List ℕ → Settings → Result Settings
insert_setting key value s =
    if any (has_key key) s
    then err constraint_failed
    else ok (record { key = key; value = value } ∷ s)

abbrev pub then_insert : String → List ℕ → Result Settings → Result Settings
then_insert key value (err e) = err e
then_insert key value (ok s) = insert_setting key value s

-- tx.Commit, or the deferred tx.Rollback.
abbrev pub committed : Settings → Result Settings → Settings × Done
committed before (ok s) = (s, done)
committed before (err e) = (before, err e)

-- InitializeSecurity, in one order of the map's three keys, which are distinct.
unfoldable pub initialize_security : Settings → SecurityConfig → Settings × Done
initialize_security s c = committed s (
    then_insert "security.verifier_cipher" c.verifier_cipher (
      then_insert "security.verifier_nonce" c.verifier_nonce
        (insert_setting "security.salt" c.salt s)))

abbrev pub set_value : List ℕ → Setting → Setting
set_value value x = record x { value = value }

-- UpdateSecurityConfig
unfoldable pub update_security_config : Settings → SecurityConfig → Settings
update_security_config s c =
    update_where (has_key "security.verifier_cipher") (set_value c.verifier_cipher) (
      update_where (has_key "security.verifier_nonce") (set_value c.verifier_nonce)
        (update_where (has_key "security.salt") (set_value c.salt) s))

abbrev pub all_three : Option Setting → Option Setting → Option Setting → Result SecurityConfig
all_three (some salt) (some nonce) (some cipher) =
    ok (record { salt = salt.value; verifier_nonce = nonce.value; verifier_cipher = cipher.value })
all_three _ _ _ = err not_found

-- SecurityConfig: three values, or ErrNotFound.
unfoldable pub security_config : Settings → Result SecurityConfig
security_config s =
    all_three (find_where (has_key "security.salt") s)
      (find_where (has_key "security.verifier_nonce") s)
      (find_where (has_key "security.verifier_cipher") s)

-- SetSettingString: INSERT … ON CONFLICT(key) DO UPDATE
unfoldable pub set_setting_string : String → List ℕ → Settings → Settings
set_setting_string key value [] = record { key = key; value = value } ∷ []
set_setting_string key value (x ∷ xs) =
    if x.key =s= key then set_value value x ∷ xs else x ∷ set_setting_string key value xs

abbrev pub value_or_empty : Option Setting → List ℕ
value_or_empty none = []
value_or_empty (some x) = x.value

-- SettingString: a missing key is the empty text.
unfoldable pub setting_string : Settings → String → List ℕ
setting_string s key = value_or_empty (find_where (has_key key) s)
