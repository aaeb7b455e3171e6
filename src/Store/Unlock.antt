-- ===== src/Store/Unlock.antt =====
-- internal/store/store.go: the password lockouts of unlock_attempts. A scope is an opaque text; a
-- time of 0 is Go's zero time.
pub mod Lockout
pub mod Account
use mini_dock.Prelude.{
  ℕ, ◌+◌, ◌*◌, String, Bool, Option, none, some, List, [], ◌∷◌, ltb, leb, ◌=s=◌, if◌then◌else◌,
  Result, ok, err, invalid_argument, Done, done,
}
use mini_dock.Prelude.Rows.{find_where, delete_where}
use mini_dock.Store.Tables.{second}

pub record Attempt : Type 0 where
  pub scope : String
  pub failed_attempts : ℕ
  pub lockout_until : Option ℕ

abbrev pub Attempts : Type 0
Attempts = List Attempt

-- 5 * time.Minute
abbrev pub lockout_duration : ℕ
lockout_duration = 300 * second

abbrev pub max_failures : ℕ
max_failures = 5

abbrev pub in_scope : String → Attempt → Bool
in_scope scope a = a.scope =s= scope

-- INSERT … ON CONFLICT(scope) DO UPDATE
unfoldable pub put_attempt : Attempt → Attempts → Attempts
put_attempt a [] = a ∷ []
put_attempt a (b ∷ bs) = if b.scope =s= a.scope then a ∷ bs else b ∷ put_attempt a bs

-- until.Valid && until.Time.After(now)
abbrev pub active_lockout : ℕ → Option ℕ → Option ℕ
active_lockout now none = none
active_lockout now (some until) = if ltb now until then some until else none

abbrev pub lockout_of : Option Attempt → Option ℕ
lockout_of none = none
lockout_of (some a) = a.lockout_until

abbrev pub failures_of : Option Attempt → ℕ
failures_of none = 0
failures_of (some a) = a.failed_attempts

-- UnlockLockoutUntil: the end of a lockout that is still running.
unfoldable pub unlock_lockout_until : Attempts → String → ℕ → Result (Option ℕ)
unlock_lockout_until t scope now =
    if scope =s= ""
    then err invalid_argument
    else ok (active_lockout now (lockout_of (find_where (in_scope scope) t)))

-- The part of RegisterFailedUnlock after the check for a running lockout.
abbrev pub locked_row : String → ℕ → Attempt
locked_row scope until = record { scope = scope; failed_attempts = 0; lockout_until = some until }

abbrev pub counted_row : String → ℕ → Attempt
counted_row scope failures = record {
  scope = scope;
  failed_attempts = failures;
  lockout_until = none;
}

abbrev pub count_failure : Attempts → String → ℕ → ℕ → Attempts × Result (Option ℕ)
count_failure t scope now failures =
    if leb max_failures (failures + 1)
    then (
      put_attempt (locked_row scope (now + lockout_duration)) t,
      ok (some (now + lockout_duration)),
    )
    else (put_attempt (counted_row scope (failures + 1)) t, ok none)

abbrev pub register :
    Attempts → String → ℕ → Option Attempt → Option ℕ → Attempts × Result (Option ℕ)
register t scope now row (some until) = (t, ok (some until))
register t scope now row none = count_failure t scope now (failures_of row)

-- RegisterFailedUnlock
unfoldable pub register_failed_unlock : Attempts → String → ℕ → Attempts × Result (Option ℕ)
register_failed_unlock t scope now =
    if scope =s= ""
    then (t, err invalid_argument)
    else (let row = find_where (in_scope scope) t in
        register t scope now row (active_lockout now (lockout_of row)))

-- ClearUnlockFailures
unfoldable pub clear_unlock_failures : Attempts → String → Attempts × Done
clear_unlock_failures t scope =
    if scope =s= "" then (t, err invalid_argument) else (delete_where (in_scope scope) t, done)
