-- ===== src/Store/Unlock/Account.antt =====
-- internal/store/store.go: the table of lockouts, against one account for each scope.
use mathlib.Core.Path.{ap₂}
use mini_dock.Prelude.{
  ℕ, ◌+◌, ◌≡◌, ◌≢◌, refl, ap, sym, String, inl, inr, Option, none, some, List, [], ◌∷◌, arith, ltb,
  leb, Bool-cases, ◌=s=◌, =s=_refl, eq_iff, if◌then◌else◌, Result, ok, Done, done,
}
use mini_dock.Prelude.Rows.{find_where}
use mini_dock.Prelude.Rows.Laws.{find_where-delete_where_self, find_where-delete_where}
use mini_dock.Store.Unlock.{
  Attempt, Attempts, in_scope, lockout_duration, max_failures, locked_row, counted_row,
  active_lockout, lockout_of, failures_of, count_failure, unlock_lockout_until,
  register_failed_unlock, clear_unlock_failures,
}
use mini_dock.Store.Unlock.Lockout.{nonempty, find-put_attempt, register_failed_unlock-other}

-- What a scope's owner sees: failures on the account, or a lockout.
pub data Account : Type 0 where
  counting : ℕ → Account
  locked : ℕ → Account

abbrev pub account_until : ℕ → Account → Option ℕ
account_until now (counting n) = none
account_until now (locked until) = if ltb now until then some until else none

abbrev pub count_on : ℕ → ℕ → Account × Option ℕ
count_on now n =
    if leb max_failures (n + 1)
    then (locked (now + lockout_duration), some (now + lockout_duration))
    else (counting (n + 1), none)

abbrev pub account_fail : ℕ → Account → Account × Option ℕ
account_fail now (counting n) = count_on now n
account_fail now (locked until) =
    if ltb now until then (locked until, some until) else count_on now 0

pub data UnlockCall : Type 0 where
  until_at : ℕ → UnlockCall
  fail_now : ℕ → UnlockCall
  clear_failures : UnlockCall

pub data Answer : Type 0 where
  reported : Result (Option ℕ) → Answer
  cleared : Done → Answer

abbrev pub unlock_call : Attempts → String → UnlockCall → Attempts × Answer
unlock_call t scope (until_at now) = (t, reported (unlock_lockout_until t scope now))
unlock_call t scope (fail_now now) =
    let answer = register_failed_unlock t scope now in (answer.0, reported answer.1)
unlock_call t scope clear_failures =
    let answer = clear_unlock_failures t scope in (answer.0, cleared answer.1)

abbrev pub account_call : Account → UnlockCall → Account × Answer
account_call a (until_at now) = (a, reported (ok (account_until now a)))
account_call a (fail_now now) =
    let answer = account_fail now a in (answer.0, reported (ok answer.1))
account_call a clear_failures = (counting 0, cleared done)

-- The answers that one scope gets from the table, which all scopes share.
unfoldable pub answers_to : String → Attempts → List (String × UnlockCall) → List Answer
answers_to scope t [] = []
answers_to scope t (c ∷ cs) =
    let answer = unlock_call t c.0 c.1 in
    let rest = answers_to scope answer.0 cs in if c.0 =s= scope then answer.1 ∷ rest else rest

-- The calls of one scope, and the answers of an account of its own.
unfoldable pub calls_of : String → List (String × UnlockCall) → List UnlockCall
calls_of scope [] = []
calls_of scope (c ∷ cs) = let rest = calls_of scope cs in if c.0 =s= scope then c.1 ∷ rest else rest

unfoldable pub account_answers : Account → List UnlockCall → List Answer
account_answers a [] = []
account_answers a (c ∷ cs) = let answer = account_call a c in answer.1 ∷ account_answers answer.0 cs

-- The row of a scope shows its account.
abbrev pub Shows : Option Attempt → Account → Type 0
Shows none (counting n) = n ≡ 0
Shows none (locked until) = ⊥
Shows (some a) (counting n) = (a.failed_attempts ≡ n) × (a.lockout_until ≡ none)
Shows (some a) (locked until) = (a.failed_attempts ≡ 0) × (a.lockout_until ≡ some until)

module _ (scope : String) (named : scope ≢ "") where
  failures_shown :
      (r : Option Attempt) (now n : ℕ)
      → Shows r (counting n)
      → (failures_of r ≡ n) × (active_lockout now (lockout_of r) ≡ none)
  failures_shown none now n h = (sym h, refl)
  failures_shown (some a) now n h = (h.0, rw (h.1) refl)

  lockout_shown :
      (r : Option Attempt) (now until : ℕ)
      → Shows r (locked until)
      → (failures_of r ≡ 0) × (lockout_of r ≡ some until)
  lockout_shown none now until h = elim h [ ]
  lockout_shown (some a) now until h = h

  counted :
      (t : Attempts) (now n : ℕ)
      → ((count_failure t scope now n).1 ≡ ok (count_on now n).1)
        × Shows (find_where (in_scope scope) (count_failure t scope now n).0) (count_on now n).0
  counted t now n = elim (Bool-cases (leb max_failures (n + 1))) [
    | inl limit ↦
        rw
          (
            limit,
            find-put_attempt (locked_row scope (now + lockout_duration)) scope t,
            =s=_refl scope,
          )
          (refl, (refl, refl))
    | inr below ↦
        rw (below, find-put_attempt (counted_row scope (n + 1)) scope t, =s=_refl scope)
          (refl, (refl, refl))
  ]

  pub fail_shown :
      (t : Attempts) (now : ℕ) (a : Account)
      → Shows (find_where (in_scope scope) t) a
      → ((register_failed_unlock t scope now).1 ≡ ok (account_fail now a).1)
        × Shows
            (find_where (in_scope scope) (register_failed_unlock t scope now).0)
            (account_fail now a).0
  unfolding register_failed_unlock
  fail_shown t now (counting n) h =
      let (count, open_) = failures_shown (find_where (in_scope scope) t) now n h in
      rw (nonempty scope named, open_, count) (counted t now n)
  fail_shown t now (locked until) h =
      let (count, shut) = lockout_shown (find_where (in_scope scope) t) now until h in
      elim (Bool-cases (ltb now until)) [
        | inl early ↦ rw (nonempty scope named, shut, early) (refl, h)
        | inr late ↦ rw (nonempty scope named, shut, late, count) (counted t now 0)
      ]

  pub until_shown :
      (t : Attempts) (now : ℕ) (a : Account)
      → Shows (find_where (in_scope scope) t) a
      → unlock_lockout_until t scope now ≡ ok (account_until now a)
  unfolding unlock_lockout_until
  until_shown t now (counting n) h =
      rw (nonempty scope named, (failures_shown (find_where (in_scope scope) t) now n h).1) refl
  until_shown t now (locked until) h =
      rw (nonempty scope named, (lockout_shown (find_where (in_scope scope) t) now until h).1)
        (ground arith)

  own_call :
      (t : Attempts) (c : UnlockCall) (a : Account)
      → Shows (find_where (in_scope scope) t) a
      → ((unlock_call t scope c).1 ≡ (account_call a c).1)
        × Shows (find_where (in_scope scope) (unlock_call t scope c).0) (account_call a c).0
  unfolding clear_unlock_failures
  own_call t (until_at now) a h = (ap reported (until_shown t now a h), h)
  own_call t (fail_now now) a h =
      let (answer, shown) = fail_shown t now a h in (ap reported answer, shown)
  own_call t clear_failures a h =
      rw (nonempty scope named, find_where-delete_where_self (in_scope scope) t) (refl, refl)

  pub other_call :
      (t : Attempts) (other : String) (c : UnlockCall)
      → other ≢ scope
      → find_where (in_scope scope) (unlock_call t other c).0 ≡ find_where (in_scope scope) t
  unfolding clear_unlock_failures
  other_call t other (until_at now) ne = refl
  other_call t other (fail_now now) ne =
      register_failed_unlock-other t other scope now (λ e. ne (sym e))
  other_call t other clear_failures ne = elim (Bool-cases (other =s= "")) [
    | inl empty ↦ rw empty refl
    | inr filled ↦ rw filled (
        find_where-delete_where (in_scope scope) (in_scope other)
          (λ x h. ground (arith, eq_iff x.scope scope, eq_iff x.scope other)) t)
  ]

  -- Whatever calls come for whatever scopes, the answers that a scope gets are those of an account
  -- of its own, which sees the calls of that scope alone: failures are counted up to the fifth,
  -- which locks for five minutes, and a clear opens it.
  pub answers_refine :
      (t : Attempts) (cs : List (String × UnlockCall)) (a : Account)
      → Shows (find_where (in_scope scope) t) a
      → answers_to scope t cs ≡ account_answers a (calls_of scope cs)
  unfolding answers_to account_answers calls_of
  answers_refine t [] a h = refl
  answers_refine t (c ∷ cs) a h = elim (Bool-cases (c.0 =s= scope)) [
    | inl own ↦
        let same : c.0 ≡ scope = (eq_iff c.0 scope).0 own in
        let (answer, shown) = own_call t c.1 a h in
        let rest = answers_refine (unlock_call t scope c.1).0 cs (account_call a c.1).0 shown in
        rw own (rw same (ap₂ ◌∷◌ answer rest))
    | inr foreign ↦
        let kept = other_call t c.0 c.1 (λ e. ground (arith, eq_iff c.0 scope)) in
        rw foreign (answers_refine (unlock_call t c.0 c.1).0 cs a (rw kept h))
  ]
