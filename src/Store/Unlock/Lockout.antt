-- ===== src/Store/Unlock/Lockout.antt =====
-- internal/store/store.go: five failures of one scope, and the lockout that follows.
use mathlib.Core.Path.{subst}
use native.Mathlib.Nat.{add-zero}
use mini_dock.Prelude.{
  ℕ, ◌+◌, ◌≤◌, ◌<◌, ◌≡◌, refl, ◌≢◌, String, false, none, some, List, [], ◌∷◌, arith, ltb, lt→ltb,
  length, ◌=s=◌, =s=_refl, eq_iff, if◌then◌else◌, ok, done,
}
use mini_dock.Prelude.Rows.{find_where}
use mini_dock.Prelude.Rows.Laws.{find_where-delete_where_self, find_where-delete_where}
use mini_dock.Store.Unlock.{
  Attempt, Attempts, in_scope, put_attempt, lockout_duration, max_failures, locked_row, counted_row,
  active_lockout, register_failed_unlock, unlock_lockout_until, clear_unlock_failures,
  count_failure, lockout_of, failures_of,
}

pub find-put_attempt :
    (a : Attempt) (scope : String) (t : Attempts)
    → find_where (in_scope scope) (put_attempt a t)
      ≡ (if a.scope =s= scope then some a else find_where (in_scope scope) t)
unfolding find_where put_attempt
find-put_attempt a scope [] = refl
find-put_attempt a scope (b ∷ t) = ground (
  arith,
  eq_iff a.scope scope,
  eq_iff b.scope scope,
  eq_iff b.scope a.scope,
  find-put_attempt a scope t,
)

pub nonempty : (scope : String) → scope ≢ "" → (scope =s= "") ≡ false
nonempty scope h = ground (arith, eq_iff scope "")

-- How many failures a scope has on its account, with no lockout running.
pub record HasFailures (t : Attempts) (scope : String) (now n : ℕ) : Type 0 where
  pub count : failures_of (find_where (in_scope scope) t) ≡ n
  pub unlocked : active_lockout now (lockout_of (find_where (in_scope scope) t)) ≡ none

-- The table after failures in a scope at the given times.
abbrev pub fail_at : String → Attempts → List ℕ → Attempts
fail_at scope t [] = t
fail_at scope t (now ∷ times) = fail_at scope (register_failed_unlock t scope now).0 times

module _ (scope : String) (named : scope ≢ "") where
  register_counts :
      (t : Attempts) (now n : ℕ)
      → HasFailures t scope now n
      → register_failed_unlock t scope now ≡ count_failure t scope now n
  unfolding register_failed_unlock
  register_counts t now n h = rw (nonempty scope named, h.unlocked, h.count)

  -- One failure short of the limit: nothing is locked, and the failure is on the account.
  pub register_below :
      (t : Attempts) (now later n : ℕ)
      → HasFailures t scope now n
      → n + 1 < max_failures
      → ((register_failed_unlock t scope now).1 ≡ ok none)
        × HasFailures (register_failed_unlock t scope now).0 scope later (n + 1)
  register_below t now later n h lt =
      rw (register_counts t now n h)
        (ground (arith, find-put_attempt (counted_row scope (n + 1)) scope t, =s=_refl scope))

  -- At the limit the scope is locked for five minutes: until then nobody gets in, and a further
  -- failure neither counts nor prolongs the lockout.
  register_at_limit :
      (t : Attempts) (now n : ℕ)
      → HasFailures t scope now n
      → n + 1 ≡ max_failures
      → ((register_failed_unlock t scope now).1 ≡ ok (some (now + lockout_duration)))
        × (find_where (in_scope scope) (register_failed_unlock t scope now).0
            ≡ some (locked_row scope (now + lockout_duration)))
  register_at_limit t now n h limit = rw (register_counts t now n h) (
      ground (
        arith,
        find-put_attempt (locked_row scope (now + lockout_duration)) scope t,
        =s=_refl scope,
      ))

  locked_until :
      (t : Attempts) (until now : ℕ)
      → find_where (in_scope scope) t ≡ some (locked_row scope until)
      → now < until
      → (register_failed_unlock t scope now ≡ (t, ok (some until)))
        × (unlock_lockout_until t scope now ≡ ok (some until))
  unfolding register_failed_unlock unlock_lockout_until
  locked_until t until now row early =
      rw (nonempty scope named, row, lt→ltb now until early) (refl, refl)

  locked_after :
      (t : Attempts) (until now : ℕ)
      → find_where (in_scope scope) t ≡ some (locked_row scope until)
      → until ≤ now
      → HasFailures t scope now 0 × (unlock_lockout_until t scope now ≡ ok none)
  unfolding unlock_lockout_until
  locked_after t until now row late =
      let passed : ltb now until ≡ false = ground arith in
      (
        record { count = rw row; unlocked = rw (row, passed) },
        rw (nonempty scope named, row, passed) refl,
      )

  failures_counted :
      (t : Attempts) (n now : ℕ) (times : List ℕ)
      → ((later : ℕ) → HasFailures t scope later n)
      → n + length times < max_failures
      → HasFailures (fail_at scope t times) scope now (n + length times)
  failures_counted t n now [] h lt = rw add-zero (h now)
  failures_counted t n now (x ∷ times) h lt =
      subst (HasFailures (fail_at scope t (x ∷ times)) scope now) (omega arith) (
        failures_counted (register_failed_unlock t scope x).0 (n + 1) now times
          (λ later. (register_below t x later n (h x) (omega arith)).1) (omega arith))

  -- Fewer than five failures in a scope with none on its account lock nothing.
  pub fewer_failures_lock_nothing :
      (t : Attempts) (now : ℕ) (times : List ℕ)
      → ((later : ℕ) → HasFailures t scope later 0)
      → length times < max_failures
      → unlock_lockout_until (fail_at scope t times) scope now ≡ ok none
  unfolding unlock_lockout_until
  fewer_failures_lock_nothing t now times h lt =
      rw (nonempty scope named, (failures_counted t 0 now times h (omega arith)).unlocked) refl

  -- After four failures in a scope with none on its account, a fifth locks the scope for five
  -- minutes: before the end of the lockout a further failure changes nothing and both calls report
  -- it, and from its end on the scope is open again.
  pub fifth_failure_locks :
      (t : Attempts) (now early late : ℕ) (times : List ℕ)
      → ((later : ℕ) → HasFailures t scope later 0)
      → length times ≡ 4
      → early < now + lockout_duration
      → now + lockout_duration ≤ late
      → let locked = (register_failed_unlock (fail_at scope t times) scope now).0 in
        let until = now + lockout_duration in
        ((register_failed_unlock (fail_at scope t times) scope now).1 ≡ ok (some until))
        × (register_failed_unlock locked scope early ≡ (locked, ok (some until)))
        × (unlock_lockout_until locked scope early ≡ ok (some until))
        × (unlock_lockout_until locked scope late ≡ ok none)
  fifth_failure_locks t now early late times h four before after =
      let (reported, row) =
        register_at_limit (fail_at scope t times) now (0 + length times)
          (failures_counted t 0 now times h (omega arith)) (omega arith) in
      let (unchanged, shut) = locked_until _ _ early row before in
      (reported, unchanged, shut, (locked_after _ _ late row after).1)

-- A failed unlock in one scope leaves every other scope's row as it was.
pub register_failed_unlock-other :
    (t : Attempts) (scope other : String) (now : ℕ)
    → other ≢ scope
    → find_where (in_scope other) (register_failed_unlock t scope now).0
      ≡ find_where (in_scope other) t
unfolding register_failed_unlock
register_failed_unlock-other t scope other now ne = ground (
  arith,
  eq_iff scope other,
  find-put_attempt (locked_row scope (now + lockout_duration)) other t,
  find-put_attempt (counted_row scope (failures_of (find_where (in_scope scope) t) + 1)) other t,
)

-- Clearing a named scope takes every failure and lockout off its account, and leaves any other
-- scope's row as it was.
pub clear_unlock_failures_lem :
    (t : Attempts) (scope other : String)
    → scope ≢ ""
    → other ≢ scope
    → ((clear_unlock_failures t scope).1 ≡ done)
      × ((later : ℕ) → HasFailures (clear_unlock_failures t scope).0 scope later 0)
      × (find_where (in_scope other) (clear_unlock_failures t scope).0
          ≡ find_where (in_scope other) t)
unfolding clear_unlock_failures
clear_unlock_failures_lem t scope other named ne =
    let gone = find_where-delete_where_self (in_scope scope) t in
    rw (nonempty scope named) (
      refl,
      (λ later. record { count = rw gone; unlocked = rw gone }),
      find_where-delete_where (in_scope other) (in_scope scope)
          (λ a h. ground (arith, eq_iff a.scope other, eq_iff a.scope scope)) t,
    )
