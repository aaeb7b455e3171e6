-- ===== src/App/Access/Guessing.antt =====
-- internal/app/server.go: unlock, and how many wrong passwords it tries.
use mini_dock.Prelude.{
  ℕ, ◌+◌, ◌-◌, ◌≤◌, ◌<◌, ◌≡◌, ◌≢◌, sym, ◌∙◌, String, true, false, Option, none, List, [], ◌∷◌,
  arith, Bool-cases, inl, inr, leb, ◌=s=◌, eq_iff, if◌then◌else◌, Result, ok,
}
use mini_dock.Prelude.Rows.{find_where}
use mini_dock.Store.Unlock.{in_scope, lockout_duration, max_failures}
use mini_dock.Store.Unlock.Account.{
  Account, counting, locked, account_until, account_fail, Shows, fail_shown, until_shown,
  clear_failures, fail_now, other_call,
}
use mini_dock.App.Access.{Panel, Request, Crypto, lock, unlock_scope, unlock}
use mini_dock.App.Access.Counting.{is_wrong, is_wrong-le, unlock_cases, attempts-setup}
use mini_dock.App.Access.Granted.{KnowsPassword, Event, unlocking, setting_up, locking, access_step}

-- The wrong passwords that are tried for a scope in a run of events, oldest first.
abbrev pub guess : Crypto → String → Event → Panel → ℕ
guess k scope (unlocking r) p =
    if unlock_scope k r.remote_addr =s= scope then is_wrong (unlock k r p).1 else 0
guess k scope (setting_up r) p = 0
guess k scope locking p = 0

unfoldable pub guesses : Crypto → String → List Event → Panel → ℕ
guesses k scope [] p = 0
guesses k scope (e ∷ es) p = guess k scope e p + guesses k scope es (access_step k e p)

-- No unlock of the scope has the password, and each comes between `from` and five minutes later.
abbrev pub Fails : Crypto → String → ℕ → Event → Panel → Type 0
Fails k scope from (unlocking r) p =
    (unlock_scope k r.remote_addr ≡ scope)
    → (¬ KnowsPassword k p r) × (from ≤ r.at) × (r.at < from + lockout_duration)
Fails k scope from (setting_up r) p = Unit
Fails k scope from locking p = Unit

abbrev pub AllFail : Crypto → String → ℕ → List Event → Panel → Type 0
AllFail k scope from [] p = Unit
AllFail k scope from (e ∷ es) p =
    Fails k scope from e p × AllFail k scope from es (access_step k e p)

abbrev pub HasRoom : Account → Type 0
HasRoom (counting n) = n < max_failures
HasRoom (locked until) = Unit

-- How many more wrong passwords an account takes before `end`.
abbrev left : ℕ → Account → ℕ
left end (counting n) = max_failures - n
left end (locked until) = if leb end until then 0 else max_failures

-- One failed try: it is one of those that were left, and locks if it is the last.
try_left :
    (from now : ℕ) (a : Account)
    → HasRoom a
    → from ≤ now
    → now < from + lockout_duration
    → account_until now a ≡ none
    → HasRoom (account_fail now a).0
      × (1 + left (from + lockout_duration) (account_fail now a).0
          ≤ left (from + lockout_duration) a)
try_left from now (counting n) room lo hi open_ = ground arith
try_left from now (locked until) room lo hi open_ = ground arith

reported_inj : {x y : Option ℕ} → ◌≡◌ {A = Result (Option ℕ)} (ok x) (ok y) → x ≡ y
reported_inj e = cc

module _ (k : Crypto) (scope : String) (named : scope ≢ "") (from : ℕ) where
  -- One event: what is left afterwards, and what was tried.
  abbrev Leaves : Event → Panel → Account → Type 0
  Leaves e p a =
      (a' : Account) × Shows (find_where (in_scope scope) (access_step k e p).attempts) a'
      × HasRoom a'
      × (guess k scope e p + left (from + lockout_duration) a' ≤ left (from + lockout_duration) a)

  own_step :
      (r : Request) (p : Panel) (a : Account)
      → unlock_scope k r.remote_addr ≡ scope
      → Shows (find_where (in_scope scope) p.attempts) a
      → HasRoom a
      → Fails k scope from (unlocking r) p
      → Leaves (unlocking r) p a
  own_step r p a own shown room fails =
      let (failed, lo, hi) = fails own in
      let mine : (unlock_scope k r.remote_addr =s= scope) ≡ true =
        (eq_iff (unlock_scope k r.remote_addr) scope).1 own in
      elim (unlock_cases k r p) [
        | inl (same, none_) ↦ (a, (rw same shown), room, rw (mine, none_) (omega arith))
        | inr (inl (counted, open_)) ↦
            let answer = fail_shown scope named p.attempts r.at a shown in
            let free : account_until r.at a ≡ none =
              reported_inj
                (sym (until_shown scope named p.attempts r.at a shown) ∙ rw own at open_) in
            let (room', fewer) = try_left from r.at a room lo hi free in
            let one = is_wrong-le (unlock k r p).1 in
            ((account_fail r.at a).0, (rw (counted, own) answer.1), room', rw mine (omega arith))
        | inr (inr (c, knows)) ↦ absurd (failed knows)
      ]

  foreign_step :
      (r : Request) (p : Panel) (a : Account)
      → unlock_scope k r.remote_addr ≢ scope
      → Shows (find_where (in_scope scope) p.attempts) a
      → HasRoom a
      → Leaves (unlocking r) p a
  foreign_step r p a foreign shown room =
      let theirs : (unlock_scope k r.remote_addr =s= scope) ≡ false =
        ground (arith, eq_iff (unlock_scope k r.remote_addr) scope) in
      let other = unlock_scope k r.remote_addr in
      elim (unlock_cases k r p) [
        | inl (same, none_) ↦ (a, (rw same shown), room, rw theirs (omega arith))
        | inr (inl (counted, open_)) ↦ (
          a,
          (rw (counted, other_call scope named p.attempts other (fail_now r.at) foreign) shown),
          room,
          rw theirs (omega arith),
        )
        | inr (inr (cleared, opened_)) ↦ (
          a,
          (rw (cleared, other_call scope named p.attempts other clear_failures foreign) shown),
          room,
          rw theirs (omega arith),
        )
      ]

  event_step :
      (e : Event) (p : Panel) (a : Account)
      → Shows (find_where (in_scope scope) p.attempts) a
      → HasRoom a
      → Fails k scope from e p
      → Leaves e p a
  unfolding lock
  event_step (unlocking r) p a shown room fails =
      elim (Bool-cases (unlock_scope k r.remote_addr =s= scope)) [
        | inl own ↦
            own_step r p a ((eq_iff (unlock_scope k r.remote_addr) scope).0 own) shown room fails
        | inr foreign ↦
            foreign_step r p a (λ e. ground (arith, eq_iff (unlock_scope k r.remote_addr) scope))
              shown room
      ]
  event_step (setting_up r) p a shown room fails =
      (a, (rw (attempts-setup k r p) shown), room, omega arith)
  event_step locking p a shown room fails = (a, shown, room, omega arith)

  guesses-le-left :
      (es : List Event) (p : Panel) (a : Account)
      → Shows (find_where (in_scope scope) p.attempts) a
      → HasRoom a
      → AllFail k scope from es p
      → guesses k scope es p ≤ left (from + lockout_duration) a
  unfolding guesses
  guesses-le-left [] p a shown room fails = omega arith
  guesses-le-left (e ∷ es) p a shown room fails =
      let (a', shown', room', fewer) = event_step e p a shown room fails.0 in
      omega (arith, guesses-le-left es (access_step k e p) a' shown' room' fails.1)

  left-le : (end : ℕ) (a : Account) → left end a ≤ max_failures
  left-le end (counting n) = omega arith
  left-le end (locked until) = ground arith

  -- Whatever setups, unlocks and locks come one after the other, if no unlock of a scope has the
  -- password and all of them fall into five minutes, then at most five wrong passwords are tried
  -- for the scope: the others are refused without a look at the password. The scope starts with
  -- fewer than five failures on its account, or with a lockout.
  pub guesses-le-five :
      (es : List Event) (p : Panel) (a : Account)
      → Shows (find_where (in_scope scope) p.attempts) a
      → HasRoom a
      → AllFail k scope from es p
      → guesses k scope es p ≤ 5
  guesses-le-five es p a shown room fails =
      let most = guesses-le-left es p a shown room fails in
      omega (arith, left-le (from + lockout_duration) a)
