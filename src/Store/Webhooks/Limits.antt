-- ===== src/Store/Webhooks/Limits.antt =====
-- The replay guard and the rate limit over any number of requests.
use mini_dock.Prelude.{
  ℕ, ◌+◌, ◌-◌, ◌≤◌, ◌<◌, ◌≡◌, ◌≢◌, String, Bool, true, ◌⊎◌, inl, inr, none, some, List, [], ◌∷◌,
  arith, leb, =s=_refl, eq_iff, length, All, Result, ok,
}
use Prim.Native.Nat.{min}
use mini_dock.Prelude.Rows.{find_where}
use mini_dock.Store.Webhooks.{RateLimit, of_scope, consume, put_request, allow_webhook_request}

find-put_request :
    (now window : ℕ) (scope : String) (rs : List RateLimit)
    → find_where (of_scope scope) (put_request now window scope rs)
      ≡ some (elim (find_where (of_scope scope) rs) [
        | none ↦ record { scope = scope; window_started_at = now; requests = 1 }
        | some r ↦ consume now window r
      ])
unfolding find_where put_request
find-put_request now window scope [] = ground (arith, =s=_refl scope)
find-put_request now window scope (r ∷ rs) = ground (arith, find-put_request now window scope rs)

-- The scope's window started at `start` and has seen `n` requests.
abbrev pub InWindow : List RateLimit → String → ℕ → ℕ → Type 0
InWindow rs scope start n =
    find_where (of_scope scope) rs
    ≡ some (record { scope = scope; window_started_at = start; requests = n })

-- How many of the requests at the given times are allowed.
abbrev pub one_if : Result Bool → ℕ
one_if (ok true) = 1
one_if _ = 0

abbrev pub allowed : List RateLimit → String → ℕ → ℕ → List ℕ → ℕ
allowed rs scope limit window [] = 0
allowed rs scope limit window (now ∷ times) =
    let answer = allow_webhook_request now rs scope limit window in
    one_if answer.1 + allowed answer.0 scope limit window times

module _ (scope : String) (limit window : ℕ) (named : scope ≢ "") (positive : 1 ≤ limit)
    (open_ : 0 < window) where
  -- A request in a running window is counted, and allowed exactly while the limit is not reached.
  pub allow-InWindow :
      (rs : List RateLimit) (start n now : ℕ)
      → InWindow rs scope start n
      → now < start + window
      → ((allow_webhook_request now rs scope limit window).1 ≡ ok (leb (n + 1) limit))
        × InWindow (allow_webhook_request now rs scope limit window).0 scope start (n + 1)
  unfolding allow_webhook_request
  allow-InWindow rs start n now row early =
      ground (arith, eq_iff scope "", find-put_request now window scope rs)

  -- Of the requests that come while a scope's window runs and has seen n requests, exactly min
  -- (their number) (limit - n) are allowed, for a positive limit and window.
  pub allowed-InWindow :
      (rs : List RateLimit) (start n : ℕ) (times : List ℕ)
      → InWindow rs scope start n
      → All (λ now. now < start + window) times
      → allowed rs scope limit window times ≡ min (length times) (limit - n)
  allowed-InWindow rs start n [] row early = omega arith
  allowed-InWindow rs start n (now ∷ times) row early =
      let (answer, next) = allow-InWindow rs start n now row early.0 in
      ground (
        arith,
        allowed-InWindow (allow_webhook_request now rs scope limit window).0 start (n + 1) times
            next early.1,
      )

  -- The first request of a scope, and the first one after its window, opens a window at its own
  -- time and is allowed, for a positive limit and window.
  pub allow_opens_window :
      (rs : List RateLimit) (now : ℕ)
      → (find_where (of_scope scope) rs ≡ none)
        ⊎ ((start : ℕ) × (n : ℕ) × InWindow rs scope start n × (start + window ≤ now))
      → ((allow_webhook_request now rs scope limit window).1 ≡ ok true)
        × InWindow (allow_webhook_request now rs scope limit window).0 scope now 1
  unfolding allow_webhook_request
  allow_opens_window rs now (inl new) =
      ground (arith, eq_iff scope "", find-put_request now window scope rs)
  allow_opens_window rs now (inr (start, n, row, late)) =
      ground (arith, eq_iff scope "", find-put_request now window scope rs)
