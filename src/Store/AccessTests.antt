-- ===== src/Store/AccessTests.antt =====
-- Lockouts, webhook limits and enrolled agents on small tables.
use Prim.Native.Nat.{min}
use mini_dock.Prelude.{
  ℕ, ◌+◌, ◌-◌, ◌≡◌, refl, ◌≢◌, String, false, none, some, List, [], ◌∷◌, arith, length, ok, done,
  ◌=s=◌, eq_iff,
}
use mini_dock.Prelude.Rows.{find_where, update_where, count_where}
use mini_dock.Store.Unlock.{
  Attempts, in_scope, lockout_duration, unlock_lockout_until, register_failed_unlock,
}
use mini_dock.Store.Unlock.Lockout.{HasFailures, fail_at, fifth_failure_locks}
use mini_dock.Store.Unlock.Account.{
  UnlockCall, until_at, fail_now, clear_failures, counting, Shows, answers_to, account_answers,
  calls_of, answers_refine,
}
use mini_dock.Store.Webhooks.{RateLimit}
use mini_dock.Store.Webhooks.Limits.{InWindow, allowed, allowed-InWindow}
use mini_dock.Store.Nodes.{Node, has_node_id, upsert_node}
use mini_dock.Store.Nodes.Binding.{IsBound, upsert_node-IsBound}

differ : (a b : String) → (a =s= b) ≡ false → a ≢ b
differ a b h = λ e. ground (arith, eq_iff a b)

-- Another address has four failures.
abbrev attempts : Attempts
attempts = record { scope = "10.0.0.2"; failed_attempts = 4; lockout_until = none } ∷ []

no_failures : (later : ℕ) → HasFailures attempts "10.0.0.1" later 0
unfolding find_where
no_failures later = record { count = refl; unlocked = refl }

-- The table after a fifth failure at 5.
abbrev locked : Attempts
locked = (register_failed_unlock (fail_at "10.0.0.1" attempts (1 ∷ 2 ∷ 3 ∷ 4 ∷ [])) "10.0.0.1" 5).0

fifth_failure_locks_example :
    ((register_failed_unlock (fail_at "10.0.0.1" attempts (1 ∷ 2 ∷ 3 ∷ 4 ∷ [])) "10.0.0.1" 5).1
      ≡ ok (some (5 + lockout_duration)))
    × (register_failed_unlock locked "10.0.0.1" 6 ≡ (locked, ok (some (5 + lockout_duration))))
    × (unlock_lockout_until locked "10.0.0.1" 6 ≡ ok (some (5 + lockout_duration)))
    × (unlock_lockout_until locked "10.0.0.1" 300_000_000_005 ≡ ok none)
fifth_failure_locks_example =
    fifth_failure_locks "10.0.0.1" (differ "10.0.0.1" "" refl) attempts 5 6 300_000_000_005
      (1 ∷ 2 ∷ 3 ∷ 4 ∷ []) no_failures refl (ground arith) (ground arith)

-- A window of 100 that started at 10 and has seen two of four requests.
abbrev limits : List RateLimit
limits = record { scope = "10.0.0.1"; window_started_at = 10; requests = 2 } ∷ []

limits-InWindow : InWindow limits "10.0.0.1" 10 2
unfolding find_where
limits-InWindow = refl

allowed-InWindow_example :
    allowed limits "10.0.0.1" 4 100 (20 ∷ 30 ∷ 40 ∷ [])
    ≡ min (length {A = ℕ} (20 ∷ 30 ∷ 40 ∷ [])) (4 - 2)
allowed-InWindow_example =
    allowed-InWindow "10.0.0.1" 4 100 (differ "10.0.0.1" "" refl) (omega arith) (omega arith) limits
      10 2 (20 ∷ 30 ∷ 40 ∷ []) limits-InWindow (ground arith)

abbrev agent : Node
agent = record {
  id = "edge-1";
  name = "edge";
  version = "1";
  capabilities = "[]";
  certificate_fingerprint = "aa";
  created_at = 5;
  last_seen_at = 6;
}

abbrev impostor : Node
impostor = record agent { certificate_fingerprint = "bb" }

agent_found : find_where (has_node_id "edge-1") (agent ∷ []) ≡ some agent
unfolding find_where
agent_found = refl

upsert_node-IsBound_example :
    IsBound 9 (agent ∷ []) impostor agent (upsert_node 9 (agent ∷ []) impostor)
unfolding find_where
upsert_node-IsBound_example =
    upsert_node-IsBound 9 (agent ∷ []) impostor agent (refl, tt) agent_found

renews_agent :
    upsert_node 9 (agent ∷ []) (record agent { version = "2" })
    ≡ (record agent { version = "2"; last_seen_at = 9 } ∷ [], done)
unfolding upsert_node update_where count_where
renews_agent = refl

abbrev unlock_calls : List (String × UnlockCall)
unlock_calls =
    ("10.0.0.2", fail_now 5)
    ∷ ("10.0.0.1", fail_now 6)
    ∷ ("10.0.0.2", until_at 7)
    ∷ ("10.0.0.2", clear_failures)
    ∷ ("10.0.0.2", until_at 8)
    ∷ []

attempts-Shows : Shows (find_where (in_scope "10.0.0.2") attempts) (counting 4)
unfolding find_where
attempts-Shows = (refl, refl)

answers_refine_example :
    answers_to "10.0.0.2" attempts unlock_calls
    ≡ account_answers (counting 4) (calls_of "10.0.0.2" unlock_calls)
answers_refine_example =
    answers_refine "10.0.0.2" (differ "10.0.0.2" "" refl) attempts unlock_calls (counting 4)
      attempts-Shows
