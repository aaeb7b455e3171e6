-- ===== src/Store/Lifecycle/Claiming.antt =====
-- internal/store/store.go: NextQueuedDeployment on a valid store.
use mathlib.Core.Path.{subst}
use mini_dock.Prelude.{
  ℕ, ◌≡◌, refl, sym, ap, false, some, List, arith, any, Option-cases, inl, inr, Result, ok, err,
  not_found,
}
use mini_dock.Prelude.Int.{ℤ, sub_div}
use mini_dock.Prelude.Rows.{update_where, count_where, find_where}
use mini_dock.Prelude.Rows.Laws.{find_where-update_where, All-Memᴰ}
use mini_dock.Store.Tables.{is_queued, Deployment, Store}
use mini_dock.Store.Jobs.{
  AreDistinct, with_deployments, has_id, claims, claimed, claim_row, oldest_queued,
  next_queued_deployment,
}
use mini_dock.Store.Jobs.Claim.{IsOldest, oldest_queued-IsOldest, oldest_queued-none}
use mini_dock.Store.Jobs.Keyed.{find_of_Memᴰ, count_keyed}
use mini_dock.Store.Lifecycle.{IsValid, IsCoherent}
use mini_dock.Store.Jobs.{as_read}
use mini_dock.Prelude.Rows.Laws.{All-Memᴰ}

-- The outcome of a claim: no job is queued and nothing changes, or the oldest queued job is
-- returned as it now stands, running, and its row is the only one that changed.
pub data Claims (now : ℕ) (s : Store) : Store × Result Deployment → Type 0 where
  idle :
      any (λ (d : Deployment). is_queued d.status) s.deployments ≡ false
      → Claims now s (s, err not_found)
  taken :
      (d : Deployment)
      → IsOldest s.deployments d
      → Claims now s (
        with_deployments s (
            update_where
              (claims d.id)
              (claimed now (sub_div now d.started_at 1_000_000))
              s.deployments),
        ok (claimed now (sub_div now d.started_at 1_000_000) d),
      )

count_claims :
    (s : Store) (d : Deployment)
    → IsValid s
    → IsOldest s.deployments d
    → count_where (claims d.id) s.deployments ≡ 1
count_claims s d v old = ground (
  arith,
  count_keyed (claims d.id) d.id (λ a h. ground arith) s.deployments v.distinct
      (find_of_Memᴰ d s.deployments v.distinct old.stands),
  old.is_queued_job,
)

-- A queued job has no requested cancellation that the claim could miss.
read_whole : (s : Store) (d : Deployment) → IsValid s → IsOldest s.deployments d → as_read d ≡ d
read_whole s d v old =
    let fresh =
      (All-Memᴰ IsCoherent s.deployments d v.coherent old.stands).queued_fresh old.is_queued_job in
    ap (λ c. record d { cancellation_requested_at = c }) (sym fresh.2)

-- On a valid store, a claim either finds no queued job and changes nothing, or hands out the
-- queued job with the least id as running, with a lease and the time it waited, and changes its
-- row alone.
pub next_queued_deployment-Claims :
    (now : ℕ) (s : Store) → IsValid s → Claims now s (next_queued_deployment now s)
unfolding next_queued_deployment claim_row
next_queued_deployment-Claims now s v = elim (Option-cases (oldest_queued s.deployments)) [
  | inl e ↦ rw (e, claim_row) (idle (oldest_queued-none s.deployments e))
  | inr (d, e) ↦
      let old = oldest_queued-IsOldest s.deployments e in
      rw (e, claim_row, count_claims s d v old)
        (subst
          (λ x. Claims now s (
            with_deployments s (
                update_where (claims d.id) (claimed now (sub_div now d.started_at 1_000_000))
                  s.deployments),
            ok (claimed now (sub_div now d.started_at 1_000_000) x),
          ))
          (sym (read_whole s d v old)) (taken d old))
]

find_claimed :
    (now : ℕ) (w : ℤ) (b : Deployment) (ds : List Deployment)
    → AreDistinct ds
    → IsOldest ds b
    → find_where (has_id b.id) (update_where (claims b.id) (claimed now w) ds)
      ≡ some (claimed now w b)
find_claimed now w b ds distinct old = ground (
  arith,
  find_where-update_where (has_id b.id) (claims b.id) (claimed now w) (λ a. refl) ds
      (find_of_Memᴰ b ds distinct old.stands),
  old.is_queued_job,
)

-- What a worker that was given a job knows of it.
pub record WasClaimed (now : ℕ) (s t : Store) (d : Deployment) : Type 0 where
  pub before : Deployment
  pub oldest : IsOldest s.deployments before
  pub now_running : d ≡ claimed now (sub_div now before.started_at 1_000_000) before
  pub recorded : find_where (has_id d.id) t.deployments ≡ some d

claim_of_Claims :
    (now : ℕ) (s : Store) (r : Store × Result Deployment) {t : Store} {d : Deployment}
    → IsValid s
    → Claims now s r
    → r ≡ (t, ok d)
    → WasClaimed now s t d
claim_of_Claims now s r v (idle none_queued) e = absurd (cc)
claim_of_Claims now s r {t} {d} v (taken b old) e =
    let waited = sub_div now b.started_at 1_000_000 in
    let is_claimed : claimed now waited b ≡ d = cc in
    let rows : update_where (claims b.id) (claimed now waited) s.deployments ≡ t.deployments =
      ap (λ r. r.0.deployments) e in
    record {
      before = b;
      oldest = old;
      now_running = sym is_claimed;
      recorded = rw (← rows, ← is_claimed) (find_claimed now waited b s.deployments v.distinct old);
    }

pub next_queued_deployment-WasClaimed :
    (now : ℕ) (s : Store) {t : Store} {d : Deployment}
    → IsValid s
    → next_queued_deployment now s ≡ (t, ok d)
    → WasClaimed now s t d
next_queued_deployment-WasClaimed now s v e =
    claim_of_Claims now s _ v (next_queued_deployment-Claims now s v) e
