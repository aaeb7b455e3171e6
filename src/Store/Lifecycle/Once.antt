-- ===== src/Store/Lifecycle/Once.antt =====
-- internal/store/store.go: two claims of workers on one store.
use mini_dock.Prelude.{ℕ, ◌≡◌, sym, ap, ◌∙◌, ◌≢◌, List, some, arith, All, ok}
use mini_dock.Prelude.Rows.{find_where}
use mini_dock.Store.Tables.{queued, Deployment, Store}
use mini_dock.Store.Jobs.{has_id, next_queued_deployment}
use mini_dock.Store.Jobs.Keyed.{find_of_Memᴰ}
use mini_dock.Store.Lifecycle.{Call, claim, step, run, IsProper, IsValid, IsAbove}
use mini_dock.Store.Lifecycle.Steps.{step-IsValid, run-IsValid}
use mini_dock.Store.Lifecycle.Claiming.{next_queued_deployment-WasClaimed}
use mini_dock.Store.Lifecycle.Moves.{HasReached, KeepsRows, run-HasReached}

claim-IsValid :
    (next_id : List ℕ → ℕ) (above : IsAbove next_id) (now : ℕ) (s : Store)
    → IsValid s
    → IsValid (next_queued_deployment now s).0
unfolding step
claim-IsValid next_id above now s v = step-IsValid next_id above s (now, claim) tt v

found_twice :
    (id k : ℕ) (ds : List Deployment) {x b : Deployment}
    → find_where (has_id id) ds ≡ some x
    → find_where (has_id k) ds ≡ some b
    → k ≡ id
    → x ≡ b
found_twice id k ds {x} {b} first second same =
    let one : some x ≡ some b =
      sym first ∙ ap (λ i. find_where (has_id i) ds) (sym same) ∙ second in
    ground arith

not_queued_again :
    (id : ℕ) (s : Store) (b : Deployment)
    → HasReached id 1 s
    → find_where (has_id b.id) s.deployments ≡ some b
    → b.status ≡ queued
    → b.id ≢ id
not_queued_again id s b (x, found, reached) old q = λ same.
    let twice : x ≡ b = found_twice id b.id s.deployments found old same in
    let is_queued : x.status ≡ queued = ap (λ (d : Deployment). d.status) twice ∙ q in ground arith

module _ (next_id : List ℕ → ℕ) (above : IsAbove next_id) where
  -- A job that NextQueuedDeployment has handed to a worker is never handed out again, whatever
  -- calls but DeleteDeployments lie between the two claims, if those that finish a job give a
  -- status that ends it.
  pub claimed_once :
      (now later : ℕ) (s : Store) (cs : List (ℕ × Call)) {t u : Store} {d e : Deployment}
      → IsValid s
      → next_queued_deployment now s ≡ (t, ok d)
      → All IsProper cs
      → All KeepsRows cs
      → next_queued_deployment later (run next_id t cs) ≡ (u, ok e)
      → e.id ≢ d.id
  claimed_once now later s cs {t} {u} {d} {e} v first p k second =
      let valid : IsValid t = rw (← ap (λ r. r.0) first) (claim-IsValid next_id above now s v) in
      let mine = next_queued_deployment-WasClaimed now s v first in
      let theirs =
        next_queued_deployment-WasClaimed later (run next_id t cs)
          (run-IsValid next_id above t cs p valid) second in
      let reached : HasReached d.id 1 (run next_id t cs) =
        run-HasReached next_id above d.id 1 t cs p k (d, mine.recorded, ground arith) in
      rw theirs.now_running (
        not_queued_again d.id (run next_id t cs) theirs.before reached
          (find_of_Memᴰ theirs.before (run next_id t cs).deployments
            (run-IsValid next_id above t cs p valid).distinct theirs.oldest.stands)
          theirs.oldest.is_queued_job)
