-- ===== src/Store/Lifecycle/Moves.antt =====
-- internal/store/store.go: how far a job has moved, over the calls that write jobs.
use native.Mathlib.Nat.{le_refl}
use mini_dock.Prelude.{
  ◌&&◌, ℕ, ◌≤◌, ◌≡◌, refl, ◌≢◌, String, Bool, true, false, Option, none, some, List, [], ◌∷◌, arith,
  ◌==◌, if◌then◌else◌, All, Bool-cases, inl, inr,
}
use mini_dock.Prelude.Rows.{update_where, count_where, find_where}
use mini_dock.Prelude.Rows.Laws.{find_where-update_where}
use mini_dock.Store.Tables.{Status, queued, running, cancelled, Deployment, Store, is_active}
use mini_dock.Store.Jobs.{
  with_deployments, ids, has_application, index_holds, insert_deployment, start_deployment,
  queue_deployment, claims, claim_row, oldest_queued, next_queued_deployment, is_owned, renewed,
  heartbeat_deployment, has_id, valid_action, started_deployment, new_deployment,
}
use mini_dock.Store.Endings.{
  cancels_queued, cancels_running, ended, interrupted, final_status, cancel_deployment,
  recover_interrupted_deployments, finish_deployment, set_deployment_image,
  set_deployment_release_metadata, set_deployment_failure, set_deployment_stage,
  set_deployment_stage_durations,
}
use mini_dock.Store.Lifecycle.{
  Call, start, queue, claim, heartbeat, cancel, recover, finish, set_image, set_metadata,
  set_failure, set_stage, set_durations, delete, step, run, IsProper, IsAbove,
}
use mini_dock.Store.Lifecycle.Steps.{fresh_id, cancel_requested}

-- How far a job has come.
abbrev pub rank : Status → ℕ
rank queued = 0
rank running = 1
rank _ = 2

-- The job is in the table, and has come at least so far.
abbrev pub HasReached : ℕ → ℕ → Store → Type 0
HasReached id r s =
    (d : Deployment) × (find_where (has_id id) s.deployments ≡ some d) × (r ≤ rank d.status)

-- The calls but DeleteDeployments.
abbrev pub KeepsRows : ℕ × Call → Type 0
KeepsRows (now, delete app is) = ⊥
KeepsRows _ = Unit

-- An UPDATE that moves no row back.
HasReached-update :
    (p : Deployment → Bool) (f : Deployment → Deployment)
    → ((d : Deployment) → (f d).id ≡ d.id)
    → ((d : Deployment) → p d ≡ true → rank d.status ≤ rank (f d).status)
    → (id r : ℕ) (s : Store) → HasReached id r s
    → HasReached id r (with_deployments s (update_where p f s.deployments))
HasReached-update p f same forward id r s (d, found, reached) = (
  if p d then f d else d,
  find_where-update_where (has_id id) p f (λ a. rw (same a)) s.deployments found,
  ground (arith, forward d),
)

ne_of_find :
    (n id : ℕ) (ds : List Deployment) {d : Deployment}
    → All (λ (e : Deployment). n ≢ e.id) ds
    → find_where (has_id id) ds ≡ some d
    → n ≢ id
unfolding find_where
ne_of_find n id [] h e = cc
ne_of_find n id (x ∷ ds) {d} h e = elim (Bool-cases (x.id == id)) [
  | inl hit ↦ ground arith
  | inr miss ↦ ne_of_find n id ds {d = d} h.1 (ground arith)
]

-- A new job stands in nobody's way.
insert_deployment-finds :
    (id : ℕ) (s : Store) (new d : Deployment)
    → All (λ (e : Deployment). new.id ≢ e.id) s.deployments
    → find_where (has_id id) s.deployments ≡ some d
    → find_where (has_id id) (insert_deployment s new).0.deployments ≡ some d
unfolding insert_deployment find_where
insert_deployment-finds id s new d fresh found =
    elim (Bool-cases (has_application new.application_id s && index_holds (new ∷ s.deployments))) [
      | inl free ↦
          let other : new.id ≢ id = ne_of_find new.id id s.deployments fresh found in
          rw free (ground arith)
      | inr refused ↦ rw refused found
    ]

insert_deployment-HasReached :
    (id r : ℕ) (s : Store) (new : Deployment)
    → All (λ (e : Deployment). new.id ≢ e.id) s.deployments
    → HasReached id r s
    → HasReached id r (insert_deployment s new).0
insert_deployment-HasReached id r s new fresh (d, found, reached) =
    (d, insert_deployment-finds id s new d fresh found, reached)

claim_row-HasReached :
    (now : ℕ) (o : Option Deployment) (id r : ℕ) (s : Store)
    → HasReached id r s
    → HasReached id r (claim_row now s o).0
unfolding claim_row
claim_row-HasReached now none id r s h = h
claim_row-HasReached now (some d) id r s h =
    elim (Bool-cases (count_where (claims d.id) s.deployments == 1)) [
      | inl one ↦ rw one (HasReached-update _ _ (λ a. refl) (λ a q. ground arith) id r s h)
      | inr other ↦ rw other h
    ]

heartbeat_deployment-HasReached :
    (now job id r : ℕ) (s : Store)
    → HasReached id r s
    → HasReached id r (heartbeat_deployment now s job).0
unfolding heartbeat_deployment
heartbeat_deployment-HasReached now job id r s h =
    let kept =
      HasReached-update (is_owned job) (renewed now) (λ a. refl) (λ a q. le_refl _) id r s h in
    elim (Bool-cases (count_where (is_owned job) s.deployments == 1)) [
      | inl one ↦ rw one kept
      | inr other ↦ rw other kept
    ]

cancel_deployment-HasReached :
    (now app job id r : ℕ) (s : Store)
    → HasReached id r s
    → HasReached id r (cancel_deployment now s app job).0
unfolding cancel_deployment
cancel_deployment-HasReached now app job id r s h =
    let first =
      HasReached-update (cancels_queued app job) (ended now cancelled) (λ a. refl)
        (λ a q. ground arith) id r s h in
    elim (Bool-cases (count_where (cancels_queued app job) s.deployments == 1)) [
      | inl one ↦ rw one first
      | inr other ↦ rw other (
          HasReached-update (cancels_running app job) (cancel_requested now) (λ a. refl)
            (λ a q. le_refl _) id r
            (with_deployments s
              (update_where (cancels_queued app job) (ended now cancelled) s.deployments))
            first)
    ]

finish_deployment-HasReached :
    (now job : ℕ) (status : Status) (id r : ℕ) (s : Store)
    → is_active status ≡ false
    → HasReached id r s
    → HasReached id r (finish_deployment now s job status).0
unfolding finish_deployment
finish_deployment-HasReached now job status id r s proper h =
    let rows = update_where (has_id job) (λ d. ended now (final_status status d) d) s.deployments in
    let kept =
      HasReached-update (has_id job) (λ d. ended now (final_status status d) d) (λ a. refl)
        (λ a q. ground arith) id r s h in
    elim (Bool-cases (index_holds rows)) [ inl holds ↦ rw holds kept | inr broken ↦ rw broken h ]

set_row-HasReached :
    (job : ℕ) (f : Deployment → Deployment)
    → ((d : Deployment) → ((f d).id ≡ d.id) × ((f d).status ≡ d.status))
    → (id r : ℕ) (s : Store) → HasReached id r s
    → HasReached id r (with_deployments s (update_where (has_id job) f s.deployments))
set_row-HasReached job f same id r s h =
    HasReached-update (has_id job) f (λ a. (same a).0) (λ a q. rw (same a).1 (le_refl _)) id r s h

module _ (next_id : List ℕ → ℕ) (above : IsAbove next_id) where
  pub queue_deployment-finds :
      (now app : ℕ) (action log : String) (id : ℕ) (s : Store) (d : Deployment)
      → find_where (has_id id) s.deployments ≡ some d
      → find_where (has_id id) (queue_deployment next_id now s app action log).0.deployments
        ≡ some d
  unfolding queue_deployment
  queue_deployment-finds now app action log id s d found = elim (Bool-cases (valid_action action)) [
    | inl valid ↦ rw valid (
        insert_deployment-finds id s
          (new_deployment (next_id (ids s.deployments)) app queued log now action) d
          (fresh_id next_id above s) found)
    | inr refused ↦ rw refused found
  ]

  queue_deployment-HasReached :
      (now app : ℕ) (action log : String) (id r : ℕ) (s : Store)
      → HasReached id r s
      → HasReached id r (queue_deployment next_id now s app action log).0
  queue_deployment-HasReached now app action log id r s (d, found, reached) =
      (d, queue_deployment-finds now app action log id s d found, reached)

  -- No call but DeleteDeployments removes a job or moves it back.
  pub step-HasReached :
      (id r : ℕ) (s : Store) (c : ℕ × Call)
      → IsProper c
      → KeepsRows c
      → HasReached id r s
      → HasReached id r (step next_id s c)
  unfolding step start_deployment next_queued_deployment recover_interrupted_deployments
      set_deployment_image set_deployment_release_metadata set_deployment_failure
      set_deployment_stage set_deployment_stage_durations
  step-HasReached id r s (now, start app image log) p k h =
      insert_deployment-HasReached id r s
        (started_deployment (next_id (ids s.deployments)) app image log now)
        (fresh_id next_id above s) h
  step-HasReached id r s (now, queue app action log) p k h =
      queue_deployment-HasReached now app action log id r s h
  step-HasReached id r s (now, claim) p k h =
      claim_row-HasReached now (oldest_queued s.deployments) id r s h
  step-HasReached id r s (now, heartbeat job) p k h =
      heartbeat_deployment-HasReached now job id r s h
  step-HasReached id r s (now, cancel app job) p k h =
      cancel_deployment-HasReached now app job id r s h
  step-HasReached id r s (now, recover) p k h =
      HasReached-update _ (interrupted now) (λ a. refl) (λ a q. ground arith) id r s h
  step-HasReached id r s (now, finish job status) p k h =
      finish_deployment-HasReached now job status id r s p h
  step-HasReached id r s (now, set_image job i) p k h =
      set_row-HasReached job _ (λ d. (refl, refl)) id r s h
  step-HasReached id r s (now, set_metadata job m) p k h =
      set_row-HasReached job _ (λ d. (refl, refl)) id r s h
  step-HasReached id r s (now, set_failure job x) p k h =
      set_row-HasReached job _ (λ d. (refl, refl)) id r s h
  step-HasReached id r s (now, set_stage job g) p k h =
      set_row-HasReached job _ (λ d. (refl, refl)) id r s h
  step-HasReached id r s (now, set_durations job x) p k h =
      set_row-HasReached job _ (λ d. (refl, refl)) id r s h
  step-HasReached id r s (now, delete app is) p k h = absurd k

  -- After any calls but DeleteDeployments, a job that was in the table still is, and has not moved
  -- back in the order queued, running, ended, if the calls that finish a job give a status that
  -- ends it.
  pub run-HasReached :
      (id r : ℕ) (s : Store) (cs : List (ℕ × Call))
      → All IsProper cs
      → All KeepsRows cs
      → HasReached id r s
      → HasReached id r (run next_id s cs)
  unfolding run
  run-HasReached id r s [] p k h = h
  run-HasReached id r s (c ∷ cs) p k h =
      run-HasReached id r (step next_id s c) cs p.1 k.1 (step-HasReached id r s c p.0 k.0 h)
