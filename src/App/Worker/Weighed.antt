-- ===== src/App/Worker/Weighed.antt =====
-- The work that is queued: a job that may queue a rollback counts twice.
use mathlib.Core.List.{Memᴰ}
use mini_dock.Prelude.{
  ℕ, ◌+◌, ◌*◌, ◌≤◌, ◌≡◌, refl, String, Bool, false, Option, none, some, ◌==◌, List, [], ◌∷◌, arith,
  any, Bool-cases, inl, inr, if◌then◌else◌,
}
use mini_dock.Prelude.Int.{ℤ, sub_div}
use mini_dock.Prelude.Rows.{update_where, delete_where, count_where}
use mini_dock.Store.Tables.{
  Status, queued, cancelled, is_active, is_queued, Application, Deployment, Store,
}
use mini_dock.Store.Jobs.{
  claimed, claims, claim_row, next_queued_deployment, oldest_queued, queue_deployment,
  insert_deployment, renewed, is_owned, heartbeat_deployment,
}
use mini_dock.Store.Lifecycle.Steps.{cancel_requested}
use mini_dock.Store.Jobs.{has_id, index_holds}
use mini_dock.Store.Tables.{is_running}
use mini_dock.Store.Endings.{
  cancels_queued, cancels_running, ended, final_status, interrupted, cancel_deployment,
  recover_interrupted_deployments, finish_deployment, set_deployment_image,
  set_deployment_release_metadata, set_deployment_failure, set_deployment_stage,
  set_deployment_stage_durations, delete_deployments, deleted,
}
use mini_dock.Store.Lifecycle.{
  start, queue, claim, heartbeat, cancel, recover, finish, set_image, set_metadata, set_failure,
  set_stage, set_durations, delete, Call, step,
}
use mini_dock.App.Queueing.{queue_deployment_ref}
use mini_dock.App.Queueing.Kept.{queue_deployment_ref-keeps}
use mini_dock.App.Decisions.{is_rollback}

abbrev pub weight : Deployment → ℕ
weight d = if is_queued d.status then (if is_rollback d.action then 1 else 2) else 0

unfoldable pub work : List Deployment → ℕ
work [] = 0
work (d ∷ ds) = weight d + work ds

pub work_unqueued :
    (ds : List Deployment) → work ds ≤ 0 → any (λ (d : Deployment). is_queued d.status) ds ≡ false
unfolding work
work_unqueued [] h = refl
work_unqueued (d ∷ ds) h = ground (arith, work_unqueued ds)

pub unqueued_work :
    (ds : List Deployment) → any (λ (d : Deployment). is_queued d.status) ds ≡ false → work ds ≤ 0
unfolding work
unqueued_work [] h = omega arith
unqueued_work (d ∷ ds) h = ground (arith, unqueued_work ds)

pub work-le-twice :
    (ds : List Deployment) → work ds ≤ 2 * count_where (λ (d : Deployment). is_queued d.status) ds
unfolding work count_where
work-le-twice [] = omega arith
work-le-twice (d ∷ ds) = ground (arith, work-le-twice ds)

work-update :
    (p : Deployment → Bool) (f : Deployment → Deployment)
    → ((d : Deployment) → weight (f d) ≤ weight d)
    → (ds : List Deployment) → work (update_where p f ds) ≤ work ds
unfolding work update_where
work-update p f le [] = omega arith
work-update p f le (d ∷ ds) =
    let rest = work-update p f le ds in
    let here = le d in
    elim (Bool-cases (p d)) [ inl hit ↦ rw hit (omega arith) | inr miss ↦ rw miss (omega arith) ]

work-delete : (p : Deployment → Bool) (ds : List Deployment) → work (delete_where p ds) ≤ work ds
unfolding work delete_where
work-delete p [] = omega arith
work-delete p (d ∷ ds) =
    let rest = work-delete p ds in
    elim (Bool-cases (p d)) [ inl hit ↦ rw hit (omega arith) | inr miss ↦ rw miss (omega arith) ]

weight-claimed : (now : ℕ) (w : ℤ) (d : Deployment) → weight (claimed now w d) ≤ weight d
weight-claimed now w d = omega arith

-- The claim of a queued job takes its weight away.
pub work-claim :
    (now : ℕ) (w : ℤ) (b : Deployment) (ds : List Deployment)
    → b.status ≡ queued
    → Memᴰ b ds
    → work (update_where (claims b.id) (claimed now w) ds) + weight b ≤ work ds
unfolding work update_where
work-claim now w b [] q m = elim m [ ]
work-claim now w b (d ∷ ds) q (Memᴰ.head e) =
    let rest = work-update (claims b.id) (claimed now w) (weight-claimed now w) ds in
    rw⁻¹ e (ground (arith, rest, q))
work-claim now w b (d ∷ ds) q (Memᴰ.tail m) =
    let rest = work-claim now w b ds q m in
    let here = weight-claimed now w d in
    elim (Bool-cases (claims b.id d)) [
      | inl hit ↦ rw hit (omega arith)
      | inr miss ↦ rw miss (omega arith)
    ]

-- The calls that queue nothing, those that finish a job giving a status that ends it.
abbrev pub IsQuiet : ℕ × Call → Type 0
IsQuiet (now, start app image log) = ⊥
IsQuiet (now, queue app action log) = ⊥
IsQuiet (now, finish id status) = is_active status ≡ false
IsQuiet _ = Unit

over_weight :
    (now : ℕ) (status : Status) (d : Deployment)
    → is_active status ≡ false
    → weight (ended now (final_status status d) d) ≤ weight d
over_weight now status d over = ground arith

claim_row-work :
    (now : ℕ) (s : Store) (o : Option Deployment)
    → work (claim_row now s o).0.deployments ≤ work s.deployments
unfolding claim_row
claim_row-work now s none = omega arith
claim_row-work now s (some d) =
    let rows =
      work-update (claims d.id) (claimed now (sub_div now d.started_at 1_000_000))
        (weight-claimed now (sub_div now d.started_at 1_000_000)) s.deployments in
    elim (Bool-cases (count_where (claims d.id) s.deployments == 1)) [
      | inl one ↦ rw one rows
      | inr none_ ↦ rw none_ (omega arith)
    ]

heartbeat-work :
    (now : ℕ) (s : Store) (id : ℕ)
    → work (heartbeat_deployment now s id).0.deployments ≤ work s.deployments
unfolding heartbeat_deployment
heartbeat-work now s id =
    let rows = work-update (is_owned id) (renewed now) (λ d. omega arith) s.deployments in
    elim (Bool-cases (count_where (is_owned id) s.deployments == 1)) [
      | inl one ↦ rw one rows
      | inr none_ ↦ rw none_ rows
    ]

cancel-work :
    (now : ℕ) (s : Store) (app id : ℕ)
    → work (cancel_deployment now s app id).0.deployments ≤ work s.deployments
unfolding cancel_deployment
cancel-work now s app id =
    let first =
      work-update (cancels_queued app id) (ended now cancelled) (λ d. omega arith) s.deployments in
    let second =
      work-update (cancels_running app id) (cancel_requested now) (λ d. omega arith)
        (update_where (cancels_queued app id) (ended now cancelled) s.deployments) in
    elim (Bool-cases (count_where (cancels_queued app id) s.deployments == 1)) [
      | inl one ↦ rw one first
      | inr none_ ↦ rw none_ (omega arith)
    ]

finish-work :
    (now : ℕ) (s : Store) (id : ℕ) (status : Status)
    → is_active status ≡ false
    → work (finish_deployment now s id status).0.deployments ≤ work s.deployments
unfolding finish_deployment
finish-work now s id status over =
    let f : Deployment → Deployment = (λ d. ended now (final_status status d) d) in
    let rows = work-update (has_id id) f (λ d. over_weight now status d over) s.deployments in
    elim (Bool-cases (index_holds (update_where (has_id id) f s.deployments))) [
      | inl fits ↦ rw fits rows
      | inr not_ ↦ rw not_ (omega arith)
    ]

delete-work :
    (s : Store) (app : ℕ) (is : List ℕ)
    → work (delete_deployments s app is).deployments ≤ work s.deployments
unfolding delete_deployments
delete-work s app [] = omega arith
delete-work s app (i ∷ is) = work-delete (deleted app (i ∷ is)) s.deployments

module _ (s : Store) (id : ℕ) where
  set-work :
      (f : Deployment → Deployment)
      → ((d : Deployment) → weight (f d) ≤ weight d)
      → work (update_where (has_id id) f s.deployments) ≤ work s.deployments
  set-work f le = work-update (has_id id) f le s.deployments

-- A call that queues nothing adds no work.
pub step-work :
    (next_id : List ℕ → ℕ) (s : Store) (c : ℕ × Call)
    → IsQuiet c
    → work (step next_id s c).deployments ≤ work s.deployments
unfolding step next_queued_deployment recover_interrupted_deployments set_deployment_image
    set_deployment_release_metadata set_deployment_failure set_deployment_stage
    set_deployment_stage_durations
step-work next_id s (now, start app image log) q = absurd q
step-work next_id s (now, queue app action log) q = absurd q
step-work next_id s (now, claim) q = claim_row-work now s (oldest_queued s.deployments)
step-work next_id s (now, heartbeat id) q = heartbeat-work now s id
step-work next_id s (now, cancel app id) q = cancel-work now s app id
step-work next_id s (now, recover) q =
    work-update (λ d. is_running d.status) (interrupted now) (λ d. omega arith) s.deployments
step-work next_id s (now, finish id status) q = finish-work now s id status q
step-work next_id s (now, set_image id i) q =
    set-work s id (λ d. record d { image = i }) (λ d. omega arith)
step-work next_id s (now, set_metadata id m) q =
    set-work s id (λ d. record d { release = m }) (λ d. omega arith)
step-work next_id s (now, set_failure id c) q =
    set-work s id (λ d. record d { failure = c }) (λ d. omega arith)
step-work next_id s (now, set_stage id g) q =
    set-work s id (λ d. record d { current_stage = g }) (λ d. omega arith)
step-work next_id s (now, set_durations id ds) q =
    set-work s id (λ d. record d { durations = ds }) (λ d. omega arith)
step-work next_id s (now, delete app is) q = delete-work s app is

-- A rollback that is queued adds 1.
rollback-work :
    (next_id : List ℕ → ℕ) (now : ℕ) (s : Store) (app : ℕ) (log : String)
    → work (queue_deployment next_id now s app "auto_rollback" log).0.deployments
      ≤ work s.deployments + 1
unfolding queue_deployment insert_deployment work
rollback-work next_id now s app log = ground arith

pub rollback_ref-work :
    (next_id : List ℕ → ℕ) (manifest : Application → String) (now : ℕ) (s : Store) (app : ℕ)
    (log : String)
    → work (queue_deployment_ref next_id manifest now app "auto_rollback" "" log s).0.deployments
      ≤ work s.deployments + 1
unfolding step
rollback_ref-work next_id manifest now s app log =
    let n = work s.deployments + 1 in
    queue_deployment_ref-keeps next_id manifest (λ t. work t.deployments ≤ n)
      (λ t id m h. let le = step-work next_id t (0, set_metadata id m) tt in omega arith) now app
      "auto_rollback" "" log s (rollback-work next_id now s app log)
