-- ===== src/Store/Endings/Cancelling.antt =====
-- Heartbeats, cancellation and the end of a job, on a valid store.
use mini_dock.Prelude.{
  ℕ, ◌≡◌, refl, true, false, not, ◌&&◌, Option, none, some, List, arith, ◌==◌, if◌then◌else◌,
  is_some, All, Bool-cases, Option-cases, inl, inr, err, not_found, deployment_cancelled, Done,
  done,
}
use mini_dock.Prelude.Rows.{update_where, count_where, find_where}
use mini_dock.Prelude.Rows.Laws.{
  find_where_test, find_where-update_where, update_where_none, count_where-none,
}
use mini_dock.Store.Tables.{Status, cancelled, is_active, is_queued, is_running, Deployment, Store}
use mini_dock.Store.Jobs.{
  with_deployments, has_id, is_owned, renewed, heartbeat_error, heartbeat_deployment,
  deployment_cancellation_requested,
}
use mini_dock.Store.Jobs.Keyed.{count_keyed, count_unkeyed, none_keyed}
use mini_dock.Store.Endings.{
  cancels_queued, cancels_running, ended, final_status, cancel_deployment, finish_deployment,
}
use mini_dock.Store.Lifecycle.{IsValid}
use mini_dock.Store.Lifecycle.Steps.{cancel_requested, finish-Keeps}
use mini_dock.Store.Lifecycle.Preserved.{IsValid-update}

module _ (now id : ℕ) where
  -- What a heartbeat must do about a job, by the row that it finds: renew the lease of a running
  -- job, report a requested cancellation, or tell the worker that the job is not its own.
  abbrev pub heartbeat_on : Store → Option Deployment → Store × Done
  heartbeat_on s none = (s, err not_found)
  heartbeat_on s (some d) =
      if is_running d.status && not (is_some d.cancellation_requested_at)
      then (with_deployments s (update_where (is_owned id) (renewed now) s.deployments), done)
      else (
        s,
        if is_some d.cancellation_requested_at then err deployment_cancelled else err not_found,
      )

  not_owned :
      (s : Store)
      → All (λ (e : Deployment). is_owned id e ≡ false) s.deployments
      → heartbeat_deployment now s id
        ≡ (s, heartbeat_error (deployment_cancellation_requested s id))
  unfolding heartbeat_deployment
  not_owned s h = rw (
    count_where-none (is_owned id) s.deployments h,
    update_where_none (is_owned id) (renewed now) s.deployments h,
  )

  pub has_id_of_find :
      (ds : List Deployment) {d : Deployment} → find_where (has_id id) ds ≡ some d → d.id ≡ id
  has_id_of_find ds {d} e =
      let test : has_id id d ≡ true = find_where_test (has_id id) ds e in ground arith

  -- On a valid store, HeartbeatDeployment renews the lease of a running job that nobody has
  -- cancelled, reports a requested cancellation, and otherwise reports that the job is not found;
  -- in the last two cases it changes nothing.
  pub heartbeat_deployment-heartbeat_on :
      (s : Store)
      → IsValid s
      → heartbeat_deployment now s id ≡ heartbeat_on s (find_where (has_id id) s.deployments)
  unfolding heartbeat_deployment deployment_cancellation_requested
  heartbeat_deployment-heartbeat_on s v =
      elim (Option-cases (find_where (has_id id) s.deployments)) [
        | inl missing ↦ rw (
          not_owned s (count_unkeyed (is_owned id) id (λ a h. ground arith) s.deployments missing),
          missing,
          deployment_cancellation_requested,
        )
        | inr (d, found) ↦ elim (Bool-cases (is_owned id d)) [
          | inl owned ↦
              let one =
                count_keyed (is_owned id) id (λ a h. ground arith) s.deployments v.distinct found in
              ground arith
          | inr other ↦
              let rows = not_owned s (
                none_keyed (is_owned id) id (λ a h. ground arith) s.deployments v.distinct found
                  other) in
              let key = has_id_of_find s.deployments found in ground arith
        ]
      ]

-- On a valid store, FinishDeployment of a job that is in the table, with a status that ends a job,
-- is never refused, and records that status, or cancelled if a cancellation was requested, with
-- the time and without a lease.
pub finish_deployment-final :
    (now : ℕ) (s : Store) (id : ℕ) (status : Status) (d : Deployment)
    → IsValid s
    → is_active status ≡ false
    → find_where (has_id id) s.deployments ≡ some d
    → ((finish_deployment now s id status).1 ≡ done)
      × (find_where (has_id id) (finish_deployment now s id status).0.deployments
          ≡ some (ended now (final_status status d) d))
unfolding finish_deployment
finish_deployment-final now s id status d v proper found =
    let kept = IsValid-update _ _ s (finish-Keeps now id status proper) v in
    let key = has_id_of_find now id s.deployments found in
    rw kept.one_active (
      refl,
      rw
          (find_where-update_where (has_id id) (has_id id)
            (λ a. ended now (final_status status a) a) (λ a. refl) s.deployments found)
          (ground arith),
    )

module _ (now app id : ℕ) where
  -- What a cancellation must do, by the row that it finds: end a queued job at once, and leave a
  -- request on a running one.
  abbrev pub cancel_on : Store → Option Deployment → Store × Done
  cancel_on s none = (s, err not_found)
  cancel_on s (some d) =
      if d.application_id == app && is_queued d.status
      then (
        with_deployments s
            (update_where (cancels_queued app id) (ended now cancelled) s.deployments),
        done,
      )
      else (if d.application_id == app
            && (is_running d.status && not (is_some d.cancellation_requested_at))
          then (
            with_deployments s
                (update_where (cancels_running app id) (cancel_requested now) s.deployments),
            done,
          )
          else (s, err not_found))

  -- Where no row is queued under that id, only the second statement matters.
  no_queued :
      (s : Store)
      → All (λ (e : Deployment). cancels_queued app id e ≡ false) s.deployments
      → cancel_deployment now s app id ≡ (
        with_deployments s
            (update_where (cancels_running app id) (cancel_requested now) s.deployments),
        if count_where (cancels_running app id) s.deployments == 1 then done else err not_found,
      )
  unfolding cancel_deployment
  no_queued s h = rw (
    count_where-none (cancels_queued app id) s.deployments h,
    update_where_none (cancels_queued app id) (ended now cancelled) s.deployments h,
  )

  no_row :
      (s : Store)
      → All (λ (e : Deployment). cancels_queued app id e ≡ false) s.deployments
      → All (λ (e : Deployment). cancels_running app id e ≡ false) s.deployments
      → cancel_deployment now s app id ≡ (s, err not_found)
  no_row s h k = rw (
    no_queued s h,
    count_where-none (cancels_running app id) s.deployments k,
    update_where_none (cancels_running app id) (cancel_requested now) s.deployments k,
  )

  cancel_found :
      (s : Store) (d : Deployment)
      → IsValid s
      → find_where (has_id id) s.deployments ≡ some d
      → cancel_deployment now s app id ≡ cancel_on s (some d)
  unfolding cancel_deployment
  cancel_found s d v found =
      let key = has_id_of_find now id s.deployments found in
      let of_queued =
        count_keyed (cancels_queued app id) id (λ a h. ground arith) s.deployments v.distinct
          found in
      let of_running =
        count_keyed (cancels_running app id) id (λ a h. ground arith) s.deployments v.distinct
          found in
      let no_q =
        none_keyed (cancels_queued app id) id (λ a h. ground arith) s.deployments v.distinct
          found in
      let no_r =
        none_keyed (cancels_running app id) id (λ a h. ground arith) s.deployments v.distinct
          found in
      elim (Bool-cases (cancels_queued app id d)) [
        | inl q ↦ ground arith
        | inr q ↦ elim (Bool-cases (cancels_running app id d)) [
          | inl r ↦ ground (arith, no_queued s (no_q q))
          | inr r ↦ ground (arith, no_row s (no_q q) (no_r r))
        ]
      ]

  -- On a valid store, CancelDeployment ends a queued job of the application at once, leaves a
  -- request on a running one that has none, and otherwise changes nothing and reports that the job
  -- is not found.
  pub cancel_deployment-cancel_on :
      (s : Store)
      → IsValid s
      → cancel_deployment now s app id ≡ cancel_on s (find_where (has_id id) s.deployments)
  cancel_deployment-cancel_on s v = elim (Option-cases (find_where (has_id id) s.deployments)) [
    | inl missing ↦ rw missing (
        no_row s
          (count_unkeyed (cancels_queued app id) id (λ a h. ground arith) s.deployments missing)
          (count_unkeyed (cancels_running app id) id (λ a h. ground arith) s.deployments missing))
    | inr (d, found) ↦ rw found (cancel_found s d v found)
  ]
