-- ===== src/Store/Lifecycle/Steps.antt =====
-- internal/store/store.go: the invariant of the jobs over a sequence of calls.
use mini_dock.Prelude.{
  ℕ, ◌<◌, ◌≡◌, refl, ◌≢◌, String, false, Option, none, some, List, [], ◌∷◌, arith, ◌==◌, All,
  Bool-cases, inl, inr,
}
use mini_dock.Prelude.Rows.{update_where, count_where}
use mini_dock.Store.Tables.{Status, queued, cancelled, Deployment, Store, is_active, is_running}
use mini_dock.Store.Jobs.{
  with_deployments, ids, has_application, index_holds, insert_deployment, start_deployment,
  queue_deployment, claims, claimed, claim_row, oldest_queued, next_queued_deployment, is_owned,
  renewed, heartbeat_deployment, has_id, new_deployment, started_deployment,
}
use mini_dock.Store.Endings.{
  cancels_queued, cancels_running, ended, interrupted, final_status, cancel_deployment,
  recover_interrupted_deployments, finish_deployment, set_deployment_image,
  set_deployment_release_metadata, set_deployment_failure, set_deployment_stage,
  set_deployment_stage_durations, delete_deployments, deleted,
}
use mini_dock.Store.Lifecycle.{
  Call, start, queue, claim, heartbeat, cancel, recover, finish, set_image, set_metadata,
  set_failure, set_stage, set_durations, delete, step, run, IsProper, IsCoherent, IsValid, IsAbove,
}
use mini_dock.Store.Lifecycle.Preserved.{Keeps, IsValid-update, IsValid-delete}

ids_ne_of_above :
    (n : ℕ) (ds : List Deployment)
    → All (λ i. i < n) (ids ds)
    → All (λ (e : Deployment). n ≢ e.id) ds
ids_ne_of_above n [] h = tt
ids_ne_of_above n (d ∷ ds) h = ((λ e. omega arith), ids_ne_of_above n ds h.1)

-- An INSERT of a coherent row with a fresh id keeps the invariant, accepted or refused.
insert_deployment-IsValid :
    (s : Store) (d : Deployment)
    → All (λ (e : Deployment). d.id ≢ e.id) s.deployments
    → IsCoherent d
    → IsValid s
    → IsValid (insert_deployment s d).0
unfolding insert_deployment
insert_deployment-IsValid s d fresh c v = elim (Bool-cases (has_application d.application_id s)) [
  | inl known ↦ elim (Bool-cases (index_holds (d ∷ s.deployments))) [
    | inl free ↦
        rw (known, free)
          (record {
            one_active = free;
            distinct = (fresh, v.distinct);
            coherent = (c, v.coherent);
            owned = (known, v.owned);
          })
    | inr taken ↦ rw (known, taken) v
  ]
  | inr unknown ↦ rw unknown v
]

claim-Keeps : (now : ℕ) (id : ℕ) (w : _) → Keeps (claims id) (claimed now w)
claim-Keeps now id w = record {
  quiets = record { same_application = λ d. refl; not_activated = λ d h a. ground arith };
  same_id = λ d. refl;
  coherence = λ d h c. ground arith;
}

claim_row-IsValid :
    (now : ℕ) (s : Store) (o : Option Deployment) → IsValid s → IsValid (claim_row now s o).0
unfolding claim_row
claim_row-IsValid now s none v = v
claim_row-IsValid now s (some d) v =
    elim (Bool-cases (count_where (claims d.id) s.deployments == 1)) [
      | inl one ↦ rw one (IsValid-update _ _ s (claim-Keeps now d.id _) v)
      | inr other ↦ rw other v
    ]

heartbeat-Keeps : (now id : ℕ) → Keeps (is_owned id) (renewed now)
heartbeat-Keeps now id = record {
  quiets = record { same_application = λ d. refl; not_activated = λ d h a. a };
  same_id = λ d. refl;
  coherence = λ d h c. ground arith;
}

heartbeat_deployment-IsValid :
    (now : ℕ) (s : Store) (id : ℕ) → IsValid s → IsValid (heartbeat_deployment now s id).0
unfolding heartbeat_deployment
heartbeat_deployment-IsValid now s id v =
    let kept = IsValid-update _ _ s (heartbeat-Keeps now id) v in
    elim (Bool-cases (count_where (is_owned id) s.deployments == 1)) [
      | inl one ↦ rw one kept
      | inr other ↦ rw other kept
    ]

pub cancel_queued-Keeps : (now app id : ℕ) → Keeps (cancels_queued app id) (ended now cancelled)
cancel_queued-Keeps now app id = record {
  quiets = record { same_application = λ d. refl; not_activated = λ d h a. cc };
  same_id = λ d. refl;
  coherence = λ d h c. ground arith;
}

abbrev pub cancel_requested : ℕ → Deployment → Deployment
cancel_requested now d = record d { cancellation_requested_at = some now }

pub cancel_running-Keeps : (now app id : ℕ) → Keeps (cancels_running app id) (cancel_requested now)
cancel_running-Keeps now app id = record {
  quiets = record { same_application = λ d. refl; not_activated = λ d h a. a };
  same_id = λ d. refl;
  coherence = λ d h c. ground arith;
}

pub cancel_deployment-IsValid :
    (now : ℕ) (s : Store) (app id : ℕ) → IsValid s → IsValid (cancel_deployment now s app id).0
unfolding cancel_deployment
cancel_deployment-IsValid now s app id v =
    let first = IsValid-update _ _ s (cancel_queued-Keeps now app id) v in
    elim (Bool-cases (count_where (cancels_queued app id) s.deployments == 1)) [
      | inl one ↦ rw one first
      | inr other ↦ rw other (IsValid-update _ _ _ (cancel_running-Keeps now app id) first)
    ]

pub recover-Keeps : (now : ℕ) → Keeps (λ d. is_running d.status) (interrupted now)
recover-Keeps now = record {
  quiets = record { same_application = λ d. refl; not_activated = λ d h a. cc };
  same_id = λ d. refl;
  coherence = λ d h c. ground arith;
}

pub finish-Keeps :
    (now id : ℕ) (status : Status)
    → is_active status ≡ false
    → Keeps (has_id id) (λ d. ended now (final_status status d) d)
finish-Keeps now id status proper = record {
  quiets = record { same_application = λ d. refl; not_activated = λ d h a. ground arith };
  same_id = λ d. refl;
  coherence = λ d h c. ground arith;
}

finish_deployment-IsValid :
    (now : ℕ) (s : Store) (id : ℕ) (status : Status)
    → is_active status ≡ false
    → IsValid s
    → IsValid (finish_deployment now s id status).0
unfolding finish_deployment
finish_deployment-IsValid now s id status proper v =
    let kept = IsValid-update _ _ s (finish-Keeps now id status proper) v in rw kept.one_active kept

-- A statement on one row that leaves the columns of the invariant alone.
set_row-IsValid :
    (s : Store) (id : ℕ) (f : Deployment → Deployment)
    → ((d : Deployment)
        → ((f d).id ≡ d.id)
          × ((f d).application_id ≡ d.application_id)
          × ((f d).status ≡ d.status)
          × (IsCoherent d → IsCoherent (f d)))
    → IsValid s
    → IsValid (with_deployments s (update_where (has_id id) f s.deployments))
set_row-IsValid s id f same v =
    IsValid-update (has_id id) f s
      (record {
        quiets = record {
          same_application = λ d. (same d).1;
          not_activated = λ d h a. rw (same d).2 at a;
        };
        same_id = λ d. (same d).0;
        coherence = λ d h c. (same d).3 c;
      })
      v

delete_deployments-IsValid :
    (s : Store) (app : ℕ) (is : List ℕ) → IsValid s → IsValid (delete_deployments s app is)
unfolding delete_deployments
delete_deployments-IsValid s app [] v = v
delete_deployments-IsValid s app (i ∷ is) v = IsValid-delete (deleted app (i ∷ is)) s _ refl refl v

module _ (next_id : List ℕ → ℕ) (above : IsAbove next_id) where
  pub fresh_id :
      (s : Store) → All (λ (e : Deployment). next_id (ids s.deployments) ≢ e.id) s.deployments
  fresh_id s = ids_ne_of_above _ s.deployments (above (ids s.deployments))

  start_deployment-IsValid :
      (now : ℕ) (s : Store) (app : ℕ) (image log : String)
      → IsValid s
      → IsValid (start_deployment next_id now s app image log).0
  unfolding start_deployment
  start_deployment-IsValid now s app image log v =
      insert_deployment-IsValid s
        (started_deployment (next_id (ids s.deployments)) app image log now) (fresh_id s)
        (ground arith) v

  queue_deployment-IsValid :
      (now : ℕ) (s : Store) (app : ℕ) (action log : String)
      → IsValid s
      → IsValid (queue_deployment next_id now s app action log).0
  unfolding queue_deployment
  queue_deployment-IsValid now s app action log v = ground (
    arith,
    insert_deployment-IsValid s
        (new_deployment (next_id (ids s.deployments)) app queued log now action) (fresh_id s)
        (ground arith) v,
  )

  -- Each call keeps the invariant: one active job to an application, distinct ids, coherent rows.
  pub step-IsValid :
      (s : Store) (c : ℕ × Call) → IsProper c → IsValid s → IsValid (step next_id s c)
  unfolding step next_queued_deployment recover_interrupted_deployments set_deployment_image
      set_deployment_release_metadata set_deployment_failure set_deployment_stage
      set_deployment_stage_durations
  step-IsValid s (now, start app image log) p v = start_deployment-IsValid now s app image log v
  step-IsValid s (now, queue app action log) p v = queue_deployment-IsValid now s app action log v
  step-IsValid s (now, claim) p v = claim_row-IsValid now s (oldest_queued s.deployments) v
  step-IsValid s (now, heartbeat id) p v = heartbeat_deployment-IsValid now s id v
  step-IsValid s (now, cancel app id) p v = cancel_deployment-IsValid now s app id v
  step-IsValid s (now, recover) p v = IsValid-update _ _ s (recover-Keeps now) v
  step-IsValid s (now, finish id status) p v = finish_deployment-IsValid now s id status p v
  step-IsValid s (now, set_image id i) p v =
      set_row-IsValid s id _ (λ d. (refl, refl, refl, λ c. ground arith)) v
  step-IsValid s (now, set_metadata id m) p v =
      set_row-IsValid s id _ (λ d. (refl, refl, refl, λ c. ground arith)) v
  step-IsValid s (now, set_failure id x) p v =
      set_row-IsValid s id _ (λ d. (refl, refl, refl, λ c. ground arith)) v
  step-IsValid s (now, set_stage id g) p v =
      set_row-IsValid s id _ (λ d. (refl, refl, refl, λ c. ground arith)) v
  step-IsValid s (now, set_durations id x) p v =
      set_row-IsValid s id _ (λ d. (refl, refl, refl, λ c. ground arith)) v
  step-IsValid s (now, delete app is) p v = delete_deployments-IsValid s app is v

  -- After any sequence of the calls that write jobs, whatever the clock shows at each, the jobs of
  -- a valid store are still valid: no application has two queued or running jobs, ids are
  -- distinct, every job belongs to a known application, and the columns of a job fit its status (a
  -- queued job is fresh, a running one has a lease that runs from its last heartbeat, an ended one
  -- has an end and no lease). Every call that finishes a job gives a status that ends it.
  pub run-IsValid :
      (s : Store) (cs : List (ℕ × Call)) → All IsProper cs → IsValid s → IsValid (run next_id s cs)
  unfolding run
  run-IsValid s [] p v = v
  run-IsValid s (c ∷ cs) p v = run-IsValid (step next_id s c) cs p.1 (step-IsValid s c p.0 v)
