-- ===== src/Store/Endings/Recovering.antt =====
-- internal/store/store.go: RecoverInterruptedDeployments, against the jobs before it.
use mini_dock.Prelude.{
  ℕ, ◌+◌, ◌≡◌, refl, ◌≢◌, Bool, List, [], ◌∷◌, arith, All, Bool-cases, inl, inr, ok,
}
use mini_dock.Prelude.Rows.{update_where, where_rows, count_where}
use mini_dock.Store.Tables.{running, is_queued, is_running, is_failed, Deployment, Store}
use mini_dock.Store.Endings.{interrupted, recover_interrupted_deployments}

abbrev pub runs : Deployment → Bool
runs d = is_running d.status

abbrev waits : Deployment → Bool
waits d = is_queued d.status

abbrev fails : Deployment → Bool
fails d = is_failed d.status

none_running :
    (now : ℕ) (ds : List Deployment)
    → All (λ (d : Deployment). d.status ≢ running) (update_where runs (interrupted now) ds)
unfolding update_where
none_running now [] = tt
none_running now (d ∷ ds) = elim (Bool-cases (runs d)) [
  | inl hit ↦ rw hit ((λ e. cc), none_running now ds)
  | inr miss ↦ rw miss ((λ e. ground arith), none_running now ds)
]

same_queue :
    (now : ℕ) (ds : List Deployment)
    → where_rows waits (update_where runs (interrupted now) ds) ≡ where_rows waits ds
unfolding update_where where_rows
same_queue now [] = refl
same_queue now (d ∷ ds) = ground (arith, same_queue now ds)

more_failed :
    (now : ℕ) (ds : List Deployment)
    → count_where fails (update_where runs (interrupted now) ds)
      ≡ count_where fails ds + count_where runs ds
unfolding update_where count_where
more_failed now [] = omega arith
more_failed now (d ∷ ds) = ground (arith, more_failed now ds)

-- A table after the recovery of `n` interrupted jobs: none is running, the queue is the same, and
-- there are `n` more failures.
pub record IsRecovered (n : ℕ) (before after : List Deployment) : Type 0 where
  pub none_left : All (λ (d : Deployment). d.status ≢ running) after
  pub queue_kept :
      where_rows (λ (d : Deployment). is_queued d.status) after
      ≡ where_rows (λ (d : Deployment). is_queued d.status) before
  pub failures_added :
      count_where (λ (d : Deployment). is_failed d.status) after
      ≡ count_where (λ (d : Deployment). is_failed d.status) before + n

-- RecoverInterruptedDeployments reports the number of jobs that were running. Afterwards no job is
-- running, the queued jobs are the same rows, and there are as many more failures as it reports.
pub recover_interrupted_deployments_lem :
    (now : ℕ) (s : Store)
    → ((recover_interrupted_deployments now s).1 ≡ ok (count_where runs s.deployments))
      × IsRecovered
          (count_where runs s.deployments)
          s.deployments
          (recover_interrupted_deployments now s).0.deployments
unfolding recover_interrupted_deployments
recover_interrupted_deployments_lem now s = (
  refl,
  record {
    none_left = none_running now s.deployments;
    queue_kept = same_queue now s.deployments;
    failures_added = more_failed now s.deployments;
  },
)
