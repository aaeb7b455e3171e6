-- ===== src/Store/Releases/Retention.antt =====
-- RetentionCandidates against what its comment asks for: old, ended jobs, without the newest
-- successful ones.
use mini_dock.Prelude.{
  ℕ, ◌+◌, ◌≤◌, ◌<◌, ◌≡◌, ◌≢◌, Bool, true, false, ◌&&◌, List, [], ◌∷◌, arith, ltb, leb,
  if◌then◌else◌, All, All-mono, All-and, Bool-cases, inl, inr,
}
use mini_dock.Prelude.Rows.{count_where}
use mini_dock.Prelude.Rows.Laws.{count_where-none}
use mini_dock.Prelude.Rows.Order.{IsSorted}
use mini_dock.Store.Tables.{Deployment, is_active, is_successful}
use mini_dock.Store.Jobs.{AreDistinct, id_ge}
use mini_dock.Store.Releases.{finished_before, unfinished_or_recent, retention_from}

-- A successful job that is newer than the given one.
abbrev pub is_newer_success : Deployment → Deployment → Bool
is_newer_success d e = is_successful e.status && ltb d.id e.id

-- The job has ended before the time, and if it was successful, at least `retain` jobs that were
-- successful are newer.
pub record MayDrop (before retain newer : ℕ) (d : Deployment) : Type 0 where
  pub ended_job : is_active d.status ≡ false
  pub old : finished_before before d.finished_at ≡ true
  pub spared : is_successful d.status ≡ true → retain ≤ newer

pub none_newer :
    (d : Deployment) (ds : List Deployment)
    → All (λ (e : Deployment). id_ge d e ≡ true) ds
    → count_where (is_newer_success d) ds ≡ 0
none_newer d ds h =
    count_where-none (is_newer_success d) ds (All-mono _ _ (λ e g. ground arith) ds h)

module _ (before retain : ℕ) where
  pub All-retention_from {ℓ} :
      (P : Deployment → Type ℓ) (seen : ℕ) (ds : List Deployment)
      → All P ds
      → All P (retention_from before retain seen ds)
  unfolding retention_from
  All-retention_from P seen [] h = tt
  All-retention_from P seen (d ∷ ds) h =
      let seen' = if is_successful d.status then seen + 1 else seen in
      let rest = All-retention_from P seen' ds h.1 in
      elim (Bool-cases (unfinished_or_recent before d)) [
        | inl skip ↦ rw skip rest
        | inr drop ↦ elim (Bool-cases (is_successful d.status && leb seen' retain)) [
          | inl keep ↦ rw (drop, keep) rest
          | inr gone ↦ rw (drop, gone) (h.0, rest)
        ]
      ]

  -- One more job before the list: what was known of the later ones is still true.
  shift :
      (seen : ℕ) (d : Deployment) (ds : List Deployment) (e : Deployment)
      → e.id < d.id
      → MayDrop before retain
          ((if is_successful d.status then seen + 1 else seen)
            + count_where (is_newer_success e) ds)
          e
      → MayDrop before retain (seen + count_where (is_newer_success e) (d ∷ ds)) e
  unfolding count_where
  shift seen d ds e lt m = ground arith

  pub older :
      (d : Deployment) (ds : List Deployment)
      → IsSorted id_ge (d ∷ ds)
      → AreDistinct (d ∷ ds)
      → All (λ (e : Deployment). e.id < d.id) ds
  older d ds s h =
      All-mono _ _ (λ e both. ground arith) ds
        (All-and (λ (e : Deployment). id_ge d e ≡ true) (λ (e : Deployment). d.id ≢ e.id) ds s.0
          h.0)

  abbrev pub Sound : ℕ → List Deployment → Deployment → Type 0
  Sound seen ds d = MayDrop before retain (seen + count_where (is_newer_success d) ds) d

  head_may_drop :
      (seen : ℕ) (d : Deployment) (ds : List Deployment)
      → IsSorted id_ge (d ∷ ds)
      → unfinished_or_recent before d ≡ false
      → (is_successful d.status && leb (if is_successful d.status then seen + 1 else seen) retain)
        ≡ false
      → Sound seen (d ∷ ds) d
  unfolding count_where
  head_may_drop seen d ds s drop gone = ground (arith, none_newer d ds s.0)

  pub retention_from-MayDrop :
      (seen : ℕ) (ds : List Deployment)
      → IsSorted id_ge ds
      → AreDistinct ds
      → All (Sound seen ds) (retention_from before retain seen ds)
  unfolding retention_from
  retention_from-MayDrop seen [] s h = tt
  retention_from-MayDrop seen (d ∷ ds) s h =
      let seen' = if is_successful d.status then seen + 1 else seen in
      let kept = retention_from before retain seen' ds in
      let rest : All (Sound seen (d ∷ ds)) kept =
        All-mono (λ e. (e.id < d.id) × Sound seen' ds e) (Sound seen (d ∷ ds))
          (λ e both. shift seen d ds e both.0 both.1) kept
          (All-and (λ (e : Deployment). e.id < d.id) (Sound seen' ds) kept
            (All-retention_from (λ (e : Deployment). e.id < d.id) seen' ds (older d ds s h))
            (retention_from-MayDrop seen' ds s.1 h.1)) in
      elim (Bool-cases (unfinished_or_recent before d)) [
        | inl skip ↦ rw skip rest
        | inr drop ↦ elim (Bool-cases (is_successful d.status && leb seen' retain)) [
          | inl keep ↦ rw (drop, keep) rest
          | inr gone ↦ rw (drop, gone) (head_may_drop seen d ds s drop gone, rest)
        ]
      ]
