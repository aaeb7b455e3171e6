-- ===== src/Store/Releases/Dropped.antt =====
-- internal/store/store.go: RetentionCandidates, against the table.
use mathlib.Core.List.{Memᴰ}
use mathlib.Core.Path.{subst}
use mini_dock.Prelude.{
  ◌↔◌, ==_iff, ℕ, ◌+◌, ◌<◌, ◌≡◌, refl, sym, ◌∙◌, true, false, ◌&&◌, List, [], ◌∷◌, arith, ◌==◌, leb,
  if◌then◌else◌, All, All-mono, All-and, Bool-cases, inl, inr,
}
use mini_dock.Prelude.Rows.{where_rows, count_where}
use mini_dock.Prelude.Rows.Laws.{where_rows_test, All-of_where_rows, All-Memᴰ}
use mini_dock.Prelude.Rows.Order.{IsSorted, All-sort_by, All-of_sort_by}
use mini_dock.Store.Tables.{Deployment, Store, is_successful}
use mini_dock.Store.Jobs.{AreDistinct, id_ge}
use mini_dock.Store.Releases.{
  deployments, unfinished_or_recent, retention_from, retention_candidates,
}
use mini_dock.Store.Releases.Sorted.{
  AreDistinct-sort_by, AreDistinct-where_rows, newest_first, count-sort_by, count-where_rows,
}
use mini_dock.Store.Releases.Retention.{
  MayDrop, Sound, is_newer_success, none_newer, older, retention_from-MayDrop, All-retention_from,
}

module _ (before retain : ℕ) where
  unshift :
      (seen : ℕ) (d : Deployment) (ds : List Deployment) (e : Deployment)
      → e.id < d.id
      → Sound before retain seen (d ∷ ds) e
      → Sound before retain (if is_successful d.status then seen + 1 else seen) ds e
  unfolding count_where
  unshift seen d ds e lt m = ground arith

  not_skipped :
      (seen : ℕ) (d : Deployment) (ds : List Deployment)
      → IsSorted id_ge (d ∷ ds)
      → Sound before retain seen (d ∷ ds) d
      → (unfinished_or_recent before d ≡ false)
        × ((is_successful d.status
              && leb (if is_successful d.status then seen + 1 else seen) retain)
            ≡ false)
  unfolding count_where
  not_skipped seen d ds s m = ground (arith, none_newer d ds s.0)

  head_found :
      (seen : ℕ) (d : Deployment) (ds : List Deployment)
      → IsSorted id_ge (d ∷ ds)
      → Sound before retain seen (d ∷ ds) d
      → Memᴰ d (retention_from before retain seen (d ∷ ds))
  unfolding retention_from
  head_found seen d ds s m =
      let (drop, gone) = not_skipped seen d ds s m in rw (drop, gone) (Memᴰ.head refl)

  tail_found :
      (seen : ℕ) (d e : Deployment) (ds : List Deployment)
      → Memᴰ e (retention_from before retain (if is_successful d.status then seen + 1 else seen) ds)
      → Memᴰ e (retention_from before retain seen (d ∷ ds))
  unfolding retention_from
  tail_found seen d e ds m =
      let seen' = if is_successful d.status then seen + 1 else seen in
      elim (Bool-cases (unfinished_or_recent before d)) [
        | inl skip ↦ rw skip m
        | inr drop ↦ elim (Bool-cases (is_successful d.status && leb seen' retain)) [
          | inl keep ↦ rw (drop, keep) m
          | inr gone ↦ rw (drop, gone) (Memᴰ.tail m)
        ]
      ]

  retention_from_complete :
      (seen : ℕ) (ds : List Deployment)
      → IsSorted id_ge ds
      → AreDistinct ds
      → All
          (λ (d : Deployment).
            Sound before retain seen ds d → Memᴰ d (retention_from before retain seen ds))
          ds
  retention_from_complete seen [] s h = tt
  retention_from_complete seen (d ∷ ds) s h =
      let seen' = if is_successful d.status then seen + 1 else seen in
      (
        head_found seen d ds s,
        All-mono
            (λ e.
              (e.id < d.id)
              × (Sound before retain seen' ds e → Memᴰ e (retention_from before retain seen' ds)))
            (λ e.
              Sound before retain seen (d ∷ ds) e
              → Memᴰ e (retention_from before retain seen (d ∷ ds)))
            (λ e both m. tail_found seen d e ds (both.1 (unshift seen d ds e both.0 m))) ds
            (All-and (λ (e : Deployment). e.id < d.id) _ ds (older before retain d ds s h)
              (retention_from_complete seen' ds s.1 h.1)),
      )

-- The successful jobs of the application that are newer than the job.
abbrev pub newer_successes : ℕ → Store → Deployment → ℕ
newer_successes app s d =
    count_where (λ e. e.application_id == app && is_newer_success d e) s.deployments

newer_counted :
    (app : ℕ) (s : Store) (d : Deployment)
    → count_where (is_newer_success d) (deployments s app) ≡ newer_successes app s d
unfolding deployments
newer_counted app s d =
    count-sort_by (is_newer_success d) (where_rows (λ e. e.application_id == app) s.deployments)
    ∙ count-where_rows (λ e. e.application_id == app) (is_newer_success d) s.deployments

module _ (s : Store) (app before retain : ℕ) (distinct : AreDistinct s.deployments) where
  ordered : AreDistinct (deployments s app)
  unfolding deployments
  ordered = AreDistinct-sort_by _ (AreDistinct-where_rows _ s.deployments distinct)

  same_application : All (λ (d : Deployment). d.application_id ≡ app) (deployments s app)
  unfolding deployments
  same_application = All-sort_by id_ge _ _ (
      All-mono _ _ (λ d h. ground arith) _
        (where_rows_test (λ (d : Deployment). d.application_id == app) s.deployments))

  sorted : IsSorted id_ge (deployments s app)
  unfolding deployments
  sorted = newest_first (where_rows (λ e. e.application_id == app) s.deployments)

  of_table :
      (P : Deployment → Type 0)
      → All P (deployments s app)
      → All (λ (d : Deployment). (d.application_id == app) ≡ true → P d) s.deployments
  unfolding deployments
  of_table P h =
      All-of_where_rows (λ (d : Deployment). d.application_id == app) P s.deployments
        (All-of_sort_by id_ge P _ h)

  same_newer :
      (d : Deployment)
      → 0 + count_where (is_newer_success d) (deployments s app) ≡ newer_successes app s d
  same_newer d = omega (arith, newer_counted app s d)

  sound :
      All
        (λ (d : Deployment).
          (d.application_id ≡ app) × MayDrop before retain (newer_successes app s d) d)
        (retention_candidates s app before retain)
  unfolding retention_candidates
  sound =
      All-and _ _ _ (All-retention_from before retain _ 0 (deployments s app) same_application) (
        All-mono _ _ (λ d m. subst (λ n. MayDrop before retain n d) (same_newer d) m) _
          (retention_from-MayDrop before retain 0 (deployments s app) sorted ordered))

  complete :
      All
        (λ (d : Deployment).
          (d.application_id == app) ≡ true
          → MayDrop before retain (newer_successes app s d) d
          → Memᴰ d (retention_candidates s app before retain))
        s.deployments
  unfolding retention_candidates
  complete =
      All-mono _ _
        (λ d found same m.
          found same (subst (λ n. MayDrop before retain n d) (sym (same_newer d)) m))
        s.deployments
        (of_table _ (retention_from_complete before retain 0 (deployments s app) sorted ordered))

  -- In a table without two rows of one id, a job of the table is a retention candidate of an
  -- application exactly if it is the application's, has ended before the time, and, if it was
  -- successful, at least `retain` successful jobs of the application are newer.
  pub retention_candidates-MayDrop :
      (d : Deployment)
      → Memᴰ d s.deployments
      → Memᴰ d (retention_candidates s app before retain)
        ↔ ((d.application_id ≡ app) × MayDrop before retain (newer_successes app s d) d)
  retention_candidates-MayDrop d stands = (
    All-Memᴰ _ (retention_candidates s app before retain) d sound,
    λ may.
        All-Memᴰ
          (λ (e : Deployment).
            (e.application_id == app) ≡ true
            → MayDrop before retain (newer_successes app s e) e
            → Memᴰ e (retention_candidates s app before retain))
          s.deployments d complete stands ((==_iff d.application_id app).1 may.0) may.1,
  )
