-- ===== src/Store/Releases/Rollback.antt =====
-- The rollback targets: the newest successful job with an image, and the one before it.
use mathlib.Core.List.{Memᴰ}
use mathlib.Core.Path.{subst}
use native.Mathlib.Nat.{le_refl}
use mini_dock.Prelude.{
  ℕ, ◌≤◌, ◌<◌, ◌≡◌, refl, sym, ◌≢◌, true, List, [], ◌∷◌, arith, eq_iff, All, All-mono, All-and, ok,
}
use mini_dock.Prelude.Rows.{where_rows, row_at}
use mini_dock.Prelude.Rows.Laws.{All-where_rows, where_rows_test, All-of_where_rows, All-Memᴰ_self}
use mini_dock.Prelude.Rows.Order.{IsSorted, All-sort_by, All-of_sort_by}
use mini_dock.Store.Tables.{successful, Deployment, Store}
use mini_dock.Store.Jobs.{AreDistinct, id_ge}
use mini_dock.Store.Releases.{
  restorable, release_columns, found_release, restorable_rows, latest_successful_deployment,
  previous_successful_deployment,
}
use mini_dock.Store.Releases.Sorted.{AreDistinct-sort_by, AreDistinct-where_rows, newest_first}

-- A job of the table that a rollback of the application may restore.
pub record IsRestorable (app : ℕ) (s : Store) (d : Deployment) : Type 0 where
  pub stands : Memᴰ d s.deployments
  pub of_application : d.application_id ≡ app
  pub succeeded : d.status ≡ successful
  pub has_image : d.image ≢ ""

restorable_of_test :
    (app : ℕ) (s : Store) (d : Deployment)
    → Memᴰ d s.deployments × (restorable app d ≡ true)
    → IsRestorable app s d
restorable_of_test app s d h = record {
  stands = h.0;
  of_application = ground (arith, h.1);
  succeeded = ground (arith, h.1);
  has_image = λ e. ground (arith, h.1, eq_iff d.image "");
}

-- What the two queries return: of the restorable jobs of the application, `current` has the
-- greatest id and `previous` the greatest below that, and the results are their columns.
pub record AreNewest (app : ℕ) (s : Store) (latest target : Deployment) : Type 0 where
  pub current : Deployment
  pub previous : Deployment
  pub current_restorable : IsRestorable app s current
  pub previous_restorable : IsRestorable app s previous
  pub before : previous.id < current.id
  pub no_other :
      All
        (λ (d : Deployment). restorable app d ≡ true → d.id ≢ current.id → d.id ≤ previous.id)
        s.deployments
  pub latest_read : latest ≡ release_columns current
  pub target_read : target ≡ release_columns previous

two_rows :
    (ds : List Deployment) {latest target : Deployment}
    → found_release (row_at 0 ds) ≡ ok latest
    → found_release (row_at 1 ds) ≡ ok target
    → (current : Deployment) × (previous : Deployment) × (rest : List Deployment) × (ds
        ≡ current ∷ previous ∷ rest)
      × (latest ≡ release_columns current)
      × (target ≡ release_columns previous)
unfolding row_at
two_rows [] e f = absurd cc
two_rows (c ∷ []) e f = absurd cc
two_rows (c ∷ p ∷ ds) e f = (c, p, ds, refl, cc, cc)

module _ (app : ℕ) (s : Store) (distinct : AreDistinct s.deployments) where
  All-IsRestorable : All (IsRestorable app s) (restorable_rows s app)
  unfolding restorable_rows
  All-IsRestorable = All-sort_by id_ge _ _ (
      All-mono _ _ (restorable_of_test app s) _ (
        All-and _ _ _
          (All-where_rows _ (restorable app) s.deployments (All-Memᴰ_self s.deployments))
          (where_rows_test (restorable app) s.deployments)))

  sorted : IsSorted id_ge (restorable_rows s app)
  unfolding restorable_rows
  sorted = newest_first (where_rows (restorable app) s.deployments)

  ordered : AreDistinct (restorable_rows s app)
  unfolding restorable_rows
  ordered = AreDistinct-sort_by _ (AreDistinct-where_rows (restorable app) s.deployments distinct)

  of_table :
      (P : Deployment → Type 0)
      → All P (restorable_rows s app)
      → All (λ (d : Deployment). restorable app d ≡ true → P d) s.deployments
  unfolding restorable_rows
  of_table P h = All-of_where_rows (restorable app) P s.deployments (All-of_sort_by id_ge P _ h)

  -- The two queries succeed on the first two rows of the sorted selection.
  found_rows :
      {latest target : Deployment}
      → latest_successful_deployment s app ≡ ok latest
      → previous_successful_deployment s app ≡ ok target
      → (current : Deployment) × (previous : Deployment) × (rest : List Deployment)
        × (restorable_rows s app ≡ current ∷ previous ∷ rest)
        × (latest ≡ release_columns current)
        × (target ≡ release_columns previous)
  unfolding latest_successful_deployment previous_successful_deployment
  found_rows {latest} {target} e f = two_rows (restorable_rows s app) e f

  -- Without two rows of one id: if both queries answer, LatestSuccessfulDeployment returns the
  -- newest successful job of the application that has an image, and PreviousSuccessfulDeployment,
  -- the target of a rollback, the newest such job but one.
  pub successful_deployments-AreNewest :
      {latest target : Deployment}
      → latest_successful_deployment s app ≡ ok latest
      → previous_successful_deployment s app ≡ ok target
      → AreNewest app s latest target
  successful_deployments-AreNewest {latest} {target} e f =
      let (c, p, rest, rows, read, read') = found_rows e f in
      let both = subst (All (IsRestorable app s)) rows All-IsRestorable in
      let o = subst (IsSorted id_ge) rows sorted in
      let h = subst AreDistinct rows ordered in
      record {
        current = c;
        previous = p;
        current_restorable = both.0;
        previous_restorable = both.1.0;
        before = ground (arith, o.0.0, h.0.0);
        no_other =
            of_table (λ d. d.id ≢ c.id → d.id ≤ p.id)
              (subst (All (λ (d : Deployment). d.id ≢ c.id → d.id ≤ p.id)) (sym rows) (
                (λ ne. absurd (ne refl)),
                ((λ ne. le_refl p.id), All-mono _ _ (λ d g ne. ground arith) rest o.1.0),
              ));
        latest_read = read;
        target_read = read';
      }
