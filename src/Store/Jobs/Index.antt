-- ===== src/Store/Jobs/Index.antt =====
-- The partial unique index on active jobs: what it means, and which statements keep it.
use mini_dock.Prelude.{
  ℕ, ◌≤◌, ◌≡◌, refl, Bool, true, false, List, [], ◌∷◌, arith, any, Bool-cases, inl, inr,
}
use mini_dock.Prelude.Rows.{update_where, delete_where, count_where}
use mini_dock.Store.Tables.{Deployment, is_active}
use mini_dock.Store.Jobs.{active_for, index_holds}

-- The statement changes no job's application and activates none.
pub record Quiets (p : Deployment → Bool) (f : Deployment → Deployment) : Type 0 where
  pub same_application : (d : Deployment) → (f d).application_id ≡ d.application_id
  pub not_activated :
      (d : Deployment) → p d ≡ true → is_active (f d).status ≡ true → is_active d.status ≡ true

module _ (p : Deployment → Bool) (f : Deployment → Deployment) (q : Quiets p f) where
  any_active-update :
      (a : ℕ) (ds : List Deployment)
      → any (active_for a) ds ≡ false
      → any (active_for a) (update_where p f ds) ≡ false
  unfolding update_where
  any_active-update a [] h = refl
  any_active-update a (d ∷ ds) h = elim (Bool-cases (p d)) [
    | inl hit ↦ ground (arith, any_active-update a ds, q.same_application d, q.not_activated d)
    | inr miss ↦ ground (arith, any_active-update a ds)
  ]

  -- Such a statement keeps the index.
  pub index_holds-update :
      (ds : List Deployment) → index_holds ds ≡ true → index_holds (update_where p f ds) ≡ true
  unfolding update_where index_holds
  index_holds-update [] h = refl
  index_holds-update (d ∷ ds) h = elim (Bool-cases (p d)) [
    | inl hit ↦ ground (
      arith,
      index_holds-update ds,
      any_active-update d.application_id ds,
      q.same_application d,
      q.not_activated d,
    )
    | inr miss ↦ ground (arith, index_holds-update ds, any_active-update d.application_id ds)
  ]

any_active-delete :
    (p : Deployment → Bool) (a : ℕ) (ds : List Deployment)
    → any (active_for a) ds ≡ false
    → any (active_for a) (delete_where p ds) ≡ false
unfolding delete_where
any_active-delete p a [] h = refl
any_active-delete p a (d ∷ ds) h = ground (arith, any_active-delete p a ds)

-- So does a DELETE.
pub index_holds-delete :
    (p : Deployment → Bool) (ds : List Deployment)
    → index_holds ds ≡ true
    → index_holds (delete_where p ds) ≡ true
unfolding delete_where index_holds
index_holds-delete p [] h = refl
index_holds-delete p (d ∷ ds) h =
    ground (arith, index_holds-delete p ds, any_active-delete p d.application_id ds)

count_active_none :
    (a : ℕ) (ds : List Deployment)
    → any (active_for a) ds ≡ false
    → count_where (active_for a) ds ≡ 0
unfolding count_where
count_active_none a [] h = refl
count_active_none a (d ∷ ds) h = ground (arith, count_active_none a ds)

-- The index leaves an application at most one active job.
pub active_count-le :
    (a : ℕ) (ds : List Deployment) → index_holds ds ≡ true → count_where (active_for a) ds ≤ 1
unfolding count_where index_holds
active_count-le a [] h = omega arith
active_count-le a (d ∷ ds) h =
    ground (arith, active_count-le a ds, count_active_none d.application_id ds)
