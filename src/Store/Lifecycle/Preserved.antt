-- ===== src/Store/Lifecycle/Preserved.antt =====
-- internal/store/store.go: the invariant of the jobs under an update and a deletion.
use mini_dock.Prelude.{ℕ, ◌≡◌, ◌≢◌, inl, inr, Bool, true, List, [], ◌∷◌, All, Bool-cases}
use mini_dock.Prelude.Rows.{update_where, delete_where}
use mini_dock.Prelude.Rows.Laws.{All-update_where, All-delete_where}
use mini_dock.Store.Tables.{Deployment, Store}
use mini_dock.Store.Jobs.{AreDistinct, with_deployments, has_application}
use mini_dock.Store.Jobs.Index.{Quiets, index_holds-update, index_holds-delete}
use mini_dock.Store.Lifecycle.{IsCoherent, IsValid}

-- The statement changes no id, and keeps a job's columns coherent.
pub record Keeps (p : Deployment → Bool) (f : Deployment → Deployment) : Type 0 where
  pub quiets : Quiets p f
  pub same_id : (d : Deployment) → (f d).id ≡ d.id
  pub coherence : (d : Deployment) → p d ≡ true → IsCoherent d → IsCoherent (f d)

module _ (p : Deployment → Bool) (f : Deployment → Deployment) where
  ids_ne-update :
      ((d : Deployment) → (f d).id ≡ d.id)
      → (i : ℕ) (ds : List Deployment) → All (λ (e : Deployment). i ≢ e.id) ds
      → All (λ (e : Deployment). i ≢ e.id) (update_where p f ds)
  ids_ne-update same i ds h =
      All-update_where (λ (e : Deployment). i ≢ e.id) p f (λ d _ ne. rw (same d) ne) ds h

  AreDistinct-update :
      ((d : Deployment) → (f d).id ≡ d.id)
      → (ds : List Deployment) → AreDistinct ds
      → AreDistinct (update_where p f ds)
  unfolding update_where
  AreDistinct-update same [] h = tt
  AreDistinct-update same (d ∷ ds) h = elim (Bool-cases (p d)) [
    | inl hit ↦ rw (hit, same d) (ids_ne-update same d.id ds h.0, AreDistinct-update same ds h.1)
    | inr miss ↦ rw miss (ids_ne-update same d.id ds h.0, AreDistinct-update same ds h.1)
  ]

  -- An UPDATE of this kind keeps the invariant.
  pub IsValid-update :
      (s : Store)
      → Keeps p f
      → IsValid s
      → IsValid (with_deployments s (update_where p f s.deployments))
  IsValid-update s k v = record {
    one_active = index_holds-update p f k.quiets s.deployments v.one_active;
    distinct = AreDistinct-update k.same_id s.deployments v.distinct;
    coherent = All-update_where IsCoherent p f k.coherence s.deployments v.coherent;
    owned =
        All-update_where (λ (d : Deployment). has_application d.application_id s ≡ true) p f
          (λ d _ h. rw (k.quiets.same_application d) h) s.deployments v.owned;
  }

pub AreDistinct-delete :
    (p : Deployment → Bool) (ds : List Deployment)
    → AreDistinct ds
    → AreDistinct (delete_where p ds)
unfolding delete_where
AreDistinct-delete p [] h = tt
AreDistinct-delete p (d ∷ ds) h = elim (Bool-cases (p d)) [
  | inl hit ↦ rw hit (AreDistinct-delete p ds h.1)
  | inr miss ↦ rw miss (All-delete_where _ p ds h.0, AreDistinct-delete p ds h.1)
]

-- A DELETE keeps the invariant, whatever it does to the other tables.
pub IsValid-delete :
    (p : Deployment → Bool) (s t : Store)
    → t.applications ≡ s.applications
    → t.deployments ≡ delete_where p s.deployments
    → IsValid s
    → IsValid t
IsValid-delete p s t same rows v = record {
  one_active = rw rows (index_holds-delete p s.deployments v.one_active);
  distinct = rw rows (AreDistinct-delete p s.deployments v.distinct);
  coherent = rw rows (All-delete_where IsCoherent p s.deployments v.coherent);
  owned = rw (rows, same) (All-delete_where _ p s.deployments v.owned);
}
