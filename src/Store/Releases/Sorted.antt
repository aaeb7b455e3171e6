-- ===== src/Store/Releases/Sorted.antt =====
-- The newest-first list of an application's jobs, against the table.
use mini_dock.Prelude.{◌≡◌, refl, ◌≢◌, Bool, ◌&&◌, List, [], ◌∷◌, arith, All, Bool-cases, inl, inr}
use mini_dock.Prelude.Rows.{where_rows, count_where, insert_by, sort_by}
use mini_dock.Prelude.Rows.Laws.{All-where_rows}
use mini_dock.Prelude.Rows.Order.{IsSorted, All-sort_by, sort_by-IsSorted, All-insert_by}
use mini_dock.Store.Tables.{Deployment}
use mini_dock.Store.Jobs.{AreDistinct, id_ge}

AreDistinct-insert_by :
    (d : Deployment) (ds : List Deployment)
    → All (λ (e : Deployment). d.id ≢ e.id) ds
    → AreDistinct ds
    → AreDistinct (insert_by id_ge d ds)
unfolding insert_by
AreDistinct-insert_by d [] n h = (tt, tt)
AreDistinct-insert_by d (e ∷ ds) n h = elim (Bool-cases (id_ge d e)) [
  | inl first ↦ rw first (n, h)
  | inr later ↦ rw later (
    All-insert_by id_ge (λ (a : Deployment). e.id ≢ a.id) d ds (λ same. n.0 (ground arith)) h.0,
    AreDistinct-insert_by d ds n.1 h.1,
  )
]

pub AreDistinct-sort_by : (ds : List Deployment) → AreDistinct ds → AreDistinct (sort_by id_ge ds)
unfolding sort_by
AreDistinct-sort_by [] h = tt
AreDistinct-sort_by (d ∷ ds) h =
    AreDistinct-insert_by d (sort_by id_ge ds) (All-sort_by id_ge _ ds h.0)
      (AreDistinct-sort_by ds h.1)

pub AreDistinct-where_rows :
    (p : Deployment → Bool) (ds : List Deployment) → AreDistinct ds → AreDistinct (where_rows p ds)
unfolding where_rows
AreDistinct-where_rows p [] h = tt
AreDistinct-where_rows p (d ∷ ds) h = elim (Bool-cases (p d)) [
  | inl hit ↦ rw hit (All-where_rows _ p ds h.0, AreDistinct-where_rows p ds h.1)
  | inr miss ↦ rw miss (AreDistinct-where_rows p ds h.1)
]

pub newest_first : (ds : List Deployment) → IsSorted id_ge (sort_by id_ge ds)
newest_first = sort_by-IsSorted id_ge (λ a b h. ground arith) (λ a b c h k. ground arith)

count-insert_by :
    (p : Deployment → Bool) (d : Deployment) (ds : List Deployment)
    → count_where p (insert_by id_ge d ds) ≡ count_where p (d ∷ ds)
unfolding count_where insert_by
count-insert_by p d [] = refl
count-insert_by p d (e ∷ ds) = ground (arith, count-insert_by p d ds)

-- Sorting leaves every count as it is.
pub count-sort_by :
    (p : Deployment → Bool) (ds : List Deployment)
    → count_where p (sort_by id_ge ds) ≡ count_where p ds
unfolding count_where sort_by
count-sort_by p [] = refl
count-sort_by p (d ∷ ds) =
    ground (arith, count-insert_by p d (sort_by id_ge ds), count-sort_by p ds)

pub count-where_rows :
    (p q : Deployment → Bool) (ds : List Deployment)
    → count_where q (where_rows p ds) ≡ count_where (λ d. p d && q d) ds
unfolding count_where where_rows
count-where_rows p q [] = refl
count-where_rows p q (d ∷ ds) = ground (arith, count-where_rows p q ds)
