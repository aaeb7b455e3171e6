-- ===== src/Store/Jobs/Claim.antt =====
-- NextQueuedDeployment: which job a worker gets.
use mathlib.Core.List.{Memᴰ}
use mini_dock.Prelude.{
  ◌≤◌, ◌≡◌, refl, Bool, true, false, none, some, List, [], ◌∷◌, arith, any, All, All-mono,
}
use mini_dock.Prelude.Rows.{where_rows, sort_by, row_at, insert_by}
use mini_dock.Prelude.Rows.Laws.{
  All-where_rows, where_rows_test, All-of_where_rows, All-row_at, All-Memᴰ_self,
}
use mini_dock.Prelude.Rows.Order.{All-sort_by, row_at-sort_by-first}
use mini_dock.Store.Tables.{queued, is_queued, Deployment}
use mini_dock.Store.Jobs.{id_le, oldest_queued}

abbrev is_queued_row : Deployment → Bool
is_queued_row d = is_queued d.status

-- What the SELECT finds is queued, stands in the table, and is the oldest of the queued jobs.
pub record IsOldest (ds : List Deployment) (d : Deployment) : Type 0 where
  pub is_queued_job : d.status ≡ queued
  pub stands : Memᴰ d ds
  pub least : All (λ (e : Deployment). is_queued e.status ≡ true → d.id ≤ e.id) ds

queued_of_test : (d : Deployment) → is_queued d.status ≡ true → d.status ≡ queued
queued_of_test d h = ground arith

pub oldest_queued-IsOldest :
    (ds : List Deployment) {d : Deployment} → oldest_queued ds ≡ some d → IsOldest ds d
unfolding oldest_queued
oldest_queued-IsOldest ds {d} e = record {
  is_queued_job =
      queued_of_test d
        (All-row_at _ 0 _ (All-sort_by id_le _ rows (where_rows_test is_queued_row ds)) e);
  stands =
      All-row_at (λ a. Memᴰ a ds) 0 _
        (All-sort_by id_le _ rows (All-where_rows _ is_queued_row ds (All-Memᴰ_self ds))) e;
  least =
      All-mono _ _ (λ a h q. ground (arith, h q)) ds
        (All-of_where_rows is_queued_row (λ a. id_le d a ≡ true) ds
          (row_at-sort_by-first id_le (λ a b h. ground arith) (λ a b c h k. ground arith) rows e
            (ground arith)));
}
  where
    rows : List Deployment
    rows = where_rows is_queued_row ds

insert_by-ne-nil :
    (d : Deployment) (ds : List Deployment) → row_at 0 (insert_by id_le d ds) ≡ none → ⊥
unfolding insert_by row_at
insert_by-ne-nil d [] h = cc
insert_by-ne-nil d (e ∷ ds) h = ground arith

first_none : (ds : List Deployment) → row_at 0 (sort_by id_le ds) ≡ none → ds ≡ []
unfolding sort_by
first_none [] h = refl
first_none (d ∷ ds) h = absurd (insert_by-ne-nil d (sort_by id_le ds) h)

none_queued :
    (ds : List Deployment) → where_rows is_queued_row ds ≡ [] → any is_queued_row ds ≡ false
unfolding where_rows
none_queued [] h = refl
none_queued (d ∷ ds) h = ground (arith, none_queued ds)

-- It finds one whenever there is one.
pub oldest_queued-none :
    (ds : List Deployment)
    → oldest_queued ds ≡ none
    → any (λ (d : Deployment). is_queued d.status) ds ≡ false
unfolding oldest_queued
oldest_queued-none ds h = none_queued ds (first_none _ h)
