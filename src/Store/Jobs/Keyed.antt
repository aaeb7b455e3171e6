-- ===== src/Store/Jobs/Keyed.antt =====
-- The primary key: a condition that fixes the id selects at most one row.
use mathlib.Core.List.{Memᴰ}
use mini_dock.Prelude.{
  ℕ, ◌≡◌, ◌≢◌, Bool, true, false, none, some, List, [], ◌∷◌, arith, ◌==◌, if◌then◌else◌, All,
  Bool-cases, inl, inr,
}
use mini_dock.Prelude.Rows.{count_where, find_where}
use mini_dock.Prelude.Rows.Laws.{count_where-none, All-Memᴰ}
use mini_dock.Store.Tables.{Deployment}
use mini_dock.Store.Jobs.{AreDistinct, has_id}

pub find_of_Memᴰ :
    (d : Deployment) (ds : List Deployment)
    → AreDistinct ds
    → Memᴰ d ds
    → find_where (has_id d.id) ds ≡ some d
unfolding find_where
find_of_Memᴰ d [] h m = elim m [ ]
find_of_Memᴰ d (e ∷ ds) h (Memᴰ.head same) = ground arith
find_of_Memᴰ d (e ∷ ds) h (Memᴰ.tail m) =
    let ne : e.id ≢ d.id = All-Memᴰ (λ (a : Deployment). e.id ≢ a.id) ds d h.0 m in
    ground (arith, find_of_Memᴰ d ds h.1 m)

module _ (p : Deployment → Bool) (id : ℕ) (keyed : (a : Deployment) → p a ≡ true → a.id ≡ id) where
  none_of_ne :
      (ds : List Deployment)
      → All (λ (e : Deployment). id ≢ e.id) ds
      → All (λ (e : Deployment). p e ≡ false) ds
  none_of_ne [] h = tt
  none_of_ne (e ∷ ds) h = (ground (arith, keyed e), none_of_ne ds h.1)

  -- The rows affected by such a condition are the row with that id, or none.
  pub count_keyed :
      (ds : List Deployment) {d : Deployment}
      → AreDistinct ds
      → find_where (has_id id) ds ≡ some d
      → count_where p ds ≡ (if p d then 1 else 0)
  unfolding count_where find_where
  count_keyed [] h e = cc
  count_keyed (x ∷ ds) {d} h e = elim (Bool-cases (x.id == id)) [
    | inl hit ↦
        let same : x.id ≡ id = ground arith in
        let none_else : count_where p ds ≡ 0 =
          count_where-none p ds (none_of_ne ds (rw same at h.0)) in
        ground arith
    | inr miss ↦ ground (arith, keyed x, count_keyed ds {d = d} h.1)
  ]

  pub count_unkeyed :
      (ds : List Deployment)
      → find_where (has_id id) ds ≡ none
      → All (λ (e : Deployment). p e ≡ false) ds
  unfolding find_where
  count_unkeyed [] e = tt
  count_unkeyed (x ∷ ds) e = (ground (arith, keyed x), count_unkeyed ds (ground arith))

  -- A row that fails the condition leaves it without any row.
  pub none_keyed :
      (ds : List Deployment) {d : Deployment}
      → AreDistinct ds
      → find_where (has_id id) ds ≡ some d
      → p d ≡ false
      → All (λ (e : Deployment). p e ≡ false) ds
  unfolding find_where
  none_keyed [] h e f = tt
  none_keyed (x ∷ ds) {d} h e f = elim (Bool-cases (x.id == id)) [
    | inl hit ↦
        let same : x.id ≡ id = ground arith in (ground arith, none_of_ne ds (rw same at h.0))
    | inr miss ↦ (ground (arith, keyed x), none_keyed ds {d = d} h.1 (ground arith) f)
  ]
