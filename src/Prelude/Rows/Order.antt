-- ===== src/Prelude/Rows/Order.antt =====
-- ORDER BY sorts: the result is ordered, and has the rows that it was given.
use mathlib.Core.List.{Perm}
use mathlib.Core.List.Perm
use mini_dock.Prelude.{
  ◌≡◌, inl, inr, Bool, true, false, some, List, [], ◌∷◌, arith, All, All-mono, Bool-cases,
}
use mini_dock.Prelude.Rows.{insert_by, sort_by, row_at}

module _ {ℓ} {A : Type ℓ} (le : A → A → Bool) where
  -- Each row may stand before all that follow it.
  abbrev pub IsSorted : List A → Type ℓ
  IsSorted [] = Unit
  IsSorted (x ∷ xs) = All (λ y. le x y ≡ true) xs × IsSorted xs

  pub All-insert_by {κ} :
      (P : A → Type κ) (x : A) (xs : List A) → P x → All P xs → All P (insert_by le x xs)
  unfolding insert_by
  All-insert_by P x [] h hs = (h, tt)
  All-insert_by P x (y ∷ ys) h hs = elim (Bool-cases (le x y)) [
    | inl e ↦ rw e (h, hs)
    | inr e ↦ rw e (hs.0, All-insert_by P x ys h hs.1)
  ]

  pub All-sort_by {κ} : (P : A → Type κ) (xs : List A) → All P xs → All P (sort_by le xs)
  unfolding sort_by
  All-sort_by P [] h = tt
  All-sort_by P (x ∷ xs) h = All-insert_by P x (sort_by le xs) h.0 (All-sort_by P xs h.1)

  All-of_insert_by {κ} :
      (P : A → Type κ) (x : A) (xs : List A) → All P (insert_by le x xs) → P x × All P xs
  unfolding insert_by
  All-of_insert_by P x [] h = h
  All-of_insert_by P x (y ∷ ys) h = elim (Bool-cases (le x y)) [
    | inl e ↦ rw e at h
    | inr e ↦
        let (first, rest) = rw e at h in
        let (here, there) = All-of_insert_by P x ys rest in (here, (first, there))
  ]

  pub All-of_sort_by {κ} : (P : A → Type κ) (xs : List A) → All P (sort_by le xs) → All P xs
  unfolding sort_by
  All-of_sort_by P [] h = tt
  All-of_sort_by P (x ∷ xs) h =
      let (here, there) = All-of_insert_by P x (sort_by le xs) h in
      (here, All-of_sort_by P xs there)

  insert_by-perm : (x : A) (xs : List A) → Perm (insert_by le x xs) (x ∷ xs)
  unfolding insert_by
  insert_by-perm x [] = Perm.refl (x ∷ [])
  insert_by-perm x (y ∷ ys) = elim (Bool-cases (le x y)) [
    | inl e ↦ rw e (Perm.refl (x ∷ y ∷ ys))
    | inr e ↦ rw e (Perm.trans (Perm.cons y (insert_by-perm x ys)) (Perm.swap x y ys))
  ]

  -- Sorting loses no row and adds none.
  pub sort_by-perm : (xs : List A) → Perm (sort_by le xs) xs
  unfolding sort_by
  sort_by-perm [] = Perm.refl []
  sort_by-perm (x ∷ xs) =
      Perm.trans (insert_by-perm x (sort_by le xs)) (Perm.cons x (sort_by-perm xs))

first_of_sorted {ℓ} :
    {A : Type ℓ} (le : A → A → Bool) (xs : List A) {a : A}
    → IsSorted le xs
    → row_at 0 xs ≡ some a
    → le a a ≡ true
    → All (λ y. le a y ≡ true) xs
unfolding row_at
first_of_sorted le [] h e r = tt
first_of_sorted le (x ∷ xs) {a} h e r =
    let same : x ≡ a = ground arith in (rw same r, rw same at h.0)

module _ {ℓ} {A : Type ℓ} (le : A → A → Bool) (total : (a b : A) → le a b ≡ false → le b a ≡ true)
    (trans : (a b c : A) → le a b ≡ true → le b c ≡ true → le a c ≡ true) where
  insert_by-IsSorted : (x : A) (xs : List A) → IsSorted le xs → IsSorted le (insert_by le x xs)
  unfolding insert_by
  insert_by-IsSorted x [] h = (tt, tt)
  insert_by-IsSorted x (y ∷ ys) h = elim (Bool-cases (le x y)) [
    | inl e ↦ rw e ((e, All-mono _ _ (λ z. trans x y z e) ys h.0), h)
    | inr e ↦
        rw e (
          All-insert_by le (λ z. le y z ≡ true) x ys (total x y e) h.0,
          insert_by-IsSorted x ys h.1,
        )
  ]

  pub sort_by-IsSorted : (xs : List A) → IsSorted le (sort_by le xs)
  unfolding sort_by
  sort_by-IsSorted [] = tt
  sort_by-IsSorted (x ∷ xs) = insert_by-IsSorted x (sort_by le xs) (sort_by-IsSorted xs)

  -- The first row stands before every row of the table.
  pub row_at-sort_by-first :
      (xs : List A) {a : A}
      → row_at 0 (sort_by le xs) ≡ some a
      → le a a ≡ true
      → All (λ y. le a y ≡ true) xs
  row_at-sort_by-first xs e reflexive =
      All-of_sort_by le _ xs (first_of_sorted le (sort_by le xs) (sort_by-IsSorted xs) e reflexive)
