-- ===== src/Prelude/Rows/Laws.antt =====
-- What the statements of Prelude/Rows keep and what they find.
use mathlib.Core.List.{Memᴰ}
use mini_dock.Prelude.{
  ℕ, zero, suc, ◌≡◌, refl, ap, inl, inr, Bool, true, false, none, some, List, [], ◌∷◌, arith,
  if◌then◌else◌, All, Bool-cases,
}
use mini_dock.Prelude.Rows.{update_where, where_rows, delete_where, count_where, find_where, row_at}

module _ {ℓ κ} {A : Type ℓ} (P : A → Type κ) where
  pub All-Memᴰ : (xs : List A) (a : A) → All P xs → Memᴰ a xs → P a
  All-Memᴰ [] a h m = elim m [ ]
  All-Memᴰ (x ∷ xs) a h (Memᴰ.head e) = rw e h.0
  All-Memᴰ (x ∷ xs) a h (Memᴰ.tail m) = All-Memᴰ xs a h.1 m

  pub All-update_where :
      (p : A → Bool) (f : A → A)
      → ((a : A) → p a ≡ true → P a → P (f a))
      → (xs : List A) → All P xs
      → All P (update_where p f xs)
  unfolding update_where
  All-update_where p f keep [] h = tt
  All-update_where p f keep (x ∷ xs) h = elim (Bool-cases (p x)) [
    | inl hit ↦ rw hit (keep x hit h.0, All-update_where p f keep xs h.1)
    | inr miss ↦ rw miss (h.0, All-update_where p f keep xs h.1)
  ]

  pub All-where_rows : (p : A → Bool) (xs : List A) → All P xs → All P (where_rows p xs)
  unfolding where_rows
  All-where_rows p [] h = tt
  All-where_rows p (x ∷ xs) h = elim (Bool-cases (p x)) [
    | inl hit ↦ rw hit (h.0, All-where_rows p xs h.1)
    | inr miss ↦ rw miss (All-where_rows p xs h.1)
  ]

  pub All-delete_where : (p : A → Bool) (xs : List A) → All P xs → All P (delete_where p xs)
  unfolding delete_where
  All-delete_where p [] h = tt
  All-delete_where p (x ∷ xs) h = elim (Bool-cases (p x)) [
    | inl hit ↦ rw hit (All-delete_where p xs h.1)
    | inr miss ↦ rw miss (h.0, All-delete_where p xs h.1)
  ]

  pub All-row_at : (n : ℕ) (xs : List A) {a : A} → All P xs → row_at n xs ≡ some a → P a
  unfolding row_at
  All-row_at n [] h e = cc
  All-row_at zero (x ∷ xs) {a} h e = ground arith
  All-row_at (suc n) (x ∷ xs) h e = All-row_at n xs h.1 e

module _ {ℓ} {A : Type ℓ} (p : A → Bool) where
  pub where_rows_test : (xs : List A) → All (λ a. p a ≡ true) (where_rows p xs)
  unfolding where_rows
  where_rows_test [] = tt
  where_rows_test (x ∷ xs) = elim (Bool-cases (p x)) [
    | inl hit ↦ rw hit (hit, where_rows_test xs)
    | inr miss ↦ rw miss (where_rows_test xs)
  ]

  pub delete_where_test : (xs : List A) → All (λ a. p a ≡ false) (delete_where p xs)
  unfolding delete_where
  delete_where_test [] = tt
  delete_where_test (x ∷ xs) = elim (Bool-cases (p x)) [
    | inl hit ↦ rw hit (delete_where_test xs)
    | inr miss ↦ rw miss (miss, delete_where_test xs)
  ]

  -- What a WHERE clause keeps of the rows, read back on the table.
  pub All-of_where_rows {κ} :
      (P : A → Type κ) (xs : List A) → All P (where_rows p xs) → All (λ a. p a ≡ true → P a) xs
  unfolding where_rows
  All-of_where_rows P [] h = tt
  All-of_where_rows P (x ∷ xs) h = elim (Bool-cases (p x)) [
    | inl hit ↦ let (first, rest) = rw hit at h in ((λ _. first), All-of_where_rows P xs rest)
    | inr miss ↦ ((λ t. cc), All-of_where_rows P xs (rw miss at h))
  ]

  pub find_where_test : (xs : List A) {a : A} → find_where p xs ≡ some a → p a ≡ true
  unfolding find_where
  find_where_test [] e = cc
  find_where_test (x ∷ xs) {a} e = ground (arith, find_where_test xs {a = a})

  pub find_where-Memᴰ : (xs : List A) {a : A} → find_where p xs ≡ some a → Memᴰ a xs
  unfolding find_where
  find_where-Memᴰ [] e = cc
  find_where-Memᴰ (x ∷ xs) {a} e = elim (Bool-cases (p x)) [
    | inl hit ↦ Memᴰ.head (ground arith)
    | inr miss ↦ Memᴰ.tail (find_where-Memᴰ xs (ground arith))
  ]

  pub count_where-eq-zero : (xs : List A) → (count_where p xs ≡ 0) → All (λ a. p a ≡ false) xs
  unfolding count_where
  count_where-eq-zero [] h = tt
  count_where-eq-zero (x ∷ xs) h = elim (Bool-cases (p x)) [
    | inl hit ↦ absurd (ground arith)
    | inr miss ↦ (miss, count_where-eq-zero xs (ground arith))
  ]

  pub count_where-none : (xs : List A) → All (λ a. p a ≡ false) xs → count_where p xs ≡ 0
  unfolding count_where
  count_where-none [] h = refl
  count_where-none (x ∷ xs) h = rw h.0 (count_where-none xs h.1)

  pub update_where_none :
      (f : A → A) (xs : List A) → All (λ a. p a ≡ false) xs → update_where p f xs ≡ xs
  unfolding update_where
  update_where_none f [] h = refl
  update_where_none f (x ∷ xs) h = rw h.0 (ap (◌∷◌ x) (update_where_none f xs h.1))

-- Every row stands in its table.
All-of_tail {ℓ} :
    {A : Type ℓ} (xs ys : List A) → ((a : A) → Memᴰ a xs → Memᴰ a ys) → All (λ a. Memᴰ a ys) xs
All-of_tail [] ys sub = tt
All-of_tail (x ∷ xs) ys sub =
    (sub x (Memᴰ.head refl), All-of_tail xs ys (λ a m. sub a (Memᴰ.tail m)))

pub All-Memᴰ_self {ℓ} : {A : Type ℓ} (xs : List A) → All (λ a. Memᴰ a xs) xs
All-Memᴰ_self xs = All-of_tail xs xs (λ a m. m)

-- A statement that keeps the key: the row found under a key, after an UPDATE.
pub find_where-update_where {ℓ} :
    {A : Type ℓ} (k p : A → Bool) (f : A → A)
    → ((a : A) → k (f a) ≡ k a)
    → (xs : List A) {a : A} → find_where k xs ≡ some a
    → find_where k (update_where p f xs) ≡ some (if p a then f a else a)
unfolding find_where update_where
find_where-update_where k p f same [] e = cc
find_where-update_where k p f same (x ∷ xs) {a} e = elim (Bool-cases (p x)) [
  | inl hit ↦ ground (arith, same x, find_where-update_where k p f same xs {a = a})
  | inr miss ↦ ground (arith, find_where-update_where k p f same xs {a = a})
]

pub find_where-delete_where_self {ℓ} :
    {A : Type ℓ} (p : A → Bool) (xs : List A) → find_where p (delete_where p xs) ≡ none
unfolding find_where delete_where
find_where-delete_where_self p [] = refl
find_where-delete_where_self p (x ∷ xs) = ground (arith, find_where-delete_where_self p xs)

-- Rows that the DELETE does not take are found as before.
pub find_where-delete_where {ℓ} :
    {A : Type ℓ} (q p : A → Bool)
    → ((a : A) → q a ≡ true → p a ≡ false)
    → (xs : List A) → find_where q (delete_where p xs) ≡ find_where q xs
unfolding find_where delete_where
find_where-delete_where q p apart [] = refl
find_where-delete_where q p apart (x ∷ xs) =
    ground (arith, apart x, find_where-delete_where q p apart xs)
