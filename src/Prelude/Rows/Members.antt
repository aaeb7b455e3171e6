-- ===== src/Prelude/Rows/Members.antt =====
-- Rows that pass a test, and what is known of every row.
use mathlib.Core.List.{Memᴰ}
use mini_dock.Prelude.{
  ◌≡◌, Bool, true, inl, inr, List, [], ◌∷◌, map, arith, any, All, All-and, Bool-cases,
}
use mini_dock.Prelude.Rows.{where_rows}
use mini_dock.Prelude.Rows.Laws.{All-where_rows, All-Memᴰ_self, where_rows_test}

-- A test that holds of some row of a list, each of which passes another one.
pub any_of_All {ℓ} :
    {A : Type ℓ} (p : A → Bool) (P : A → Type 0) (xs : List A)
    → any p xs ≡ true
    → All P xs
    → (a : A) × (p a ≡ true) × P a
any_of_All p P [] h all = absurd (ground arith)
any_of_All p P (x ∷ xs) h all = elim (Bool-cases (p x)) [
  | inl hit ↦ (x, hit, all.0)
  | inr miss ↦ any_of_All p P xs (rw miss at h) all.1
]

pub any_of_Memᴰ {ℓ} :
    {A : Type ℓ} (p : A → Bool) (xs : List A) (a : A) → Memᴰ a xs → p a ≡ true → any p xs ≡ true
any_of_Memᴰ p [] a m h = elim m [ ]
any_of_Memᴰ p (x ∷ xs) a (Memᴰ.head e) h = ground arith
any_of_Memᴰ p (x ∷ xs) a (Memᴰ.tail m) h = ground (arith, any_of_Memᴰ p xs a m h)

pub where_rows-Memᴰ {ℓ} :
    {A : Type ℓ} (p : A → Bool) (xs : List A)
    → All (λ a. Memᴰ a xs × (p a ≡ true)) (where_rows p xs)
where_rows-Memᴰ p xs =
    All-and (λ a. Memᴰ a xs) (λ a. p a ≡ true) (where_rows p xs)
      (All-where_rows (λ a. Memᴰ a xs) p xs (All-Memᴰ_self xs)) (where_rows_test p xs)

pub All-map {ℓ κ} :
    {A B : Type ℓ} (P : B → Type κ) (f : A → B) (xs : List A)
    → All (λ a. P (f a)) xs
    → All P (map f xs)
All-map P f [] h = tt
All-map P f (x ∷ xs) h = (h.0, All-map P f xs h.1)
