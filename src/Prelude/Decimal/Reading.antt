-- ===== src/Prelude/Decimal/Reading.antt =====
-- Reading a printed number back from the front of a text.
use Prim.Native.Char.{Char, code}
use text.Mathlib.TextLemmas.{cons-append, nil-append, append_assoc}
use mini_dock.Prelude.{
  ℕ, zero, suc, ◌+◌, ◌-◌, ◌*◌, ◌/◌, ◌%◌, ◌^◌, ◌≡◌, ◌<◌, refl, ap, ◌∙◌, String, ◌&&◌, leb, ltb,
  arith, if◌then◌else◌, Bool-cases, inl, inr, ltb→lt,
}
use mini_dock.Prelude.Decimal.{◌+s+◌, digit, digits, decimal}

abbrev pub is_digit : Char → mathlib.Core.Bool.Bool
is_digit c = leb 48 (code c) && leb (code c) 57

-- The number at the front of a text, and the rest of it.
unfoldable pub read_number : ℕ → String → ℕ × String
read_number acc String.[] = (acc, "")
read_number acc (String.◌∷◌ c s) =
    let rest = read_number (acc * 10 + (code c - 48)) s in
    if is_digit c then rest else (acc, String.◌∷◌ c s)

pub one_char : (c : Char) (t : String) → String.◌∷◌ c String.[] +s+ t ≡ String.◌∷◌ c t
one_char c t = cons-append c "" t ∙ ap (λ s. String.◌∷◌ c s) (nil-append t)

read_char :
    (acc m : ℕ) (c : Char) (t : String)
    → code c ≡ 48 + m
    → m < 10
    → read_number acc (String.◌∷◌ c String.[] +s+ t) ≡ read_number (acc * 10 + m) t
unfolding read_number
read_char acc m c t e h = rw (one_char c t) (ground arith)

read_digit :
    (acc m : ℕ) (t : String)
    → m < 10
    → read_number acc (digit m +s+ t) ≡ read_number (acc * 10 + m) t
read_digit acc zero t h = read_char acc 0 _ t refl h
read_digit acc (suc zero) t h = read_char acc 1 _ t refl h
read_digit acc (suc (suc zero)) t h = read_char acc 2 _ t refl h
read_digit acc (suc (suc (suc zero))) t h = read_char acc 3 _ t refl h
read_digit acc (suc (suc (suc (suc zero)))) t h = read_char acc 4 _ t refl h
read_digit acc (suc (suc (suc (suc (suc zero))))) t h = read_char acc 5 _ t refl h
read_digit acc (suc (suc (suc (suc (suc (suc zero)))))) t h = read_char acc 6 _ t refl h
read_digit acc (suc (suc (suc (suc (suc (suc (suc zero))))))) t h = read_char acc 7 _ t refl h
read_digit acc (suc (suc (suc (suc (suc (suc (suc (suc zero)))))))) t h = read_char acc 8 _ t refl h
read_digit acc (suc (suc (suc (suc (suc (suc (suc (suc (suc zero))))))))) t h =
    read_char acc 9 _ t refl h
read_digit acc (suc (suc (suc (suc (suc (suc (suc (suc (suc (suc m)))))))))) t h =
    absurd (omega arith)

first_digit : (n : ℕ) (t : String) → n < 10 → read_number 0 (digit n +s+ t) ≡ read_number n t
first_digit n t h = read_digit 0 n t h ∙ ap (λ k. read_number k t) (omega arith)

shrink : (fuel n : ℕ) → n < 10 ^ suc (suc fuel) → n / 10 < 10 ^ suc fuel
shrink fuel n h = let e : 10 ^ suc (suc fuel) ≡ 10 ^ suc fuel * 10 = grind arith in omega arith

-- Where all digits are printed, they are read before whatever follows.
read-digits :
    (fuel n : ℕ) (t : String)
    → n < 10 ^ suc fuel
    → read_number 0 (digits fuel n +s+ t) ≡ read_number n t
unfolding digits
read-digits zero n t h = first_digit n t (omega arith)
read-digits (suc fuel) n t h = elim (Bool-cases (ltb n 10)) [
  | inl small ↦ rw small (first_digit n t (ltb→lt n 10 small))
  | inr large ↦
      rw (large, append_assoc (digits fuel (n / 10)) (digit (n % 10)) t)
        (read-digits fuel (n / 10) (digit (n % 10) +s+ t) (shrink fuel n h)
          ∙ read_digit (n / 10) (n % 10) t (omega arith)
          ∙ ap (λ k. read_number k t) (omega arith))
]

-- A number of an int64 is read back from its print before a text that starts with no digit.
pub read-decimal :
    (n : ℕ) (t : String) → n < 10 ^ 19 → read_number 0 (decimal n +s+ t) ≡ read_number n t
unfolding decimal
read-decimal n t h = read-digits 18 n t h
