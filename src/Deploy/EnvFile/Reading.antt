-- ===== src/Deploy/EnvFile/Reading.antt =====
-- Reading an environment file as docker does: line by line, each split at its first equals sign.
use Prim.Native.Char.{Char, code}
use text.Mathlib.TextLemmas.{cons-append, nil-append, append_assoc}
use mini_dock.Prelude.{
  ℕ, ◌≡◌, refl, String, Bool, true, not, ◌&&◌, List, [], ◌∷◌, map, arith, ◌⊎◌, inl, inr, ◌==◌,
  if◌then◌else◌,
}
use mini_dock.Prelude.Decimal.{◌+s+◌}
use mini_dock.Prelude.Decimal.Reading.{one_char}
use mini_dock.Deploy.Contract.{Values}
use mini_dock.Deploy.EnvFile.{
  all_word_chars, is_safe_environment_name, is_one_line, is_safe_entry, env_line,
}

abbrev on_first : Char → List String → List String
on_first c [] = String.◌∷◌ c String.[] ∷ []
on_first c (line ∷ lines) = String.◌∷◌ c line ∷ lines

unfoldable pub lines : String → List String
lines String.[] = []
lines (String.◌∷◌ c s) = let rest = lines s in if code c == 10 then "" ∷ rest else on_first c rest

unfoldable pub split_entry : String → String × String
split_entry String.[] = ("", "")
split_entry (String.◌∷◌ c s) =
    let rest = split_entry s in if code c == 61 then ("", s) else (String.◌∷◌ c rest.0, rest.1)

-- The variables that a file sets.
unfoldable pub read_environment : String → Values
read_environment text = map split_entry (lines text)

-- No character of the text is the one with the code.
unfoldable pub lacks : ℕ → String → Bool
lacks n String.[] = true
lacks n (String.◌∷◌ c s) = let rest = lacks n s in not (code c == n) && rest

-- A line is read whole, whatever follows it.
line_read :
    (line rest : String)
    → lacks 10 line ≡ true
    → lines (line +s+ ("\n" +s+ rest)) ≡ line ∷ lines rest
unfolding lines lacks
line_read String.[] rest h = rw (nil-append ("\n" +s+ rest), one_char _ rest) refl
line_read (String.◌∷◌ c s) rest h =
    let again = line_read s rest (ground arith) in
    rw (cons-append c s ("\n" +s+ rest)) (ground (arith, again))

-- A name without an equals sign is read up to the first one.
entry_read :
    (name value : String)
    → lacks 61 name ≡ true
    → split_entry (name +s+ ("=" +s+ value)) ≡ (name, value)
unfolding split_entry lacks
entry_read String.[] value h = rw (nil-append ("=" +s+ value), one_char _ value) refl
entry_read (String.◌∷◌ c s) value h =
    let again = entry_read s value (ground arith) in
    rw (cons-append c s ("=" +s+ value)) (ground (arith, again))

lacks-append :
    (n : ℕ) (a b : String) → lacks n a ≡ true → lacks n b ≡ true → lacks n (a +s+ b) ≡ true
unfolding lacks
lacks-append n String.[] b h k = rw (nil-append b) k
lacks-append n (String.◌∷◌ c s) b h k =
    let again = lacks-append n s b (ground arith) k in
    rw (cons-append c s b) (ground (arith, again))

-- The characters of a name are neither a line feed nor an equals sign.
word_lacks : (n : ℕ) (s : String) → (n ≡ 10) ⊎ (n ≡ 61) → all_word_chars s ≡ true → lacks n s ≡ true
unfolding all_word_chars lacks
word_lacks n String.[] which h = refl
word_lacks n (String.◌∷◌ c s) which h =
    let again = word_lacks n s which (ground arith) in
    elim which [ inl e ↦ ground (arith, again) | inr e ↦ ground (arith, again) ]

name_lacks :
    (n : ℕ) (name : String)
    → (n ≡ 10) ⊎ (n ≡ 61)
    → is_safe_environment_name name ≡ true
    → lacks n name ≡ true
unfolding lacks
name_lacks n String.[] which h = refl
name_lacks n (String.◌∷◌ c s) which h =
    let again = word_lacks n s which (ground arith) in
    elim which [ inl e ↦ ground (arith, again) | inr e ↦ ground (arith, again) ]

value_lacks : (value : String) → is_one_line value ≡ true → lacks 10 value ≡ true
unfolding lacks is_one_line
value_lacks String.[] h = refl
value_lacks (String.◌∷◌ c s) h = let again = value_lacks s (ground arith) in ground (arith, again)

-- The line of a safe entry is read as its name and its value, whatever follows it.
pub read-env_line :
    (name value rest : String)
    → is_safe_entry name value ≡ true
    → read_environment (env_line name value +s+ rest) ≡ (name, value) ∷ read_environment rest
unfolding read_environment lacks
read-env_line name value rest h =
    let name_ok : is_safe_environment_name name ≡ true = ground arith in
    let value_ok : is_one_line value ≡ true = ground arith in
    let line = name +s+ ("=" +s+ value) in
    let no_break : lacks 10 line ≡ true =
      lacks-append 10 name ("=" +s+ value) (name_lacks 10 name (inl refl) name_ok)
        (lacks-append 10 "=" value refl (value_lacks value value_ok)) in
    let whole : env_line name value +s+ rest ≡ line +s+ ("\n" +s+ rest) =
      rw
        (
          append_assoc name ("=" +s+ value +s+ "\n") rest,
          append_assoc "=" (value +s+ "\n") rest,
          append_assoc value "\n" rest,
          append_assoc name ("=" +s+ value) ("\n" +s+ rest),
          append_assoc "=" value ("\n" +s+ rest),
        )
        refl in
    rw
      (
        whole,
        line_read line rest no_break,
        entry_read name value (name_lacks 61 name (inr refl) name_ok),
      )
      refl

pub read_nothing : read_environment "" ≡ []
unfolding read_environment lines
read_nothing = refl
