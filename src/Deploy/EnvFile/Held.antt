-- ===== src/Deploy/EnvFile/Held.antt =====
-- internal/deploy/executor.go: what the environment file of a release sets.
use mini_dock.Prelude.{
  ◌≡◌, refl, sym, ap, ◌∙◌, String, Bool, ◌||◌, Option, none, some, List, [], ◌∷◌, map, arith, any,
  ◌=s=◌, eq_iff, inl, inr, Bool-cases, is_some, if◌then◌else◌,
}
use mini_dock.Prelude.Decimal.{◌+s+◌}
use mini_dock.Prelude.Rows.{sort_by, insert_by}
use mini_dock.Deploy.Failures.{Got, got, missed}
use mini_dock.Deploy.Contract.{Values, value_of}
use mini_dock.Deploy.Host.{
  Host, make_env_directory, create_env_file, protect_env_file, write_env_file, close_env_file,
}
use mini_dock.Deploy.Building.{keys, sorted_names, text_or_empty}
use mini_dock.Deploy.EnvFile.{
  is_safe_entry, env_line, after_line, env_data, closed_file, filled_file, protected_file,
  created_file, in_directory, runtime_env_file,
}
use mini_dock.Deploy.EnvFile.Reading.{read_environment, read-env_line, read_nothing}

abbrev entries : Values → List String → Values
entries environment names = map (λ name. (name, text_or_empty (value_of name environment))) names

after_line_got :
    (line : String) (g : Got String) (text : String)
    → after_line line g ≡ got text
    → (rest : String) × (g ≡ got rest) × (text ≡ line +s+ rest)
after_line_got line (got rest) text h =
    (rest, refl, let same : got (line +s+ rest) ≡ got text = h in cc)
after_line_got line (missed f) text h = absurd cc

-- The lines are read back as the variables that they were made from, in their order.
read-env_data :
    (environment : Values) (names : List String) (text : String)
    → env_data environment names ≡ got text
    → read_environment text ≡ entries environment names
unfolding env_data
read-env_data environment [] text h = let same : text ≡ "" = cc in rw same read_nothing
read-env_data environment (name ∷ names) text h =
    let value = text_or_empty (value_of name environment) in
    elim (Bool-cases (is_safe_entry name value)) [
      | inr unsafe ↦ absurd (let wrong = rw unsafe at h in cc)
      | inl safe ↦
          let (rest, made, whole) =
            after_line_got (env_line name value) (env_data environment names) text (rw safe at h) in
          rw (whole, read-env_line name value rest safe)
            (ap (λ vs. (name, value) ∷ vs) (read-env_data environment names rest made))
    ]

abbrev is_listed : String → List String → Bool
is_listed name names = any (λ other. other =s= name) names

listed_insert :
    (le : String → String → Bool) (name x : String) (xs : List String)
    → is_listed name (insert_by le x xs) ≡ is_listed name (x ∷ xs)
unfolding insert_by
listed_insert le name x [] = refl
listed_insert le name x (y ∷ ys) = ground (arith, listed_insert le name x ys)

listed_sort :
    (le : String → String → Bool) (name : String) (xs : List String)
    → is_listed name (sort_by le xs) ≡ is_listed name xs
unfolding sort_by
listed_sort le name [] = refl
listed_sort le name (x ∷ xs) =
    listed_insert le name x (sort_by le xs) ∙ ap (λ b. x =s= name || b) (listed_sort le name xs)

listed_keys : (name : String) (vs : Values) → is_listed name (keys vs) ≡ is_some (value_of name vs)
unfolding keys value_of
listed_keys name [] = refl
listed_keys name (v ∷ vs) =
    let again = listed_keys name vs in
    elim (Bool-cases (is_listed v.0 (keys vs))) [
      | inl there ↦ elim (Bool-cases (v.0 =s= name)) [
        | inl same ↦
            rw (there, same)
              (ap (λ n. is_listed n (keys vs)) (sym ((eq_iff v.0 name).0 same)) ∙ there)
        | inr other ↦ rw (there, other) again
      ]
      | inr fresh ↦ rw fresh (ground (arith, again))
    ]

value_of-entries :
    (name : String) (environment : Values) (names : List String)
    → value_of name (entries environment names)
      ≡ (if is_listed name names then some (text_or_empty (value_of name environment)) else none)
unfolding value_of
value_of-entries name environment [] = refl
value_of-entries name environment (x ∷ xs) = elim (Bool-cases (x =s= name)) [
  | inl same ↦
      rw same (ap (λ n. some (text_or_empty (value_of n environment))) ((eq_iff x name).0 same))
  | inr other ↦ rw other (value_of-entries name environment xs)
]

or_none : (o : Option String) → (if is_some o then some (text_or_empty o) else none) ≡ o
or_none none = refl
or_none (some text) = refl

value_of-sorted :
    (name : String) (environment : Values)
    → value_of name (entries environment (sorted_names environment)) ≡ value_of name environment
unfolding sorted_names
value_of-sorted name environment =
    rw
      (
        value_of-entries name environment (sorted_names environment),
        listed_sort _ name (keys environment),
        listed_keys name environment,
      )
      (or_none (value_of name environment))

-- The file at the path was written and closed, in some state of the host, and docker reads from it
-- every variable of the release, with its value, and no other.
pub record Holds {E : Type 0} (h : Host E) (environment : Values) (path : String) (after : E)
    : Type 0 where
  pub before : E
  pub text : String
  pub written : (h.on_file (write_env_file path text) before).1 ≡ none
  pub closed :
      h.on_file (close_env_file path) (h.on_file (write_env_file path text) before).0
      ≡ (after, none)
  pub sets : (name : String) → value_of name (read_environment text) ≡ value_of name environment

module _ {E : Type 0} (h : Host E) where
  closed_fine :
      (path : String) (write close : Option String) (e : E) {path' : String} {after : E}
      → closed_file h path write close e ≡ (after, (path', none))
      → (path ≡ path') × (write ≡ none) × (close ≡ none) × (e ≡ after)
  closed_fine path none none e k = (ap (λ r. r.1.0) k, refl, refl, ap (λ r. r.0) k)
  closed_fine path none (some d) e k = absurd (let no_error = ap (λ r. r.1.1) k in cc)
  closed_fine path (some d) close e k = absurd (let no_error = ap (λ r. r.1.1) k in cc)

  filled_Holds :
      (environment : Values) (path : String) (g : Got String) (e : E) {path' : String} {after : E}
      → env_data environment (sorted_names environment) ≡ g
      → filled_file h path g e ≡ (after, (path', none))
      → Holds h environment path' after
  filled_Holds environment path (missed f) e made k =
      absurd (let no_error = ap (λ r. r.1.1) k in cc)
  filled_Holds environment path (got text) e {path'} {after} made k =
      let writing = h.on_file (write_env_file path text) e in
      let closing = h.on_file (close_env_file path) writing.0 in
      let (same, written, closed, ended) = closed_fine path writing.1 closing.1 closing.0 k in
      record {
        before = e;
        text = text;
        written = rw (← same) written;
        closed = rw (← same) (ap (λ o. (closing.0, o)) closed ∙ ap (λ s. (s, none)) ended);
        sets = λ name.
            rw (read-env_data environment (sorted_names environment) text made)
              (value_of-sorted name environment);
      }

  protected_Holds :
      (environment : Values) (path : String) (x : E × Option String) {path' : String} {after : E}
      → protected_file h environment path x ≡ (after, (path', none))
      → Holds h environment path' after
  protected_Holds environment path (e, some d) k = absurd (let no_error = ap (λ r. r.1.1) k in cc)
  protected_Holds environment path (e, none) k =
      filled_Holds environment path (env_data environment (sorted_names environment)) e refl k

  created_Holds :
      (environment : Values) (path : String) (x : E × Option String) {path' : String} {after : E}
      → created_file h environment path x ≡ (after, (path', none))
      → Holds h environment path' after
  created_Holds environment path (e, some d) k = absurd (let no_error = ap (λ r. r.1.1) k in cc)
  created_Holds environment path (e, none) k =
      protected_Holds environment path (h.on_file (protect_env_file path) e) k

  directory_Holds :
      (environment : Values) (x : E × Option String) {path' : String} {after : E}
      → in_directory h environment x ≡ (after, (path', none))
      → Holds h environment path' after
  directory_Holds environment (e, some d) k = absurd (let no_error = ap (λ r. r.1.1) k in cc)
  directory_Holds environment (e, none) k =
      created_Holds environment (h.new_env_path e)
        (h.on_file (create_env_file (h.new_env_path e)) e) k

  -- If runtimeEnvFile succeeds for an environment that is not empty, then the file at the path
  -- that it returns was written and closed, and reading its text back, line by line and each split
  -- at its first equals sign, gives every name the value that it has in the environment, and no
  -- value to any other name.
  pub runtime_env_file-Holds :
      (v : String × String) (vs : Values) (path : String) (e after : E)
      → runtime_env_file h (v ∷ vs) e ≡ (after, (path, none))
      → Holds h (v ∷ vs) path after
  unfolding runtime_env_file
  runtime_env_file-Holds v vs path e after k =
      directory_Holds (v ∷ vs) (h.on_file make_env_directory e) k
