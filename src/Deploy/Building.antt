-- ===== src/Deploy/Building.antt =====
-- internal/deploy/executor.go: the names of applications, and the arguments of a build.
use Prim.Native.String.{compare, count}
use Prim.Native.Char.{Char, code}
use Prim.Native.Nat.{Ordering}
use mini_dock.Prelude.{
  String, Bool, true, false, not, ◌&&◌, ◌||◌, Option, none, some, List, [], ◌∷◌, ◌++◌, any, ◌=s=◌,
  ◌==◌, leb, if◌then◌else◌,
}
use mini_dock.Prelude.Decimal.{◌+s+◌}
use mini_dock.Prelude.Rows.{sort_by}
use mini_dock.Deploy.Contract.{Values, value_of, DeploymentConfiguration}

abbrev pub is_name_char : Char → Bool
is_name_char c =
    leb 97 (code c) && leb (code c) 122 || (leb 48 (code c) && leb (code c) 57 || code c == 45)

unfoldable pub all_name_chars : String → Bool
all_name_chars String.[] = true
all_name_chars (String.◌∷◌ c s) = let rest = all_name_chars s in is_name_char c && rest

-- safeName: lower case letters, digits and dashes, at most 63, and no dash first.
abbrev pub is_safe_name : String → Bool
is_safe_name String.[] = false
is_safe_name (String.◌∷◌ c s) =
    is_name_char c && (not (code c == 45) && (all_name_chars s && leb (count s) 62))

abbrev is_le : Ordering → Bool
is_le Ordering.lt = true
is_le Ordering.eq = true
is_le Ordering.gt = false

unfoldable pub keys : Values → List String
keys [] = []
keys (v ∷ vs) = let rest = keys vs in if any (λ name. name =s= v.0) rest then rest else v.0 ∷ rest

-- sortedNames
unfoldable pub sorted_names : Values → List String
unfolding keys sort_by
sorted_names values = sort_by (λ a b. is_le (compare a b)) (keys values)

abbrev pub text_or_empty : Option String → String
text_or_empty none = ""
text_or_empty (some text) = text

abbrev pub argument_flags : Values → List String → List String
argument_flags values [] = []
argument_flags values (name ∷ names) =
    "--build-arg"
    ∷ (name +s+ "=" +s+ text_or_empty (value_of name values))
    ∷ argument_flags values names

abbrev pub secret_flags : List String → List String
secret_flags [] = []
secret_flags (name ∷ names) =
    "--secret" ∷ ("id=" +s+ name +s+ ",env=" +s+ name) ∷ secret_flags names

abbrev file_flags : String → List String
file_flags path = if path =s= "" then [] else "--file" ∷ path ∷ []

-- The arguments of the build: of a secret, only its name.
abbrev pub build_arguments : String → String → DeploymentConfiguration → String → List String
build_arguments image dockerfile_path c work =
    "build"
    ∷ "--tag"
    ∷ image
    ∷ (file_flags dockerfile_path
        ++ (argument_flags c.build_args (sorted_names c.build_args)
            ++ (secret_flags (sorted_names c.build_secrets) ++ (work ∷ []))))
