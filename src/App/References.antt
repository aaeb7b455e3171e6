-- ===== src/App/References.antt =====
-- internal/app/cicd.go: the tests on what a push names: its commit, its repository and its
-- reference. `lower` is strings.ToLower.
use text.Mathlib.Text.{starts_with, find?}
use Prim.Native.Char.{code}
use Prim.Native.String.{slice, len}
use mini_dock.Prelude.{
  ℕ, ◌+◌, String, Bool, false, not, ◌&&◌, ◌||◌, Option, none, some, ◌==◌, ◌=s=◌, if◌then◌else◌,
}
use mini_dock.Prelude.Characters.{is_space, all_hex}
use mini_dock.Prelude.Decimal.{◌+s+◌}

-- strings.Repeat("0", 40)
abbrev pub zeros : String
zeros = "0000000000000000000000000000000000000000"

-- validGitCommit
abbrev pub valid_git_commit : String → Bool
valid_git_commit value = len value == 40 && (all_hex value && not (value =s= zeros))

module _ (cut : ℕ → Bool) where
  unfoldable pub trim_left : String → String
  trim_left String.[] = ""
  trim_left (String.◌∷◌ c s) =
      let rest = trim_left s in if cut (code c) then rest else String.◌∷◌ c s

  unfoldable pub trim_right : String → String
  trim_right String.[] = ""
  trim_right (String.◌∷◌ c s) =
      let rest = trim_right s in if rest =s= "" && cut (code c) then "" else String.◌∷◌ c rest

  -- strings.TrimSpace and strings.Trim
  unfoldable pub trim : String → String
  unfolding trim_left trim_right
  trim text = trim_right (trim_left text)

-- strings.TrimSuffix
unfoldable pub trim_suffix : String → String → String
trim_suffix suffix String.[] = ""
trim_suffix suffix (String.◌∷◌ c s) =
    let rest = trim_suffix suffix s in if String.◌∷◌ c s =s= suffix then "" else String.◌∷◌ c rest

abbrev pub is_slash : ℕ → Bool
is_slash c = c == 47

-- parts[1] of strings.SplitN, if there is one
abbrev pub after_host : String → Option ℕ → Option String
after_host repository none = none
after_host repository (some start) =
    some (slice repository (start + len "github.com/") (len repository))

abbrev pub is_repository : Option String → String → Bool
is_repository none full_name = false
is_repository (some path) full_name = trim is_slash path =s= full_name

abbrev pub matches_names : String → String → Bool
matches_names repository full_name =
    if repository =s= "" || full_name =s= ""
    then false
    else if starts_with repository "git@github.com:"
    then slice repository (len "git@github.com:") (len repository) =s= full_name
    else if starts_with repository "https://github.com/"
        || starts_with repository "http://github.com/"
    then is_repository (after_host repository (find? repository "github.com/")) full_name
    else false

-- matchesGitHubRepository
unfoldable pub matches_github_repository : (String → String) → String → String → Bool
unfolding trim_suffix trim
matches_github_repository lower repository full_name =
    matches_names (trim_suffix ".git" (trim is_space (lower repository)))
      (trim is_slash (lower full_name))

-- matchesGitReference
abbrev pub matches_git_reference : String → String → Bool
matches_git_reference reference pushed =
    if starts_with reference "refs/"
    then pushed =s= reference
    else pushed =s= ("refs/heads/" +s+ reference) || pushed =s= ("refs/tags/" +s+ reference)
