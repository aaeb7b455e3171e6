-- ===== src/Deploy/EnvFile.antt =====
-- internal/deploy/executor.go: runtimeEnvFile, the file that carries the environment of a release
-- to docker.
pub mod Reading
pub mod Removed
pub mod Held
mod Tests
use Prim.Native.Char.{code}
use mini_dock.Prelude.{
  ℕ, String, Bool, true, false, not, ◌&&◌, ◌||◌, Option, none, some, List, [], ◌∷◌, ◌==◌, leb,
  if◌then◌else◌,
}
use mini_dock.Prelude.Decimal.{◌+s+◌}
use mini_dock.Deploy.Failures.{Failure, unclassified, quoted}
use mini_dock.Deploy.Contract.{Values, value_of}
use mini_dock.Deploy.Host.{
  Host, make_env_directory, create_env_file, protect_env_file, write_env_file, close_env_file,
  remove_env_file,
}
use mini_dock.Deploy.Failures.{Got, got, missed}
use mini_dock.Deploy.Building.{sorted_names, text_or_empty}

abbrev pub is_name_start : ℕ → Bool
is_name_start c = leb 65 c && leb c 90 || (leb 97 c && leb c 122 || c == 95)

unfoldable pub all_word_chars : String → Bool
all_word_chars String.[] = true
all_word_chars (String.◌∷◌ c s) =
    let rest = all_word_chars s in
    (is_name_start (code c) || leb 48 (code c) && leb (code c) 57) && rest

-- safeEnvironmentName
abbrev pub is_safe_environment_name : String → Bool
is_safe_environment_name String.[] = false
is_safe_environment_name (String.◌∷◌ c s) = is_name_start (code c) && all_word_chars s

-- The text has no NUL, carriage return or line feed.
unfoldable pub is_one_line : String → Bool
is_one_line String.[] = true
is_one_line (String.◌∷◌ c s) =
    let rest = is_one_line s in not (code c == 0 || (code c == 13 || code c == 10)) && rest

abbrev pub is_safe_entry : String → String → Bool
is_safe_entry name value = is_safe_environment_name name && is_one_line value

abbrev pub after_line : String → Got String → Got String
after_line line (got rest) = got (line +s+ rest)
after_line line (missed f) = missed f

abbrev pub env_line : String → String → String
env_line name value = name +s+ "=" +s+ value +s+ "\n"

-- The loop over the names: the lines of the file, or the first entry that is none.
unfoldable pub env_data : Values → List String → Got String
env_data environment [] = got ""
env_data environment (name ∷ names) =
    let value = text_or_empty (value_of name environment) in
    let rest = env_data environment names in
    if is_safe_entry name value
    then after_line (env_line name value) rest
    else missed (unclassified ("invalid runtime environment entry " +s+ quoted name))

-- The path of the file, or "" with an error.
abbrev pub refused_file : {E : Type 0} → String → String → E → E × (String × Option Failure)
refused_file step detail e =
    (e, ("", some (unclassified (step +s+ " runtime environment " +s+ detail))))

module _ {E : Type 0} (h : Host E) where
  abbrev pub removed_file : String → E → E
  removed_file path e = (h.on_file (remove_env_file path) e).0

  abbrev pub abandoned_file : String → E → E
  abandoned_file path e = removed_file path (h.on_file (close_env_file path) e).0

  -- After Write and Close, with the error of each.
  abbrev pub closed_file :
      String → Option String → Option String → E → E × (String × Option Failure)
  closed_file path (some detail) close e =
      refused_file "write" ("file: " +s+ detail) (removed_file path e)
  closed_file path none (some detail) e =
      refused_file "close" ("file: " +s+ detail) (removed_file path e)
  closed_file path none none e = (e, (path, none))

  abbrev pub filled_file : String → Got String → E → E × (String × Option Failure)
  filled_file path (missed f) e = (abandoned_file path e, ("", some f))
  filled_file path (got text) e =
      let writing = h.on_file (write_env_file path text) e in
      let closing = h.on_file (close_env_file path) writing.0 in
      closed_file path writing.1 closing.1 closing.0

  abbrev pub protected_file : Values → String → E × Option String → E × (String × Option Failure)
  protected_file environment path (e, some detail) =
      refused_file "protect" ("file: " +s+ detail) (abandoned_file path e)
  protected_file environment path (e, none) =
      filled_file path (env_data environment (sorted_names environment)) e

  abbrev pub created_file : Values → String → E × Option String → E × (String × Option Failure)
  created_file environment path (e, some detail) = refused_file "create" ("file: " +s+ detail) e
  created_file environment path (e, none) =
      protected_file environment path (h.on_file (protect_env_file path) e)

  abbrev pub in_directory : Values → E × Option String → E × (String × Option Failure)
  in_directory environment (e, some detail) = refused_file "create" ("directory: " +s+ detail) e
  in_directory environment (e, none) =
      let path = h.new_env_path e in
      created_file environment path (h.on_file (create_env_file path) e)

  -- runtimeEnvFile
  unfoldable pub runtime_env_file : Values → E → E × (String × Option Failure)
  unfolding env_data
  runtime_env_file [] e = (e, ("", none))
  runtime_env_file (v ∷ vs) e = in_directory (v ∷ vs) (h.on_file make_env_directory e)
