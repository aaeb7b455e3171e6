-- ===== src/Deploy/EnvFile/Tests.antt =====
-- The environment file on a host in memory.
use mini_dock.Prelude.{◌≡◌, refl, none, [], ◌∷◌}
use mini_dock.Deploy.Failures.{unclassified, got, missed}
use mini_dock.Deploy.Contract.{Values, value_of}
use mini_dock.Deploy.Building.{sorted_names}
use mini_dock.Deploy.EnvFile.{env_data, runtime_env_file, all_word_chars, is_one_line}
use mini_dock.Deploy.EnvFile.Held.{Holds, runtime_env_file-Holds}
use mini_dock.Deploy.Memory.{good, serving}

abbrev two_values : Values
two_values = ("PORT", "80") ∷ ("API_KEY", "a=b") ∷ []

two_lines : env_data two_values (sorted_names two_values) ≡ got "API_KEY=a=b\nPORT=80\n"
unfolding env_data sorted_names all_word_chars is_one_line value_of
two_lines = refl

-- A value with a line feed would set a second variable.
abbrev injected : Values
injected = ("PORT", "80\nADMIN=1") ∷ []

refuses_injected :
    env_data injected (sorted_names injected)
    ≡ missed (unclassified "invalid runtime environment entry \"PORT\"")
unfolding env_data sorted_names all_word_chars is_one_line value_of
refuses_injected = refl

file_made : runtime_env_file good two_values serving ≡ (serving, ("/tmp/1.env", none))
unfolding runtime_env_file sorted_names all_word_chars is_one_line value_of
file_made = refl

runtime_env_file-Holds_example : Holds good two_values "/tmp/1.env" serving
runtime_env_file-Holds_example =
    runtime_env_file-Holds good ("PORT", "80") (("API_KEY", "a=b") ∷ []) "/tmp/1.env" serving
      serving file_made
