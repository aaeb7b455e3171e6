-- ===== src/Runtime/Detection/Tests.antt =====
-- A project with Vite.
use mini_dock.Prelude.{refl, none, some, [], ◌∷◌, ◌=s=◌}
use mini_dock.Runtime.Detection.{Project, detect}
use mini_dock.Runtime.Detection.Supported.{Fits, detect-Fits}

abbrev vite_project : Project
vite_project = record {
  exists = λ path. path =s= "package.json";
  read_file = λ path. none;
  manifest = some (record { dependencies = []; dev_dependencies = "vite" ∷ []; scripts = [] });
  lower = λ text. text;
}

detect-Fits_example : Fits vite_project (detect vite_project)
detect-Fits_example = detect-Fits vite_project (λ some_. refl)
