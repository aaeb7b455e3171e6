-- ===== src/Runtime/Detection.antt =====
-- internal/runtime/detect.go: the type of a project, from the files of its directory.
pub mod Supported
mod Tests
use text.Mathlib.Text.{find?}
use mini_dock.Prelude.{
  String, Bool, false, ◌&&◌, ◌||◌, Option, none, some, List, [], ◌∷◌, any, ◌=s=◌, if◌then◌else◌,
  is_some,
}

-- package.json: the names of both maps of dependencies, and the scripts.
pub record PackageManifest : Type 0 where
  pub dependencies : List String
  pub dev_dependencies : List String
  pub scripts : List String

-- What Detect reads below the path: the contents of a file that can be read, whether a file exists,
-- and the manifest of package.json if it can be read as one. `lower` is strings.ToLower.
pub record Project : Type 0 where
  pub exists : String → Bool
  pub read_file : String → Option String
  pub manifest : Option PackageManifest
  pub lower : String → String

pub record Detection : Type 0 where
  pub kind : String
  pub confidence : String

abbrev detection : String → String → Detection
detection kind confidence = record { kind = kind; confidence = confidence }

abbrev contains : String → String → Bool
contains text part = is_some (find? text part)

-- dependency
abbrev pub dependency : PackageManifest → String → Bool
dependency m name = any (λ d. d =s= name) m.dependencies || any (λ d. d =s= name) m.dev_dependencies

module _ (p : Project) where
  -- scriptContains
  abbrev pub script_contains : PackageManifest → String → Bool
  script_contains m text = any (λ script. contains (p.lower script) (p.lower text)) m.scripts

  abbrev or_contents : Option String → String → String
  or_contents none rest = rest
  or_contents (some contents) rest = contents

  -- projectConfig
  abbrev pub project_config : List String → String
  project_config [] = ""
  project_config (name ∷ names) = or_contents (p.read_file name) (project_config names)

  abbrev pub detect_astro : Detection
  detect_astro =
      let config =
        project_config ("astro.config.mjs" ∷ "astro.config.js" ∷ "astro.config.ts" ∷ []) in
      if contains config "output: 'server'"
        || (contains config "output: \"server\"" || contains config "@astrojs/node")
      then detection "astro_ssr" "high"
      else detection "astro_static" "high"

  abbrev pub detect_nuxt : PackageManifest → Detection
  detect_nuxt m =
      let config = project_config ("nuxt.config.ts" ∷ "nuxt.config.js" ∷ "nuxt.config.mjs" ∷ []) in
      if contains config "ssr: false"
        || (contains config "ssr:false" || script_contains m "nuxt generate")
      then detection "nuxt_static" "medium"
      else detection "nuxt_ssr" "high"

  abbrev pub detect_svelte : Detection
  detect_svelte =
      let config = project_config ("svelte.config.js" ∷ "svelte.config.ts" ∷ []) in
      if contains config "adapter-static"
      then detection "svelte_static" "high"
      else if contains config "adapter-node"
      then detection "svelte_ssr" "high"
      else detection "custom" "medium"

  abbrev pub is_angular : PackageManifest → Bool
  is_angular m = p.exists "angular.json" || dependency m "@angular/core"

  abbrev pub has_angular_ssr : PackageManifest → Bool
  has_angular_ssr m =
      dependency m "@angular/ssr"
      || (dependency m "@nguniversal/express-engine" || script_contains m "ssr")

  abbrev pub has_server_entry : Bool
  has_server_entry = any p.exists (
      "src/entry-server.ts" ∷ "src/entry-server.tsx" ∷ "src/entry-server.js"
      ∷ "src/entry-server.jsx" ∷ [])

  abbrev pub has_vite_ssr : PackageManifest → Bool
  has_vite_ssr m =
      dependency m "vite"
      && (script_contains m "--ssr" || (script_contains m "serve:ssr" || has_server_entry))

  abbrev pub detect_vite_ssr : Detection
  detect_vite_ssr =
      if p.exists "server.js" then detection "vite_ssr" "high" else detection "node_ssr" "medium"

  abbrev pub detect_package : Option PackageManifest → Detection
  detect_package none = detection "custom" "low"
  detect_package (some m) =
      if dependency m "astro"
      then detect_astro
      else if dependency m "nuxt"
      then detect_nuxt m
      else if dependency m "@sveltejs/kit"
      then detect_svelte
      else if dependency m "next"
      then detection "nextjs" "high"
      else if is_angular m && has_angular_ssr m
      then detection "node_ssr" "medium"
      else if is_angular m
      then detection "angular_static" "high"
      else if has_vite_ssr m
      then detect_vite_ssr
      else if dependency m "vite"
      then detection "static" "high"
      else detection "custom" "low"

  abbrev pub is_java : Bool
  is_java = p.exists "pom.xml" || (p.exists "build.gradle" || p.exists "build.gradle.kts")

  -- Detect
  unfoldable pub detect : Detection
  detect =
      if p.exists "Dockerfile"
      then detection "custom" "high"
      else if p.exists "go.mod"
      then detection "go" "high"
      else if p.exists "Cargo.toml"
      then detection "rust" "high"
      else if is_java
      then detection "java" "high"
      else detect_package p.manifest

  abbrev pub is_node : String → Bool
  is_node kind =
      any (λ k. kind =s= k)
        ("static" ∷ "angular_static" ∷ "node_ssr" ∷ "vite_ssr" ∷ "astro_static" ∷ "astro_ssr"
          ∷ "nuxt_static" ∷ "nuxt_ssr" ∷ "svelte_static" ∷ "svelte_ssr" ∷ "nextjs" ∷ [])

  abbrev required : Bool → String → List String
  required found message = if found then [] else message ∷ []

  -- Validate: what the project lacks.
  unfoldable pub validate : String → List String
  validate kind =
      if kind =s= "go"
      then required (p.exists "go.mod") "Falta el archivo go.mod en el directorio del proyecto."
      else if kind =s= "rust"
      then required (p.exists "Cargo.toml")
          "Falta el archivo Cargo.toml en el directorio del proyecto."
      else if kind =s= "java"
      then required is_java "Falta el archivo pom.xml o build.gradle en el directorio del proyecto."
      else if kind =s= "custom"
      then required (p.exists "Dockerfile")
          "Falta el archivo Dockerfile en el directorio del proyecto."
      else if is_node kind
      then required (p.exists "package.json")
          "Falta el archivo package.json para este runtime basado en Node."
      else []
