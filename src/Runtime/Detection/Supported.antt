-- ===== src/Runtime/Detection/Supported.antt =====
-- internal/runtime: Detect against IsSupported and Validate.
use mini_dock.Prelude.{
  ◌≡◌, refl, String, Bool, true, false, ◌&&◌, Option, none, some, [], arith, eq_iff, ◌=s=◌,
  if◌then◌else◌, is_some,
}
use mini_dock.Runtime.Templates.{is_supported}
use mini_dock.Runtime.Detection.{
  Project, PackageManifest, Detection, detect, detect_package, detect_astro, detect_nuxt,
  detect_svelte, detect_vite_ssr, validate, is_java, dependency, is_angular, has_angular_ssr,
  has_vite_ssr,
}

-- The type is one that the panel knows, and nothing is missing where the detection is sure.
abbrev pub Fits : Project → Detection → Type 0
Fits p d = (is_supported d.kind ≡ true) × (d.confidence ≡ "high" → validate p d.kind ≡ [])

-- One of two detections.
either-Fits :
    (p : Project) (t : Bool) (d e : Detection) → Fits p d → Fits p e → Fits p (if t then d else e)
either-Fits p true d e a b = a
either-Fits p false d e a b = b

-- One of two, with what the test says.
split-Fits :
    (p : Project) (t : Bool) (d e : Detection)
    → (t ≡ true → Fits p d)
    → (t ≡ false → Fits p e)
    → Fits p (if t then d else e)
split-Fits p true d e a b = a refl
split-Fits p false d e a b = b refl

unsure-Fits :
    (p : Project) (confidence : String)
    → (confidence =s= "high") ≡ false
    → Fits p (record { kind = "custom"; confidence = confidence })
unsure-Fits p confidence unsure = (refl, λ sure. absurd (ground (arith, eq_iff confidence "high")))

module _ (p : Project) (packaged : p.exists "package.json" ≡ true) where
  -- A detection of one of the types that are built with Node, whatever its confidence.
  node-Fits :
      (kind confidence : String)
      → is_supported kind ≡ true
      → (kind =s= "go") ≡ false
      → (kind =s= "rust") ≡ false
      → (kind =s= "java") ≡ false
      → (kind =s= "custom") ≡ false
      → Fits p (record { kind = kind; confidence = confidence })
  unfolding validate
  node-Fits kind confidence supported go rust java custom =
      (supported, λ sure. rw (go, rust, java, custom, packaged) (ground arith))

  package-Fits : (m : PackageManifest) → Fits p (detect_package p (some m))
  package-Fits m =
      either-Fits p (dependency m "astro") (detect_astro p) _
        (either-Fits p _ _ _ (node-Fits "astro_ssr" "high" refl refl refl refl refl)
          (node-Fits "astro_static" "high" refl refl refl refl refl))
        (either-Fits p (dependency m "nuxt") (detect_nuxt p m) _
          (either-Fits p _ _ _ (node-Fits "nuxt_static" "medium" refl refl refl refl refl)
            (node-Fits "nuxt_ssr" "high" refl refl refl refl refl))
          (either-Fits p (dependency m "@sveltejs/kit") (detect_svelte p) _
            (either-Fits p _ _ _ (node-Fits "svelte_static" "high" refl refl refl refl refl) (
              either-Fits p _ _ _ (node-Fits "svelte_ssr" "high" refl refl refl refl refl)
                (unsure-Fits p "medium" refl)))
            (either-Fits p (dependency m "next") _ _
              (node-Fits "nextjs" "high" refl refl refl refl refl)
              (either-Fits p (is_angular p m && has_angular_ssr p m) _ _
                (node-Fits "node_ssr" "medium" refl refl refl refl refl)
                (either-Fits p (is_angular p m) _ _
                  (node-Fits "angular_static" "high" refl refl refl refl refl)
                  (either-Fits p (has_vite_ssr p m) (detect_vite_ssr p) _
                    (either-Fits p (p.exists "server.js") _ _
                      (node-Fits "vite_ssr" "high" refl refl refl refl refl)
                      (node-Fits "node_ssr" "medium" refl refl refl refl refl))
                    (either-Fits p (dependency m "vite") _ _
                      (node-Fits "static" "high" refl refl refl refl refl)
                      (unsure-Fits p "low" refl))))))))

manifest-Fits :
    (p : Project) (m : Option PackageManifest)
    → (is_some m ≡ true → p.exists "package.json" ≡ true)
    → Fits p (detect_package p m)
manifest-Fits p none readable = unsure-Fits p "low" refl
manifest-Fits p (some m) readable = package-Fits p (readable refl) m

-- Whatever a directory holds, Detect answers with a type that IsSupported accepts, and where it is
-- sure, Validate finds nothing missing for that type. A package.json that can be read exists.
pub detect-Fits :
    (p : Project) → (is_some p.manifest ≡ true → p.exists "package.json" ≡ true) → Fits p (detect p)
unfolding detect validate
detect-Fits p readable =
    split-Fits p (p.exists "Dockerfile") _ _ (λ h. (refl, λ sure. rw h refl))
      (λ h.
        split-Fits p (p.exists "go.mod") _ _ (λ g. (refl, λ sure. rw g refl))
          (λ g.
            split-Fits p (p.exists "Cargo.toml") _ _ (λ c. (refl, λ sure. rw c refl))
              (λ c.
                split-Fits p (is_java p) _ _ (λ j. (refl, λ sure. rw j refl))
                  (λ j. manifest-Fits p p.manifest readable))))
