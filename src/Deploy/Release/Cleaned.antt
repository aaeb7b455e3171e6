-- ===== src/Deploy/Release/Cleaned.antt =====
-- internal/deploy/executor.go: the files that Deploy makes in the source and beside it.
use mini_dock.Prelude.{
  ◌≡◌, ◌≢◌, refl, sym, ◌∙◌, String, Bool, true, false, not, ◌&&◌, Option, none, some, List, inl,
  inr, arith, Bool-cases, ◌=s=◌, eq_iff, if◌then◌else◌,
}
use mini_dock.Store.Tables.{Application}
use mini_dock.Deploy.Failures.{Failure}
use mini_dock.Deploy.Contract.{Values, DeploymentConfiguration, ReleaseResult}
use mini_dock.Deploy.Adapters.{Adapter}
use mini_dock.Deploy.Source.{Existence, present, absent, unreadable, is_present, Workshop}
use mini_dock.Deploy.Failures.{Got, got, missed}
use mini_dock.Deploy.Release.{
  Ended, started, after_start, generated_dockerfile, described, templated, filled, written,
  after_build, built, with_dockerfile, described_and_built, after_ignore, packaged, is_empty,
  image_tag, ignore_contents,
}

abbrev pub has_file : {E : Type 0} → Workshop E → E → String → Bool
has_file w e path = is_present (w.stat e path)

-- What the documentation of os says of writing, of temporary files and of removing, where a removal
-- succeeds. A build and the start of an image leave the files of the source as they are.
pub record KeepsFiles {E : Type 0} (w : Workshop E) (a : Adapter E) (app : Application)
    : Type 0 where
  pub write_other :
      (path contents : String) (e : E) (other : String)
      → other ≢ path
      → has_file w (w.write_file path contents e).0 other ≡ has_file w e other
  pub remove_other :
      (path : String) (e : E) (other : String)
      → other ≢ path
      → has_file w (w.remove_file path e) other ≡ has_file w e other
  pub remove_removes : (path : String) (e : E) → has_file w (w.remove_file path e) path ≡ false
  pub create_none :
      (pattern : String) (e : E) (f : Failure) (other : String)
      → (w.create_temp pattern e).1 ≡ missed f
      → has_file w (w.create_temp pattern e).0 other ≡ has_file w e other
  pub create_new :
      (pattern : String) (e : E) (name : String)
      → (w.create_temp pattern e).1 ≡ got name
      → ((name =s= "") ≡ false)
        × (has_file w e name ≡ false)
        × ((other : String)
            → other ≢ name
            → has_file w (w.create_temp pattern e).0 other ≡ has_file w e other)
  pub fill_keeps :
      (name contents : String) (e : E) (other : String)
      → has_file w (w.fill_temp name contents e).0 other ≡ has_file w e other
  pub build_keeps :
      (command : String) (environment : Values) (args : List String) (e : E) (other : String)
      → has_file w (w.build command environment args e).0 other ≡ has_file w e other
  pub start_keeps :
      (image : String) (environment : Values) (e : E) (other : String)
      → has_file w (a.start app image environment e).0 other ≡ has_file w e other

pub record SameFiles {E : Type 0} (w : Workshop E) (before after : E) : Type 0 where
  pub same_file : (path : String) → has_file w after path ≡ has_file w before path

module _ {E : Type 0} (w : Workshop E) (a : Adapter E) (app : Application)
    (laws : KeepsFiles w a app) where
  -- A path that was free has a file, and the others are as they were.
  record Adds (path : String) (before after : E) : Type 0 where
    free : has_file w before path ≡ false
    others : (other : String) → other ≢ path → has_file w after other ≡ has_file w before other

  removal-SameFiles :
      (path : String) (before after : E)
      → Adds path before after
      → SameFiles w before (w.remove_file path after)
  removal-SameFiles path before after added = record {
    same_file = λ other. elim (Bool-cases (other =s= path)) [
      | inl own ↦
          let same : other ≡ path = (eq_iff other path).0 own in
          rw same (laws.remove_removes path after ∙ sym added.free)
      | inr foreign ↦
          let ne : other ≢ path = λ e. ground (arith, eq_iff other path) in
          laws.remove_other path after other ne ∙ added.others other ne
    ];
  }

  added_then :
      (path : String) (before after later : E)
      → Adds path before after
      → SameFiles w after later
      → Adds path before later
  added_then path before after later added same = record {
    free = added.free;
    others = λ other ne. same.same_file other ∙ added.others other ne;
  }

  started-SameFiles :
      (image : String) (environment : Values) (r : ReleaseResult) (e : E)
      → SameFiles w e (started w app a image environment r e).0
  started-SameFiles image environment r e =
      by_answer _ (record { same_file = laws.start_keeps image environment e })
    where
      by_answer :
          (x : E × (String × Option Failure))
          → SameFiles w e x.0
          → SameFiles w e (after_start w app a image r x).0
      by_answer (e', (image', none)) same = same
      by_answer (e', (image', some f)) same = same

  trans-SameFiles : (x y z : E) → SameFiles w x y → SameFiles w y z → SameFiles w x z
  trans-SameFiles x y z s t = record { same_file = λ path. t.same_file path ∙ s.same_file path }

  either-SameFiles :
      (t : Bool) (e : E) (x y : Ended E)
      → SameFiles w e x.0
      → SameFiles w e y.0
      → SameFiles w e (if t then x else y).0
  either-SameFiles true e x y s u = s
  either-SameFiles false e x y s u = u

  second-SameFiles :
      (t : Bool) (e : E) (x y : Ended E)
      → t ≡ false
      → SameFiles w e y.0
      → SameFiles w e (if t then x else y).0
  second-SameFiles true e x y h s = absurd cc
  second-SameFiles false e x y h s = s

  built-SameFiles :
      (c : DeploymentConfiguration) (r : ReleaseResult) (work path : String) (e : E)
      → SameFiles w e (built w app a c r work path e).0
  built-SameFiles c r work path e =
      either-SameFiles (not a.supports_build_secrets && not (is_empty c.build_secrets)) e _ _
        (record { same_file = λ other. refl })
        (by_result (image_tag w app e) (record r { image = image_tag w app e }) _
          (record { same_file = laws.build_keeps a.build_command c.build_secrets _ e }))
    where
      by_result :
          (image : String) (r' : ReleaseResult) (x : E × Option Failure)
          → SameFiles w e x.0
          → SameFiles w e (after_build w app a c image r' x).0
      by_result image r' (e', none) same =
          trans-SameFiles e e' _ same (started-SameFiles image c.runtime r' e')
      by_result image r' (e', some f) same = same

  -- The Dockerfile of the repository, a new one, or none.
  data Made (before : E) : E × Got String → Type 0 where
    no_dockerfile :
        (after : E) (f : Failure) → SameFiles w before after → Made before (after, missed f)
    own_dockerfile : (after : E) → SameFiles w before after → Made before (after, got "")
    new_dockerfile :
        (after : E) (path : String)
        → (path =s= "") ≡ false
        → Adds path before after
        → Made before (after, got path)

  generated_dockerfile-Made : (work : String) (e : E) → Made e (generated_dockerfile w app work e)
  unfolding generated_dockerfile
  generated_dockerfile-Made work e = by_existence (w.stat e (w.join work "Dockerfile"))
    where
      here : SameFiles w e e
      here = record { same_file = λ path. refl }

      by_fill :
          (name : String) (x : E × Option Failure)
          → (name =s= "") ≡ false
          → Adds name e x.0
          → Made e (written w app name x)
      by_fill name (e', none) named added = Made.new_dockerfile e' name named added
      by_fill name (e', some f) named added =
          Made.no_dockerfile _ f (removal-SameFiles name e e' added)

      by_file :
          (text pattern : String) (x : Got String)
          → (w.create_temp pattern e).1 ≡ x
          → Made e (filled w app text ((w.create_temp pattern e).0, x))
      by_file text pattern (missed f) made =
          Made.no_dockerfile _ _
            (record { same_file = λ other. laws.create_none pattern e f other made })
      by_file text pattern (got name) made =
          let (named, free, others) = laws.create_new pattern e name made in
          let created = (w.create_temp pattern e).0 in
          by_fill name (w.fill_temp name text created) named (
            added_then name e created _ (record { free = free; others = others })
              (record { same_file = laws.fill_keeps name text created }))

      by_template : (text : Option String) → Made e (templated w app e text)
      by_template none = Made.no_dockerfile e _ here
      by_template (some text) = by_file text _ _ refl

      by_existence : (x : Existence) → Made e (described w app work e x)
      by_existence present = Made.own_dockerfile e here
      by_existence (unreadable f) = Made.no_dockerfile e f here
      by_existence absent = by_template _

  described_and_built-SameFiles :
      (c : DeploymentConfiguration) (r : ReleaseResult) (work : String) (e : E)
      → SameFiles w e (described_and_built w app a c r work e).0
  described_and_built-SameFiles c r work e =
      by_dockerfile (generated_dockerfile w app work e) (generated_dockerfile-Made work e)
    where
      by_dockerfile :
          (x : E × Got String) → Made e x → SameFiles w e (with_dockerfile w app a c r work x).0
      by_dockerfile _ (Made.no_dockerfile after f same) = same
      by_dockerfile _ (Made.own_dockerfile after same) =
          trans-SameFiles e after _ same (built-SameFiles c r work "" after)
      by_dockerfile _ (Made.new_dockerfile after path named added) =
          second-SameFiles (path =s= "") e _ _ named (
            removal-SameFiles path e _
              (added_then path e after _ added (built-SameFiles c r work path after)))

  -- Once the source is prepared, Deploy leaves every path with a file exactly if it had one,
  -- whatever stage fails: its .dockerignore and its temporary Dockerfile are gone. It holds where
  -- writing the .dockerignore succeeds and files behave as documented.
  pub packaged-SameFiles :
      (c : DeploymentConfiguration) (r : ReleaseResult) (work : String) (e : E)
      → (has_file w e (w.join work ".dockerignore") ≡ false
          → (w.write_file (w.join work ".dockerignore") ignore_contents e).1 ≡ none)
      → SameFiles w e (packaged w app a c r work e).0
  unfolding packaged
  packaged-SameFiles c r work e writes = by_ignore (has_file w e path) refl
    where
      path : String
      path = w.join work ".dockerignore"

      by_write :
          (o : Option Failure)
          → o ≡ none
          → Adds path e (w.write_file path ignore_contents e).0
          → SameFiles w e
              (after_ignore w app a c r work path ((w.write_file path ignore_contents e).0, o)).0
      by_write (some f) fine added = absurd cc
      by_write none fine added =
          removal-SameFiles path e _
            (added_then path e _ _ added (described_and_built-SameFiles c r work _))

      by_ignore :
          (t : Bool)
          → has_file w e path ≡ t
          → SameFiles w e
              (if t
                then described_and_built w app a c r work e
                else after_ignore w app a c r work path (w.write_file path ignore_contents e)).0
      by_ignore true there = described_and_built-SameFiles c r work e
      by_ignore false free = by_write _ (writes free) (record {
        free = free;
        others = λ other ne. laws.write_other path ignore_contents e other ne;
      })
