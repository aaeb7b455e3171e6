-- ===== src/Deploy/Switch/Failing.antt =====
-- internal/deploy/executor.go: the containers and the routes after a switch that fails.
use mini_dock.Prelude.{
  ◌≡◌, refl, String, Bool, true, false, not, ◌&&◌, ◌||◌, Option, none, some, List, ◌∷◌, inl, inr,
  arith, ◌=s=◌, Bool-cases, Option-cases,
}
use mini_dock.Store.Tables.{Application}
use mini_dock.Deploy.Failures.{Failure, classified, unclassified, failure, detail_of}
use mini_dock.Deploy.Host.{FileCall, DockerNetwork, Host}
use mini_dock.Deploy.Containers.{
  candidate, Target, reachable, unreachable, container_target, wait_healthy,
}
use mini_dock.Deploy.Switch.{
  Colours, ◌and_then◌, discarded, restored_to, restored, retire, promote, validated, launched,
  proven, applied, switch_to, switch_route, stage_release,
}
use mini_dock.Deploy.Switch.Chains.{
  unless_failed-some, unless_failed-keeps, or_discard-keeps, run_docker_container-keeps,
}

-- The failures after the proxy serves the new container: the old one could not be removed, or the
-- new one not renamed.
abbrev pub is_retiring : Failure → Bool
is_retiring (classified stage code detail) =
    code =s= "previous_cleanup_failed" || code =s= "candidate_promote_failed"
is_retiring (unclassified detail) = false

retiring_code :
    (code : String) (o : Option Failure) {f : Failure}
    → (code =s= "previous_cleanup_failed" || code =s= "candidate_promote_failed") ≡ true
    → failure "route" code o ≡ some f
    → is_retiring f ≡ true
retiring_code code none {f} is failed = absurd cc
retiring_code code (some g) {f} is failed =
    let same : classified "route" code (detail_of g) ≡ f = cc in rw (← same) is

module _ {E : Type 0} (h : Host E) (network : DockerNetwork) (app : Application) where
  retire_failure :
      (c : Colours) (e : E) {f : Failure}
      → (retire h network app c e).1 ≡ some f
      → is_retiring f ≡ true
  retire_failure c e failed =
      elim (Bool-cases (h.has_container e c.active && not (c.active =s= c.staging))) [
        | inl hit ↦ retiring_code "previous_cleanup_failed" _ refl (rw hit at failed)
        | inr miss ↦ absurd (let done : none ≡ some _ = rw miss at failed in cc)
      ]

  promote_failure :
      (c : Colours) (e : E) {f : Failure}
      → (promote h network app c e).1 ≡ some f
      → is_retiring f ≡ true
  promote_failure c e failed = elim (Bool-cases (c.staging =s= candidate app)) [
    | inl hit ↦ absurd (let done : none ≡ some _ = rw hit at failed in cc)
    | inr miss ↦ retiring_code "candidate_promote_failed" _ refl (rw miss at failed)
  ]

  -- Retiring the old container fails with the failures that say so.
  pub retiring_failure :
      (c : Colours) (e : E) (f : Failure)
      → (retire h network app c e and_then promote h network app c).1 ≡ some f
      → is_retiring f ≡ true
  retiring_failure c e f failed =
      let retired = retire h network app c e in
      elim (unless_failed-some retired.0 retired.1 (promote h network app c) failed) [
        | inl kept ↦ retire_failure c e kept
        | inr unnamed ↦ promote_failure c retired.0 unnamed
      ]

-- A property of the host that neither the calls on files nor removing or running the new container
-- change.
module _ {E : Type 0} (h : Host E) (network : DockerNetwork) (app : Application) (P : E → Type 0)
    (on_file : (call : FileCall) (e : E) → P e → P (h.on_file call e).0) (c : Colours)
    (on_remove : (e : E) → P e → P (discarded h network app c.staging e))
    (on_run : (e : E) (args : List String)
      → P e
      → P (h.docker ("run" ∷ "--detach" ∷ "--name" ∷ c.staging ∷ args) e).0) where
  launched-keeps :
      (image : String) (environment : List (String × String)) (e : E)
      → P e
      → P (launched h network app image environment c e).0
  launched-keeps image environment e p =
      run_docker_container-keeps h network app P on_file image c.staging on_run environment
        (discarded h network app c.staging e) (on_remove e p)

  pub stage_release-keeps :
      (image : String) (environment : List (String × String)) (e : E)
      → P e
      → P (stage_release h network app image environment c e).0
  unfolding stage_release
  stage_release-keeps image environment e p =
      let started = launched h network app image environment c e in
      let p' = launched-keeps image environment e p in
      unless_failed-keeps P started.0 (failure "start" "candidate_start_failed" started.1)
        (proven h network app c) p'
        (or_discard-keeps h network app P c.staging started.0
          (failure "health" "health_check_failed" (wait_healthy h started.0 c.staging)) p'
          (on_remove started.0 p'))

  -- If the proxy's commands do not change it either, it holds after any failure before the old
  -- container is removed.
  module _ (on_apply : (e : E) (target : String) → P e → P (h.apply app target e).0) where
    restored_to-keeps : (t : Target) (e : E) → P e → P (restored_to h network app t e)
    restored_to-keeps (unreachable f) e p = p
    restored_to-keeps (reachable target) e p = on_apply e target p

    restored-keeps : (e : E) → P e → P (restored h network app c.active e)
    restored-keeps e p = elim (Bool-cases (h.has_container e c.active)) [
      | inl there ↦
          rw there (restored_to-keeps (container_target h e c.active app.internal_port) e p)
      | inr gone ↦ rw gone p
    ]

    validated-keeps :
        (e : E) (o : Option Failure) (f : Failure)
        → P e
        → (validated h network app c e o).1 ≡ some f
        → is_retiring f ≡ false
        → P (validated h network app c e o).0
    validated-keeps e (some g) f p failed early = on_remove _ (restored-keeps e p)
    validated-keeps e none f p failed early =
        absurd (let late = retiring_failure h network app c e f failed in ground arith)

    switch_to-keeps :
        (t : Target) (e : E) (f : Failure)
        → P e
        → (switch_to h network app c t e).1 ≡ some f
        → is_retiring f ≡ false
        → P (switch_to h network app c t e).0
    switch_to-keeps (unreachable g) e f p failed early = p
    switch_to-keeps (reachable target) e f p failed early =
        let applied' = applied h network app c target e in
        let p' =
          or_discard-keeps h network app P c.staging (h.apply app target e).0
            (failure "route" "proxy_switch_failed" (h.apply app target e).1) (on_apply e target p)
            (on_remove _ (on_apply e target p)) in
        elim (Option-cases applied'.1) [
          | inl fine ↦
              rw fine (
                validated-keeps applied'.0 (h.verify app applied'.0) f p' (rw fine at failed) early)
          | inr (g, refused) ↦ rw refused p'
        ]

    pub switch_route-keeps :
        (e : E) (f : Failure)
        → P e
        → (switch_route h network app c e).1 ≡ some f
        → is_retiring f ≡ false
        → P (switch_route h network app c e).0
    unfolding switch_route
    switch_route-keeps e f p failed early =
        switch_to-keeps (container_target h e c.staging app.internal_port) e f p failed early
