-- ===== src/Deploy/Switch/Restored.antt =====
-- internal/deploy/executor.go: the routes after a release that could not be started.
use mini_dock.Deploy.Network.Harmless.{ensure_docker_network-serves}
use mini_dock.Deploy.Network.{ensure_docker_network}
use mini_dock.Prelude.{
  ℕ, ◌≡◌, refl, sym, ap, ◌∙◌, String, Bool, true, false, ◌||◌, Option, none, some, List, ◌⊎◌, inl,
  inr, arith, ◌=s=◌, Bool-cases, Option-cases, ltb, eq_iff,
}
use mini_dock.Store.Tables.{Application}
use mini_dock.Deploy.Failures.{Failure, classified, unclassified, failure, detail_of}
use mini_dock.Deploy.Host.{DockerNetwork, Host, IsDocker}
use mini_dock.Deploy.Containers.{Target, reachable, unreachable, container_target, join_host_port}
use mini_dock.Deploy.Switch.{
  Colours, colours, discarded, or_discard, launched, proven, docker_start, stage_release,
  switch_route, switch_to, validated, restored,
}
use mini_dock.Deploy.Switch.Chains.{unless_failed-some}
use mini_dock.Deploy.Switch.Failing.{is_retiring, retiring_failure, stage_release-keeps}

abbrev pub code_of : Failure → String
code_of (classified stage code detail) = code
code_of (unclassified detail) = ""

pub failure-code :
    (stage code : String) (o : Option Failure) {f : Failure}
    → failure stage code o ≡ some f
    → code_of f ≡ code
failure-code stage code none {f} e = absurd cc
failure-code stage code (some g) {f} e =
    let same : classified stage code (detail_of g) ≡ f = cc in ap code_of (sym same)

-- The failures before the proxy is asked to switch.
abbrev pub is_early : Failure → Bool
is_early f =
    code_of f =s= "network_unavailable"
    || (code_of f =s= "candidate_start_failed"
        || (code_of f =s= "health_check_failed" || code_of f =s= "candidate_address_unavailable"))

pub retiring-code :
    (f : Failure)
    → is_retiring f ≡ true
    → (code_of f ≡ "previous_cleanup_failed") ⊎ (code_of f ≡ "candidate_promote_failed")
retiring-code (classified stage code detail) late =
    elim (Bool-cases (code =s= "previous_cleanup_failed")) [
      | inl cleanup ↦ inl ((eq_iff code "previous_cleanup_failed").0 cleanup)
      | inr other ↦ inr ((eq_iff code "candidate_promote_failed").0 (rw other at late))
    ]
retiring-code (unclassified detail) late = absurd cc

module _ {E : Type 0} (h : Host E) (network : DockerNetwork) (app : Application) where
  pub or_discard-some :
      (staging : String) (e : E) (o : Option Failure) {f : Failure}
      → (or_discard h network app staging (e, o)).1 ≡ some f
      → o ≡ some f
  or_discard-some staging e none k = k
  or_discard-some staging e (some g) k = k

  pub staged-code :
      (c : Colours) (image : String) (environment : List (String × String)) (e : E) {f : Failure}
      → (stage_release h network app image environment c e).1 ≡ some f
      → (code_of f ≡ "candidate_start_failed") ⊎ (code_of f ≡ "health_check_failed")
  unfolding stage_release
  staged-code c image environment e failed =
      let started = launched h network app image environment c e in
      elim (unless_failed-some started.0 (failure "start" "candidate_start_failed" started.1)
        (proven h network app c) failed) [
          | inl first ↦ inl (failure-code "start" "candidate_start_failed" started.1 first)
          | inr second ↦ inr (
              failure-code "health" "health_check_failed" _
                (or_discard-some c.staging started.0 _ second))
        ]

  -- How a switch of the route can fail: without having asked the proxy, refused by it, undone after
  -- the route was found not to work, or after it was found to work.
  pub data Outcome (c : Colours) (e : E) (t : Target) (f : Failure) : Type 0 where
    not_asked :
        switch_to h network app c t e ≡ (e, some f)
        → code_of f ≡ "candidate_address_unavailable"
        → Outcome c e t f
    not_applied : code_of f ≡ "proxy_switch_failed" → Outcome c e t f
    undone :
        (target : String)
        → code_of f ≡ "proxy_validation_failed"
        → (switch_to h network app c t e).0
          ≡ discarded h network app c.staging
              (restored h network app c.active (h.apply app target e).0)
        → Outcome c e t f
    not_retired : is_retiring f ≡ true → Outcome c e t f

  validated-Outcome :
      (c : Colours) (e : E) (target : String) (o : Option Failure) (f : Failure)
      → switch_to h network app c (reachable target) e
        ≡ validated h network app c (h.apply app target e).0 o
      → (validated h network app c (h.apply app target e).0 o).1 ≡ some f
      → Outcome c e (reachable target) f
  validated-Outcome c e target (some g) f same failed =
      undone target (failure-code "route" "proxy_validation_failed" (some g) failed)
        (ap (λ r. r.0) same)
  validated-Outcome c e target none f same failed =
      not_retired (retiring_failure h network app c (h.apply app target e).0 f failed)

  pub switch_to-Outcome :
      (c : Colours) (e : E) (t : Target) (f : Failure)
      → (switch_to h network app c t e).1 ≡ some f
      → Outcome c e t f
  switch_to-Outcome c e (unreachable g) f failed =
      not_asked (ap (λ o. (e, o)) failed)
        (failure-code "route" "candidate_address_unavailable" (some g) failed)
  switch_to-Outcome c e (reachable target) f failed = elim (Option-cases (h.apply app target e).1) [
    | inl fine ↦
        let same : switch_to h network app c (reachable target) e
            ≡ validated h network app c (h.apply app target e).0
                (h.verify app (h.apply app target e).0) =
          rw fine refl in
        validated-Outcome c e target (h.verify app (h.apply app target e).0) f same
          (rw same at failed)
    | inr (g, refused) ↦
        not_applied (failure-code "route" "proxy_switch_failed" (some g) (rw refused at failed))
  ]

retiring_is_late : (f : Failure) → is_retiring f ≡ true → is_early f ≡ false
retiring_is_late f late = elim (retiring-code f late) [ inl is ↦ rw is refl | inr is ↦ rw is refl ]

early_not :
    (f : Failure) (code : String)
    → code_of f ≡ code
    → is_early f ≡ true
    → (code =s= "network_unavailable"
        || (code =s= "candidate_start_failed"
            || (code =s= "health_check_failed" || code =s= "candidate_address_unavailable")))
      ≡ true
early_not f code is early = rw is at early

module _ {E : Type 0} (h : Host E) (serves : E → ℕ → Option String) (laws : IsDocker h serves)
    (network : DockerNetwork) (app : Application) where
  abbrev SameRoutes : E → E → Type 0
  SameRoutes before after = (id : ℕ) → serves after id ≡ serves before id

  staged-SameRoutes :
      (c : Colours) (image : String) (environment : List (String × String)) (start e : E)
      → SameRoutes start e
      → SameRoutes start (stage_release h network app image environment c e).0
  staged-SameRoutes c image environment start e =
      stage_release-keeps h network app (SameRoutes start)
        (λ call e' k id. laws.files_leave_routes call e' id ∙ k id) c
        (λ e' k id. laws.docker_leaves_routes e' _ id ∙ k id)
        (λ e' args k id. laws.docker_leaves_routes e' _ id ∙ k id) image environment e

  switched-SameRoutes :
      (c : Colours) (start e : E) (t : Target) (f : Failure)
      → SameRoutes start e
      → (switch_to h network app c t e).1 ≡ some f
      → is_early f ≡ true
      → SameRoutes start (switch_to h network app c t e).0
  switched-SameRoutes c start e t f k failed early =
      elim (switch_to-Outcome h network app c e t f failed) [
        | not_asked same code ↦ rw same k
        | not_applied code ↦ absurd (let wrong = early_not f _ code early in cc)
        | undone target code same ↦ absurd (let wrong = early_not f _ code early in cc)
        | not_retired late ↦ absurd (let wrong = retiring_is_late f late in ground arith)
      ]

  -- If DockerAdapter.Start fails before it asks the proxy to switch, every application has the
  -- route that it had. It holds for a host whose docker and proxy behave as documented.
  pub docker_start-SameRoutes :
      (image : String) (environment : List (String × String)) (e : E) (f : Failure) (id : ℕ)
      → (docker_start h network app image environment e).1 ≡ some f
      → is_early f ≡ true
      → serves (docker_start h network app image environment e).0 id ≡ serves e id
  unfolding docker_start switch_route
  docker_start-SameRoutes image environment e f id failed early =
      let joined = ensure_docker_network h network e in
      let c = colours h network app joined.0 in
      let staged = stage_release h network app image environment c joined.0 in
      let k =
        staged-SameRoutes c image environment e joined.0
          (ensure_docker_network-serves h serves laws network e) in
      elim (Option-cases joined.1) [
        | inr (g, refused) ↦ rw refused (ensure_docker_network-serves h serves laws network e id)
        | inl fine ↦ elim (Option-cases staged.1) [
          | inr (g, refused) ↦ rw (fine, refused) (k id)
          | inl ready ↦
              rw (fine, ready)
                (switched-SameRoutes c e staged.0
                  (container_target h staged.0 c.staging app.internal_port) f k
                  (rw (fine, ready) at failed) early id)
        ]
      ]

  pub restored_serves :
      (active ip : String) (e : E)
      → ((e' : E) (target : String) → (h.apply app target e').1 ≡ none)
      → h.has_container e active ≡ true
      → h.address e active ≡ some ip
      → (ltb app.internal_port 1 || ltb 65535 app.internal_port) ≡ false
      → serves (restored h network app active e) app.id ≡ some (join_host_port ip app.internal_port)
  restored_serves active ip e accepts there found port =
      rw (there, port, found)
        (laws.apply_routes e app (join_host_port ip app.internal_port) (accepts e _))
