-- ===== src/Deploy/Reconcile/Resumed.antt =====
-- internal/deploy/executor.go: the steps of Reconcile, for the containers of one application.
use mini_dock.Prelude.{
  ℕ, ◌≡◌, refl, sym, ap, ◌∙◌, ◌≢◌, String, true, false, Option, none, some, [], ◌∷◌, inl, inr,
  Bool-cases,
}
use mini_dock.Store.Tables.{Application}
use mini_dock.Deploy.Failures.{Failure}
use mini_dock.Deploy.Host.{Host, Kept, IsDocker}
use mini_dock.Deploy.Containers.{
  primary, next, previous, Target, reachable, unreachable, container_target, remove_if_present,
}
use mini_dock.Deploy.Switch.{unless_failed, ◌and_then◌}
use mini_dock.Deploy.Switch.Names.{next-ne-primary, previous-ne-primary, previous-ne-next}
use mini_dock.Deploy.Switch.Chains.{unless_failed-none, unless_failed-keeps, Kept-refl, Kept-trans}
use mini_dock.Deploy.Switch.Routed.{IsRouted, target_address, still-IsRouted}
use mini_dock.Deploy.Reconcile.{route_to, reroute, resume, waited, restore, restored_ids}

module _ {E : Type 0} (h : Host E) (serves : E → ℕ → Option String) (laws : IsDocker h serves)
    (app : Application) where
  module _ (name : String) (e : E) where
    pub removed_gone :
        (remove_if_present h name e).1 ≡ none
        → h.has_container (remove_if_present h name e).0 name ≡ false
    removed_gone fine = elim (Bool-cases (h.has_container e name)) [
      | inl there ↦ rw there (laws.remove_removes e name (rw there at fine))
      | inr gone ↦ rw gone gone
    ]

    pub removed-Kept :
        (other : String) → other ≢ name → Kept h other e (remove_if_present h name e).0
    removed-Kept other ne = elim (Bool-cases (h.has_container e name)) [
      | inl there ↦ rw there (laws.remove_keeps e name other ne)
      | inr gone ↦ rw gone (Kept-refl h other e)
    ]

    removed_routes : serves (remove_if_present h name e).0 app.id ≡ serves e app.id
    removed_routes = elim (Bool-cases (h.has_container e name)) [
      | inl there ↦ rw there (laws.docker_leaves_routes e _ app.id)
      | inr gone ↦ rw gone refl
    ]

  reroute-Kept : (name other : String) (e : E) → Kept h other e (reroute h app name e).0
  reroute-Kept name other e = go (container_target h e name app.internal_port)
    where
      go : (t : Target) → Kept h other e (route_to h app t e).0
      go (unreachable f) = Kept-refl h other e
      go (reachable target) = laws.apply_keeps e app target other

  rerouted :
      (name : String) (e : E) (t : Target)
      → container_target h e name app.internal_port ≡ t
      → h.has_container e name ≡ true
      → (route_to h app t e).1 ≡ none
      → IsRouted h serves app name (route_to h app t e).0
  rerouted name e (unreachable f) found there fine = absurd cc
  rerouted name e (reachable target) found there fine =
      let (ip, at_ip, is) = target_address h serves app e name found in
      let k = laws.apply_keeps e app target name in
      record {
        exists_container = k.same_container ∙ there;
        ip = ip;
        at_address = k.same_address ∙ at_ip;
        routed = laws.apply_routes e app target fine ∙ ap (λ t. some t) is;
      }

  pub resumed :
      (name : String) (e : E)
      → name ≢ next app
      → h.has_container e name ≡ true
      → (resume h app name e).1 ≡ none
      → IsRouted h serves app name (resume h app name e).0
        × (h.has_container (resume h app name e).0 (next app) ≡ false)
  resumed name e ne there fine =
      let routed = reroute h app name e in
      let (first, same) =
        unless_failed-none routed.0 routed.1 (remove_if_present h (next app)) fine in
      rw same (
        still-IsRouted h serves app name routed.0 _ (removed-Kept (next app) routed.0 name ne)
            (removed_routes (next app) routed.0) (rerouted name e _ refl there first),
        removed_gone (next app) routed.0 (rw same at fine),
      )

  pub restore_routes :
      (e : E)
      → h.has_container e (previous app) ≡ true
      → (restore h app e).1 ≡ none
      → IsRouted h serves app (primary app) (restore h app e).0
        × (h.has_container (restore h app e).0 (previous app) ≡ false)
  restore_routes e there fine =
      let begun = h.docker ("start" ∷ previous app ∷ []) e in
      let named = h.docker ("rename" ∷ previous app ∷ primary app ∷ []) begun.0 in
      let (started, same1) = unless_failed-none begun.0 begun.1 _ fine in
      let (healthy, same2) =
        unless_failed-none begun.0 (waited h app begun.0).1
          (λ e2.
            unless_failed (h.docker ("rename" ∷ previous app ∷ primary app ∷ []) e2).0
              (h.docker ("rename" ∷ previous app ∷ primary app ∷ []) e2).1
              (reroute h app (primary app)))
          (rw same1 at fine) in
      let (renamed, same3) =
        unless_failed-none named.0 named.1 (reroute h app (primary app))
          (rw (same1, same2) at fine) in
      let (old, new, address) = laws.rename_moves begun.0 (previous app) (primary app) renamed in
      let found = new ∙ laws.start_finds e (previous app) ∙ there in
      rw (same1, same2, same3)
        (
          rerouted (primary app) named.0 _ refl found (rw (same1, same2, same3) at fine),
          (reroute-Kept (primary app) (previous app) named.0).same_container ∙ old,
        )

  pub restored_ids-none :
      (r : E × Option Failure)
      → (restored_ids h app r).0.1 ≡ none
      → (r.1 ≡ none) × (restored_ids h app r ≡ (r, app.id ∷ []))
  restored_ids-none (e, none) fine = (refl, refl)
  restored_ids-none (e, some f) fine = absurd cc

  pub primary_resumed :
      (e : E)
      → h.has_container e (primary app) ≡ true
      → (resume h app (primary app) e and_then remove_if_present h (previous app)).1 ≡ none
      → IsRouted h serves app
          (primary app)
          (resume h app (primary app) e and_then remove_if_present h (previous app)).0
        × (h.has_container
              (resume h app (primary app) e and_then remove_if_present h (previous app)).0
              (next app)
            ≡ false)
        × (h.has_container
              (resume h app (primary app) e and_then remove_if_present h (previous app)).0
              (previous app)
            ≡ false)
  primary_resumed e there fine =
      let ready = resume h app (primary app) e in
      let (first, same) =
        unless_failed-none ready.0 ready.1 (remove_if_present h (previous app)) fine in
      let (routed, next_gone) =
        resumed (primary app) e (λ s. next-ne-primary app (sym s)) there first in
      let other : next app ≢ previous app = λ s. previous-ne-next app (sym s) in
      rw same (
        still-IsRouted h serves app (primary app) ready.0 _
            (removed-Kept (previous app) ready.0 (primary app)
              (λ s. previous-ne-primary app (sym s)))
            (removed_routes (previous app) ready.0) routed,
        (removed-Kept (previous app) ready.0 (next app) other).same_container ∙ next_gone,
        removed_gone (previous app) ready.0 (rw same at fine),
      )

  pub resume-Kept :
      (name other : String) (e : E) → other ≢ next app → Kept h other e (resume h app name e).0
  resume-Kept name other e ne =
      let routed = reroute h app name e in
      let k = reroute-Kept name other e in
      unless_failed-keeps (Kept h other e) routed.0 routed.1 (remove_if_present h (next app)) k
        (Kept-trans h other e routed.0 _ k (removed-Kept (next app) routed.0 other ne))

  pub restore-Kept :
      (e : E) (other : String)
      → other ≢ previous app
      → other ≢ primary app
      → Kept h other e (restore h app e).0
  restore-Kept e other apart away =
      let begun = h.docker ("start" ∷ previous app ∷ []) e in
      let named = h.docker ("rename" ∷ previous app ∷ primary app ∷ []) begun.0 in
      let P : E → Type 0 = Kept h other e in
      let first : P begun.0 = laws.start_keeps e (previous app) other apart in
      let second : P named.0 =
        Kept-trans h other e begun.0 named.0 first
          (laws.rename_keeps begun.0 (previous app) (primary app) other apart away) in
      let third : P (reroute h app (primary app) named.0).0 =
        Kept-trans h other e named.0 _ second (reroute-Kept (primary app) other named.0) in
      unless_failed-keeps P begun.0 begun.1 _ first (
        unless_failed-keeps P begun.0 (waited h app begun.0).1 _ first
          (unless_failed-keeps P named.0 named.1 _ second third))

  pub primary_resumed-Kept :
      (e : E) (other : String)
      → other ≢ next app
      → other ≢ previous app
      → Kept h other e (resume h app (primary app) e and_then remove_if_present h (previous app)).0
  primary_resumed-Kept e other apart away =
      let ready = resume h app (primary app) e in
      let k = resume-Kept (primary app) other e apart in
      unless_failed-keeps (Kept h other e) ready.0 ready.1 (remove_if_present h (previous app)) k
        (Kept-trans h other e ready.0 _ k (removed-Kept (previous app) ready.0 other away))
