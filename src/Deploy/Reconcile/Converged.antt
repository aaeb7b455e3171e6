-- ===== src/Deploy/Reconcile/Converged.antt =====
-- internal/deploy/executor.go: Reconcile, for every container that one application may have.
use mini_dock.Prelude.{
  ℕ, ◌≡◌, refl, sym, ◌∙◌, ◌≢◌, String, false, Option, none, some, List, [], ◌∷◌, inl, inr,
  if◌then◌else◌, All, Bool-cases,
}
use mini_dock.Store.Tables.{Application}
use mini_dock.Deploy.Failures.{Failure}
use mini_dock.Deploy.Host.{Host, Kept, IsDocker}
use mini_dock.Deploy.Containers.{primary, candidate, next, previous, remove_if_present}
use mini_dock.Deploy.Switch.{◌and_then◌}
use mini_dock.Deploy.Switch.Names.{
  candidate-ne-primary, next-ne-primary, next-ne-candidate, previous-ne-primary, previous-ne-next,
  previous-ne-candidate,
}
use mini_dock.Deploy.Switch.Chains.{Kept-refl}
use mini_dock.Deploy.Switch.Routed.{IsRouted}
use mini_dock.Deploy.Reconcile.Resumed.{
  resumed, restore_routes, restored_ids-none, primary_resumed, resume-Kept, restore-Kept,
  primary_resumed-Kept,
}
use mini_dock.Deploy.Reconcile.{resume, restore, reconcile_application}

-- What a reconciliation is to do: the container that gets the route, the containers that it
-- removes, those that it leaves as they were, and the applications that it reports.
pub record Expectation : Type 0 where
  pub live : Option String
  pub removed : List String
  pub untouched : List String
  pub reported : List ℕ

module _ {E : Type 0} (h : Host E) (serves : E → ℕ → Option String) (app : Application) where
  abbrev pub expectation : E → Expectation
  expectation e =
      if h.has_container e (candidate app)
      then record {
        live = some (candidate app);
        removed = next app ∷ [];
        untouched = candidate app ∷ primary app ∷ previous app ∷ [];
        reported = [];
      }
      else if h.has_container e (primary app)
      then record {
        live = some (primary app);
        removed = next app ∷ previous app ∷ [];
        untouched = primary app ∷ candidate app ∷ [];
        reported = [];
      }
      else if h.has_container e (previous app)
      then record {
        live = some (primary app);
        removed = previous app ∷ [];
        untouched = next app ∷ candidate app ∷ [];
        reported = app.id ∷ [];
      }
      else record {
        live = none;
        removed = [];
        untouched = candidate app ∷ primary app ∷ next app ∷ previous app ∷ [];
        reported = [];
      }

  abbrev pub IsLive : Option String → E → E → Type 0
  IsLive none before after = serves after app.id ≡ serves before app.id
  IsLive (some name) before after = IsRouted h serves app name after

  pub record MeetsExpectation (x : Expectation) (other : String) (before : E)
      (r : (E × Option Failure) × List ℕ) : Type 0 where
    pub other_kept : Kept h other before r.0.0
    pub live_routed : IsLive x.live before r.0.0
    pub removed_gone : All (λ name. h.has_container r.0.0 name ≡ false) x.removed
    pub untouched_kept : All (λ name. Kept h name before r.0.0) x.untouched
    pub only_reported : r.1 ≡ x.reported

  abbrev pub IsConverged : String → E → (E × Option Failure) × List ℕ → Type 0
  IsConverged other before = MeetsExpectation (expectation before) other before

module _ {E : Type 0} (h : Host E) (serves : E → ℕ → Option String) (laws : IsDocker h serves)
    (app : Application) where
  apart : {a b : String} → a ≢ b → b ≢ a
  apart ne = λ s. ne (sym s)

  first_apart : primary app ≢ next app
  first_apart = apart (next-ne-primary app)

  second_apart : candidate app ≢ next app
  second_apart = apart (next-ne-candidate app)

  -- If the body of Reconcile's loop succeeds for an application, then each of its four containers
  -- is accounted for. With a candidate, the proxy serves the candidate at its address, the staged
  -- container is gone, and the primary and the preserved container, if there are any, are left as
  -- they were. Without it, but with a primary, the proxy serves the primary, and the staged and
  -- the preserved container are gone. With only the preserved one, that has the primary's name and
  -- is served under it, and a staged container is left as it was. Without any of the three, the
  -- route and the containers are as they were. The application is reported exactly if its
  -- preserved container was restored, and a container of any other name is as it was. It holds for
  -- a host whose docker and proxy behave as documented.
  pub reconcile_application-IsConverged :
      (e : E) (other : String)
      → other ≢ primary app
      → other ≢ next app
      → other ≢ previous app
      → (reconcile_application h app e).0.1 ≡ none
      → IsConverged h serves app other e (reconcile_application h app e)
  unfolding reconcile_application
  reconcile_application-IsConverged e other no_primary no_next no_previous fine =
      elim (Bool-cases (h.has_container e (candidate app))) [
        | inl colour ↦
            let done_ =
              resumed h serves laws app (candidate app) e second_apart colour (rw colour at fine) in
            let kept : (other : String)
                → other ≢ next app
                → Kept h other e (resume h app (candidate app) e).0 =
              λ other. resume-Kept h serves laws app (candidate app) other e in
            rw colour (record {
              other_kept = kept other no_next;
              live_routed = done_.0;
              removed_gone = (done_.1, tt);
              untouched_kept = (
                kept (candidate app) second_apart,
                (kept (primary app) first_apart, (kept (previous app) (previous-ne-next app), tt)),
              );
              only_reported = refl;
            })
        | inr plain ↦ elim (Bool-cases (h.has_container e (primary app))) [
          | inl there ↦ elim (Bool-cases (h.has_container e (previous app))) [
            | inl old ↦
                let done_ =
                  primary_resumed h serves laws app e there (rw (plain, there, old) at fine) in
                let both : (other : String)
                    → other ≢ next app
                    → other ≢ previous app
                    → Kept h other e
                        (resume h app (primary app) e
                          and_then remove_if_present h (previous app)).0 =
                  primary_resumed-Kept h serves laws app e in
                rw (plain, there, old)
                  (record {
                    other_kept = both other no_next no_previous;
                    live_routed = done_.0;
                    removed_gone = (done_.1, (done_.2, tt));
                    untouched_kept = (
                      both (primary app) first_apart (apart (previous-ne-primary app)),
                      (both (candidate app) second_apart (apart (previous-ne-candidate app)), tt),
                    );
                    only_reported = refl;
                  })
            | inr fresh ↦
                let done_ =
                  resumed h serves laws app (primary app) e first_apart there
                    (rw (plain, there, fresh) at fine) in
                let kept = resume-Kept h serves laws app (primary app) in
                rw (plain, there, fresh)
                  (record {
                    other_kept = kept other e no_next;
                    live_routed = done_.0;
                    removed_gone = (
                      done_.1,
                      ((kept (previous app) e (previous-ne-next app)).same_container ∙ fresh, tt),
                    );
                    untouched_kept = (
                      kept (primary app) e first_apart,
                      (kept (candidate app) e second_apart, tt),
                    );
                    only_reported = refl;
                  })
          ]
          | inr missing ↦ elim (Bool-cases (h.has_container e (previous app))) [
            | inl old ↦
                let (quiet, same) =
                  restored_ids-none h serves laws app (restore h app e)
                    (rw (plain, missing, old) at fine) in
                let done_ = restore_routes h serves laws app e old quiet in
                let kept = restore-Kept h serves laws app e in
                rw (plain, missing, old, same)
                  (record {
                    other_kept = kept other no_previous no_primary;
                    live_routed = done_.0;
                    removed_gone = (done_.1, tt);
                    untouched_kept = (
                      kept (next app) (apart (previous-ne-next app)) (next-ne-primary app),
                      (
                        kept (candidate app) (apart (previous-ne-candidate app))
                            (candidate-ne-primary app),
                        tt,
                      ),
                    );
                    only_reported = refl;
                  })
            | inr nothing ↦
                let same : (name : String) → Kept h name e e = λ name. Kept-refl h name e in
                rw (plain, missing, nothing)
                  (record {
                    other_kept = same other;
                    live_routed = refl;
                    removed_gone = tt;
                    untouched_kept = (same _, (same _, (same _, (same _, tt))));
                    only_reported = refl;
                  })
          ]
        ]
      ]
