-- ===== src/Deploy/Switch/Routed.antt =====
-- What it is that the proxy serves a container.
use mini_dock.Prelude.{
  ℕ, ◌≡◌, refl, ◌∙◌, ◌≢◌, String, true, false, ◌||◌, Option, none, some, inl, inr, arith, ◌=s=◌,
  Bool-cases, ltb, eq_iff,
}
use mini_dock.Store.Tables.{Application}
use mini_dock.Deploy.Host.{Host, Kept}
use mini_dock.Deploy.Containers.{candidate, reachable, container_target, target_of, join_host_port}

-- The proxy serves the candidate at its address, with the application's port, and the other
-- container is gone.
pub record IsServing {E : Type 0} (h : Host E) (serves : E → ℕ → Option String) (app : Application)
    (gone : String) (e : E) : Type 0 where
  pub exists_candidate : h.has_container e (candidate app) ≡ true
  pub ip : String
  pub at_address : h.address e (candidate app) ≡ some ip
  pub routed : serves e app.id ≡ some (join_host_port ip app.internal_port)
  pub other_gone : h.has_container e gone ≡ false

-- The new container runs, and the proxy serves it.
pub record IsRouted {E : Type 0} (h : Host E) (serves : E → ℕ → Option String) (app : Application)
    (name : String) (e : E) : Type 0 where
  pub exists_container : h.has_container e name ≡ true
  pub ip : String
  pub at_address : h.address e name ≡ some ip
  pub routed : serves e app.id ≡ some (join_host_port ip app.internal_port)

pub texts_distinct : (a b : String) → a ≢ b → (a =s= b) ≡ false
texts_distinct a b h = ground (arith, eq_iff a b)

reachable_address :
    (container : String) (port : ℕ) (o : Option String) {target : String}
    → target_of container port o ≡ reachable target
    → (ip : String) × (o ≡ some ip) × (target ≡ join_host_port ip port)
reachable_address container port none e = absurd cc
reachable_address container port (some ip) e = (ip, refl, cc)

module _ {E : Type 0} (h : Host E) (serves : E → ℕ → Option String) (app : Application) where
  pub target_address :
      (e : E) (container : String) {target : String}
      → container_target h e container app.internal_port ≡ reachable target
      → (ip : String) × (h.address e container ≡ some ip)
        × (target ≡ join_host_port ip app.internal_port)
  target_address e container found =
      elim (Bool-cases (ltb app.internal_port 1 || ltb 65535 app.internal_port)) [
        | inl bad ↦ absurd (let no_target = rw bad at found in cc)
        | inr good ↦
            reachable_address container app.internal_port (h.address e container) (rw good at found)
      ]

  pub still-IsRouted :
      (name : String) (e e' : E)
      → Kept h name e e'
      → serves e' app.id ≡ serves e app.id
      → IsRouted h serves app name e
      → IsRouted h serves app name e'
  still-IsRouted name e e' k same r = record {
    exists_container = k.same_container ∙ r.exists_container;
    ip = r.ip;
    at_address = k.same_address ∙ r.at_address;
    routed = same ∙ r.routed;
  }
