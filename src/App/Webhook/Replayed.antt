-- ===== src/App/Webhook/Replayed.antt =====
-- internal/app/cicd.go: githubWebhook, for a delivery that GitHub sends again.
use mini_dock.Prelude.{
  ℕ, ◌≡◌, refl, ap, ◌≢◌, String, Bool, true, false, Option, none, some, List, arith, ◌=s=◌,
  =s=_refl, eq_iff, any, Bool-cases, inl, inr, Result, ok, err,
}
use mini_dock.Store.Tables.{Application}
use mini_dock.Store.Webhooks.{Delivery, is_delivery, claim_webhook_delivery}
use mini_dock.App.Webhook.{
  Push, Request, Panel, Settings, within_limit, decided, on_push, for_application, once_only,
  authentic, is_authentic, github_webhook,
}
use mini_dock.App.Webhook.Guarded.{github_webhook-authentic, github_webhook_unsigned}

module _ (next_id : List ℕ → ℕ) (c : Settings) (now : ℕ) where
  decided_deliveries :
      (app : Application) (push : Option Push) (p : Panel) (shut confirmation wanted : Bool)
      → (decided next_id c now app push p shut confirmation wanted).0.deliveries ≡ p.deliveries
  decided_deliveries app push p true confirmation wanted = refl
  decided_deliveries app push p false true wanted = refl
  decided_deliveries app push p false false false = refl
  decided_deliveries app push p false false true = refl

  limited_deliveries :
      (app : Application) (push : Option Push) (p : Panel) (o : Result Bool)
      → (within_limit next_id c now app push p o).0.deliveries ≡ p.deliveries
  limited_deliveries app push p (err e) = refl
  limited_deliveries app push p (ok false) = refl
  limited_deliveries app push p (ok true) = decided_deliveries app push p _ _ _

  pushed_deliveries :
      (app : Application) (r : Request) (p : Panel) (b : Bool)
      → (on_push next_id c now app r p b).0.deliveries ≡ p.deliveries
  pushed_deliveries app r p false = refl
  pushed_deliveries app r p true = limited_deliveries app r.push _ _

  found_deliveries :
      (r : Request) (p : Panel) (o : Option Application)
      → (for_application next_id c now r p o).0.deliveries ≡ p.deliveries
  found_deliveries r p none = refl
  found_deliveries r p (some app) = pushed_deliveries app r p app.deploy_on_push

  once_deliveries :
      (r : Request) (p : Panel) (o : Result Bool)
      → (once_only next_id c now r p o).0.deliveries ≡ p.deliveries
  once_deliveries r p (err e) = refl
  once_deliveries r p (ok false) = refl
  once_deliveries r p (ok true) = found_deliveries r p _

  claim_knows :
      (ds : List Delivery) (hash : String)
      → any (is_delivery "github" hash) (claim_webhook_delivery now ds "github" hash).0 ≡ true
  unfolding claim_webhook_delivery
  claim_knows ds hash = elim (Bool-cases (any (is_delivery "github" hash) ds)) [
    | inl known ↦ rw known known
    | inr new ↦ rw (new, =s=_refl hash) refl
  ]

  authentic_knows :
      (r : Request) (p : Panel)
      → (r.delivery =s= "") ≡ false
      → any (is_delivery "github" r.delivery_hash) (authentic next_id c now r p).0.deliveries ≡ true
  authentic_knows r p named =
      let claimed = claim_webhook_delivery now p.deliveries "github" r.delivery_hash in
      let kept = once_deliveries r (record p { deliveries = claimed.0 }) claimed.1 in
      rw named (rw kept (claim_knows p.deliveries r.delivery_hash))

refused_again :
    (next_id : List ℕ → ℕ) (c : Settings) (now : ℕ) (r : Request) (p : Panel)
    → (r.delivery =s= "") ≡ false
    → any (is_delivery "github" r.delivery_hash) p.deliveries ≡ true
    → authentic next_id c now r p ≡ (p, 204)
unfolding claim_webhook_delivery
refused_again next_id c now r p named known = rw (named, known) refl

-- A request that carries a delivery id changes nothing when it comes a second time, at whatever
-- time, to the panel that its first run has left.
pub github_webhook-replayed :
    (next_id : List ℕ → ℕ) (c : Settings) (now later : ℕ) (r : Request) (p : Panel)
    → r.delivery ≢ ""
    → (github_webhook next_id c later r (github_webhook next_id c now r p).0).0
      ≡ (github_webhook next_id c now r p).0
github_webhook-replayed next_id c now later r p named =
    let given : (r.delivery =s= "") ≡ false = ground (arith, eq_iff r.delivery "") in
    elim (Bool-cases (is_authentic c r)) [
      | inl signed ↦ rw (github_webhook-authentic next_id c now r p signed) (
          rw (github_webhook-authentic next_id c later r (authentic next_id c now r p).0 signed) (
            ap (λ q. q.0)
              (refused_again next_id c later r (authentic next_id c now r p).0 given
                (authentic_knows next_id c now r p given))))
      | inr unsigned ↦
          github_webhook_unsigned next_id c later r (github_webhook next_id c now r p).0 unsigned
    ]
