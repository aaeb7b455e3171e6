-- ===== src/App/Webhook/Guarded.antt =====
-- internal/app/cicd.go: the guards that githubWebhook puts before the queue.
use mini_dock.Prelude.{
  ℕ, ◌≡◌, refl, ap, Bool, true, false, ◌&&◌, Option, none, some, List, arith, ◌=s=◌, Bool-cases,
  ◌⊎◌, inl, inr, Result, ok, err,
}
use mini_dock.Store.Tables.{Application, Store}
use mini_dock.Store.Webhooks.{claim_webhook_delivery}
use mini_dock.App.Queueing.{queue_deployment_ref}
use mini_dock.App.Webhook.{
  Request, Panel, Settings, wanted_push, commit_of, within_limit, for_application, application_of,
  once_only, on_push as asked_on_push, decided, authentic, is_authentic, github_webhook,
}

module _ (next_id : List ℕ → ℕ) (c : Settings) (now : ℕ) where
  -- The request has queued the push, as queueDeploymentRef does, for an application that wants it.
  pub record IsQueued (r : Request) (before after : Store) : Type 0 where
    pub app : Application
    pub is_application : application_of before r.application_id ≡ some app
    pub signed : is_authentic c r ≡ true
    pub on_push : app.deploy_on_push ≡ true
    pub unconfirmed : app.require_confirmation ≡ false
    pub unlocked : (c.locked && c.has_secrets app.id) ≡ false
    pub wanted : wanted_push c app r.push ≡ true
    pub queued :
        after
        ≡ (queue_deployment_ref next_id c.manifest now app.id "deploy"
            (commit_of r.push)
            c.log_path
            before).0

  -- The jobs are as they were, or the push was queued.
  abbrev pub Guarded : Request → Store → Panel × ℕ → Type 0
  Guarded r before result = (result.0.store ≡ before) ⊎ IsQueued r before result.0.store

  pub github_webhook-authentic :
      (r : Request) (p : Panel)
      → is_authentic c r ≡ true
      → github_webhook next_id c now r p ≡ authentic next_id c now r p
  unfolding github_webhook
  github_webhook-authentic r p signed = ground arith

  pub github_webhook_unsigned :
      (r : Request) (p : Panel)
      → is_authentic c r ≡ false
      → (github_webhook next_id c now r p).0 ≡ p
  unfolding github_webhook
  github_webhook_unsigned r p unsigned = ground arith

  module _ (r : Request) (signed : is_authentic c r ≡ true) where
    decided-Guarded :
        (p : Panel) (app : Application) (shut confirmation wanted : Bool)
        → application_of p.store r.application_id ≡ some app
        → app.deploy_on_push ≡ true
        → (c.locked && c.has_secrets app.id) ≡ shut
        → app.require_confirmation ≡ confirmation
        → wanted_push c app r.push ≡ wanted
        → Guarded r p.store (decided next_id c now app r.push p shut confirmation wanted)
    decided-Guarded p app true confirmation wanted is on s q w = inl refl
    decided-Guarded p app false true wanted is on s q w = inl refl
    decided-Guarded p app false false false is on s q w = inl refl
    decided-Guarded p app false false true is on s q w = inr (record {
      app = app;
      is_application = is;
      signed = signed;
      on_push = on;
      unconfirmed = q;
      unlocked = s;
      wanted = w;
      queued = refl;
    })

    limited :
        (p : Panel) (app : Application) (o : Result Bool)
        → application_of p.store r.application_id ≡ some app
        → app.deploy_on_push ≡ true
        → Guarded r p.store (within_limit next_id c now app r.push p o)
    limited p app (err e) is on = inl refl
    limited p app (ok false) is on = inl refl
    limited p app (ok true) is on = decided-Guarded p app _ _ _ is on refl refl refl

    pushed :
        (p : Panel) (app : Application) (b : Bool)
        → application_of p.store r.application_id ≡ some app
        → app.deploy_on_push ≡ b
        → Guarded r p.store (asked_on_push next_id c now app r p b)
    pushed p app false is on = inl refl
    pushed p app true is on = limited _ app _ is on

    found :
        (p : Panel) (o : Option Application)
        → application_of p.store r.application_id ≡ o
        → Guarded r p.store (for_application next_id c now r p o)
    found p none is = inl refl
    found p (some app) is = pushed p app app.deploy_on_push is refl

    once : (p : Panel) (o : Result Bool) → Guarded r p.store (once_only next_id c now r p o)
    once p (err e) = inl refl
    once p (ok false) = inl refl
    once p (ok true) = found p _ refl

    authentic-Guarded : (p : Panel) → Guarded r p.store (authentic next_id c now r p)
    authentic-Guarded p = elim (Bool-cases (r.delivery =s= "")) [
      | inl unnamed ↦ rw unnamed (once p (ok true))
      | inr named ↦
          let claimed = claim_webhook_delivery now p.deliveries "github" r.delivery_hash in
          rw named (once (record p { deliveries = claimed.0 }) claimed.1)
    ]

  -- githubWebhook either leaves the jobs as they are, or it queues the push: then the request is a
  -- signed push, and the application that it names deploys on a push, needs no confirmation, has
  -- no secrets that a locked panel could not give, and wants this push.
  pub github_webhook-guarded :
      (r : Request) (p : Panel) → Guarded r p.store (github_webhook next_id c now r p)
  unfolding github_webhook
  github_webhook-guarded r p = elim (Bool-cases (is_authentic c r)) [
    | inl signed ↦ rw (github_webhook-authentic r p signed) (authentic-Guarded r signed p)
    | inr unsigned ↦ inl (ap (λ q. q.store) (github_webhook_unsigned r p unsigned))
  ]
