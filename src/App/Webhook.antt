-- ===== src/App/Webhook.antt =====
-- internal/app/cicd.go: githubWebhook, from a request to a queued job. HMAC, SHA-256 and JSON are
-- parameters: the request says whether its signature is valid, which hash its delivery id has, and
-- what its body holds.
pub mod Guarded
pub mod Replayed
mod Tests
use mini_dock.Prelude.{
  ℕ, String, Bool, true, false, not, ◌&&◌, ◌||◌, Option, none, some, List, ◌==◌, ◌=s=◌,
  if◌then◌else◌, Result, ok, err, Error, constraint_failed,
}
use mini_dock.Prelude.Decimal.{◌+s+◌, decimal}
use mini_dock.Prelude.Rows.{find_where}
use mini_dock.Store.Tables.{Application, Store}
use mini_dock.App.Queueing.{queue_deployment_ref}
use mini_dock.App.References.{valid_git_commit, matches_github_repository, matches_git_reference}
use mini_dock.Store.Webhooks.{Delivery, RateLimit, claim_webhook_delivery, allow_webhook_request}

-- githubPush
pub record Push : Type 0 where
  pub ref : String
  pub after : String
  pub full_name : String

pub record Request : Type 0 where
  pub event : String
  pub readable : Bool
  pub valid_signature : Bool
  -- the trimmed header X-GitHub-Delivery, and the hash of it
  pub delivery : String
  pub delivery_hash : String
  pub application_id : Option ℕ
  pub push : Option Push

-- The state that the handler reads and writes.
pub record Panel : Type 0 where
  pub store : Store
  pub deliveries : List Delivery
  pub limits : List RateLimit

-- The configuration, and what the handler asks of the rest of the panel.
pub record Settings : Type 0 where
  pub webhook_secret : String
  pub rate_limit : ℕ
  pub rate_window : ℕ
  pub locked : Bool
  pub has_secrets : ℕ → Bool
  pub lower : String → String
  pub manifest : Application → String
  pub log_path : String

-- The push is one to the application's branch, with a commit, and of its repository.
unfoldable pub wanted_push : Settings → Application → Option Push → Bool
unfolding matches_github_repository
wanted_push c app none = false
wanted_push c app (some p) =
    matches_git_reference app.branch p.ref
    && ((p.after =s= "" || valid_git_commit p.after)
        && (p.full_name =s= "" || matches_github_repository c.lower app.repository p.full_name))

abbrev pub commit_of : Option Push → String
commit_of none = ""
commit_of (some p) = p.after

abbrev no_content : ℕ
no_content = 204

-- The application of the path, if the path holds a number.
abbrev pub application_of : Store → Option ℕ → Option Application
application_of s none = none
application_of s (some id) = find_where (λ (a : Application). a.id == id) s.applications

abbrev pub is_authentic : Settings → Request → Bool
is_authentic c r =
    r.event =s= "push" && (not (c.webhook_secret =s= "") && (r.readable && r.valid_signature))

module _ (next_id : List ℕ → ℕ) (c : Settings) (now : ℕ) where
  -- A second active job of the application is refused by the index, and answered as accepted.
  abbrev code_of : Option Error → ℕ
  code_of none = 202
  code_of (some constraint_failed) = 202
  code_of (some _) = 500

  abbrev pub queued_push : Application → Option Push → Panel → Panel × ℕ
  queued_push app push p =
      let queued =
        queue_deployment_ref next_id c.manifest now app.id "deploy" (commit_of push) c.log_path
          p.store in
      (record p { store = queued.0 }, code_of queued.1)

  -- The guards in their order: a locked panel with secrets, a confirmation that nobody can give,
  -- and a push that is not wanted.
  abbrev pub decided : Application → Option Push → Panel → Bool → Bool → Bool → Panel × ℕ
  decided app push p true confirmation wanted = (p, 503)
  decided app push p false true wanted = (p, no_content)
  decided app push p false false false = (p, no_content)
  decided app push p false false true = queued_push app push p

  -- From the rate limit's answer on.
  abbrev pub within_limit : Application → Option Push → Panel → Result Bool → Panel × ℕ
  within_limit app push p (err e) = (p, 500)
  within_limit app push p (ok false) = (p, 429)
  within_limit app push p (ok true) =
      decided app push p (c.locked && c.has_secrets app.id) app.require_confirmation
        (wanted_push c app push)

  abbrev pub on_push : Application → Request → Panel → Bool → Panel × ℕ
  on_push app r p false = (p, no_content)
  on_push app r p true =
      let asked =
        allow_webhook_request now p.limits ("github:" +s+ decimal app.id) c.rate_limit
          c.rate_window in
      within_limit app r.push (record p { limits = asked.0 }) asked.1

  abbrev pub for_application : Request → Panel → Option Application → Panel × ℕ
  for_application r p none = (p, 404)
  for_application r p (some app) = on_push app r p app.deploy_on_push

  abbrev pub once_only : Request → Panel → Result Bool → Panel × ℕ
  once_only r p (err e) = (p, 500)
  once_only r p (ok false) = (p, no_content)
  once_only r p (ok true) = for_application r p (application_of p.store r.application_id)

  abbrev pub authentic : Request → Panel → Panel × ℕ
  authentic r p =
      if r.delivery =s= ""
      then once_only r p (ok true)
      else (let claimed = claim_webhook_delivery now p.deliveries "github" r.delivery_hash in
          once_only r (record p { deliveries = claimed.0 }) claimed.1)

  -- githubWebhook
  unfoldable pub github_webhook : Request → Panel → Panel × ℕ
  github_webhook r p =
      if not (r.event =s= "push")
      then (p, no_content)
      else if c.webhook_secret =s= ""
      then (p, 503)
      else if not r.readable
      then (p, 400)
      else if not r.valid_signature
      then (p, 401)
      else authentic r p
