-- ===== src/App/Webhook/Tests.antt =====
-- Pushes to the shop of the small database, which has no job yet.
use mini_dock.Prelude.{ℕ, ◌≡◌, refl, true, false, some, List, [], ◌∷◌, arith, eq_iff, map}
use mini_dock.Prelude.Rows.{find_where, update_where}
use mini_dock.Prelude.Decimal.{decimal, digits}
use mini_dock.Store.Tables.{Deployment, Store}
use mini_dock.Store.Jobs.{queue_deployment, insert_deployment, index_holds, with_deployments}
use mini_dock.Store.Endings.{set_deployment_release_metadata}
use mini_dock.Store.Webhooks.{claim_webhook_delivery, allow_webhook_request, put_request}
use mini_dock.Store.Samples.{next_id, jobs}
use mini_dock.Prelude.Characters.{all_hex}
use mini_dock.App.References.{
  matches_github_repository, valid_git_commit, zeros, trim_left, trim_right,
}
use mini_dock.App.Queueing.{queue_deployment_ref}
use mini_dock.App.Webhook.{Request, Panel, Settings, wanted_push, github_webhook}
use mini_dock.App.Webhook.Guarded.{Guarded, github_webhook-guarded}
use mini_dock.App.Webhook.Replayed.{github_webhook-replayed}

abbrev push : Request
push = record {
  event = "push";
  readable = true;
  valid_signature = true;
  delivery = "d-1";
  delivery_hash = "h-1";
  application_id = some 7;
  push = some (record { ref = "refs/heads/main"; after = ""; full_name = "" });
}

abbrev panel : Panel
panel = record { store = with_deployments jobs []; deliveries = []; limits = [] }

abbrev settings : Settings
settings = record {
  webhook_secret = "secret";
  rate_limit = 30;
  rate_window = 60;
  locked = false;
  has_secrets = λ id. false;
  lower = λ text. text;
  manifest = λ app. "{}";
  log_path = "log";
}

abbrev statuses : Store → List ℕ
statuses s = map (λ (d : Deployment). d.application_id) s.deployments

-- The push is accepted and queues a job.
accepts_push :
    ((github_webhook next_id settings 5 push panel).1 ≡ 202)
    × (statuses (github_webhook next_id settings 5 push panel).0.store ≡ 7 ∷ [])
unfolding github_webhook claim_webhook_delivery allow_webhook_request put_request queue_deployment
    insert_deployment index_holds set_deployment_release_metadata find_where update_where next_id
    decimal digits wanted_push queue_deployment_ref
accepts_push = (refl, refl)

-- While the panel is locked and the shop has secrets, the push is refused; sent again after the
-- panel has been unlocked, it is taken for a replay.
abbrev locked : Settings
locked = record settings { locked = true; has_secrets = λ id. true }

drops_push :
    ((github_webhook next_id locked 5 push panel).1 ≡ 503)
    × ((github_webhook next_id settings 6 push (github_webhook next_id locked 5 push panel).0).1
        ≡ 204)
unfolding github_webhook claim_webhook_delivery allow_webhook_request put_request queue_deployment
    insert_deployment index_holds set_deployment_release_metadata find_where update_where next_id
    decimal digits wanted_push queue_deployment_ref
drops_push = (refl, refl)

github_webhook-guarded_example :
    Guarded next_id settings 5 push panel.store (github_webhook next_id settings 5 push panel)
github_webhook-guarded_example = github_webhook-guarded next_id settings 5 push panel

github_webhook-replayed_example :
    (github_webhook next_id settings 6 push (github_webhook next_id settings 5 push panel).0).0
    ≡ (github_webhook next_id settings 5 push panel).0
github_webhook-replayed_example =
    github_webhook-replayed next_id settings 5 6 push panel (λ e. ground (arith, eq_iff "d-1" ""))

-- The three forms of a repository's address name it, and the zeros that GitHub sends for a deleted
-- branch are no commit.
names_repository :
    (matches_github_repository (λ text. text) "https://github.com/acme/shop.git" "acme/shop" ≡ true)
    × (matches_github_repository (λ text. text) "http://github.com/acme/shop/" "acme/shop" ≡ true)
    × (matches_github_repository (λ text. text) "git@github.com:acme/shop.git " "acme/shop/" ≡ true)
    × (matches_github_repository (λ text. text) "https://github.com/acme/blog" "acme/shop" ≡ false)
unfolding matches_github_repository trim_left trim_right
names_repository = (refl, refl, refl, refl)

zeros_no_commit : valid_git_commit zeros ≡ false
unfolding all_hex
zeros_no_commit = refl
