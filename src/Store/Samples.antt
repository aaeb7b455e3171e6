-- ===== src/Store/Samples.antt =====
-- A small database: two applications and their jobs.
use mini_dock.Prelude.{
  ℕ, ◌+◌, ◌<◌, refl, String, true, false, List, [], ◌∷◌, arith, leb, if◌then◌else◌, All, All-mono,
}
use mini_dock.Store.Tables.{queued, running, successful, Application, Deployment, Store}
use mini_dock.Store.Jobs.{new_deployment, started_deployment, index_holds}
use mini_dock.Store.Endings.{ended}
use mini_dock.Store.Lifecycle.{IsValid, IsAbove}

-- The largest id and one, as SQLite chooses a rowid.
unfoldable pub next_id : List ℕ → ℕ
next_id [] = 1
next_id (i ∷ is) = let n = next_id is in if leb n i then i + 1 else n

above_both :
    (i n : ℕ) (is : List ℕ)
    → All (λ k. k < n) is
    → All (λ k. k < (if leb n i then i + 1 else n)) (i ∷ is)
above_both i n is rest = (
  ground arith,
  All-mono (λ k. k < n) (λ k. k < (if leb n i then i + 1 else n)) (λ k h. ground arith) is rest,
)

pub next_id-IsAbove : IsAbove next_id
unfolding next_id
next_id-IsAbove [] = tt
next_id-IsAbove (i ∷ is) = above_both i (next_id is) is (next_id-IsAbove is)

abbrev pub shop : Application
shop = record {
  id = 7;
  name = "shop";
  repository = "https://example.test/shop.git";
  branch = "main";
  work_dir = ".";
  kind = "web";
  build_command = "";
  run_command = "";
  internal_port = 3000;
  domain = "shop.example.test";
  runtime = "node";
  deploy_on_push = true;
  require_confirmation = false;
  auto_rollback = true;
  github_installation_id = 0;
  health_endpoint = "/health";
  created_at = 0;
}

abbrev pub blog : Application
blog = record shop { id = 8; name = "blog"; domain = "blog.example.test" }

abbrev pub released : ℕ → String → ℕ → Deployment
released id image at = record (ended at successful (new_deployment id 7 running "log" 0 "deploy")) {
  image = image;
  attempt = 1;
}

-- Two releases of the shop, a third one waiting, and the blog's first one running.
abbrev pub old_release : Deployment
old_release = released 1 "shop:1" 10

abbrev pub new_release : Deployment
new_release = released 2 "shop:2" 20

abbrev pub waiting_job : Deployment
waiting_job = new_deployment 4 7 queued "log" 2_000_000 "deploy"

abbrev pub running_job : Deployment
running_job = started_deployment 3 8 "" "log" 30

abbrev pub jobs : Store
jobs = record {
  applications = shop ∷ blog ∷ [];
  deployments = waiting_job ∷ running_job ∷ new_release ∷ old_release ∷ [];
  events = [];
  alerts = [];
}

pub jobs-IsValid : IsValid jobs
unfolding index_holds
jobs-IsValid = record {
  one_active = refl;
  distinct = ground arith;
  coherent = ground arith;
  owned = ground arith;
}
