-- ===== src/Store/Applications.antt =====
-- internal/store/store.go: the applications, and the host-wide cleanup schedule. The table of
-- applications is that of Store/Tables.
pub mod Sound
use mini_dock.Prelude.{
  ℕ, String, Bool, ◌&&◌, ◌||◌, not, Option, none, some, List, ◌∷◌, map, ◌==◌, ◌=s=◌, if◌then◌else◌,
  any, Result, ok, err, not_found, invalid_argument, constraint_failed, Done, done,
}
use mini_dock.Prelude.Rows.{update_where, find_where}
use mini_dock.Store.Tables.{Application}

abbrev pub has_id : ℕ → Application → Bool
has_id id a = a.id == id

-- The keys that the schema keeps unique.
abbrev pub clashes : Application → Application → Bool
clashes a b = a.name =s= b.name || a.domain =s= b.domain

abbrev pub application_ids : List Application → List ℕ
application_ids = map (λ (a : Application). a.id)

-- CreateApplication; the returned value has the new id, and not the new creation time.
unfoldable pub create_application :
    (List ℕ → ℕ) → ℕ → List Application → Application → List Application × Result Application
create_application next_id now rows a =
    if a.deploy_on_push && a.require_confirmation
    then (rows, err invalid_argument)
    else if any (clashes a) rows
    then (rows, err constraint_failed)
    else (let id = next_id (application_ids rows) in
        (record a { id = id; created_at = now } ∷ rows, ok (record a { id = id })))

abbrev pub found_application : Option Application → Result Application
found_application none = err not_found
found_application (some a) = ok a

-- Application
unfoldable pub application : List Application → ℕ → Result Application
application rows id = found_application (find_where (has_id id) rows)

abbrev pub automated : Bool → Bool → Bool → Application → Application
automated deploy_on_push require_confirmation auto_rollback a = record a {
  deploy_on_push = deploy_on_push;
  require_confirmation = require_confirmation;
  auto_rollback = auto_rollback;
}

-- UpdateApplicationAutomation
unfoldable pub update_application_automation :
    List Application → ℕ → Bool → Bool → Bool → List Application × Done
update_application_automation rows id deploy_on_push require_confirmation auto_rollback =
    if deploy_on_push && require_confirmation
    then (rows, err invalid_argument)
    else if any (has_id id) rows
    then (
      update_where (has_id id) (automated deploy_on_push require_confirmation auto_rollback) rows,
      done,
    )
    else (rows, err not_found)

abbrev pub under_domain : String → Application → Application
under_domain domain a = record a { domain = domain }

abbrev pub takes_domain : ℕ → String → Application → Bool
takes_domain id domain a = a.domain =s= domain && not (a.id == id)

-- UpdateApplicationDomain; the domain is unique among the other applications.
unfoldable pub update_application_domain : List Application → ℕ → String → List Application × Done
update_application_domain rows id domain =
    if any (has_id id) rows
    then (if any (takes_domain id domain) rows
        then (rows, err constraint_failed)
        else (update_where (has_id id) (under_domain domain) rows, done))
    else (rows, err not_found)

-- AutomationSettings: the row with id 1, or the default.
abbrev pub cleanup_schedule : Option String → String
cleanup_schedule none = "manual"
cleanup_schedule (some schedule) = schedule

-- UpdateCleanupSchedule
abbrev pub update_cleanup_schedule : Option String → String → Option String × Done
update_cleanup_schedule row schedule =
    if schedule =s= "manual" || (schedule =s= "daily" || schedule =s= "weekly")
    then (some schedule, done)
    else (row, err invalid_argument)
