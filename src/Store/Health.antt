-- ===== src/Store/Health.antt =====
-- internal/store/store.go: the health evidence of the applications and the route probes. A zero
-- time is stored as NULL.
use mini_dock.Prelude.{
  ℕ, String, Bool, ◌&&◌, Option, none, some, List, [], ◌∷◌, ◌==◌, if◌then◌else◌, is_some, Result,
  ok, err, constraint_failed, scan_failed, Done, done,
}
use mini_dock.Prelude.Rows.{find_where}
use mini_dock.Store.Tables.{Store}
use mini_dock.Store.Jobs.{has_application}

-- A time is an option, for nullTime.
pub record HealthEvidence : Type 0 where
  pub application_id : ℕ
  pub internal_status : String
  pub internal_checked_at : Option ℕ
  pub route_status : String
  pub route_checked_at : Option ℕ
  pub external_status : String
  pub external_checked_at : Option ℕ
  pub external_observer : String
  pub external_http_status : ℕ
  pub external_detail : String

pub record RouteProbeRow : Type 0 where
  pub application_id : ℕ
  pub success : Bool
  pub checked_at : ℕ
  pub observer : String
  pub http_status : ℕ
  pub detail : String

-- The tables application_health and route_probes.
pub record HealthTables : Type 0 where
  pub application_health : List HealthEvidence
  pub route_probes : List RouteProbeRow

abbrev pub of_application : ℕ → HealthEvidence → Bool
of_application application_id e = e.application_id == application_id

-- INSERT … ON CONFLICT(application_id) DO UPDATE, which sets every other column.
unfoldable pub put_evidence : HealthEvidence → List HealthEvidence → List HealthEvidence
put_evidence e [] = e ∷ []
put_evidence e (x ∷ xs) =
    if x.application_id == e.application_id then e ∷ xs else x ∷ put_evidence e xs

-- UpsertHealthEvidence
abbrev pub upsert_health_evidence : Store → HealthTables → HealthEvidence → HealthTables × Done
upsert_health_evidence s h e =
    if has_application e.application_id s
    then (record h { application_health = put_evidence e h.application_health }, done)
    else (h, err constraint_failed)

abbrev pub no_evidence : ℕ → HealthEvidence
no_evidence application_id = record {
  application_id = application_id;
  internal_status = "";
  internal_checked_at = none;
  route_status = "";
  route_checked_at = none;
  external_status = "";
  external_checked_at = none;
  external_observer = "";
  external_http_status = 0;
  external_detail = "";
}

-- A NULL cannot be scanned into a time.Time.
abbrev pub scanned : HealthEvidence → Result HealthEvidence
scanned e =
    if is_some e.internal_checked_at
      && (is_some e.route_checked_at && is_some e.external_checked_at)
    then ok e
    else err scan_failed

abbrev pub evidence_or_none : ℕ → Option HealthEvidence → Result HealthEvidence
evidence_or_none application_id none = ok (no_evidence application_id)
evidence_or_none application_id (some e) = scanned e

-- The method HealthEvidence
abbrev pub health_evidence : HealthTables → ℕ → Result HealthEvidence
health_evidence h application_id =
    evidence_or_none application_id
      (find_where (of_application application_id) h.application_health)

-- RecordRouteProbe
abbrev pub record_route_probe : Store → HealthTables → RouteProbeRow → HealthTables × Done
record_route_probe s h p =
    if has_application p.application_id s
    then (record h { route_probes = p ∷ h.route_probes }, done)
    else (h, err constraint_failed)
