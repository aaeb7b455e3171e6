-- ===== src/Deploy/Failures.antt =====
-- internal/deploy/executor.go: the causes of a failed release, the stage timeouts and the choice
-- of a runtime.
use mini_dock.Prelude.{ℕ, ◌*◌, String, Bool, Option, none, some, ltb, ◌=s=◌, if◌then◌else◌}
use mini_dock.Prelude.Decimal.{◌+s+◌}
use mini_dock.Store.Tables.{second}

-- An error of the executor: a *Failure, or an error that no stage has classified.
pub data Failure : Type 0 where
  classified : (stage code detail : String) → Failure
  unclassified : (detail : String) → Failure

-- A value, or the error that a call returns instead.
pub data Got (A : Type 0) : Type 0 where
  got : A → Got A
  missed : Failure → Got A

-- err.Error()
abbrev pub detail_of : Failure → String
detail_of (classified stage code detail) = detail
detail_of (unclassified detail) = detail

-- %q, of a text without characters to escape
abbrev pub quoted : String → String
quoted text = "\"" +s+ text +s+ "\""

-- failure
abbrev pub failure : String → String → Option Failure → Option Failure
failure stage code none = none
failure stage code (some f) = some (classified stage code (detail_of f))

pub record Details : Type 0 where
  pub stage : String
  pub code : String
  pub detail : String

-- FailureDetails
abbrev pub failure_details : Option Failure → Details
failure_details none = record { stage = ""; code = ""; detail = "" }
failure_details (some (classified stage code detail)) = record {
  stage = stage;
  code = code;
  detail = detail;
}
failure_details (some (unclassified detail)) = record {
  stage = "start";
  code = "runtime_error";
  detail = detail;
}

-- A configured timeout, in nanoseconds, or the default; a negative one counts as 0.
abbrev timeout_or : ℕ → ℕ → ℕ
timeout_or default configured = if ltb 0 configured then configured else default

-- sourceTimeout, buildTimeout, startTimeout and healthTimeout
abbrev pub source_timeout : ℕ → ℕ
source_timeout = timeout_or (300 * second)

abbrev pub build_timeout : ℕ → ℕ
build_timeout = timeout_or (1200 * second)

abbrev pub start_timeout : ℕ → ℕ
start_timeout = timeout_or (120 * second)

abbrev pub health_timeout : ℕ → ℕ
health_timeout = timeout_or (30 * second)

abbrev pub wanted_or_auto : String → String
wanted_or_auto wanted = if wanted =s= "" then "auto" else wanted

-- The runtime that an application asks for, or else the host's.
abbrev pub wanted_runtime : String → String → String
wanted_runtime of_application of_host =
    if of_application =s= ""
    then wanted_or_auto of_host
    else if of_application =s= "auto"
    then wanted_or_auto of_host
    else of_application

pub data Selection : Type 0 where
  selected : String → Selection
  refused : String → Selection

-- selectRuntime
unfoldable pub select_runtime : String → (String → Bool) → Selection
select_runtime wanted available =
    if wanted =s= "auto"
    then (if available "docker"
        then selected "docker"
        else refused "Docker is the only supported runtime")
    else if wanted =s= "apple"
    then refused "Apple Container is experimental"
    else if available wanted
    then selected wanted
    else refused "requested runtime is not available"
