-- ===== src/Client.antt =====
-- `client.Client` of sigs.k8s.io/controller-runtime: what the calls answer, which calls a
-- reconciliation makes, and what it returns.
use openshift_update_experie.Prelude.{String}
use openshift_update_experie.Meta.{Time}

-- What `Create`, `Delete` and `Status().Update` answer.
pub data WriteResult : Type 0 where
  written conflict already_exists : WriteResult
  write_error : String → WriteResult

-- What the writes of one reconciliation answer, if they are made.
pub record Answers : Type 0 where
  pub on_create : WriteResult
  pub on_delete : WriteResult
  pub on_update : WriteResult

-- A write that a reconciliation makes, on the insight that it is asked about.
pub data Call {ℓ} (S : Type ℓ) : Type ℓ where
  create delete : Call S
  update_status : S → Call S

-- `ctrl.Result` and the error.
pub data Outcome : Type 0 where
  finished : Outcome
  requeue_after : Time → Outcome
  failed : String → Outcome

abbrev pub second : Time
second = 1000000000

-- The text of an error that is passed on.
abbrev pub error_of : WriteResult → String
error_of written = ""
error_of conflict = "conflict"
error_of already_exists = "already exists"
error_of (write_error e) = e
