-- ===== src/Materials/Workflow.antt =====
-- `MaterialWorkflow` of src/szs_hub/domain/materials.py: copy first, delete later.
pub mod Order
use gasu_schedule_bot.Base.{
  ℕ, ◌≡◌, String, Bool, true, false, not, Option, none, some, if◌then◌else◌, ltb, Result, ok, raise,
  ◌>>=◌, ◌>>◌, raise_if,
}
use gasu_schedule_bot.Base.Int.{ℤ, pos, negsuc}
use gasu_schedule_bot.Materials.Classifier.{
  MaterialRoute, auto_copy, admin_review, leave, MaterialAssessment,
}

pub data WorkflowState : Type 0 where
  discovered review copy_pending copied delete_pending completed failed : WorkflowState

pub data WorkflowError : Type 0 where
  unexpected_state bad_destination completed_cannot_fail : WorkflowError

abbrev pub Outcome : Type 0 → Type 0
Outcome A = Result WorkflowError A

pub record MaterialWorkflow : Type 0 where
  pub state : WorkflowState
  pub destination_message_id : Option ℤ
  pub failure_reason : Option String

-- `MaterialWorkflow()`
abbrev pub new_workflow : MaterialWorkflow
new_workflow = record { state = discovered; destination_message_id = none; failure_reason = none }

abbrev pub is_discovered : WorkflowState → Bool
is_discovered discovered = true
is_discovered _ = false

abbrev pub is_copy_pending : WorkflowState → Bool
is_copy_pending copy_pending = true
is_copy_pending _ = false

abbrev pub is_copied : WorkflowState → Bool
is_copied copied = true
is_copied _ = false

abbrev pub is_delete_pending : WorkflowState → Bool
is_delete_pending delete_pending = true
is_delete_pending _ = false

abbrev pub is_completed : WorkflowState → Bool
is_completed completed = true
is_completed _ = false

abbrev pub next_state : MaterialRoute → WorkflowState
next_state auto_copy = copy_pending
next_state admin_review = review
next_state leave = completed

unfoldable pub route_material : MaterialAssessment → MaterialWorkflow → Outcome MaterialWorkflow
route_material assessment w = do
  raise_if (not (is_discovered w.state)) unexpected_state
  ok (record w { state = next_state assessment.route })

abbrev pub is_positive : ℤ → Bool
is_positive (pos n) = ltb 0 n
is_positive (negsuc n) = false

unfoldable pub record_copy_success : ℤ → MaterialWorkflow → Outcome MaterialWorkflow
record_copy_success destination w = do
  raise_if (not (is_copy_pending w.state)) unexpected_state
  raise_if (not (is_positive destination)) bad_destination
  ok (record w { state = copied; destination_message_id = some destination })

unfoldable pub request_source_delete : Bool → MaterialWorkflow → Outcome MaterialWorkflow
request_source_delete enabled w = do
  raise_if (not (is_copied w.state)) unexpected_state
  ok (record w { state = if enabled then delete_pending else completed })

unfoldable pub record_delete_success : MaterialWorkflow → Outcome MaterialWorkflow
record_delete_success w = do
  raise_if (not (is_delete_pending w.state)) unexpected_state
  ok (record w { state = completed })

unfoldable pub fail_workflow : String → MaterialWorkflow → Outcome MaterialWorkflow
fail_workflow reason w = do
  raise_if (is_completed w.state) completed_cannot_fail
  ok (record w { state = failed; failure_reason = some reason })
