-- ===== src/Materials/Workflow/Order.antt =====
-- The source message of a material is deleted only after its copy has been recorded.
use gasu_schedule_bot.Base.{
  ◌≡◌, refl, String, Bool, true, false, not, Option, none, some, arith, if◌then◌else◌, ok, is_some,
  raise_if-eq-ok,
}
use gasu_schedule_bot.Base.Int.{ℤ}
use gasu_schedule_bot.Materials.Classifier.{MaterialAssessment}
use gasu_schedule_bot.Materials.Workflow.{
  WorkflowState, MaterialWorkflow, unexpected_state, bad_destination, completed_cannot_fail,
  new_workflow, is_discovered, is_copy_pending, is_copied, is_delete_pending, is_completed,
  is_positive, next_state, route_material, record_copy_success, request_source_delete,
  record_delete_success, fail_workflow,
}

-- One call that returned.
pub data Step (w w' : MaterialWorkflow) : Type 0 where
  routes : (a : MaterialAssessment) → route_material a w ≡ ok w' → Step w w'
  copies : (destination : ℤ) → record_copy_success destination w ≡ ok w' → Step w w'
  requests : (enabled : Bool) → request_source_delete enabled w ≡ ok w' → Step w w'
  deletes : record_delete_success w ≡ ok w' → Step w w'
  fails : (reason : String) → fail_workflow reason w ≡ ok w' → Step w w'

pub data Reach (w : MaterialWorkflow) : MaterialWorkflow → Type 0 where
  here : Reach w w
  next : {before after : MaterialWorkflow} → Reach w before → Step before after → Reach w after

abbrev pub is_some_positive : Option ℤ → Bool
is_some_positive none = false
is_some_positive (some id) = is_positive id

abbrev pub has_copy : MaterialWorkflow → Bool
has_copy w = is_some_positive w.destination_message_id

abbrev pub is_failed : WorkflowState → Bool
is_failed WorkflowState.failed = true
is_failed _ = false

abbrev pub follows_copy : WorkflowState → Bool
follows_copy WorkflowState.copied = true
follows_copy WorkflowState.delete_pending = true
follows_copy _ = false

-- Past the copy the workflow knows the positive id of the copy, and a failed one knows why.
pub record IsSafe (w : MaterialWorkflow) : Type 0 where
  pub copy : follows_copy w.state ≡ true → has_copy w ≡ true
  pub reason : is_some w.failure_reason ≡ is_failed w.state

route-IsSafe :
    (a : MaterialAssessment) {w w' : MaterialWorkflow}
    → IsSafe w
    → route_material a w ≡ ok w'
    → IsSafe w'
unfolding route_material
route-IsSafe a {w} {w'} v h =
    let (from, h₁) = raise_if-eq-ok (not (is_discovered w.state)) unexpected_state _ h in
    let is_w : w' ≡ record w { state = next_state a.route } = ground (arith, h₁) in
    let reason = v.reason in
    rw is_w
      (record { copy = λ k. absurd (ground (arith, k)); reason = ground (arith, from, reason) })

copy-IsSafe :
    (destination : ℤ) {w w' : MaterialWorkflow}
    → IsSafe w
    → record_copy_success destination w ≡ ok w'
    → IsSafe w'
unfolding record_copy_success
copy-IsSafe destination {w} {w'} v h =
    let (from, h₁) = raise_if-eq-ok (not (is_copy_pending w.state)) unexpected_state _ h in
    let (positive, h₂) = raise_if-eq-ok (not (is_positive destination)) bad_destination _ h₁ in
    let is_w : w'
        ≡ record w { state = WorkflowState.copied; destination_message_id = some destination } =
      ground (arith, h₂) in
    let reason = v.reason in
    rw is_w (record { copy = λ k. ground (arith, positive); reason = ground (arith, from, reason) })

request-IsSafe :
    (enabled : Bool) {w w' : MaterialWorkflow}
    → IsSafe w
    → request_source_delete enabled w ≡ ok w'
    → IsSafe w'
unfolding request_source_delete
request-IsSafe enabled {w} {w'} v h =
    let (from, h₁) = raise_if-eq-ok (not (is_copied w.state)) unexpected_state _ h in
    let is_w : w' ≡ record w {
      state = if enabled then WorkflowState.delete_pending else WorkflowState.completed;
    } =
      ground (arith, h₁) in
    let reason = v.reason in
    let copy = v.copy (ground (arith, from)) in
    rw is_w (record { copy = λ k. copy; reason = ground (arith, from, reason) })

delete-IsSafe : {w w' : MaterialWorkflow} → IsSafe w → record_delete_success w ≡ ok w' → IsSafe w'
unfolding record_delete_success
delete-IsSafe {w} {w'} v h =
    let (from, h₁) = raise_if-eq-ok (not (is_delete_pending w.state)) unexpected_state _ h in
    let is_w : w' ≡ record w { state = WorkflowState.completed } = ground (arith, h₁) in
    let reason = v.reason in
    rw is_w
      (record { copy = λ k. absurd (ground (arith, k)); reason = ground (arith, from, reason) })

fail-IsSafe :
    (reason : String) {w w' : MaterialWorkflow}
    → IsSafe w
    → fail_workflow reason w ≡ ok w'
    → IsSafe w'
unfolding fail_workflow
fail-IsSafe reason {w} {w'} v h =
    let (from, h₁) = raise_if-eq-ok (is_completed w.state) completed_cannot_fail _ h in
    let is_w : w' ≡ record w { state = WorkflowState.failed; failure_reason = some reason } =
      ground (arith, h₁) in
    rw is_w (record { copy = λ k. absurd (ground (arith, k)); reason = refl })

Step-IsSafe : {w w' : MaterialWorkflow} → IsSafe w → Step w w' → IsSafe w'
Step-IsSafe v (routes a h) = route-IsSafe a v h
Step-IsSafe v (copies destination h) = copy-IsSafe destination v h
Step-IsSafe v (requests enabled h) = request-IsSafe enabled v h
Step-IsSafe v (deletes h) = delete-IsSafe v h
Step-IsSafe v (fails reason h) = fail-IsSafe reason v h

-- A new workflow reaches, by any calls that return, only workflows that know the positive id of
-- the copy while they are copied or wait for the deletion, and that have a reason exactly if they
-- failed.
pub Reach-IsSafe : {w : MaterialWorkflow} → Reach new_workflow w → IsSafe w
Reach-IsSafe here = record { copy = λ h. absurd (ground (arith, h)); reason = refl }
Reach-IsSafe (next r s) = Step-IsSafe (Reach-IsSafe r) s

-- In a workflow that began as a new one, the deletion of the source is recorded only after a copy
-- with a positive message id has been recorded, and that id is kept.
pub delete_follows_copy :
    {w w' : MaterialWorkflow}
    → Reach new_workflow w
    → record_delete_success w ≡ ok w'
    → (has_copy w ≡ true) × (w'.destination_message_id ≡ w.destination_message_id)
unfolding record_delete_success
delete_follows_copy {w} {w'} r h =
    let (from, h₁) = raise_if-eq-ok (not (is_delete_pending w.state)) unexpected_state _ h in
    ((Reach-IsSafe r).copy (ground (arith, from)), ground (arith, h₁))

-- A completed workflow refuses every call.
pub completed_is_final : {w w' : MaterialWorkflow} → is_completed w.state ≡ true → ¬ Step w w'
unfolding route_material record_copy_success request_source_delete record_delete_success
    fail_workflow
completed_is_final done (routes a h) = absurd (ground (arith, done, h))
completed_is_final done (copies destination h) = absurd (ground (arith, done, h))
completed_is_final done (requests enabled h) = absurd (ground (arith, done, h))
completed_is_final done (deletes h) = absurd (ground (arith, done, h))
completed_is_final done (fails reason h) = absurd (ground (arith, done, h))
