-- ===== src/Materials/Tests.antt =====
-- The classifier and the workflow on concrete materials.
use gasu_schedule_bot.Base.{
  ◌≡◌, refl, String, true, false, Option, none, some, [], ◌∷◌, str_eq, if◌then◌else◌,
}
use gasu_schedule_bot.Base.Int.{pos}
use gasu_schedule_bot.Materials.Classifier.{
  TextTools, MaterialEvidence, MaterialAssessment, auto_copy, leave, assess_material, combined_text,
  joined_texts, has_academic_type, is_explicit_academic, names_discipline, has_document_text,
  is_explicit_social, gained, lost, reasons_for,
}
use gasu_schedule_bot.Materials.Classifier.Caution.{no_context_leaves}
use gasu_schedule_bot.Materials.Workflow.{
  WorkflowState, MaterialWorkflow, new_workflow, route_material, record_copy_success,
  request_source_delete, record_delete_success,
}
use gasu_schedule_bot.Materials.Workflow.Order.{
  Step, routes, copies, requests, Reach, here, next, has_copy, delete_follows_copy,
}

-- Text tools that know one word of each kind.
abbrev tools : TextTools
tools = record {
  casefold = λ t. t;
  replace_yo = λ t. t;
  suffix = λ name. ".pdf";
  search = λ pattern t.
      if str_eq pattern "\\bлекци\\w*\\b"
      then str_eq t "лекция a.pdf"
      else if str_eq pattern "\\bмем\\w*\\b"
      then str_eq t "мем a.pdf"
      else false;
  occurs_in = λ part t. false;
  strip = λ t. t;
}

abbrev evidence : Option String → MaterialEvidence
evidence caption = record {
  filename = some "a.pdf";
  mime_type = none;
  caption = caption;
  nearby_text = none;
  extracted_text_excerpt = none;
  known_discipline_aliases = [];
  is_photo = false;
  is_social_topic = false;
}

lecture : assess_material tools 95 70 (evidence (some "лекция")) ≡ record {
  probability = 97;
  route = auto_copy;
  reasons = "academic_file_type" ∷ "explicit_academic_context" ∷ [];
}
unfolding assess_material gained lost reasons_for combined_text joined_texts has_academic_type
    is_explicit_academic names_discipline has_document_text is_explicit_social
lecture = refl

no_context_leaves_example : (assess_material tools 95 70 (evidence none)).route ≡ leave
unfolding is_explicit_academic combined_text joined_texts
no_context_leaves_example = no_context_leaves tools (evidence none) refl

abbrev pending : MaterialWorkflow
pending = record {
  state = WorkflowState.copy_pending;
  destination_message_id = none;
  failure_reason = none;
}

abbrev to_delete : MaterialWorkflow
to_delete = record {
  state = WorkflowState.delete_pending;
  destination_message_id = some (pos 41);
  failure_reason = none;
}

abbrev assessment : MaterialAssessment
assessment = record { probability = 97; route = auto_copy; reasons = [] }

routed : Step new_workflow pending
unfolding route_material
routed = routes assessment refl

copied_once : Step pending (record to_delete { state = WorkflowState.copied })
unfolding record_copy_success
copied_once = copies (pos 41) refl

requested : Step (record to_delete { state = WorkflowState.copied }) to_delete
unfolding request_source_delete
requested = requests true refl

to_delete-Reach : Reach new_workflow to_delete
to_delete-Reach = next (next (next here routed) copied_once) requested

delete_follows_copy_example : (has_copy to_delete ≡ true) × (some (pos 41) ≡ some (pos 41))
unfolding record_delete_success
delete_follows_copy_example =
    delete_follows_copy {w' = record to_delete { state = WorkflowState.completed }} to_delete-Reach
      refl
