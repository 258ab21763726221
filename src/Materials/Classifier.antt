-- ===== src/Materials/Classifier.antt =====
-- `assess_material` of src/szs_hub/domain/materials.py. A score is a number of hundredths: the
-- source adds decimals of two places and rounds to four, so its floats stand for exact hundredths,
-- and so do thresholds of two places. `casefold`, `PurePath.suffix`, `re.search`, substring search
-- and `strip` are Python's.
pub mod Caution
use mathlib.Core.Option
use Prim.Native.String.{count}
use gasu_schedule_bot.Base.{
  ℕ, ◌+◌, ◌-◌, min, String, Bool, true, false, ◌&&◌, not, Option, none, some, List, [], ◌∷◌, ◌++◌,
  map, leb, if◌then◌else◌, str_eq, exists,
}

pub record TextTools : Type 0 where
  pub casefold : String → String
  pub replace_yo : String → String
  pub suffix : String → String
  pub search : String → String → Bool
  pub occurs_in : String → String → Bool
  pub strip : String → String

pub data MaterialRoute : Type 0 where
  auto_copy admin_review leave : MaterialRoute

pub record MaterialEvidence : Type 0 where
  pub filename : Option String
  pub mime_type : Option String
  pub caption : Option String
  pub nearby_text : Option String
  pub extracted_text_excerpt : Option String
  pub known_discipline_aliases : List String
  pub is_photo : Bool
  pub is_social_topic : Bool

pub record MaterialAssessment : Type 0 where
  pub probability : ℕ
  pub route : MaterialRoute
  pub reasons : List String

abbrev pub academic_extensions : List String
academic_extensions =
    ".doc" ∷ ".docx" ∷ ".dwg" ∷ ".pdf" ∷ ".ppt" ∷ ".pptx" ∷ ".txt" ∷ ".xls" ∷ ".xlsx" ∷ []

abbrev pub strong_academic_patterns : List String
strong_academic_patterns =
    "\\bметодич(?:ка|еск\\w*)\\b" ∷ "\\bзадан(?:ие|ия|ию)\\b" ∷ "\\bпример\\s+расч[её]та\\b"
    ∷ "\\bпрезентаци\\w*\\b" ∷ "\\bлекци\\w*\\b" ∷ "\\bконспект\\w*\\b" ∷ "\\bс\\s+доски\\b"
    ∷ "\\bрасч[её]тн\\w*\\s+работ\\w*\\b" ∷ []

abbrev pub social_patterns : List String
social_patterns =
    "\\bмем\\w*\\b" ∷ "\\bмерс\\w*\\b" ∷ "\\bтачк\\w*\\b" ∷ "\\bах+а+х*\\b" ∷ "\\bрофл\\w*\\b"
    ∷ "\\bприкол\\w*\\b" ∷ []

abbrev pub has_text : String → Bool
has_text String.[] = false
has_text (String.◌∷◌ c s) = true

abbrev followed : String → String → String
followed String.[] t = t
followed (String.◌∷◌ c s) t = String.◌∷◌ c (followed s t)

-- `" ".join` of the values that are neither None nor empty.
unfoldable pub joined_texts : List (Option String) → String
joined_texts [] = String.[]
joined_texts (value ∷ values) =
    let rest = joined_texts values in
    if has_text (Option.get_or value String.[])
    then (if has_text rest
        then followed (Option.get_or value String.[]) (followed " " rest)
        else Option.get_or value String.[])
    else rest

module _ (tools : TextTools) where
  unfoldable pub combined_text : MaterialEvidence → String
  combined_text e = tools.replace_yo (
      tools.casefold
        (joined_texts (e.caption ∷ e.nearby_text ∷ e.filename ∷ e.extracted_text_excerpt ∷ [])))

  unfoldable pub has_academic_type : MaterialEvidence → Bool
  has_academic_type e =
      exists (str_eq (tools.casefold (tools.suffix (Option.get_or e.filename String.[]))))
        academic_extensions

  unfoldable pub is_explicit_academic : MaterialEvidence → Bool
  is_explicit_academic e = exists (λ p. tools.search p (combined_text e)) strong_academic_patterns

  unfoldable pub names_discipline : MaterialEvidence → Bool
  names_discipline e =
      exists (λ alias. has_text alias && tools.occurs_in alias (combined_text e))
        (map (λ alias. tools.replace_yo (tools.casefold alias)) e.known_discipline_aliases)

  unfoldable pub has_document_text : MaterialEvidence → Bool
  has_document_text e =
      leb 120 (count (tools.strip (Option.get_or e.extracted_text_excerpt String.[])))

  unfoldable pub is_explicit_social : MaterialEvidence → Bool
  is_explicit_social e = exists (λ p. tools.search p (combined_text e)) social_patterns

  abbrev pub points : Bool → ℕ → ℕ
  points test n = if test then n else 0

  abbrev pub reason : Bool → String → List String
  reason test name = if test then name ∷ [] else []

  unfoldable pub gained : MaterialEvidence → ℕ
  gained e =
      points (has_academic_type e) 25
      + points e.is_photo 3
      + points (is_explicit_academic e) 72
      + points (is_explicit_academic e && e.is_photo) 22
      + points (names_discipline e) 12
      + points (has_document_text e) 5

  unfoldable pub lost : MaterialEvidence → ℕ
  lost e = points e.is_social_topic 20 + points (is_explicit_social e) 75

  unfoldable pub reasons_for : MaterialEvidence → List String
  reasons_for e =
      reason (has_academic_type e) "academic_file_type"
      ++ reason e.is_photo "photo_requires_context"
      ++ reason (is_explicit_academic e) "explicit_academic_context"
      ++ reason (is_explicit_academic e && e.is_photo) "explicit_academic_photo"
      ++ reason (names_discipline e) "known_discipline"
      ++ reason (has_document_text e) "extractable_document_text"
      ++ reason e.is_social_topic "social_topic"
      ++ reason (is_explicit_social e) "explicit_social_context"

  abbrev pub route_of : ℕ → ℕ → ℕ → MaterialRoute
  route_of auto_copy_threshold review_threshold probability =
      if leb auto_copy_threshold probability
      then auto_copy
      else if leb review_threshold probability
      then admin_review
      else leave

  -- The probability is the score held between 0 and 1; subtraction on ℕ stops at 0.
  unfoldable pub assess_material : ℕ → ℕ → MaterialEvidence → MaterialAssessment
  assess_material auto_copy_threshold review_threshold e =
      let probability = min 100 (gained e - lost e) in
      record {
        probability = probability;
        route = route_of auto_copy_threshold review_threshold probability;
        reasons = reasons_for e;
      }
