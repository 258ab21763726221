-- ===== src/Schedule/Page.antt =====
-- The timetable page as the lessons of a week's template: `_parse_schedule_html` of
-- src/szs_hub/schedule/spbgasu.py. The regular expression for a lesson's slot and `strptime` are
-- parameters.
use gasu_schedule_bot.Base.{
  ℕ, zero, suc, ◌+◌, ◌%◌, Bool, true, false, ◌&&◌, ◌||◌, Option, none, some, List, [], ◌∷◌, ◌++◌,
  ◌==◌, if◌then◌else◌, Text, text_eq, String, Result, ok, raise, ◌>>=◌,
}
use gasu_schedule_bot.Schedule.Lesson.{
  Unicode, ScheduleError, lstrip, rstrip, folded, or_empty, nonempty,
}
use gasu_schedule_bot.Schedule.Html.{
  Items, nothing, text, element, HtmlNode, size, nodes_with_class, first_node_with_class, node_text,
}

pub data WeekParity : Type 0 where
  numerator denominator : WeekParity

pub record WeeklyLesson : Type 0 where
  pub weekday : ℕ
  pub slot : ℕ
  pub parity : WeekParity
  pub subject : Text
  pub group : Option Text
  pub auditorium : Option Text
  pub professor : Option Text
  pub source_date : Option Text
  pub occurrence : ℕ

pub record WeeklySchedule : Type 0 where
  pub group_key : Text
  pub lessons : List WeeklyLesson

-- `SpbGasuError` with its subclasses, and the `ValueError`s of the code around it.
pub data SourceError : Type 0 where
  unavailable : SourceError
  group_not_found : SourceError
  protocol : String → SourceError
  empty_group : SourceError
  not_monday : SourceError
  not_week_offset : SourceError
  bad_lesson : ScheduleError → SourceError

-- `date.weekday` on the ordinal of a day: 0 is Monday.
abbrev pub weekday_of : ℕ → ℕ
weekday_of day = (day + 6) % 7

pub record Formats : Type 0 where
  -- `datetime.strptime(value, pattern).date()`
  pub strptime : Text → Text → Option ℕ
  pub isoformat : ℕ → Text
  -- `_LESSON_SLOT.search(value)`, the number of its group.
  pub slot_search : Text → Option ℕ

abbrev pub strip : Unicode → Text → Text
strip u t = rstrip u (lstrip u t)

-- "item"
abbrev pub class_item : Text
class_item = 105 ∷ 116 ∷ 101 ∷ 109 ∷ []

-- "lesson"
abbrev pub class_lesson : Text
class_lesson = 108 ∷ 101 ∷ 115 ∷ 115 ∷ 111 ∷ 110 ∷ []

-- "time"
abbrev pub class_time : Text
class_time = 116 ∷ 105 ∷ 109 ∷ 101 ∷ []

-- "days"
abbrev pub class_days : Text
class_days = 100 ∷ 97 ∷ 121 ∷ 115 ∷ []

-- "date"
abbrev pub class_date : Text
class_date = 100 ∷ 97 ∷ 116 ∷ 101 ∷ []

-- "day_name"
abbrev pub class_day_name : Text
class_day_name = 100 ∷ 97 ∷ 121 ∷ 95 ∷ 110 ∷ 97 ∷ 109 ∷ 101 ∷ []

-- "lesson_block"
abbrev pub class_lesson_block : Text
class_lesson_block = 108 ∷ 101 ∷ 115 ∷ 115 ∷ 111 ∷ 110 ∷ 95 ∷ 98 ∷ 108 ∷ 111 ∷ 99 ∷ 107 ∷ []

-- "lesson-name"
abbrev pub class_lesson_name : Text
class_lesson_name = 108 ∷ 101 ∷ 115 ∷ 115 ∷ 111 ∷ 110 ∷ 45 ∷ 110 ∷ 97 ∷ 109 ∷ 101 ∷ []

-- "div"
abbrev pub tag_div : Text
tag_div = 100 ∷ 105 ∷ 118 ∷ []

-- "числитель"
abbrev pub word_numerator : Text
word_numerator = 1095 ∷ 1080 ∷ 1089 ∷ 1083 ∷ 1080 ∷ 1090 ∷ 1077 ∷ 1083 ∷ 1100 ∷ []

-- "знаменатель"
abbrev pub word_denominator : Text
word_denominator = 1079 ∷ 1085 ∷ 1072 ∷ 1084 ∷ 1077 ∷ 1085 ∷ 1072 ∷ 1090 ∷ 1077 ∷ 1083 ∷ 1100 ∷ []

-- "%Y-%m-%d"
abbrev pub pattern_iso : Text
pattern_iso = 37 ∷ 89 ∷ 45 ∷ 37 ∷ 109 ∷ 45 ∷ 37 ∷ 100 ∷ []

-- "%d.%m.%Y"
abbrev pub pattern_dotted : Text
pattern_dotted = 37 ∷ 100 ∷ 46 ∷ 37 ∷ 109 ∷ 46 ∷ 37 ∷ 89 ∷ []

abbrev pub is_prefix : Text → Text → Bool
is_prefix [] t = true
is_prefix (c ∷ s) [] = false
is_prefix (c ∷ s) (d ∷ t) = c == d && is_prefix s t

-- `word in text`
abbrev pub contains : Text → Text → Bool
contains word [] = is_prefix word []
contains word (c ∷ t) = is_prefix word (c ∷ t) || contains word t

abbrev pub or_next {ℓ} : {A : Type ℓ} → Option A → Option A → Option A
or_next none next = next
or_next (some a) next = some a

-- `_parse_public_date`
unfoldable pub parse_public_date : Unicode → Formats → Option Text → Option ℕ
parse_public_date u f none = none
parse_public_date u f (some []) = none
parse_public_date u f (some (c ∷ t)) =
    or_next (f.strptime pattern_iso (strip u (c ∷ t))) (f.strptime pattern_dotted (strip u (c ∷ t)))

-- `_column`
unfoldable pub column : Unicode → List Text → ℕ → Option Text
column u [] index = none
column u (t ∷ columns) zero = nonempty (some (strip u t))
column u (t ∷ columns) (suc index) = column u columns index

-- `for x in xs` where the body raises or adds to `lessons`; `index` counts the rounds.
unfoldable pub each :
    {E A B : Type 0} → (ℕ → A → Result E (List B)) → ℕ → List A → Result E (List B)
each body index [] = ok []
each body index (x ∷ xs) = do
  here ← body index x
  rest ← each body (suc index) xs
  ok (here ++ rest)

-- The parity that exactly one of the two words names.
abbrev pub named_parity : Bool → Bool → Result SourceError WeekParity
named_parity true false = ok WeekParity.numerator
named_parity false true = ok WeekParity.denominator
named_parity _ _ = raise (protocol "week parity is malformed")

unfoldable pub week_parity : Text → Result SourceError WeekParity
week_parity week_text =
    named_parity (contains word_numerator week_text) (contains word_denominator week_text)

module _ (u : Unicode) (f : Formats) where
  -- `_node_text`, with the fuel that its loop needs.
  unfoldable pub text_of : HtmlNode → Text
  text_of node = or_empty (node_text u (size node.children) node)

  abbrev pub text_or_empty : Option HtmlNode → Text
  text_or_empty none = []
  text_or_empty (some node) = text_of node

  -- The texts of the children that are a `div`.
  unfoldable pub div_texts : Items → List Text
  div_texts nothing = []
  div_texts (text t rest) = div_texts rest
  div_texts (element tag attrs children rest) =
      let later = div_texts rest in
      if text_eq tag tag_div
      then text_of (record { tag = tag; attrs = attrs; children = children }) ∷ later
      else later

  abbrev pub with_subject :
      WeekParity → ℕ → ℕ → ℕ → List Text → Text → Result SourceError (List WeeklyLesson)
  with_subject parity day slot occurrence columns [] = raise (protocol "subject is missing")
  with_subject parity day slot occurrence columns (c ∷ subject) = ok (
      record {
        weekday = weekday_of day;
        slot = slot;
        parity = parity;
        subject = c ∷ subject;
        group = column u columns 1;
        auditorium = column u columns 2;
        professor = column u columns 3;
        source_date = some (f.isoformat day);
        occurrence = occurrence;
      }
      ∷ [])

  unfoldable pub parse_block :
      WeekParity → ℕ → ℕ → ℕ → HtmlNode → Result SourceError (List WeeklyLesson)
  parse_block parity day slot occurrence block =
      with_subject parity day slot occurrence (div_texts block.children)
        (text_or_empty (first_node_with_class u class_lesson_name block.children))

  abbrev pub parse_blocks :
      WeekParity → ℕ → ℕ → List HtmlNode → Result SourceError (List WeeklyLesson)
  parse_blocks parity day slot [] = raise (protocol "lesson has no details")
  parse_blocks parity day slot (block ∷ blocks) =
      each (parse_block parity day slot) 0 (block ∷ blocks)

  abbrev pub in_slot : WeekParity → ℕ → HtmlNode → Option ℕ → Result SourceError (List WeeklyLesson)
  in_slot parity day node none = raise (protocol "lesson slot is malformed")
  in_slot parity day node (some slot) =
      parse_blocks parity day slot (nodes_with_class u class_lesson_block node.children)

  unfoldable pub parse_lesson : WeekParity → ℕ → HtmlNode → Result SourceError (List WeeklyLesson)
  parse_lesson parity day node =
      in_slot parity day node
        (f.slot_search (text_or_empty (first_node_with_class u class_day_name node.children)))

  abbrev pub on_date :
      WeekParity → List HtmlNode → Option ℕ → Result SourceError (List WeeklyLesson)
  on_date parity lessons none = raise (protocol "day has an invalid date")
  on_date parity lessons (some day) = each (λ _. parse_lesson parity day) 0 lessons

  abbrev pub with_date :
      WeekParity → List HtmlNode → Option HtmlNode → Result SourceError (List WeeklyLesson)
  with_date parity lessons none = raise (protocol "day has no date")
  with_date parity lessons (some node) =
      on_date parity lessons (parse_public_date u f (some (text_of node)))

  abbrev pub day_with :
      WeekParity → HtmlNode → List HtmlNode → Result SourceError (List WeeklyLesson)
  day_with parity node [] = ok []
  day_with parity node (lesson ∷ lessons) =
      with_date parity (lesson ∷ lessons) (first_node_with_class u class_date node.children)

  unfoldable pub parse_day : WeekParity → HtmlNode → Result SourceError (List WeeklyLesson)
  parse_day parity node = day_with parity node (nodes_with_class u class_lesson node.children)

  abbrev pub week_with : HtmlNode → List HtmlNode → Result SourceError (List WeeklyLesson)
  week_with week [] = ok []
  week_with week (_ ∷ _) = do
    parity ←
        week_parity (folded u (text_or_empty (first_node_with_class u class_time week.children)))
    each (λ _. parse_day parity) 0 (nodes_with_class u class_days week.children)

  unfoldable pub parse_week : HtmlNode → Result SourceError (List WeeklyLesson)
  parse_week week = week_with week (nodes_with_class u class_lesson week.children)

  -- `_parse_schedule_html` on the tree of the page.
  unfoldable pub parse_schedule_html : Text → Items → Result SourceError WeeklySchedule
  parse_schedule_html group_key page = do
    lessons ← each (λ _. parse_week) 0 (nodes_with_class u class_item page)
    ok (record { group_key = group_key; lessons = lessons })
