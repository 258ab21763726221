-- ===== src/Schedule/Tests.antt =====
-- Pages and weeks, at concrete inputs.
use gasu_schedule_bot.Base.{
  ◌+◌, ◌*◌, zero, suc, true, false, length, raise, ◌≢◌, ◌≤◌, ◌≡◌, refl, none, some, [], ◌∷◌, arith,
  ◌==◌, Text, All, ok, sorted, insert,
}
use gasu_schedule_bot.Schedule.Lesson.{
  Unicode, Lesson, lstrip, rstrip, folded, normalize_text, check_lesson,
}
use gasu_schedule_bot.Schedule.Client.{
  Network, lost, broken, answered, of_source, transport_error, undecodable_body, undecodable,
  refused, not_json, retry_delay_of, first_request, second_request, attempts, request_group,
}
use gasu_schedule_bot.Schedule.Client.Bounded.{request_group_ends}
use gasu_schedule_bot.Schedule.Html.{
  Items, nothing, text, element, HtmlNode, Attributes, class_name, size, ◌⊙◌, split_from, split,
  attribute, has_class, nodes_with_class, first_node_with_class, text_loop, concat_texts,
  join_words, node_text, Parser, feed, add_items, is_void,
}
use gasu_schedule_bot.Schedule.Html.Search.{head, first_node-nodes}
use gasu_schedule_bot.Schedule.Html.Content.{strings, node_text-strings}
use gasu_schedule_bot.Schedule.Html.RoundTrip.{events_of, VoidsEmpty, feed-events_of}
use gasu_schedule_bot.Schedule.Page.{
  SourceError, WeekParity, WeeklySchedule, weekday_of, parse_public_date, column, each, text_of,
  div_texts, parse_block, parse_lesson, parse_day, week_parity, parse_week, parse_schedule_html,
  class_item, class_lesson, class_time, class_days, class_date, class_day_name, class_lesson_block,
  class_lesson_name, tag_div, word_numerator,
}
use gasu_schedule_bot.Schedule.Week.{
  WeekFormats, at_time, bell_schedule, split_lesson_type, split_auditorium, source_day,
  materialize_lesson, materialize_week, parity_for_week,
}
use gasu_schedule_bot.Schedule.Week.Parity.{next_week_alternates}
use gasu_schedule_bot.Schedule.Week.Placed.{InWeek, page_lessons-InWeek}

abbrev ascii : Unicode
ascii = record { is_space = λ c. c == 32; casefold = λ c. c ∷ [] }

-- Every text that is read as a date is the second day; every slot is the first.
abbrev formats : WeekFormats
formats = record {
  dates = record {
    strptime = λ pattern value. some 2;
    isoformat = λ day. 50 ∷ [];
    slot_search = λ value. some 1;
  };
  type_search = λ subject. none;
  label = λ mark. [];
  source_id = λ group day weekday slot parity subgroup occurrence. 115 ∷ [];
}

abbrev of_class : Text → Attributes
of_class name = (class_name, name) ∷ []

abbrev div : Text → Items → Items → Items
div name children rest = element tag_div (of_class name) children rest

-- One week with one day and one lesson, "a".
abbrev block : Items
block = div class_lesson_block (div class_lesson_name (text (97 ∷ []) nothing) nothing) nothing

abbrev day : Items
day =
    div class_days
      (div class_date (text (50 ∷ []) nothing)
        (div class_lesson (div class_day_name (text (49 ∷ []) nothing) block) nothing))
      nothing

abbrev page : Items
page = div class_item (div class_time (text word_numerator nothing) day) nothing

abbrev template : WeeklySchedule
template = record {
  group_key = 103 ∷ [];
  lessons =
      record {
        weekday = 1;
        slot = 1;
        parity = WeekParity.numerator;
        subject = 97 ∷ [];
        group = none;
        auditorium = none;
        professor = none;
        source_date = some (50 ∷ []);
        occurrence = 0;
      }
      ∷ [];
}

parsed : parse_schedule_html ascii formats.dates (103 ∷ []) page ≡ ok template
unfolding parse_schedule_html each parse_week parse_day parse_lesson parse_block week_parity
    div_texts text_of column parse_public_date node_text text_loop size first_node_with_class
    nodes_with_class has_class attribute split_from folded lstrip rstrip ◌⊙◌
parsed = refl

abbrev algebra : Lesson
algebra = record {
  day = 2;
  starts_at = at_time 9 0;
  ends_at = at_time 10 30;
  subject = 97 ∷ [];
  lesson_type = none;
  teacher = none;
  room = none;
  building = none;
  subgroup = none;
  source_id = some (115 ∷ []);
}

made : materialize_week ascii formats template 1 WeekParity.denominator ≡ ok (algebra ∷ [])
unfolding materialize_week each materialize_lesson source_day parse_public_date bell_schedule
    split_lesson_type split_auditorium sorted insert check_lesson lstrip rstrip normalize_text
made = refl

page_lessons-InWeek_example : (weekday_of 1 ≡ 0) × All (InWeek 1) (algebra ∷ [])
page_lessons-InWeek_example =
    page_lessons-InWeek ascii formats (103 ∷ []) page 1 WeekParity.denominator parsed made

first_node-nodes_example :
    first_node_with_class ascii class_lesson page ≡ head (nodes_with_class ascii class_lesson page)
first_node-nodes_example = first_node-nodes ascii class_lesson page

abbrev page_node : HtmlNode
page_node = record { tag = tag_div; attrs = []; children = page }

page_is_small : size page ≤ 20
unfolding size
page_is_small = omega arith

node_text-strings_example :
    node_text ascii 20 page_node ≡ some (join_words (split ascii (concat_texts (strings page))))
node_text-strings_example = node_text-strings ascii 20 page_node page_is_small

abbrev empty_parser : Parser
empty_parser = record { stack = []; root = nothing }

-- "br"
abbrev line_break : Items
line_break = element (98 ∷ 114 ∷ []) [] nothing (div class_item (text (97 ∷ []) nothing) nothing)

line_break-VoidsEmpty : VoidsEmpty line_break
unfolding VoidsEmpty is_void
line_break-VoidsEmpty = ((λ _. refl), tt, ((λ e. cc), tt, tt))

feed-events_of_example :
    feed (events_of line_break) empty_parser ≡ add_items line_break empty_parser
feed-events_of_example = feed-events_of line_break empty_parser line_break-VoidsEmpty

-- The sixth week is even; its Monday is the day 15, that of the week before the day 8.
week_before : parity_for_week 6 15 8 ≡ ok WeekParity.numerator
unfolding parity_for_week
week_before = refl

next_week_alternates_example : parity_for_week 6 15 15 ≡ ok WeekParity.denominator
next_week_alternates_example = next_week_alternates 6 15 8 week_before

-- A busy source: it asks for a token, answers 503 to the second request, and is then unreachable.
abbrev busy : Network
busy zero session_id = answered (record {
  status_code = 200;
  is_error = false;
  size = 10;
  retry_after = none;
  payload = refused (some (116 ∷ []));
})
busy (suc zero) session_id = answered (record {
  status_code = 503;
  is_error = true;
  size = 10;
  retry_after = some 4;
  payload = not_json;
})
busy (suc (suc _)) session_id = lost

asked_in_vain : request_group busy 1000 2 ≡ (
  some (raise (of_source SourceError.unavailable)),
  record { session_id = some (116 ∷ []); requests = 4; sleeps = 4 ∷ 1000000 ∷ [] },
)
unfolding request_group attempts first_request second_request retry_delay_of
asked_in_vain = refl

-- A timeout is tried again; a broken connection, or a body that is no text, ends the request with an
-- error that is none of the source's.
abbrev broken_off : Network
broken_off zero session_id = lost
broken_off (suc _) session_id = broken

abbrev garbled : Network
garbled _ session_id = answered (record {
  status_code = 200;
  is_error = false;
  size = 10;
  retry_after = none;
  payload = undecodable;
})

broken_passes : (request_group broken_off 1000 2).0 ≡ some (raise transport_error)
unfolding request_group attempts first_request
broken_passes = refl

garbled_passes : (request_group garbled 1000 2).0 ≡ some (raise undecodable_body)
unfolding request_group attempts first_request
garbled_passes = refl

request_group_ends_example :
    ((request_group busy 1000 2).0 ≢ none)
    × ((request_group busy 1000 2).1.requests ≤ 2 * (1 + 2))
    × (length (request_group busy 1000 2).1.sleeps ≤ 2)
request_group_ends_example = request_group_ends busy 1000 2
