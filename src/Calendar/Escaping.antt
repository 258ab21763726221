-- ===== src/Calendar/Escaping.antt =====
-- The texts of an event: `_ical_escape` and `_location` of src/szs_hub/schedule/calendar.py.
use gasu_schedule_bot.Base.{
  ℕ, ◌&&◌, Option, none, some, [], ◌∷◌, ◌++◌, ◌==◌, if◌then◌else◌, Text, List,
}
use gasu_schedule_bot.Schedule.Lesson.{Unicode, Lesson, nonempty}
use gasu_schedule_bot.Schedule.Page.{strip}

-- `replace` of one character.
unfoldable pub replace_character : ℕ → Text → Text → Text
replace_character old new [] = []
replace_character old new (c ∷ t) =
    let rest = replace_character old new t in if c == old then new ++ rest else c ∷ rest

-- `replace("\r\n", "\\n")`
unfoldable pub replace_crlf : Text → Text
replace_crlf [] = []
replace_crlf (c ∷ []) = c ∷ []
replace_crlf (c ∷ d ∷ t) =
    let after_both = replace_crlf t in
    let after_one = replace_crlf (d ∷ t) in
    if c == 13 && d == 10 then 92 ∷ 110 ∷ after_both else c ∷ after_one

unfoldable pub ical_escape : Text → Text
ical_escape value = replace_character 44 (92 ∷ 44 ∷ []) (
    replace_character 59 (92 ∷ 59 ∷ []) (
      replace_character 10 (92 ∷ 110 ∷ [])
        (replace_crlf (replace_character 92 (92 ∷ 92 ∷ []) value))))

-- "ауд. "
abbrev pub room_prefix : Text
room_prefix = 1072 ∷ 1091 ∷ 1076 ∷ 46 ∷ 32 ∷ []

-- "корпус "
abbrev pub building_prefix : Text
building_prefix = 1082 ∷ 1086 ∷ 1088 ∷ 1087 ∷ 1091 ∷ 1089 ∷ 32 ∷ []

-- " · "
abbrev pub middle : Text
middle = 32 ∷ 183 ∷ 32 ∷ []

abbrev pub prefixed : Unicode → Text → Option Text → List Text → List Text
prefixed u prefix none values = values
prefixed u prefix (some value) values = (prefix ++ strip u value) ∷ values

abbrev pub joined_by : Text → List Text → Text
joined_by separator [] = []
joined_by separator (t ∷ []) = t
joined_by separator (t ∷ s ∷ ts) = t ++ (separator ++ joined_by separator (s ∷ ts))

unfoldable pub location : Unicode → Lesson → Text
location u lesson = joined_by middle (
    prefixed u room_prefix (nonempty lesson.room)
      (prefixed u building_prefix (nonempty lesson.building) []))
