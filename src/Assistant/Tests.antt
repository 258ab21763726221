-- ===== src/Assistant/Tests.antt =====
-- A concrete answer with one source.
use gasu_schedule_bot.Base.{◌≤◌, ◌≡◌, refl, none, some, [], ◌∷◌, ◌++◌, Text, ok}
use gasu_schedule_bot.Assistant.{
  AssistantAnswer, AssistantSource, Rendered, telegram_prefix, truncate_text, linked_sources,
  select_sources, render_parts,
}
use gasu_schedule_bot.Assistant.Visible.{visible_length, rendered_fits}

-- "S1", linked.
abbrev source : AssistantSource
source = record { label = 83 ∷ 49 ∷ []; telegram_link = some (telegram_prefix ++ 97 ∷ []) }

abbrev letters : Text
letters = 97 ∷ 98 ∷ 99 ∷ []

abbrev answer : AssistantAnswer
answer = record {
  text =
      letters ++ letters ++ letters ++ letters ++ letters ++ letters ++ letters ++ letters
      ++ letters ++ letters ++ letters;
  sources = source ∷ record { label = 83 ∷ 50 ∷ []; telegram_link = none } ∷ [];
}

-- Of 45 characters, 14 go to the sources, and the text of 33 is cut to 31.
abbrev shown : Rendered
shown = record {
  text =
      letters
      ++ letters
      ++ letters
      ++ letters
      ++ letters
      ++ letters
      ++ letters
      ++ letters
      ++ letters
      ++ letters
      ++ 8230 ∷ [];
  selected = source ∷ [];
}

rendering : render_parts answer 45 ≡ ok shown
unfolding render_parts linked_sources select_sources truncate_text
rendering = refl

rendered_fits_example : visible_length shown ≤ 45
rendered_fits_example = rendered_fits answer 45 rendering
