-- ===== src/Calendar/Tests.antt =====
-- Folding of concrete texts.
use gasu_schedule_bot.Base.{◌≤◌, ◌≡◌, ◌≢◌, refl, [], ◌∷◌, arith, All, Text}
use gasu_schedule_bot.Calendar.{bytes, width, fold_from, fold_chunks, fold_line, unfold_line}
use gasu_schedule_bot.Calendar.Escaping.{replace_character, replace_crlf, ical_escape}
use gasu_schedule_bot.Calendar.Folding.{physical_lines, folded_lines_short, unfold-fold}

-- Three Cyrillic letters and a dot, of seven bytes.
abbrev word : Text
word = 1087 ∷ 1072 ∷ 1088 ∷ 46 ∷ []

-- With five bytes a line, two letters fit the first line; the rest follows after a space.
folded : fold_line 5 word ≡ 1087 ∷ 1072 ∷ 13 ∷ 10 ∷ 32 ∷ 1088 ∷ 46 ∷ []
unfolding fold_line fold_chunks fold_from width
folded = refl

folded_lines_short_example : All (λ t. bytes t ≤ 5) (physical_lines (fold_chunks 5 word))
folded_lines_short_example = folded_lines_short 5 word (omega arith)

no_breaks : All (λ c. c ≢ 13) word
no_breaks = (
  (λ e. absurd (omega (arith, e))),
  (
    (λ e. absurd (omega (arith, e))),
    ((λ e. absurd (omega (arith, e))), ((λ e. absurd (omega (arith, e))), tt)),
  ),
)

unfold-fold_example : unfold_line (fold_line 5 word) ≡ word
unfold-fold_example = unfold-fold 5 word no_breaks

-- A line break, in either form, a comma and a backslash.
escaped :
    ical_escape (97 ∷ 13 ∷ 10 ∷ 44 ∷ 92 ∷ 10 ∷ [])
    ≡ 97 ∷ 92 ∷ 110 ∷ 92 ∷ 44 ∷ 92 ∷ 92 ∷ 92 ∷ 110 ∷ []
unfolding ical_escape replace_character replace_crlf
escaped = refl
