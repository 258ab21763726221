-- ===== src/Calendar.antt =====
-- The text format of the calendar feed: `_fold_line` of src/szs_hub/schedule/calendar.py.
pub mod Folding
pub mod Escaping
mod Tests
use gasu_schedule_bot.Base.{
  ℕ, ◌+◌, ◌-◌, Bool, true, false, ◌&&◌, List, [], ◌∷◌, ◌++◌, ltb, leb, ◌==◌, if◌then◌else◌, Text,
}

-- The bytes of a code point in UTF-8.
unfoldable pub width : ℕ → ℕ
width c = if ltb c 128 then 1 else if ltb c 2048 then 2 else if ltb c 65536 then 3 else 4

abbrev pub bytes : Text → ℕ
bytes [] = 0
bytes (c ∷ t) = width c + bytes t

abbrev pub is_nonempty : {A : Type 0} → List A → Bool
is_nonempty [] = false
is_nonempty (x ∷ xs) = true

-- The loop of `_fold_line`: `chunks`, `current` and `current_bytes` are its variables.
unfoldable pub fold_from : ℕ → List Text → Text → ℕ → Text → List Text
fold_from limit chunks current current_bytes [] = chunks ++ current ∷ []
fold_from limit chunks current current_bytes (c ∷ value) =
    let allowed = if is_nonempty chunks then limit - 1 else limit in
    let kept = fold_from limit chunks (current ++ c ∷ []) (current_bytes + width c) value in
    let cut = fold_from limit (chunks ++ current ∷ []) (c ∷ []) (width c) value in
    if is_nonempty current && ltb allowed (current_bytes + width c) then cut else kept

unfoldable pub fold_chunks : ℕ → Text → List Text
fold_chunks limit value = fold_from limit [] [] 0 value

-- `"\r\n ".join`
abbrev pub join_lines : List Text → Text
join_lines [] = []
join_lines (chunk ∷ []) = chunk
join_lines (chunk ∷ next ∷ chunks) = chunk ++ 13 ∷ 10 ∷ 32 ∷ join_lines (next ∷ chunks)

unfoldable pub fold_line : ℕ → Text → Text
fold_line limit value = join_lines (fold_chunks limit value)

-- What a reader does: a line break and the space after it are removed.
unfoldable pub unfold_line : Text → Text
unfold_line [] = []
unfold_line (a ∷ []) = a ∷ []
unfold_line (a ∷ b ∷ []) = a ∷ b ∷ []
unfold_line (a ∷ b ∷ c ∷ t) =
    let after_break = unfold_line t in
    let after_a = unfold_line (b ∷ c ∷ t) in
    if a == 13 && (b == 10 && c == 32) then after_break else a ∷ after_a
