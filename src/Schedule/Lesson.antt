-- ===== src/Schedule/Lesson.antt =====
-- Lessons, snapshots and changes: the data types of src/szs_hub/domain/schedule.py. A date is the
-- number of its day, a time of day its microseconds; what Unicode says of a character is a
-- parameter.
use gasu_schedule_bot.Base.{
  ℕ, ◌/◌, Bool, true, false, ◌||◌, not, Option, none, some, List, [], ◌∷◌, ◌++◌, map, compare, leb,
  ◌==◌, if◌then◌else◌, is_some, Text, text_eq, text_compare, ◌⊕◌, is_less, sorted, minutes,
  DateTime, aware, naive, Result, ok, raise, raise_if, ◌>>◌,
}

-- `str.isspace` and `str.casefold`, character by character.
pub record Unicode : Type 0 where
  pub is_space : ℕ → Bool
  pub casefold : ℕ → Text

-- A value that Python's `if value` takes: present and nonempty.
abbrev pub nonempty : Option Text → Option Text
nonempty none = none
nonempty (some []) = none
nonempty (some (c ∷ t)) = some (c ∷ t)

module _ (u : Unicode) where
  -- `_WHITESPACE.sub(" ", value)`; the flag says that a run of whitespace has begun.
  unfoldable pub spaced : Bool → Text → Text
  spaced inside [] = []
  spaced inside (c ∷ t) =
      let again = spaced true t in
      let next = spaced false t in
      if u.is_space c then if inside then again else 32 ∷ again else c ∷ next

  unfoldable pub lstrip : Text → Text
  lstrip [] = []
  lstrip (c ∷ t) = let rest = lstrip t in if u.is_space c then rest else c ∷ t

  unfoldable pub rstrip : Text → Text
  rstrip [] = []
  rstrip (c ∷ t) = with_rest c (rstrip t)
    where
      with_rest : ℕ → Text → Text
      with_rest c [] = if u.is_space c then [] else c ∷ []
      with_rest c (d ∷ rest) = c ∷ d ∷ rest

  unfoldable pub folded : Text → Text
  folded [] = []
  folded (c ∷ t) = u.casefold c ++ folded t

-- `replace("ё", "е")`
abbrev pub plain_yo : ℕ → ℕ
plain_yo c = if c == 1105 then 1077 else c

-- `replace` of one character by nothing.
unfoldable pub without : ℕ → Text → Text
without d [] = []
without d (c ∷ t) = let rest = without d t in if c == d then rest else c ∷ rest

unfoldable pub normalize_text : Unicode → Option Text → Text
normalize_text u none = []
normalize_text u (some []) = []
normalize_text u (some (c ∷ t)) =
    map plain_yo (folded u (rstrip u (lstrip u (spaced u false (c ∷ t)))))

unfoldable pub normalize_teacher : Unicode → Option Text → Text
normalize_teacher u value = without 32 (without 46 (normalize_text u value))

pub record Lesson : Type 0 where
  pub day : ℕ
  pub starts_at : ℕ
  pub ends_at : ℕ
  pub subject : Text
  pub lesson_type : Option Text
  pub teacher : Option Text
  pub room : Option Text
  pub building : Option Text
  pub subgroup : Option Text
  pub source_id : Option Text

pub data ScheduleError : Type 0 where
  lesson_end lesson_subject naive_snapshot wrong_change different_groups : ScheduleError

-- `Lesson.__post_init__`
unfoldable pub check_lesson : Unicode → Lesson → Result ScheduleError Unit
check_lesson u lesson =
    raise_if (leb lesson.ends_at lesson.starts_at) ScheduleError.lesson_end
    >> raise_if (text_eq (rstrip u (lstrip u lesson.subject)) []) ScheduleError.lesson_subject

abbrev pub normalized_subject : Unicode → Lesson → Text
normalized_subject u lesson = normalize_text u (some lesson.subject)

-- The dictionary of `Lesson.canonical`, before its dates are printed.
pub record Canonical : Type 0 where
  pub day : ℕ
  pub starts_at : ℕ
  pub ends_at : ℕ
  pub subject : Text
  pub lesson_type : Text
  pub teacher : Text
  pub room : Text
  pub building : Text
  pub subgroup : Text
  pub source_id : Option Text

unfoldable pub canonical : Unicode → Lesson → Canonical
canonical u lesson = record {
  day = lesson.day;
  starts_at = lesson.starts_at;
  ends_at = lesson.ends_at;
  subject = normalized_subject u lesson;
  lesson_type = normalize_text u lesson.lesson_type;
  teacher = normalize_teacher u lesson.teacher;
  room = normalize_text u lesson.room;
  building = normalize_text u lesson.building;
  subgroup = normalize_text u lesson.subgroup;
  source_id = lesson.source_id;
}

abbrev pub or_empty : Option Text → Text
or_empty none = []
or_empty (some t) = t

-- `_lesson_sort_key`, compared.
unfoldable pub lesson_before : Unicode → Lesson → Lesson → Bool
lesson_before u a b = is_less (
    compare a.day b.day
    ⊕ compare a.starts_at b.starts_at
    ⊕ text_compare (normalized_subject u a) (normalized_subject u b)
    ⊕ text_compare (or_empty a.source_id) (or_empty b.source_id))

pub record ScheduleSnapshot : Type 0 where
  pub source : Text
  pub group_key : Text
  pub fetched_at : ℕ
  pub lessons : List Lesson

-- `ScheduleSnapshot.__post_init__`, which lets a time with a zone pass.
abbrev pub new_snapshot :
    Text → Text → DateTime → List Lesson → Result ScheduleError ScheduleSnapshot
new_snapshot source group_key (aware t) lessons =
    ok (record { source = source; group_key = group_key; fetched_at = t; lessons = lessons })
new_snapshot source group_key (naive t) lessons = raise ScheduleError.naive_snapshot

-- `content_hash`: the digest of the canonical lessons in their order.
unfoldable pub content_hash : Unicode → (List Canonical → Text) → ScheduleSnapshot → Text
content_hash u digest snapshot =
    digest (map (canonical u) (sorted (lesson_before u) snapshot.lessons))

pub data ChangeKind : Type 0 where
  added cancelled time room building teacher lesson_type subject : ChangeKind

-- The alphabetical order of the kinds' values.
abbrev pub kind_rank : ChangeKind → ℕ
kind_rank ChangeKind.added = 0
kind_rank ChangeKind.building = 1
kind_rank ChangeKind.cancelled = 2
kind_rank ChangeKind.lesson_type = 3
kind_rank ChangeKind.room = 4
kind_rank ChangeKind.subject = 5
kind_rank ChangeKind.teacher = 6
kind_rank ChangeKind.time = 7

pub record ScheduleChange : Type 0 where
  pub kind : ChangeKind
  pub before : Option Lesson
  pub after : Option Lesson

-- `ScheduleChange.__post_init__`
abbrev pub sides_fit : ChangeKind → Bool → Bool → Bool
sides_fit ChangeKind.added before after = not (before || not after)
sides_fit ChangeKind.cancelled before after = not (not before || after)
sides_fit _ before after = not (not before || not after)

unfoldable pub check_change : ScheduleChange → Result ScheduleError Unit
check_change change =
    raise_if (not (sides_fit change.kind (is_some change.before) (is_some change.after)))
      ScheduleError.wrong_change

-- `_time_minutes`
abbrev pub time_minutes : ℕ → ℕ
time_minutes t = t / minutes
