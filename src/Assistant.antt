-- ===== src/Assistant.antt =====
-- The assistant's answers, as they are shown: `render_answer_with_sources` and `_truncate_text` of
-- src/szs_hub/assistant/conversation.py. A text is the list of its code points; `html.escape` is a
-- parameter, and what it makes of a character is shown as that character.
pub mod Visible
mod Tests
use gasu_schedule_bot.Base.{
  ℕ, zero, suc, ◌+◌, ◌-◌, ◌/◌, Bool, true, false, ◌&&◌, ◌||◌, not, max, Option, none, some, List,
  [], ◌∷◌, ◌++◌, length, ltb, leb, ◌==◌, if◌then◌else◌, Text, Result, ok, raise, raise_if, ◌>>=◌,
}

pub record AssistantSource : Type 0 where
  pub label : Text
  pub telegram_link : Option Text

pub record AssistantAnswer : Type 0 where
  pub text : Text
  pub sources : List AssistantSource

-- The first `n` characters: `value[:n]`.
abbrev pub take : ℕ → Text → Text
take zero t = []
take (suc n) [] = []
take (suc n) (c ∷ t) = c ∷ take n t

-- "…"
abbrev pub ellipsis : Text
ellipsis = 8230 ∷ []

-- `_truncate_text`
unfoldable pub truncate_text : Text → ℕ → Text
truncate_text value limit =
    if leb (length value) limit
    then value
    else if limit == 1
    then ellipsis
    else take (limit - 1) value ++ ellipsis

-- "https://t.me/"
abbrev pub telegram_prefix : Text
telegram_prefix = 104 ∷ 116 ∷ 116 ∷ 112 ∷ 115 ∷ 58 ∷ 47 ∷ 47 ∷ 116 ∷ 46 ∷ 109 ∷ 101 ∷ 47 ∷ []

-- `str.startswith`
abbrev pub starts_with : Text → Text → Bool
starts_with [] t = true
starts_with (c ∷ s) [] = false
starts_with (c ∷ s) (d ∷ t) = c == d && starts_with s t

abbrev pub is_linked : Option Text → Bool
is_linked none = false
is_linked (some link) = starts_with telegram_prefix link && leb (length link) 512

unfoldable pub linked_sources : List AssistantSource → List AssistantSource
linked_sources [] = []
linked_sources (source ∷ sources) =
    let later = linked_sources sources in
    if is_linked source.telegram_link then source ∷ later else later

-- `len("\n\nИсточники\n")`
abbrev pub heading_length : ℕ
heading_length = 12

abbrev pub shortened : AssistantSource → AssistantSource
shortened source = record source { label = take 100 source.label }

abbrev pub separator : List AssistantSource → ℕ
separator [] = 0
separator (source ∷ sources) = 1

-- The loop over the linked sources: `selected` and `source_visible` are its variables.
unfoldable pub select_sources :
    ℕ → List AssistantSource → List AssistantSource → ℕ → List AssistantSource × ℕ
select_sources budget [] selected visible = (selected, visible)
select_sources budget (source ∷ sources) selected visible =
    let added = length (take 100 source.label) + separator selected in
    let rest =
      select_sources budget sources (selected ++ shortened source ∷ []) (visible + added) in
    if ltb budget (visible + added) then (selected, visible) else rest

-- What is shown: the text alone, or with the list of sources below it.
pub record Rendered : Type 0 where
  pub text : Text
  pub selected : List AssistantSource

abbrev pub alone : Text → ℕ → Rendered
alone text limit = record { text = truncate_text text limit; selected = [] }

abbrev pub with_selected : Text → ℕ → List AssistantSource × ℕ → Rendered
with_selected text limit ([], visible) = alone text limit
with_selected text limit (source ∷ sources, visible) =
    if leb limit visible
    then alone text limit
    else record { text = truncate_text text (limit - visible); selected = source ∷ sources }

abbrev pub with_linked : Text → ℕ → List AssistantSource → Rendered
with_linked text limit [] = alone text limit
with_linked text limit (source ∷ sources) =
    with_selected text limit
      (select_sources (max 1 (limit / 3)) (source ∷ sources) [] heading_length)

pub data RenderError : Type 0 where
  bad_limit : RenderError

-- `render_answer_with_sources`, before its parts are escaped and joined.
unfoldable pub render_parts : AssistantAnswer → ℕ → Result RenderError Rendered
render_parts answer limit = do
  _ ← raise_if (ltb limit 1) bad_limit
  ok (with_linked answer.text limit (linked_sources answer.sources))

-- "\n\n<b>Источники</b>\n"
abbrev pub heading : Text
heading =
    10 ∷ 10 ∷ 60 ∷ 98 ∷ 62 ∷ 1048 ∷ 1089 ∷ 1090 ∷ 1086 ∷ 1095 ∷ 1085 ∷ 1080 ∷ 1082 ∷ 1080 ∷ 60 ∷ 47
    ∷ 98 ∷ 62 ∷ 10 ∷ []

abbrev pub link_text : Option Text → Text
link_text none = []
link_text (some link) = link

module _ (escape : Text → Text) where
  -- `<a href="...">label</a>`
  abbrev pub anchor : AssistantSource → Text
  anchor source =
      (60 ∷ 97 ∷ 32 ∷ 104 ∷ 114 ∷ 101 ∷ 102 ∷ 61 ∷ 34 ∷ [])
      ++ (escape (link_text source.telegram_link)
          ++ ((34 ∷ 62 ∷ []) ++ (escape source.label ++ (60 ∷ 47 ∷ 97 ∷ 62 ∷ []))))

  -- `"\n".join`
  abbrev pub anchors : List AssistantSource → Text
  anchors [] = []
  anchors (source ∷ []) = anchor source
  anchors (source ∷ next ∷ sources) = anchor source ++ 10 ∷ anchors (next ∷ sources)

  abbrev pub markup_of : Rendered → List AssistantSource → Text
  markup_of rendered [] = escape rendered.text
  markup_of rendered (source ∷ sources) =
      escape rendered.text ++ (heading ++ anchors (source ∷ sources))

  -- The text that is returned.
  unfoldable pub render_answer_with_sources : AssistantAnswer → ℕ → Result RenderError Text
  render_answer_with_sources answer limit = do
    rendered ← render_parts answer limit
    ok (markup_of rendered rendered.selected)
