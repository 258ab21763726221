-- ===== src/Schedule/Html.antt =====
-- The tree of the timetable page: `_HtmlNode`, `_ScheduleHtmlParser` and the searches in the tree,
-- of src/szs_hub/schedule/spbgasu.py. The events are those that Python's `HTMLParser` reports.
pub mod Search
pub mod Content
pub mod RoundTrip
use gasu_schedule_bot.Base.{
  ℕ, zero, suc, ◌+◌, Bool, true, false, ◌&&◌, ◌||◌, not, Option, none, some, List, [], ◌∷◌, ◌++◌,
  ◌==◌, if◌then◌else◌, exists, Text, text_eq,
}
use gasu_schedule_bot.Schedule.Lesson.{Unicode}

abbrev pub Attributes : Type 0
Attributes = List (Text × Text)

-- The children of a node: strings and nodes, in their order.
pub data Items : Type 0 where
  nothing : Items
  text : Text → Items → Items
  element : Text → Attributes → Items → Items → Items

pub record HtmlNode : Type 0 where
  pub tag : Text
  pub attrs : Attributes
  pub children : Items

infixr 5 ◌⊙◌
unfoldable pub ◌⊙◌ : Items → Items → Items
nothing ⊙ items = items
text t rest ⊙ items = text t (rest ⊙ items)
element tag attrs children rest ⊙ items = element tag attrs children (rest ⊙ items)

-- `str.split`: `word` is the word that has begun.
unfoldable pub split_from : Unicode → Text → Text → List Text
split_from u [] [] = []
split_from u (w ∷ word) [] = (w ∷ word) ∷ []
split_from u [] (c ∷ t) =
    let between = split_from u [] t in
    let inside = split_from u (c ∷ []) t in if u.is_space c then between else inside
split_from u (w ∷ word) (c ∷ t) =
    let between = split_from u [] t in
    let inside = split_from u (w ∷ word ++ c ∷ []) t in
    if u.is_space c then (w ∷ word) ∷ between else inside

abbrev pub split : Unicode → Text → List Text
split u t = split_from u [] t

-- `attrs.get(name, "")`; of two attributes of one name the dictionary keeps the last.
unfoldable pub attribute : Text → Attributes → Option Text
attribute name [] = none
attribute name ((key, value) ∷ attrs) = later (attribute name attrs)
  where
    later : Option Text → Option Text
    later (some last) = some last
    later none = if text_eq key name then some value else none

abbrev pub words_of : Unicode → Option Text → List Text
words_of u none = []
words_of u (some value) = split u value

-- "class"
abbrev pub class_name : Text
class_name = 99 ∷ 108 ∷ 97 ∷ 115 ∷ 115 ∷ []

-- `class_name in child.classes`
unfoldable pub has_class : Unicode → Text → Attributes → Bool
has_class u name attrs = exists (text_eq name) (words_of u (attribute class_name attrs))

-- "br", "img", "input", "link", "meta", "hr"
abbrev pub void_tags : List Text
void_tags =
    (98 ∷ 114 ∷ [])
    ∷ (105 ∷ 109 ∷ 103 ∷ [])
    ∷ (105 ∷ 110 ∷ 112 ∷ 117 ∷ 116 ∷ [])
    ∷ (108 ∷ 105 ∷ 110 ∷ 107 ∷ [])
    ∷ (109 ∷ 101 ∷ 116 ∷ 97 ∷ [])
    ∷ (104 ∷ 114 ∷ [])
    ∷ []

unfoldable pub is_void : Text → Bool
is_void tag = exists (text_eq tag) void_tags

-- What the library's parser reports.
pub data Event : Type 0 where
  start_tag : Text → Attributes → Event
  start_end_tag : Text → Attributes → Event
  end_tag : Text → Event
  data_text : Text → Event

-- The open nodes of `_stack`, the innermost first, each with the children it has so far, and the
-- children of the root; a node is added to its parent when it is closed.
pub record Parser : Type 0 where
  pub stack : List HtmlNode
  pub root : Items

abbrev pub with_children : Items → HtmlNode → HtmlNode
with_children items node = record node { children = node.children ⊙ items }

abbrev pub add_to : List HtmlNode → Items → Items → Parser
add_to [] root items = record { stack = []; root = root ⊙ items }
add_to (top ∷ stack) root items = record { stack = with_children items top ∷ stack; root = root }

-- `self._stack[-1].children`, extended.
unfoldable pub add_items : Items → Parser → Parser
add_items items parser = add_to parser.stack parser.root items

abbrev pub opened : Text → Attributes → HtmlNode
opened tag attrs = record { tag = tag; attrs = attrs; children = nothing }

abbrev pub push : HtmlNode → Parser → Parser
push node parser = record parser { stack = node ∷ parser.stack }

unfoldable pub handle_starttag : Text → Attributes → Parser → Parser
handle_starttag tag attrs parser =
    if is_void tag
    then add_items (element tag attrs nothing nothing) parser
    else push (opened tag attrs) parser

abbrev pub closed : HtmlNode → Items
closed node = element node.tag node.attrs node.children nothing

-- The innermost node leaves the stack.
abbrev pub pop : Parser → Parser
pop parser = popped parser.stack parser.root
  where
    popped : List HtmlNode → Items → Parser
    popped [] root = record { stack = []; root = root }
    popped (top ∷ stack) root = add_items (closed top) (record { stack = stack; root = root })

unfoldable pub handle_startendtag : Text → Attributes → Parser → Parser
handle_startendtag tag attrs parser =
    let started = handle_starttag tag attrs parser in
    if not (is_void tag) then pop started else started

-- `del self._stack[index:]`, from the innermost node outwards.
unfoldable pub close_until : Text → List HtmlNode → Items → Parser
close_until tag [] root = record { stack = []; root = root }
close_until tag (top ∷ []) root = record { stack = []; root = root ⊙ closed top }
close_until tag (top ∷ next ∷ stack) root =
    let outer = close_until tag (with_children (closed top) next ∷ stack) root in
    if text_eq top.tag tag
    then record { stack = with_children (closed top) next ∷ stack; root = root }
    else outer

unfoldable pub handle_endtag : Text → Parser → Parser
handle_endtag tag parser =
    if exists (λ node. text_eq node.tag tag) parser.stack
    then close_until tag parser.stack parser.root
    else parser

unfoldable pub handle_data : Text → Parser → Parser
handle_data t parser = add_items (text t nothing) parser

abbrev pub handle : Event → Parser → Parser
handle (start_tag tag attrs) = handle_starttag tag attrs
handle (start_end_tag tag attrs) = handle_startendtag tag attrs
handle (end_tag tag) = handle_endtag tag
handle (data_text t) = handle_data t

unfoldable pub feed : List Event → Parser → Parser
feed [] parser = parser
feed (event ∷ events) parser = feed events (handle event parser)

abbrev pub first_of : Option HtmlNode → Option HtmlNode → Option HtmlNode
first_of (some node) later = some node
first_of none later = later

module _ (u : Unicode) (name : Text) where
  -- `_nodes_with_class`
  unfoldable pub nodes_with_class : Items → List HtmlNode
  nodes_with_class nothing = []
  nodes_with_class (text t rest) = nodes_with_class rest
  nodes_with_class (element tag attrs children rest) =
      let nested = nodes_with_class children in
      let later = nodes_with_class rest in
      (if has_class u name attrs
        then record { tag = tag; attrs = attrs; children = children } ∷ nested
        else nested)
      ++ later

  -- `_first_node_with_class`
  unfoldable pub first_node_with_class : Items → Option HtmlNode
  first_node_with_class nothing = none
  first_node_with_class (text t rest) = first_node_with_class rest
  first_node_with_class (element tag attrs children rest) =
      let nested = first_node_with_class children in
      let later = first_node_with_class rest in
      if has_class u name attrs
      then some (record { tag = tag; attrs = attrs; children = children })
      else first_of nested later

-- The strings and nodes of a tree.
unfoldable pub size : Items → ℕ
size nothing = 0
size (text t rest) = suc (size rest)
size (element tag attrs children rest) = suc (size children + size rest)

-- The loop of `_node_text`: `pending` is the stack, its top first; none when the fuel runs out.
unfoldable pub text_loop : ℕ → List Text → Items → Option (List Text)
text_loop fuel parts nothing = some parts
text_loop zero parts (text t pending) = none
text_loop zero parts (element tag attrs children pending) = none
text_loop (suc fuel) parts (text t pending) = text_loop fuel (parts ++ t ∷ []) pending
text_loop (suc fuel) parts (element tag attrs children pending) =
    text_loop fuel parts (children ⊙ pending)

abbrev pub concat_texts : List Text → Text
concat_texts [] = []
concat_texts (t ∷ ts) = t ++ concat_texts ts

-- `" ".join`
abbrev pub join_words : List Text → Text
join_words [] = []
join_words (t ∷ []) = t
join_words (t ∷ s ∷ ts) = t ++ 32 ∷ join_words (s ∷ ts)

abbrev pub joined : Unicode → Option (List Text) → Option Text
joined u none = none
joined u (some parts) = some (join_words (split u (concat_texts parts)))

-- `_node_text`, with fuel for its loop.
unfoldable pub node_text : Unicode → ℕ → HtmlNode → Option Text
node_text u fuel node = joined u (text_loop fuel [] node.children)
