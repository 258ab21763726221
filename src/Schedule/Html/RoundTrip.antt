-- ===== src/Schedule/Html/RoundTrip.antt =====
-- A well-formed page is read back as its tree.
use gasu_schedule_bot.Base.{
  ◌≡◌, refl, sym, ap, ◌∙◌, true, false, Bool-cases, inl, inr, List, [], ◌∷◌, ◌++◌, Text,
  text_eq_refl, if◌then◌else◌,
}
use gasu_schedule_bot.Schedule.Html.{
  Items, nothing, text, element, HtmlNode, Attributes, Event, start_tag, end_tag, data_text, ◌⊙◌,
  Parser, add_to, add_items, push, opened, is_void, handle, handle_starttag, handle_endtag,
  handle_data, close_until, feed,
}

-- The events of a page that closes every element that can have children.
unfoldable pub events_of : Items → List Event
events_of nothing = []
events_of (text t rest) = data_text t ∷ events_of rest
events_of (element tag attrs children rest) =
    let inner = events_of children in
    let later = events_of rest in
    if is_void tag
    then start_tag tag attrs ∷ later
    else start_tag tag attrs ∷ inner ++ end_tag tag ∷ later

-- Elements that HTML never closes have no children.
unfoldable pub VoidsEmpty : Items → Type 0
VoidsEmpty nothing = Unit
VoidsEmpty (text t rest) = VoidsEmpty rest
VoidsEmpty (element tag attrs children rest) =
    (is_void tag ≡ true → children ≡ nothing) × VoidsEmpty children × VoidsEmpty rest

join_assoc : (xs ys zs : Items) → (xs ⊙ ys) ⊙ zs ≡ xs ⊙ (ys ⊙ zs)
unfolding ◌⊙◌
join_assoc nothing ys zs = refl
join_assoc (text t rest) ys zs = ap (text t) (join_assoc rest ys zs)
join_assoc (element tag attrs children rest) ys zs =
    ap (element tag attrs children) (join_assoc rest ys zs)

join_nothing : (xs : Items) → xs ⊙ nothing ≡ xs
unfolding ◌⊙◌
join_nothing nothing = refl
join_nothing (text t rest) = ap (text t) (join_nothing rest)
join_nothing (element tag attrs children rest) = ap (element tag attrs children) (join_nothing rest)

add_nothing : (parser : Parser) → add_items nothing parser ≡ parser
unfolding add_items
add_nothing parser = go parser.stack parser.root
  where
    go :
        (stack : List HtmlNode) (root : Items)
        → add_to stack root nothing ≡ record { stack = stack; root = root }
    go [] root = ap (λ r. record { stack = []; root = r }) (join_nothing root)
    go (top ∷ stack) root =
        ap (λ c. record { stack = record top { children = c } ∷ stack; root = root })
          (join_nothing top.children)

add_add :
    (xs ys : Items) (parser : Parser)
    → add_items ys (add_items xs parser) ≡ add_items (xs ⊙ ys) parser
unfolding add_items
add_add xs ys parser = go parser.stack parser.root
  where
    go :
        (stack : List HtmlNode) (root : Items)
        → add_items ys (add_to stack root xs) ≡ add_to stack root (xs ⊙ ys)
    go [] root = ap (λ r. record { stack = []; root = r }) (join_assoc root xs ys)
    go (top ∷ stack) root =
        ap (λ c. record { stack = record top { children = c } ∷ stack; root = root })
          (join_assoc top.children xs ys)

feed-append :
    (es fs : List Event) (parser : Parser) → feed (es ++ fs) parser ≡ feed fs (feed es parser)
unfolding feed
feed-append [] fs parser = refl
feed-append (e ∷ es) fs parser = feed-append es fs (handle e parser)

end_of_top :
    (tag : Text) (attrs : Attributes) (children : Items) (parser : Parser)
    → handle_endtag tag (add_items children (push (opened tag attrs) parser))
      ≡ add_items (element tag attrs children nothing) parser
unfolding handle_endtag add_items close_until ◌⊙◌
end_of_top tag attrs children parser = go parser.stack parser.root
  where
    go :
        (stack : List HtmlNode) (root : Items)
        → handle_endtag tag
            (add_items children (push (opened tag attrs) (record { stack = stack; root = root })))
          ≡ add_to stack root (element tag attrs children nothing)
    go [] root = rw (text_eq_refl tag) refl
    go (next ∷ stack) root = rw (text_eq_refl tag) refl

start_void :
    (tag : Text) (attrs : Attributes) (parser : Parser)
    → is_void tag ≡ true
    → handle_starttag tag attrs parser ≡ add_items (element tag attrs nothing nothing) parser
unfolding handle_starttag
start_void tag attrs parser e = rw e refl

start_open :
    (tag : Text) (attrs : Attributes) (parser : Parser)
    → is_void tag ≡ false
    → handle_starttag tag attrs parser ≡ push (opened tag attrs) parser
unfolding handle_starttag
start_open tag attrs parser e = rw e refl

-- The events of a tree whose elements without end tags have no children, fed to the parser, add
-- that tree to the node that is open.
pub feed-events_of :
    (items : Items) (parser : Parser)
    → VoidsEmpty items
    → feed (events_of items) parser ≡ add_items items parser
unfolding feed events_of handle_data VoidsEmpty ◌⊙◌
feed-events_of nothing parser h = sym (add_nothing parser)
feed-events_of (text t rest) parser h =
    feed-events_of rest (handle_data t parser) h ∙ add_add (text t nothing) rest parser
feed-events_of (element tag attrs children rest) parser h = elim (Bool-cases (is_void tag)) [
  | inl e ↦ rw e (
      ap (feed (events_of rest)) (start_void tag attrs parser e)
      ∙ feed-events_of rest _ h.2
      ∙ add_add (element tag attrs nothing nothing) rest parser
      ∙ ap (λ c. add_items (element tag attrs c rest) parser) (sym (h.0 e)))
  | inr e ↦ rw e (
      ap (feed (events_of children ++ end_tag tag ∷ events_of rest)) (start_open tag attrs parser e)
      ∙ feed-append (events_of children) (end_tag tag ∷ events_of rest)
          (push (opened tag attrs) parser)
      ∙ ap (λ p. feed (events_of rest) (handle_endtag tag p))
          (feed-events_of children (push (opened tag attrs) parser) h.1)
      ∙ ap (feed (events_of rest)) (end_of_top tag attrs children parser)
      ∙ feed-events_of rest _ h.2
      ∙ add_add (element tag attrs children nothing) rest parser)
]
