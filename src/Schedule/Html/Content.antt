-- ===== src/Schedule/Html/Content.antt =====
-- The loop that collects the text of a node ends, and collects the strings in the order of the page.
use mathlib.Core.List.{append_assoc, append-nil}
use gasu_schedule_bot.Base.{
  ℕ, zero, suc, ◌+◌, ◌≤◌, ◌≡◌, refl, sym, ap, ◌∙◌, some, List, [], ◌∷◌, ◌++◌, arith, Text,
}
use gasu_schedule_bot.Schedule.Lesson.{Unicode}
use gasu_schedule_bot.Schedule.Html.{
  Items, size, nothing, text, element, HtmlNode, ◌⊙◌, split, text_loop, concat_texts, join_words,
  joined, node_text,
}

-- The strings of a tree, by recursion.
unfoldable pub strings : Items → List Text
strings nothing = []
strings (text t rest) = t ∷ strings rest
strings (element tag attrs children rest) = strings children ++ strings rest

size-join : (xs ys : Items) → size (xs ⊙ ys) ≡ size xs + size ys
unfolding size ◌⊙◌
size-join nothing ys = omega arith
size-join (text t rest) ys = omega (arith, size-join rest ys)
size-join (element tag attrs children rest) ys = omega (arith, size-join rest ys)

strings-join : (xs ys : Items) → strings (xs ⊙ ys) ≡ strings xs ++ strings ys
unfolding strings ◌⊙◌
strings-join nothing ys = refl
strings-join (text t rest) ys = ap (◌∷◌ t) (strings-join rest ys)
strings-join (element tag attrs children rest) ys =
    ap (◌++◌ (strings children)) (strings-join rest ys)
    ∙ sym (append_assoc (strings children) (strings rest) (strings ys))

text_loop-strings :
    (fuel : ℕ) (parts : List Text) (pending : Items)
    → size pending ≤ fuel
    → text_loop fuel parts pending ≡ some (parts ++ strings pending)
unfolding text_loop size strings
text_loop-strings fuel parts nothing h = ap some (sym (append-nil parts))
text_loop-strings zero parts (text t pending) h = absurd (omega (arith, h))
text_loop-strings zero parts (element tag attrs children pending) h = absurd (omega (arith, h))
text_loop-strings (suc fuel) parts (text t pending) h =
    text_loop-strings fuel (parts ++ t ∷ []) pending (omega (arith, h))
    ∙ ap some (append_assoc parts (t ∷ []) (strings pending))
text_loop-strings (suc fuel) parts (element tag attrs children pending) h =
    let sum = size-join children pending in
    text_loop-strings fuel parts (children ⊙ pending) (omega (arith, h, sum))
    ∙ ap (λ ts. some (parts ++ ts)) (strings-join children pending)

-- With fuel for every string and node below it, the text of a node is found: its strings in their
-- order, joined, with every run of whitespace made one space and none at the ends.
pub node_text-strings :
    (u : Unicode) (fuel : ℕ) (node : HtmlNode)
    → size node.children ≤ fuel
    → node_text u fuel node ≡ some (join_words (split u (concat_texts (strings node.children))))
unfolding node_text
node_text-strings u fuel node h = ap (joined u) (text_loop-strings fuel [] node.children h)
