-- ===== src/Schedule/Html/Search.antt =====
-- The two searches by class agree.
use gasu_schedule_bot.Base.{
  ◌≡◌, refl, Bool-cases, inl, inr, Option, none, some, List, [], ◌∷◌, ◌++◌, Text,
}
use gasu_schedule_bot.Schedule.Lesson.{Unicode}
use gasu_schedule_bot.Schedule.Html.{
  Items, nothing, text, element, HtmlNode, has_class, nodes_with_class, first_of,
  first_node_with_class,
}

abbrev pub head {ℓ} : {A : Type ℓ} → List A → Option A
head [] = none
head (x ∷ xs) = some x

head-append : (xs ys : List HtmlNode) → head (xs ++ ys) ≡ first_of (head xs) (head ys)
head-append [] ys = refl
head-append (x ∷ xs) ys = refl

-- The search for one node gives the first of the nodes that the search for all of them gives, and
-- none where there is none.
pub first_node-nodes :
    (u : Unicode) (name : Text) (items : Items)
    → first_node_with_class u name items ≡ head (nodes_with_class u name items)
unfolding first_node_with_class nodes_with_class
first_node-nodes u name nothing = refl
first_node-nodes u name (text t rest) = first_node-nodes u name rest
first_node-nodes u name (element tag attrs children rest) =
    elim (Bool-cases (has_class u name attrs)) [
      | inl e ↦ rw e refl
      | inr e ↦
          rw
            (
              e,
              first_node-nodes u name children,
              first_node-nodes u name rest,
              head-append (nodes_with_class u name children) (nodes_with_class u name rest),
            )
            refl
    ]
