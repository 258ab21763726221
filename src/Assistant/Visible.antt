-- ===== src/Assistant/Visible.antt =====
-- What is shown of an answer fits the limit.
use gasu_schedule_bot.Base.{
  ℕ, zero, suc, ◌+◌, ◌-◌, ◌/◌, ◌≤◌, ◌≡◌, subst, Bool-cases, inl, inr, max, List, [], ◌∷◌, ◌++◌,
  length, length-append, ltb, leb, ◌==◌, arith, Text, ok, raise_if-eq-ok, ok_inj,
}
use gasu_schedule_bot.Assistant.{
  AssistantSource, AssistantAnswer, take, ellipsis, truncate_text, linked_sources, heading_length,
  shortened, separator, select_sources, Rendered, with_selected, with_linked, bad_limit,
  render_parts,
}

take_short : (n : ℕ) (t : Text) → length (take n t) ≤ n
take_short zero t = omega arith
take_short (suc n) [] = omega arith
take_short (suc n) (c ∷ t) = omega (arith, take_short n t)

truncate_short : (value : Text) (limit : ℕ) → 1 ≤ limit → length (truncate_text value limit) ≤ limit
unfolding truncate_text
truncate_short value limit positive = elim (Bool-cases (leb (length value) limit)) [
  | inl e ↦ rw e (ground (arith, e))
  | inr e ↦ rw e (elim (Bool-cases (limit == 1)) [
    | inl one ↦ rw one (omega (arith, positive))
    | inr more ↦ rw more (
        let sum = length-append (take (limit - 1) value) ellipsis in
        let short = take_short (limit - 1) value in omega (arith, sum, short, positive))
  ])
]

-- The visible characters of a list of sources: the labels and the line breaks between them.
abbrev pub labels_length : List AssistantSource → ℕ
labels_length [] = 0
labels_length (source ∷ []) = length source.label
labels_length (source ∷ next ∷ sources) = length source.label + (1 + labels_length (next ∷ sources))

abbrev pub sources_length : List AssistantSource → ℕ
sources_length [] = 0
sources_length (source ∷ sources) = heading_length + labels_length (source ∷ sources)

-- The visible characters of the whole answer.
abbrev pub visible_length : Rendered → ℕ
visible_length rendered = length rendered.text + sources_length rendered.selected

labels-append :
    (selected : List AssistantSource) (source : AssistantSource)
    → labels_length (selected ++ source ∷ [])
      ≡ labels_length selected + (separator selected + length source.label)
labels-append [] source = omega arith
labels-append (s ∷ []) source = omega arith
labels-append (s ∷ next ∷ selected) source =
    let rest = labels-append (next ∷ selected) source in omega (arith, rest)

select-length :
    (budget : ℕ) (sources selected : List AssistantSource) (visible : ℕ)
    → visible ≡ heading_length + labels_length selected
    → (select_sources budget sources selected visible).1
      ≡ heading_length + labels_length (select_sources budget sources selected visible).0
unfolding select_sources
select-length budget [] selected visible h = h
select-length budget (source ∷ sources) selected visible h =
    elim (Bool-cases
      (ltb budget (visible + (length (take 100 source.label) + separator selected)))) [
        | inl e ↦ rw e h
        | inr e ↦ rw e (
            select-length budget sources (selected ++ shortened source ∷ [])
              (visible + (length (take 100 source.label) + separator selected))
              (let sum = labels-append selected (shortened source) in omega (arith, h, sum)))
      ]

with_selected-fits :
    (text : Text) (limit : ℕ) (chosen : List AssistantSource × ℕ)
    → 1 ≤ limit
    → chosen.1 ≡ heading_length + labels_length chosen.0
    → visible_length (with_selected text limit chosen) ≤ limit
with_selected-fits text limit ([], visible) positive h =
    let short = truncate_short text limit positive in omega (arith, short)
with_selected-fits text limit (source ∷ sources, visible) positive h =
    elim (Bool-cases (leb limit visible)) [
      | inl e ↦ rw e (let short = truncate_short text limit positive in omega (arith, short))
      | inr e ↦ rw e (
          let room : visible + 1 ≤ limit = ground (arith, e) in
          let short = truncate_short text (limit - visible) (omega (arith, room)) in
          omega (arith, short, room, h))
    ]

with_linked-fits :
    (text : Text) (limit : ℕ) (sources : List AssistantSource)
    → 1 ≤ limit
    → visible_length (with_linked text limit sources) ≤ limit
with_linked-fits text limit [] positive =
    let short = truncate_short text limit positive in omega (arith, short)
with_linked-fits text limit (source ∷ sources) positive =
    with_selected-fits text limit
      (select_sources (max 1 (limit / 3)) (source ∷ sources) [] heading_length) positive
      (select-length (max 1 (limit / 3)) (source ∷ sources) [] heading_length (omega arith))

-- An answer that is rendered shows no more characters than the limit: its text, and, where sources
-- are listed, the heading, their labels and the line breaks between them.
pub rendered_fits :
    (answer : AssistantAnswer) (limit : ℕ) {rendered : Rendered}
    → render_parts answer limit ≡ ok rendered
    → visible_length rendered ≤ limit
unfolding render_parts
rendered_fits answer limit h =
    let (positive, same) = raise_if-eq-ok (ltb limit 1) bad_limit _ h in
    subst (λ r. visible_length r ≤ limit) (ok_inj same)
      (with_linked-fits answer.text limit (linked_sources answer.sources)
        (ground (arith, positive)))
