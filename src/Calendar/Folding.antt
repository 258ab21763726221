-- ===== src/Calendar/Folding.antt =====
-- Folded lines are short, and unfolding them gives the text back.
use gasu_schedule_bot.Base.{
  ℕ, ◌+◌, ◌-◌, ◌≤◌, ◌≡◌, ◌≢◌, refl, sym, ap, ◌∙◌, true, false, ◌&&◌, List, [], ◌∷◌, ◌++◌, map,
  arith, ltb, ◌==◌, if◌then◌else◌, All, Bool-cases, inl, inr, Text,
}
use gasu_schedule_bot.Calendar.{
  width, bytes, is_nonempty, fold_from, fold_chunks, join_lines, fold_line, unfold_line,
}

width_small : (c : ℕ) → width c ≤ 4
unfolding width
width_small c = ground arith

bytes-append : (s t : Text) → bytes (s ++ t) ≡ bytes s + bytes t
bytes-append [] t = omega arith
bytes-append (c ∷ s) t = let rest = bytes-append s t in omega (arith, rest)

abbrev allowed : ℕ → List Text → ℕ
allowed limit chunks = if is_nonempty chunks then limit - 1 else limit

-- The first chunk fills a line, the others a line after its space.
abbrev Fits : ℕ → List Text → Type 0
Fits limit [] = Unit
Fits limit (chunk ∷ chunks) = (bytes chunk ≤ limit) × All (λ t. bytes t ≤ limit - 1) chunks

All-append_one :
    (limit : ℕ) (chunks : List Text) (t : Text)
    → All (λ t. bytes t ≤ limit) chunks
    → bytes t ≤ limit
    → All (λ t. bytes t ≤ limit) (chunks ++ t ∷ [])
All-append_one limit [] t h k = (k, tt)
All-append_one limit (chunk ∷ chunks) t h k = (h.0, All-append_one limit chunks t h.1 k)

Fits-append :
    (limit : ℕ) (chunks : List Text) (t : Text)
    → Fits limit chunks
    → bytes t ≤ allowed limit chunks
    → Fits limit (chunks ++ t ∷ [])
Fits-append limit [] t h k = (k, tt)
Fits-append limit (chunk ∷ chunks) t h k = (h.0, All-append_one (limit - 1) chunks t h.1 k)

nonempty-append : (chunks : List Text) (t : Text) → is_nonempty (chunks ++ t ∷ []) ≡ true
nonempty-append [] t = refl
nonempty-append (chunk ∷ chunks) t = refl

allowed_wide : (limit : ℕ) → 5 ≤ limit → (chunks : List Text) → 4 ≤ allowed limit chunks
allowed_wide limit wide [] = omega arith
allowed_wide limit wide (chunk ∷ chunks) = omega arith

kept_small :
    (limit : ℕ)
    → 5 ≤ limit
    → (chunks : List Text) (current : Text) (n c : ℕ) → n ≡ bytes current
    → (is_nonempty current && ltb (allowed limit chunks) (n + width c)) ≡ false
    → n + width c ≤ allowed limit chunks
kept_small limit wide chunks [] n c same keep =
    let small = width_small c in
    let room = allowed_wide limit wide chunks in omega (arith, same, small, room)
kept_small limit wide chunks (x ∷ current) n c same keep = ground (arith, keep)

fold_from-Fits :
    (limit : ℕ)
    → 5 ≤ limit
    → (chunks : List Text) (current : Text) (n : ℕ) (value : Text) → n ≡ bytes current
    → Fits limit chunks
    → n ≤ allowed limit chunks
    → Fits limit (fold_from limit chunks current n value)
unfolding fold_from
fold_from-Fits limit wide chunks current n [] same fits small =
    Fits-append limit chunks current fits (rw (← same) small)
fold_from-Fits limit wide chunks current n (c ∷ value) same fits small =
    elim (Bool-cases (is_nonempty current && ltb (allowed limit chunks) (n + width c))) [
      | inl cut ↦ rw cut (
          fold_from-Fits limit wide (chunks ++ current ∷ []) (c ∷ []) (width c) value (omega arith)
            (Fits-append limit chunks current fits (rw (← same) small))
            (let small = width_small c in
              let room = allowed_wide limit wide (chunks ++ current ∷ []) in
              omega (arith, small, room)))
      | inr keep ↦ rw keep (
          fold_from-Fits limit wide chunks (current ++ c ∷ []) (n + width c) value
            (let sum = bytes-append current (c ∷ []) in omega (arith, same, sum)) fits
            (kept_small limit wide chunks current n c same keep))
    ]

-- The physical lines: a continuation begins with one space.
abbrev pub physical_lines : List Text → List Text
physical_lines [] = []
physical_lines (chunk ∷ chunks) = chunk ∷ map (λ t. 32 ∷ t) chunks

continuations :
    (limit : ℕ)
    → 5 ≤ limit
    → (chunks : List Text) → All (λ t. bytes t ≤ limit - 1) chunks
    → All (λ t. bytes t ≤ limit) (map (λ t. 32 ∷ t) chunks)
unfolding width
continuations limit wide [] h = tt
continuations limit wide (chunk ∷ chunks) h =
    (let small = h.0 in omega (arith, small), continuations limit wide chunks h.1)

Fits-physical :
    (limit : ℕ)
    → 5 ≤ limit
    → (chunks : List Text) → Fits limit chunks
    → All (λ t. bytes t ≤ limit) (physical_lines chunks)
Fits-physical limit wide [] h = tt
Fits-physical limit wide (chunk ∷ chunks) h = (h.0, continuations limit wide chunks h.1)

-- With a limit of at least five bytes, no physical line of the folded text is longer in UTF-8 than
-- the limit, the space that begins a continuation included.
pub folded_lines_short :
    (limit : ℕ) (value : Text)
    → 5 ≤ limit
    → All (λ t. bytes t ≤ limit) (physical_lines (fold_chunks limit value))
unfolding fold_chunks
folded_lines_short limit value wide =
    Fits-physical limit wide (fold_chunks limit value)
      (fold_from-Fits limit wide [] [] 0 value refl tt (omega arith))

abbrev pub concat : List Text → Text
concat [] = []
concat (chunk ∷ chunks) = chunk ++ concat chunks

append_assoc_lem : (r s t : Text) → (r ++ s) ++ t ≡ r ++ (s ++ t)
append_assoc_lem [] s t = refl
append_assoc_lem (c ∷ r) s t = ap (◌∷◌ c) (append_assoc_lem r s t)

append_nil_lem : (t : Text) → t ++ [] ≡ t
append_nil_lem [] = refl
append_nil_lem (c ∷ t) = ap (◌∷◌ c) (append_nil_lem t)

concat-append : (chunks : List Text) (t : Text) → concat (chunks ++ t ∷ []) ≡ concat chunks ++ t
concat-append [] t = append_nil_lem t
concat-append (chunk ∷ chunks) t =
    rw (concat-append chunks t) (sym (append_assoc_lem chunk (concat chunks) t))

concat-fold_from :
    (limit : ℕ) (chunks : List Text) (current : Text) (n : ℕ) (value : Text)
    → concat (fold_from limit chunks current n value) ≡ (concat chunks ++ current) ++ value
unfolding fold_from
concat-fold_from limit chunks current n [] =
    concat-append chunks current ∙ sym (append_nil_lem (concat chunks ++ current))
concat-fold_from limit chunks current n (c ∷ value) =
    elim (Bool-cases (is_nonempty current && ltb (allowed limit chunks) (n + width c))) [
      | inl cut ↦
          rw
            (
              cut,
              concat-fold_from limit (chunks ++ current ∷ []) (c ∷ []) (width c) value,
              concat-append chunks current,
            )
            (append_assoc_lem (concat chunks ++ current) (c ∷ []) value)
      | inr keep ↦
          rw
            (
              keep,
              concat-fold_from limit chunks (current ++ c ∷ []) (n + width c) value,
              ← append_assoc_lem (concat chunks) current (c ∷ []),
            )
            (append_assoc_lem (concat chunks ++ current) (c ∷ []) value)
    ]

unfold-other : (a : ℕ) (t : Text) → a ≢ 13 → unfold_line (a ∷ t) ≡ a ∷ unfold_line t
unfolding unfold_line
unfold-other a [] h = refl
unfold-other a (b ∷ []) h = refl
unfold-other a (b ∷ c ∷ t) h = let other : (a == 13) ≡ false = ground (arith, h) in rw other refl

unfold-break : (t : Text) → unfold_line (13 ∷ 10 ∷ 32 ∷ t) ≡ unfold_line t
unfolding unfold_line
unfold-break t = refl

unfold-chunk : (s t : Text) → All (λ c. c ≢ 13) s → unfold_line (s ++ t) ≡ s ++ unfold_line t
unfold-chunk [] t h = refl
unfold-chunk (c ∷ s) t h = unfold-other c (s ++ t) h.0 ∙ ap (◌∷◌ c) (unfold-chunk s t h.1)

All-parts : (s t : Text) → All (λ c. c ≢ 13) (s ++ t) → All (λ c. c ≢ 13) s × All (λ c. c ≢ 13) t
All-parts [] t h = (tt, h)
All-parts (c ∷ s) t h = let (left, right) = All-parts s t h.1 in ((h.0, left), right)

unfold-join :
    (chunks : List Text)
    → All (λ c. c ≢ 13) (concat chunks)
    → unfold_line (join_lines chunks) ≡ concat chunks
unfold-join [] h = unfold unfold_line in refl
unfold-join (chunk ∷ []) h =
    let (here, _) = All-parts chunk [] h in
    ap unfold_line (sym (append_nil_lem chunk))
    ∙ unfold-chunk chunk [] here
    ∙ ap (◌++◌ chunk) (unfold unfold_line in refl)
unfold-join (chunk ∷ next ∷ chunks) h =
    let (here, later) = All-parts chunk (concat (next ∷ chunks)) h in
    unfold-chunk chunk (13 ∷ 10 ∷ 32 ∷ join_lines (next ∷ chunks)) here
    ∙ ap (◌++◌ chunk)
        (unfold-break (join_lines (next ∷ chunks)) ∙ unfold-join (next ∷ chunks) later)

-- For a text without carriage returns, removing the line breaks with their spaces from the folded
-- text gives the text back, whatever the limit.
pub unfold-fold :
    (limit : ℕ) (value : Text)
    → All (λ c. c ≢ 13) value
    → unfold_line (fold_line limit value) ≡ value
unfolding fold_line fold_chunks
unfold-fold limit value h =
    let whole = concat-fold_from limit [] [] 0 value in
    unfold-join (fold_from limit [] [] 0 value) (rw whole h) ∙ whole
