-- ===== src/Runners/Scopes/Depths.antt =====
-- The one pass of `nested_names` over the text finds the depths that a recount from the start would.
use mathlib.Core.Bool.{true≢false}
use bmk_dev.Base.{
  Option, none, some, true, false, ◌<◌, leb, all, length, length-drop, ℕ, zero, suc, ◌+◌, ◌-◌, ◌≤◌,
  Bool, List, [], ◌∷◌, ◌++◌, map, if◌then◌else◌, eqb, ltb, count_if, take, drop, take-add, drop-add,
  ◌≡◌, refl, sym, ap, arith, inl, inr, Bool-cases, ◌∙◌,
}
use mathlib.Core.Path.{ap₂}
use bmk_dev.Base.Text.{Text}
use bmk_dev.Base.Sorting.{sorted, insert_sorted}
use bmk_dev.Runners.Scopes.{
  ScopeEvent, le_event, Depth, step_depth, advance, depths_loop, chains_loop, events_of,
  nested_names, put_first,
}

-- The braces in front of an offset, counted from the start.
abbrev pub recount : Text → ℕ → Depth
recount text offset = record {
  opened = count_if (λ c. eqb c b'{') (take offset text);
  closed = count_if (λ c. eqb c b'}') (take offset text);
}

abbrev pub recounted : Text → List ScopeEvent → List (Depth × ScopeEvent)
recounted text = map (λ (event : ScopeEvent). (recount text event.offset, event))

count_if-append :
    (p : ℕ → Bool) (xs ys : Text) → count_if p (xs ++ ys) ≡ count_if p xs + count_if p ys
count_if-append p [] ys = omega arith
count_if-append p (x ∷ xs) ys = ground (arith, count_if-append p xs ys)

abbrev plus : Depth → Depth → Depth
plus a b = record { opened = a.opened + b.opened; closed = a.closed + b.closed }

depth_eq : (a b : Depth) → a.opened ≡ b.opened → a.closed ≡ b.closed → a ≡ b
depth_eq a b h k = ap₂ (λ (m n : ℕ). record { opened = m; closed = n }) h k

advance-recount :
    (n : ℕ) (text : Text) (depth : Depth)
    → n ≤ length text
    → advance n text depth ≡ some (drop n text, plus depth (recount text n))
unfolding advance
advance-recount zero text depth h =
    ap (λ (d : Depth). some (text, d)) (depth_eq depth _ (omega arith) (omega arith))
advance-recount (suc n) [] depth h = absurd (omega arith)
advance-recount (suc n) (c ∷ text) depth h =
    advance-recount n text (step_depth c depth) (omega arith)
    ∙ ap (λ (d : Depth). some (drop n text, d)) (depth_eq _ _ (ground arith) (ground arith))

advance-past_end :
    (n : ℕ) (text : Text) (depth : Depth) → length text < n → advance n text depth ≡ none
unfolding advance
advance-past_end zero text depth h = absurd (omega arith)
advance-past_end (suc n) [] depth h = refl
advance-past_end (suc n) (c ∷ text) depth h =
    advance-past_end n text (step_depth c depth) (omega arith)

recount-add :
    (m n : ℕ) (text : Text) → plus (recount text m) (recount (drop m text) n) ≡ recount text (m + n)
recount-add m n text =
    depth_eq _ _ (rw (take-add m n text) (sym (count_if-append _ (take m text) _)))
      (rw (take-add m n text) (sym (count_if-append _ (take m text) _)))

-- The offsets of the events do not decrease, from the cursor on.
abbrev NonDecreasing : ℕ → List ScopeEvent → Type 0
NonDecreasing cursor [] = Unit
NonDecreasing cursor (event ∷ events) = (cursor ≤ event.offset) × NonDecreasing event.offset events

insert_sorted-NonDecreasing :
    (cursor : ℕ) (event : ScopeEvent) (events : List ScopeEvent)
    → cursor ≤ event.offset
    → NonDecreasing cursor events
    → NonDecreasing cursor (insert_sorted le_event event events)
unfolding insert_sorted
insert_sorted-NonDecreasing cursor event [] h tt = (h, tt)
insert_sorted-NonDecreasing cursor event (first ∷ events) h (k, more) =
    elim (Bool-cases (le_event event first)) [
      | inl front ↦ rw front (h, (ground arith, more))
      | inr behind ↦
          rw behind (k, insert_sorted-NonDecreasing first.offset event events (ground arith) more)
    ]

sorted-NonDecreasing : (events : List ScopeEvent) → NonDecreasing 0 (sorted le_event events)
unfolding sorted
sorted-NonDecreasing [] = tt
sorted-NonDecreasing (event ∷ events) =
    insert_sorted-NonDecreasing 0 event _ (omega arith) (sorted-NonDecreasing events)

cursor_moves :
    (cursor offset : ℕ) → cursor ≤ offset → (if ltb cursor offset then offset else cursor) ≡ offset
cursor_moves cursor offset h = ground arith

-- The event lies in the text or at its end.
abbrev pub in_text : Text → ScopeEvent → Bool
in_text text event = leb event.offset (length text)

-- One step of the loop, for an event that is not behind the end.
depths_loop-step :
    (text : Text) (event : ScopeEvent) (events : List ScopeEvent) (cursor : ℕ)
    → cursor ≤ event.offset
    → in_text text event ≡ true
    → depths_loop cursor (drop cursor text) (recount text cursor) (event ∷ events)
      ≡ put_first
          (recount text event.offset, event)
          (depths_loop event.offset (drop event.offset text) (recount text event.offset) events)
unfolding depths_loop
depths_loop-step text event events cursor h near =
    let n = event.offset - cursor in
    let reached : cursor + n ≡ event.offset = omega arith in
    let within : n ≤ length (drop cursor text) = ground (arith, length-drop cursor text) in
    rw
      (
        depths_loop,
        advance-recount n (drop cursor text) (recount text cursor) within,
        recount-add cursor n text,
        ← drop-add cursor n text,
        reached,
        cursor_moves cursor event.offset h,
      )
      refl

depths_loop-recounted :
    (text : Text) (events : List ScopeEvent) (cursor : ℕ)
    → NonDecreasing cursor events
    → all (in_text text) events ≡ true
    → depths_loop cursor (drop cursor text) (recount text cursor) events
      ≡ some (recounted text events)
unfolding depths_loop
depths_loop-recounted text [] cursor ordered w = refl
depths_loop-recounted text (event ∷ events) cursor (h, more) w =
    depths_loop-step text event events cursor h (ground arith)
    ∙ ap
        (λ (l : Option (List (Depth × ScopeEvent))). put_first (recount text event.offset, event) l)
        (depths_loop-recounted text events event.offset more (ground arith))

depths_loop-past_end :
    (text : Text) (events : List ScopeEvent) (cursor : ℕ)
    → cursor ≤ length text
    → NonDecreasing cursor events
    → all (in_text text) events ≡ false
    → depths_loop cursor (drop cursor text) (recount text cursor) events ≡ none
unfolding depths_loop
depths_loop-past_end text [] cursor here ordered w = absurd (true≢false w)
depths_loop-past_end text (event ∷ events) cursor here (h, more) w =
    elim (Bool-cases (in_text text event)) [
      | inl near ↦
          depths_loop-step text event events cursor h near
          ∙ ap
              (λ (l : Option (List (Depth × ScopeEvent))).
                put_first (recount text event.offset, event) l)
              (depths_loop-past_end text events event.offset (ground arith) more (ground arith))
      | inr far ↦
          let n = event.offset - cursor in
          let behind : length (drop cursor text) < n = ground (arith, length-drop cursor text) in
          rw (depths_loop, advance-past_end n (drop cursor text) (recount text cursor) behind) refl
    ]

-- The one pass over a text raises no exception exactly when no opener and no leaf lies behind its
-- end. The chains are then those of the events in the order of their offsets, with the depths that a
-- recount of the braces from the start of the text gives each of them.
pub nested_names-recounted :
    (text : Text) (openers leaves : List (ℕ × Text))
    → let events = sorted le_event (events_of 0 openers ++ events_of 1 leaves) in
      nested_names text openers leaves
      ≡ (if all (in_text text) events then some (chains_loop [] (recounted text events)) else none)
unfolding nested_names
nested_names-recounted text openers leaves =
    let events = sorted le_event (events_of 0 openers ++ events_of 1 leaves) in
    let ordered = sorted-NonDecreasing (events_of 0 openers ++ events_of 1 leaves) in
    elim (Bool-cases (all (in_text text) events)) [
      | inl within ↦
          rw (within, nested_names, depths_loop-recounted text events 0 ordered within) refl
      | inr behind ↦
          rw (behind, nested_names, depths_loop-past_end text events 0 (omega arith) ordered behind)
            refl
    ]
