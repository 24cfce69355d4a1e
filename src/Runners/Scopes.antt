-- ===== src/Runners/Scopes.antt =====
-- harness/runners/base.py: `nested_names`, which gives each leaf of a text the scopes that enclose it.
pub mod Depths
use bmk_dev.Base.{
  Option, none, some, ℕ, zero, suc, ◌+◌, ◌-◌, Bool, true, false, ◌&&◌, ◌||◌, List, [], ◌∷◌, ◌++◌,
  map, if◌then◌else◌, eqb, ltb, leb,
}
use mathlib.Core.List.{reverse}
use bmk_dev.Base.Text.{Text, codes}
use bmk_dev.Base.Sorting.{sorted, le_text}

-- `(offset, kind, name)`: an opener has the kind 0, and a leaf 1.
pub record ScopeEvent : Type 0 where
  pub offset : ℕ
  pub kind : ℕ
  pub name_of : Text

-- `<=` on these triples
abbrev pub le_event : ScopeEvent → ScopeEvent → Bool
le_event a b =
    ltb a.offset b.offset
    || (eqb a.offset b.offset
        && (ltb a.kind b.kind || (eqb a.kind b.kind && le_text a.name_of b.name_of)))

-- A depth, which may be negative: the braces that were opened, and those that were closed.
pub record Depth : Type 0 where
  pub opened : ℕ
  pub closed : ℕ

-- `a >= b`
abbrev pub ge_depth : Depth → Depth → Bool
ge_depth a b = leb (b.opened + a.closed) (a.opened + b.closed)

abbrev pub step_depth : ℕ → Depth → Depth
step_depth character depth =
    if eqb character b'{'
    then record depth { opened = suc depth.opened }
    else if eqb character b'}'
    then record depth { closed = suc depth.closed }
    else depth

-- `while cursor < offset`, by the characters that are left to pass, on the text behind the cursor;
-- `none` is the `IndexError` behind the end.
unfoldable pub advance : ℕ → Text → Depth → Option (Text × Depth)
advance zero text depth = some (text, depth)
advance (suc n) [] depth = none
advance (suc n) (character ∷ text) depth = advance n text (step_depth character depth)

abbrev pub put_first : {A : Type 0} → A → Option (List A) → Option (List A)
put_first x none = none
put_first x (some xs) = some (x ∷ xs)

-- The first loop over the events, with `depths[offset]` beside each of them.
unfoldable pub depths_loop : ℕ → Text → Depth → List ScopeEvent → Option (List (Depth × ScopeEvent))
depths_loop cursor text depth [] = some []
depths_loop cursor text depth (event ∷ events) = elim (advance (event.offset - cursor) text depth) [
  | none ↦ none
  | some (behind, at) ↦
      put_first (at, event)
        (depths_loop (if ltb cursor event.offset then event.offset else cursor) behind at events)
]

-- `while stack and stack[-1][0] >= at: stack.pop()`, with the top of the stack first.
unfoldable pub pop_scopes : Depth → List (Depth × Text) → List (Depth × Text)
pop_scopes at [] = []
pop_scopes at ((depth, n) ∷ stack) =
    let rest = pop_scopes at stack in if ge_depth depth at then rest else (depth, n) ∷ stack

-- The second loop.
unfoldable pub chains_loop : List (Depth × Text) → List (Depth × ScopeEvent) → List (List Text)
unfolding pop_scopes
chains_loop stack [] = []
chains_loop stack ((at, event) ∷ events) =
    let open_scopes = pop_scopes at stack in
    let opened = chains_loop ((at, event.name_of) ∷ open_scopes) events in
    let reported = chains_loop open_scopes events in
    if eqb event.kind 0
    then opened
    else (reverse (map (λ (_, enclosing). enclosing) open_scopes) ++ (event.name_of ∷ []))
      ∷ reported

abbrev pub no_depth : Depth
no_depth = record { opened = 0; closed = 0 }

abbrev pub events_of : ℕ → List (ℕ × Text) → List ScopeEvent
events_of kind [] = []
events_of kind ((offset, n) ∷ found) =
    record { offset = offset; kind = kind; name_of = n } ∷ events_of kind found

unfoldable pub nested_names : Text → List (ℕ × Text) → List (ℕ × Text) → Option (List (List Text))
unfolding depths_loop chains_loop
nested_names text openers leaves =
    elim (depths_loop 0 text no_depth
      (sorted le_event (events_of 0 openers ++ events_of 1 leaves))) [
        | none ↦ none
        | some depths ↦ some (chains_loop [] depths)
      ]
