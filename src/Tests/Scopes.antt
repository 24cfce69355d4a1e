-- ===== src/Tests/Scopes.antt =====
-- The helpers of the runners at concrete texts.
use bmk_dev.Base.{none, some, [], ◌∷◌, ◌++◌, ◌≡◌, refl, list_eq, nat_eq, length}
use bmk_dev.Base.Text.{Text, codes}
use bmk_dev.Base.Sorting.{sorted, insert_sorted}
use bmk_dev.Runners.Scopes.{nested_names, chains_loop, advance, events_of, le_event}
use bmk_dev.Runners.Scopes.Depths.{nested_names-recounted, recounted}
use bmk_dev.Runners.Comments.{depends_on_above}

-- Two scopes, one in the other, and a leaf in each and behind both.
abbrev text : Text
text = codes "a{x b{y}}z"

chains :
    nested_names text
      ((0, codes "a") ∷ (4, codes "b") ∷ [])
      ((2, codes "x") ∷ (6, codes "y") ∷ (9, codes "z") ∷ [])
    ≡ some (
        (codes "a" ∷ codes "x" ∷ [])
        ∷ (codes "a" ∷ codes "b" ∷ codes "y" ∷ [])
        ∷ (codes "z" ∷ [])
        ∷ [])
unfolding nested_names advance sorted insert_sorted
chains = refl

nested_names-recounted_example :
    nested_names text ((0, codes "a") ∷ []) ((2, codes "x") ∷ [])
    ≡ some (
        chains_loop [] (
          recounted text (
            sorted le_event
              (events_of 0 ((0, codes "a") ∷ []) ++ events_of 1 ((2, codes "x") ∷ [])))))
unfolding sorted insert_sorted
nested_names-recounted_example =
    nested_names-recounted text ((0, codes "a") ∷ []) ((2, codes "x") ∷ [])

-- A leaf behind the end raises.
behind_the_end : nested_names text [] ((11, codes "x") ∷ []) ≡ none
unfolding nested_names advance sorted insert_sorted
behind_the_end = refl

-- The comment breaks off at the blank line; the line of the declaration itself is dropped.
abbrev source : Text
source = codes "// DependsOn: old\n\n// DependsOn: a; b\n/// text\n//DependsOn: b,c ,\n  "

above : depends_on_above source (length source) ≡ codes "a" ∷ codes "b" ∷ codes "c" ∷ []
unfolding depends_on_above list_eq nat_eq
above = refl
