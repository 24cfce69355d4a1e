-- ===== src/Sandbox/Gap/Names.antt =====
-- The index of a suite's outcomes by leaf name: faithful where no name is ambiguous, and a name is
-- ambiguous exactly where two functions of the suite share it.
use mathlib.Core.Path.{subst}
use mathlib.Core.List.{append-nil, append_assoc}
use bmk_dev.Base.{
  true, none, some, List, [], ◌∷◌, ◌++◌, String, ◌≡◌, refl, ◌∙◌, ◌↔◌, ◌≢◌, sym, ap, arith, contains,
  list_eq, nat_eq, Option-cases, inl, inr,
}
use bmk_dev.Base.Text.{Text, codes, strip_prefix}
use bmk_dev.Base.Dict.{
  lookup, insert-fresh, insert-NodupKeys, NodupKeys, lookup-eq_none-of-NodupKeys,
}
use bmk_dev.Sandbox.Outcomes.{Outcomes}
use bmk_dev.Sandbox.Gap.{Index, leaf, index_one, index_loop, suite_outcomes_by_name}

-- The functions of a suite: those keys with its prefix, under their leaf names.
abbrev leaves_of : Text → Outcomes → Outcomes
leaves_of prefix [] = []
leaves_of prefix ((key, outcome) ∷ tests) = elim (strip_prefix prefix key) [
  | none ↦ leaves_of prefix tests
  | some rest ↦ (leaf rest, outcome) ∷ leaves_of prefix tests
]

abbrev pub suite_leaves : Outcomes → Text → Outcomes
suite_leaves tests suite = leaves_of (suite ++ codes "::") tests

index_all : Outcomes → Index → Index
index_all [] i = i
index_all ((name, outcome) ∷ l) i = index_all l (index_one name outcome i)

index_loop-leaves_of :
    (prefix : Text) (tests : Outcomes) (i : Index)
    → index_loop prefix tests i ≡ index_all (leaves_of prefix tests) i
unfolding index_loop index_all
index_loop-leaves_of prefix [] i = refl
index_loop-leaves_of prefix ((key, outcome) ∷ tests) i =
    elim (Option-cases (strip_prefix prefix key)) [
      | inl e ↦ ground (arith, index_loop-leaves_of prefix tests i)
      | inr (rest, e) ↦
          ground (arith, index_loop-leaves_of prefix tests (index_one (leaf rest) outcome i))
    ]

snoc-ne_nil {ℓ} : {A : Type ℓ} (xs : List A) (x : A) → xs ++ (x ∷ []) ≢ []
snoc-ne_nil [] x = λ e. cc
snoc-ne_nil (y ∷ xs) x = λ e. cc

contains-nil : (xs : List Text) (x : Text) → contains xs x ≡ true → xs ≢ []
contains-nil [] x h = cc
contains-nil (y ∷ xs) x h = λ e. cc

-- Once a name is ambiguous, it stays so.
ambiguous-index_all : (l : Outcomes) (i : Index) → (index_all l i).ambiguous ≡ [] → i.ambiguous ≡ []
unfolding index_all index_one
ambiguous-index_all [] i h = h
ambiguous-index_all ((name, outcome) ∷ l) i h =
    ground (arith, snoc-ne_nil i.ambiguous name, ambiguous-index_all l (index_one name outcome i) h)

fresh_of_unambiguous :
    (name : Text) (outcome : String) (i : Index)
    → (index_one name outcome i).ambiguous ≡ []
    → lookup name i.outcomes ≡ none
unfolding index_one
fresh_of_unambiguous name outcome i h =
    ground (arith, snoc-ne_nil i.ambiguous name, contains-nil i.ambiguous name)

index_one-fresh :
    (name : Text) (outcome : String) (i : Index)
    → lookup name i.outcomes ≡ none
    → index_one name outcome i ≡ record i { outcomes = i.outcomes ++ ((name, outcome) ∷ []) }
unfolding index_one
index_one-fresh name outcome i h = ground (arith, insert-fresh name outcome i.outcomes)

outcomes-index_all :
    (l : Outcomes) (i : Index)
    → (index_all l i).ambiguous ≡ []
    → (index_all l i).outcomes ≡ i.outcomes ++ l
unfolding index_all
outcomes-index_all [] i h = sym (append-nil i.outcomes)
outcomes-index_all ((name, outcome) ∷ l) i h =
    let one = index_one name outcome i in
    let fresh = fresh_of_unambiguous name outcome i (ambiguous-index_all l one h) in
    outcomes-index_all l one h ∙ rw (index_one-fresh name outcome i fresh, append_assoc)

ambiguous-of_NodupKeys :
    (l : Outcomes) (i : Index)
    → i.ambiguous ≡ []
    → NodupKeys (i.outcomes ++ l)
    → (index_all l i).ambiguous ≡ []
unfolding index_all
ambiguous-of_NodupKeys [] i h u = h
ambiguous-of_NodupKeys ((name, outcome) ∷ l) i h u =
    let fresh = lookup-eq_none-of-NodupKeys name outcome i.outcomes l u in
    ap (λ (j : Index). (index_all l j).ambiguous) (index_one-fresh name outcome i fresh)
    ∙ ambiguous-of_NodupKeys l _ h (rw append_assoc u)

index_one-NodupKeys :
    (name : Text) (outcome : String) (i : Index)
    → NodupKeys i.outcomes
    → NodupKeys (index_one name outcome i).outcomes
unfolding index_one
index_one-NodupKeys name outcome i u = ground (arith, insert-NodupKeys name outcome i.outcomes u)

index_all-NodupKeys :
    (l : Outcomes) (i : Index) → NodupKeys i.outcomes → NodupKeys (index_all l i).outcomes
unfolding index_all
index_all-NodupKeys [] i u = u
index_all-NodupKeys ((name, outcome) ∷ l) i u =
    index_all-NodupKeys l _ (index_one-NodupKeys name outcome i u)

abbrev start : Index
start = record { outcomes = []; ambiguous = [] }

module _ (tests : Outcomes) (suite : Text) where
  -- Where no name is ambiguous, the index of a suite is the list of its functions under their leaf
  -- names, in order, none lost and none merged.
  pub suite_outcomes-faithful :
      (suite_outcomes_by_name tests suite).ambiguous ≡ []
      → (suite_outcomes_by_name tests suite).outcomes ≡ suite_leaves tests suite
  unfolding suite_outcomes_by_name
  suite_outcomes-faithful h =
      ap (λ (j : Index). j.outcomes) (index_loop-leaves_of _ tests start)
      ∙ outcomes-index_all (suite_leaves tests suite) start
          (rw (index_loop-leaves_of _ tests start) at h)

  pub suite_outcomes-NodupKeys : NodupKeys (suite_outcomes_by_name tests suite).outcomes
  unfolding suite_outcomes_by_name
  suite_outcomes-NodupKeys =
      rw (index_loop-leaves_of (suite ++ codes "::") tests start)
        (index_all-NodupKeys (suite_leaves tests suite) start tt)

  -- No name is ambiguous exactly when no two functions of the suite share their leaf name.
  pub suite_outcomes-ambiguous :
      ((suite_outcomes_by_name tests suite).ambiguous ≡ []) ↔ NodupKeys (suite_leaves tests suite)
  unfolding suite_outcomes_by_name
  suite_outcomes-ambiguous = (
    λ h. subst (λ (d : Outcomes). NodupKeys d) (suite_outcomes-faithful h) suite_outcomes-NodupKeys,
    λ u.
        ap (λ (j : Index). j.ambiguous) (index_loop-leaves_of _ tests start)
        ∙ ambiguous-of_NodupKeys (suite_leaves tests suite) start refl u,
  )
