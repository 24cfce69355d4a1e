-- ===== src/Sandbox/Outcomes/Laws.antt =====
-- What `aggregate` gives for a function: a total result that hides no failing case, and that does
-- not depend on the order of the report.
use mathlib.Core.List.{append-nil, append_assoc}
use mathlib.Core.Option.{or_else, get_or}
use bmk_dev.Base.{
  false, not, Option, none, some, List, [], ◌∷◌, ◌++◌, String, any, all, first, ◌==◌, contains,
  string_eq, list_eq, nat_eq, if◌then◌else◌, ◌≡◌, refl, ◌∙◌, arith, Bool-cases, Option-cases, inl,
  inr,
}
use bmk_dev.Base.Text.{Text}
use bmk_dev.Base.Dict.{Dict, lookup, lookup-insert, lookup-nil, lookup-cons}
use bmk_dev.Sandbox.Outcomes.{
  Outcomes, append_at, group, is_bad, is_passed, priority, reduce, reduce_groups, aggregate,
}

-- The outcomes that a report gives to the cases of one function, in the report's order.
abbrev pub cases_of : (Text → Text) → Text → Outcomes → List String
cases_of key_of key [] = []
cases_of key_of key ((nodeid, outcome) ∷ cases) =
    if key == key_of nodeid then outcome ∷ cases_of key_of key cases else cases_of key_of key cases

-- Nothing where there is no case.
abbrev joined : Option (List String) → List String → Option (List String)
joined none [] = none
joined none (o ∷ os) = some (o ∷ os)
joined (some old) os = some (old ++ os)

not_passed_found :
    (os : List String)
    → all is_passed os ≡ false
    → (o : String) × (first (λ outcome. not (is_passed outcome)) os ≡ some o)
not_passed_found [] h = cc
not_passed_found (o ∷ os) h = elim (Bool-cases (is_passed o)) [
  | inl p ↦ let ih = not_passed_found os (rw p at h) in (ih.0, rw p ih.1)
  | inr n ↦ (o, rw n)
]

joined-nil : (m : Option (List String)) → m ≡ joined m []
joined-nil none = refl
joined-nil (some old) = rw append-nil

joined-snoc :
    (m : Option (List String)) (o : String) (os : List String)
    → joined (some (get_or m [] ++ (o ∷ []))) os ≡ joined m (o ∷ os)
joined-snoc none o os = refl
joined-snoc (some old) o os = rw append_assoc

lookup-group :
    (key_of : Text → Text) (key : Text) (cases : Outcomes) (g : Dict Text (List String))
    → lookup key (group key_of cases g) ≡ joined (lookup key g) (cases_of key_of key cases)
unfolding group append_at
lookup-group key_of key [] g = joined-nil (lookup key g)
lookup-group key_of key ((nodeid, outcome) ∷ cases) g =
    lookup-group key_of key cases _
    ∙ rw lookup-insert
        (ground (arith, joined-snoc (lookup key g) outcome (cases_of key_of key cases)))

-- A non-empty group is reduced to an outcome: the inner `next` always finds one.
reduce_total : (os : List String) → (o : String) × (reduce os ≡ some o)
unfolding reduce or_else
reduce_total os = elim (Bool-cases (any is_bad os)) [
  | inl bad ↦ ("failed", rw bad)
  | inr good ↦ elim (Bool-cases (all is_passed os)) [
    | inl passed ↦ ("passed", rw (good, passed))
    | inr other ↦
        let (o, found) = not_passed_found os other in
        elim (Option-cases (first (contains os) priority)) [
          | inl none_listed ↦ (o, rw (good, other, none_listed, found))
          | inr listed ↦ (listed.0, rw (good, other, listed.1))
        ]
  ]
]

reduce_groups_total : (g : Dict Text (List String)) → (r : Outcomes) × (reduce_groups g ≡ some r)
unfolding reduce_groups
reduce_groups_total [] = ([], refl)
reduce_groups_total ((key, os) ∷ g) =
    let (o, e) = reduce_total os in
    let (r, h) = reduce_groups_total g in ((key, o) ∷ r, ground arith)

-- Whatever a runner reports, every function that has a case gets an outcome.
pub aggregate_total :
    (key_of : Text → Text) (cases : Outcomes) → (r : Outcomes) × (aggregate key_of cases ≡ some r)
unfolding aggregate
aggregate_total key_of cases = reduce_groups_total (group key_of cases [])

abbrev reduced : Option (List String) → Option String
reduced none = none
reduced (some os) = reduce os

lookup-reduce_groups :
    (key : Text) (g : Dict Text (List String)) (r : Outcomes)
    → reduce_groups g ≡ some r
    → lookup key r ≡ reduced (lookup key g)
unfolding reduce_groups
lookup-reduce_groups key [] r h = let e : [] ≡ r = cc in rw (← e, lookup-nil, lookup-nil)
lookup-reduce_groups key ((k, os) ∷ g) r h =
    let (o, one) = reduce_total os in
    let (r', more) = reduce_groups_total g in
    let e : (k, o) ∷ r' ≡ r = ground arith in
    rw (← e, lookup-cons, lookup-cons) (ground (arith, one, lookup-reduce_groups key g r' more))

-- The outcomes of a function's cases, reduced; nothing where the report has no case of it.
abbrev pub outcome_of : List String → Option String
outcome_of [] = none
outcome_of (o ∷ os) = reduce (o ∷ os)

-- The result of `aggregate` for a function is a function of that function's own cases alone, in
-- their order; a function that has no case has no outcome.
pub lookup-aggregate :
    (key_of : Text → Text) (cases : Outcomes) (key : Text) (r : Outcomes)
    → aggregate key_of cases ≡ some r
    → lookup key r ≡ outcome_of (cases_of key_of key cases)
unfolding aggregate
lookup-aggregate key_of cases key r h =
    lookup-reduce_groups key (group key_of cases []) r h
    ∙ rw (lookup-group, lookup-nil) (by_cases (cases_of key_of key cases))
  where
    by_cases : (os : List String) → reduced (joined none os) ≡ outcome_of os
    by_cases [] = refl
    by_cases (o ∷ os) = refl
