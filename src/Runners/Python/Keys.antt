-- ===== src/Runners/Python/Keys.antt =====
-- The ids that the Python runner discovers, and where their keys begin.
use mathlib.Core.Option.{or_else}
use mathlib.Core.List.{append_assoc}
use bmk_dev.Base.{
  List, [], ◌∷◌, ◌++◌, ◌≡◌, refl, ap, ◌∙◌, list_eq, nat_eq, Bool-cases, Option-cases, inl, inr,
}
use bmk_dev.Base.Text.{Text, codes, starts_with, before_first}
use bmk_dev.Runners.Syntax.{
  Member, method, other_member, Statement, function, class_def, assign, other_statement,
}
use bmk_dev.Runners.Python.{discover_loop, methods_of, is_test, function_of, suite_file}

-- The key of an id of a suite.
pub atomic_key :
    (rest : Text)
    → (more : Text) × (function_of (suite_file (codes "atomic") ++ codes "::" ++ rest)
        ≡ codes "test_atomic::" ++ more)
unfolding function_of or_else
atomic_key rest = elim (Option-cases (before_first (codes "[") rest)) [
  | inl plain ↦ rw plain (_, refl)
  | inr (head, cut) ↦ rw cut (_, refl)
]

pub integration_key :
    (rest : Text)
    → (more : Text) × (function_of (suite_file (codes "integration") ++ codes "::" ++ rest)
        ≡ codes "test_integration::" ++ more)
unfolding function_of or_else
integration_key rest = elim (Option-cases (before_first (codes "[") rest)) [
  | inl plain ↦ rw plain (_, refl)
  | inr (head, cut) ↦ rw cut (_, refl)
]

-- Each of the ids stands behind the front.
abbrev pub AllBehind : Text → List Text → Type 0
AllBehind front [] = Unit
AllBehind front (id ∷ ids) = ((rest : Text) × (id ≡ front ++ rest)) × AllBehind front ids

AllBehind-append :
    (front : Text) (xs ys : List Text)
    → AllBehind front xs
    → AllBehind front ys
    → AllBehind front (xs ++ ys)
AllBehind-append front [] ys tt behind = behind
AllBehind-append front (x ∷ xs) ys (one, more) behind =
    (one, AllBehind-append front xs ys more behind)

methods_of-behind :
    (front n whole : Text)
    → whole ≡ front ++ n
    → (members : List Member) → AllBehind front (methods_of whole members)
methods_of-behind front n whole p [] = tt
methods_of-behind front n whole p (method m ∷ members) = elim (Bool-cases (is_test m)) [
  | inl test ↦ rw test (
    (n ++ m.name_of, ap (λ (t : Text). t ++ m.name_of) p ∙ append_assoc front n m.name_of),
    methods_of-behind front n whole p members,
  )
  | inr other ↦ rw other (methods_of-behind front n whole p members)
]
methods_of-behind front n whole p (other_member ∷ members) =
    methods_of-behind front n whole p members

pub discover_loop-behind :
    (front : Text) (body : List Statement) → AllBehind front (discover_loop front body)
unfolding discover_loop
discover_loop-behind front [] = tt
discover_loop-behind front (function f ∷ body) = elim (Bool-cases (is_test f)) [
  | inl test ↦ rw test ((f.name_of, refl), discover_loop-behind front body)
  | inr other ↦ rw other (discover_loop-behind front body)
]
discover_loop-behind front (class_def n members ∷ body) =
    elim (Bool-cases (starts_with n (codes "Test"))) [
      | inl tests ↦ rw tests (
          AllBehind-append front _ _
            (methods_of-behind front (n ++ codes "::") (front ++ n ++ codes "::")
              (append_assoc front n (codes "::")) members)
            (discover_loop-behind front body))
      | inr other ↦ rw other (discover_loop-behind front body)
    ]
discover_loop-behind front (assign value targets ∷ body) = discover_loop-behind front body
discover_loop-behind front (other_statement ∷ body) = discover_loop-behind front body
