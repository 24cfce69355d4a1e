-- ===== src/Runners/Go/Ids.antt =====
-- The ids of a flat oracle: all of them stand behind the name of the package, whatever the suite.
use mathlib.Core.List.{flat_map}
use bmk_dev.Base.{
  ℕ, true, false, some, List, [], ◌∷◌, ◌++◌, ◌≡◌, refl, contains, list_eq, nat_eq, option_eq,
  ==-cases, ◌==◌, ◌≢◌, Eq, inl, inr, arith, Bool-cases, map,
}
use bmk_dev.Base.Text.{Text, codes, starts_with}
use bmk_dev.Base.Dict.{Dict, lookup}
use bmk_dev.Runners.Go.{
  GoHost, Root, FlatState, discover, flat_ids, package_of, function_of, parent_of, roots_loop,
}
use bmk_dev.Runners.Go.Keys.{function_of-id, key-package}
use bmk_dev.Runners.Go.Flat.{IsFlat, enter-flat}

-- Each of the ids is a name without a colon in the package.
abbrev pub AllNamed : Text → List Text → Type 0
AllNamed pkg [] = Unit
AllNamed pkg (id ∷ ids) =
    ((n : Text) × (id ≡ pkg ++ codes "::" ++ n) × (contains n b':' ≡ false)) × AllNamed pkg ids

AllNamed-append :
    (pkg : Text) (xs ys : List Text) → AllNamed pkg xs → AllNamed pkg ys → AllNamed pkg (xs ++ ys)
AllNamed-append pkg [] ys tt named = named
AllNamed-append pkg (x ∷ xs) ys (one, more) named = (one, AllNamed-append pkg xs ys more named)

-- No name that the pattern of a test function finds has a colon.
abbrev pub FreeOfColons : List Text → Type 0
FreeOfColons [] = Unit
FreeOfColons (n ∷ names) = (contains n b':' ≡ false) × FreeOfColons names

flat_ids-AllNamed :
    (pkg : Text) (layers : Dict Text Text) (suite : Text) (names : List Text)
    → FreeOfColons names
    → AllNamed pkg (flat_ids pkg layers suite names)
flat_ids-AllNamed pkg layers suite [] free = tt
flat_ids-AllNamed pkg layers suite (n ∷ names) (no_colon, free) =
    elim (Bool-cases (lookup n layers == some suite)) [
      | inl here ↦ rw here ((n, refl, no_colon), flat_ids-AllNamed pkg layers suite names free)
      | inr other ↦ rw other (flat_ids-AllNamed pkg layers suite names free)
    ]

module _ {Host : Type 0} ⦃e : Eq Host⦄ (host : GoHost Host)
    (free : (source : Text) → FreeOfColons (host.test_names source)) where
  files-AllNamed :
      (pkg : Text) (layers : Dict Text Text) (suite : Text) (sources : List Text)
      → AllNamed pkg
          (flat_map (λ (source : Text). flat_ids pkg layers suite (host.test_names source)) sources)
  unfolding flat_map
  files-AllNamed pkg layers suite [] = tt
  files-AllNamed pkg layers suite (source ∷ sources) =
      AllNamed-append pkg _ _
        (flat_ids-AllNamed pkg layers suite (host.test_names source) (free source))
        (files-AllNamed pkg layers suite sources)

  pub discover-AllNamed :
      (oracle : Host) (roots : List Root) (s : FlatState Host) (suite : Text) (c : ℕ) (pkg : Text)
      → IsFlat host oracle roots
      → package_of host oracle ≡ c ∷ pkg
      → AllNamed (c ∷ pkg) (discover host oracle suite s).0
  unfolding discover
  discover-AllNamed oracle roots s suite c pkg flat named =
      rw (enter-flat host oracle roots s flat, named)
        (files-AllNamed (c ∷ pkg) (roots_loop roots []) suite (host.test_files oracle []))

-- No key of such ids begins with the prefix of a suite that is not the package.
pub keys-refuse :
    (c : ℕ) (pkg suite : Text) (ids : List Text)
    → contains (c ∷ pkg) b':' ≡ false
    → contains suite b':' ≡ false
    → c ∷ pkg ≢ suite
    → AllNamed (c ∷ pkg) ids
    → (k : Text) → contains (map function_of ids) k ≡ true
    → starts_with k (suite ++ codes "::") ≡ false
keys-refuse c pkg suite [] h h' differ named k known = cc
keys-refuse c pkg suite (id ∷ ids) h h' differ ((n, same, no_colon), named) k known =
    elim (==-cases k (function_of id)) [
      | inl (t, here) ↦ elim (Bool-cases (starts_with k (suite ++ codes "::"))) [
        | inr refused ↦ refused
        | inl begins ↦ absurd (
            differ (
              key-package (c ∷ pkg) suite (parent_of n) h h'
                (rw (← function_of-id c pkg n no_colon, ← same, ← here) begins)))
      ]
      | inr (f, other) ↦ keys-refuse c pkg suite ids h h' differ named k (ground arith)
    ]
