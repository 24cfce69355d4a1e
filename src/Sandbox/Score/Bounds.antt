-- ===== src/Sandbox/Score/Bounds.antt =====
-- A rate is at most one: no suite has more passes than tests.
use mathlib.Core.List.{map}
use bmk_dev.Base.{
  suc, ◌+◌, ◌≤◌, Bool, true, false, ◌&&◌, ◌||◌, List, [], ◌∷◌, ◌++◌, String, ◌≡◌, refl, ap, arith,
  list_eq, nat_eq, string_eq, ◌==◌, contains, length, count_if, if◌then◌else◌, Bool-cases, inl, inr,
}
use bmk_dev.Base.Text.{Text, codes, starts_with}
use bmk_dev.Base.Dict.{update, update-NodupKeys, NodupKeys, has_key, lookup-cons, lookup-nil}
use bmk_dev.Base.Floats.{Floats}
use bmk_dev.Runners.{Runner}
use bmk_dev.Sandbox.Outcomes.{Outcomes}
use bmk_dev.Sandbox.Gap.{suite_prefix}
use bmk_dev.Sandbox.Suite.{SuiteRun}
use bmk_dev.Sandbox.Results.{passes, finish}
use bmk_dev.Sandbox.Score.Complete.{has_key-update}

-- The removal of the first occurrence.
abbrev without : Text → List Text → List Text
without k [] = []
without k (x ∷ xs) = if k == x then xs else x ∷ without k xs

without-shorter :
    (k : Text) (xs : List Text) → contains xs k ≡ true → length (without k xs) + 1 ≡ length xs
without-shorter k [] h = cc
without-shorter k (x ∷ xs) h = ground (arith, without-shorter k xs)

contains-without :
    (k j : Text) (xs : List Text) → (j == k) ≡ false → contains (without k xs) j ≡ contains xs j
contains-without k j [] h = refl
contains-without k j (x ∷ xs) h = ground (arith, contains-without k j xs h)

module _ (q : Text → Bool) where
  -- The passes among the keys that a test selects are at most as many as a list of these keys.
  passes-le-names :
      (d : Outcomes) (xs : List Text)
      → NodupKeys d
      → ((k : Text) → has_key d k ≡ true → q k ≡ true → contains xs k ≡ true)
      → count_if (λ (key, outcome). q key && outcome == "passed") d ≤ length xs
  passes-le-names [] xs u h = omega arith
  passes-le-names ((k, v) ∷ d) xs (fresh, u) h = elim (Bool-cases (q k)) [
    | inl selected ↦
        let here : contains xs k ≡ true = h k (ground (arith, lookup-cons k k v d)) selected in
        ground (
          arith,
          without-shorter k xs here,
          passes-le-names d (without k xs) u (λ j known selects.
              ground (
                arith,
                contains-without k j xs,
                h j (ground (arith, lookup-cons j k v d)) selects,
              )),
        )
    | inr other ↦ ground (
      arith,
      passes-le-names d xs u (λ j known selects. h j (ground (arith, lookup-cons j k v d)) selects),
    )
  ]

length-map : (f : Text → Text) (xs : List Text) → length (map f xs) ≡ length xs
length-map f [] = refl
length-map f (x ∷ xs) = ap suc (length-map f xs)

-- No key of the first suite's names is among those of the second that begin with the prefix.
abbrev pub Apart : Text → List Text → Type 0
Apart prefix keys = (k : Text) → contains keys k ≡ true → starts_with k prefix ≡ false

module _ (F : Floats) {Host : Type 0} (runner : Runner Host) (task_id : Text) (oracle : Host)
    (A I : List Text) (log provenance : Text) (a i : SuiteRun)
    (keys_a : (k : Text) → has_key a.tests k ≡ contains (map runner.function_of A) k)
    (keys_i : (k : Text) → has_key i.tests k ≡ contains (map runner.function_of I) k) where
  -- The passes under a prefix are at most as many as the names of the suite that it stands for.
  pub passes-bound :
      (prefix : Text) (ids : List Text)
      → ((k : Text)
          → (contains (map runner.function_of A) k || contains (map runner.function_of I) k) ≡ true
          → starts_with k prefix ≡ true
          → contains (map runner.function_of ids) k ≡ true)
      → passes F prefix (update (update [] a.tests) i.tests) ≤ length ids
  passes-bound prefix ids own = rw (← length-map runner.function_of ids) (
      passes-le-names (λ k. starts_with k prefix) (update (update [] a.tests) i.tests)
        (map runner.function_of ids) (update-NodupKeys _ i.tests (update-NodupKeys [] a.tests tt))
        (λ k known selected. ground (
          arith,
          has_key-update (update [] a.tests) i.tests k,
          has_key-update [] a.tests k,
          lookup-nil {V = String} k,
          keys_a k,
          keys_i k,
          own k,
        )))

  -- Where the keys of neither suite begin with the prefix of the other, no suite has more passes
  -- than tests, whatever cases, names and outcomes the candidate's reports held.
  pub finish-bounds :
      Apart (suite_prefix runner (codes "atomic") ++ codes "::") (map runner.function_of I)
      → Apart (suite_prefix runner (codes "integration") ++ codes "::") (map runner.function_of A)
      → (let r = finish F runner task_id oracle A I log provenance a i in
          (r.atomic_passed ≤ r.atomic_total) × (r.integration_passed ≤ r.integration_total))
  unfolding finish
  finish-bounds integration_keys_differ atomic_keys_differ = (
    passes-bound (suite_prefix runner (codes "atomic") ++ codes "::") A
        (λ k known selected. ground (arith, integration_keys_differ k)),
    passes-bound (suite_prefix runner (codes "integration") ++ codes "::") I
        (λ k known selected. ground (arith, atomic_keys_differ k)),
  )
