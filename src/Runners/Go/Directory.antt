-- ===== src/Runners/Go/Directory.antt =====
-- The directory in which the batches of an oracle run.
use bmk_dev.Base.{
  false, some, List, ◌∷◌, ◌++◌, ◌≡◌, ◌≢◌, refl, ◌==◌, option_eq, ==-cases, Eq, inl, inr, arith, ℕ,
}
use bmk_dev.Base.Text.{Text, codes}
use bmk_dev.Runners.Go.{GoHost, Root, FlatState, no_flat, workdir, package_of}
use bmk_dev.Runners.Go.Flat.{
  IsFlat, IsHistorical, after_discovery, after_discovery-flat, after_discovery-historical,
  flat_state,
}

module _ {Host : Type 0} ⦃e : Eq Host⦄ (host : GoHost Host) where
  other_host : (before oracle : Host) → before ≢ oracle → (some before == some oracle) ≡ false
  other_host before oracle differ = elim (==-cases (some before) (some oracle)) [
    | inl (t, same) ↦ absurd (differ (ground arith))
    | inr (f, _) ↦ f
  ]

  -- An oracle in the historical shape has its batches run in the directory of the suite by a runner
  -- that has scored nothing, and in the root by the same runner after another, flat oracle.
  pub workdir-inherited :
      (suite : Text) (before oracle : Host) (roots : List Root) (c : ℕ) (pkg : Text)
      (s : FlatState Host)
      → IsFlat host before roots
      → package_of host before ≡ c ∷ pkg
      → IsHistorical host oracle
      → before ≢ oracle
      → (workdir suite (after_discovery host oracle no_flat) ≡ codes "/eval/oracle/" ++ suite)
        × (workdir suite (after_discovery host oracle (after_discovery host before s))
            ≡ codes "/eval/oracle")
  workdir-inherited suite before oracle roots c pkg s flat named historical differ = (
    rw (after_discovery-historical host oracle no_flat historical) (ground arith),
    rw
        (
          after_discovery-flat host before roots s flat,
          after_discovery-historical host oracle (flat_state host before roots) historical,
          other_host before oracle differ,
          named,
        )
        refl,
  )
