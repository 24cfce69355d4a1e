-- ===== src/Runners/Go/Flat.antt =====
-- The flat mode of the Go runner: what its state makes of the next oracle.
use bmk_dev.Base.{
  true, false, not, ◌||◌, some, List, [], ◌≡◌, refl, list_eq, nat_eq, option_eq, ==-cases, ◌==◌, Eq,
  if◌then◌else◌, is_nil, inl, inr, arith, ◌∙◌,
}
use bmk_dev.Base.Text.{codes}
use bmk_dev.Runners.Go.{
  GoHost, Root, FlatState, no_flat, enter_flat_mode, discover, package_of, roots_loop,
}

module _ {Host : Type 0} ⦃e : Eq Host⦄ (host : GoHost Host) where
  -- The state with which the batches of a score of an oracle run: `_run` discovers both suites.
  abbrev pub after_discovery : Host → FlatState Host → FlatState Host
  after_discovery oracle s =
      (discover host oracle (codes "integration") (discover host oracle (codes "atomic") s).1).1

  -- The two shapes of an oracle.
  abbrev pub IsHistorical : Host → Type 0
  IsHistorical oracle =
      (not (host.is_file oracle (codes "ROOT-MAP.json"))
        || not (host.is_file oracle (codes "go.mod")))
      ≡ true

  abbrev pub IsFlat : Host → List Root → Type 0
  IsFlat oracle roots =
      ((not (host.is_file oracle (codes "ROOT-MAP.json"))
          || not (host.is_file oracle (codes "go.mod")))
        ≡ false)
      × (is_nil (host.test_files oracle []) ≡ false)
      × (host.roots oracle ≡ some roots)

  enter-historical :
      (oracle : Host) (s : FlatState Host)
      → IsHistorical oracle
      → enter_flat_mode host oracle s ≡ (false, (if s.flat_host == some oracle then no_flat else s))
  unfolding enter_flat_mode
  enter-historical oracle s h = rw h refl

  abbrev pub flat_state : Host → List Root → FlatState Host
  flat_state oracle roots = record {
    flat_pkg = some (package_of host oracle);
    flat_layers = roots_loop roots [];
    flat_host = some oracle;
  }

  pub enter-flat :
      (oracle : Host) (roots : List Root) (s : FlatState Host)
      → IsFlat oracle roots
      → enter_flat_mode host oracle s ≡ (true, flat_state oracle roots)
  unfolding enter_flat_mode
  enter-flat oracle roots s (shape, tests, decoded) = rw (shape, tests, decoded) refl

  after_discovery-enter :
      (oracle : Host) (s : FlatState Host)
      → after_discovery oracle s ≡ (enter_flat_mode host oracle (enter_flat_mode host oracle s).1).1
  unfolding discover
  after_discovery-enter oracle s = refl

  pub after_discovery-historical :
      (oracle : Host) (s : FlatState Host)
      → IsHistorical oracle
      → after_discovery oracle s ≡ (if s.flat_host == some oracle then no_flat else s)
  after_discovery-historical oracle s h =
      after_discovery-enter oracle s ∙ elim (==-cases s.flat_host (some oracle)) [
        | inl (t, same) ↦
            rw (enter-historical oracle s h, t, enter-historical oracle no_flat h) (ground arith)
        | inr (f, differ) ↦ rw (enter-historical oracle s h, f, enter-historical oracle s h, f) refl
      ]

  pub after_discovery-flat :
      (oracle : Host) (roots : List Root) (s : FlatState Host)
      → IsFlat oracle roots
      → after_discovery oracle s ≡ flat_state oracle roots
  after_discovery-flat oracle roots s flat =
      after_discovery-enter oracle s
      ∙ rw (enter-flat oracle roots s flat, enter-flat oracle roots (flat_state oracle roots) flat)
          refl
