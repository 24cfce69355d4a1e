-- ===== src/Tests/Go.antt =====
-- The Go runner at concrete inputs.
use mathlib.Core.List.{flat_map}
use mathlib.Core.Option.{or_else}
use bmk_dev.Base.{
  ℕ, true, false, Option, none, some, List, [], ◌∷◌, ◌≡◌, ◌↔◌, refl, String, if◌then◌else◌, list_eq,
  nat_eq, option_eq, arith, eqb,
}
use bmk_dev.Base.Text.{Text, codes, split_lines, has_text}
use bmk_dev.Base.Dict.{Dict, lookup, insert}
use bmk_dev.Runners.{Runner}
use bmk_dev.Runners.Go.{
  GoHost, Root, plain, described, text, falsy, other_value, no_flat, discover, roots_loop,
  tests_loop, workdir, function_of, go_runner, package_of,
}
use bmk_dev.Runners.GoEvents.{Event, outcomes, event_outcome}
use bmk_dev.Runners.Go.Flat.{IsFlat, after_discovery}
use bmk_dev.Runners.Go.Directory.{workdir-inherited}
use bmk_dev.Runners.Go.Reports.{outcomes-last, any_outcome, last_outcome}
use bmk_dev.Sandbox.Score.{score, get_runner}
use bmk_dev.Sandbox.Score.GoTask.{score-flat_without_passes}
use bmk_dev.Tests.Sample.{numbers, machine}

abbrev roots : List Root
roots =
    record {
      layer = codes " Atomic";
      tests = plain (codes "TestA") ∷ described falsy (text (codes "TestB")) ∷ [];
    }
    ∷ record {
      layer = codes "system";
      tests = plain (codes "TestC") ∷ described other_value falsy ∷ [];
    }
    ∷ record { layer = codes "draft"; tests = plain (codes "TestA") ∷ [] }
    ∷ []

-- Oracle 1 is flat, and every other is in the historical shape.
abbrev host : GoHost ℕ
host = record {
  base_name = λ h. codes "oracle";
  is_file = λ h file. eqb h 1;
  is_dir = λ h directory. true;
  test_files = λ h directory. codes "func TestA" ∷ [];
  roots = λ h. some roots;
  module_line = λ h. some (codes "example.com/kv/");
  test_names = λ source. codes "TestA" ∷ codes "TestC" ∷ codes "TestD" ∷ [];
}

flat_atomic : (discover host 1 (codes "atomic") no_flat).0 ≡ codes "kv::TestA" ∷ []
unfolding discover flat_map roots_loop tests_loop list_eq nat_eq option_eq insert lookup or_else
flat_atomic = refl

flat_integration : (discover host 1 (codes "integration") no_flat).0 ≡ codes "kv::TestC" ∷ []
unfolding discover flat_map roots_loop tests_loop list_eq nat_eq option_eq insert lookup or_else
flat_integration = refl

is_flat : IsFlat host 1 roots
is_flat = (refl, refl, refl)

name_of_package : package_of host 1 ≡ codes "kv"
unfolding or_else list_eq nat_eq
name_of_package = refl

workdir-inherited_example :
    (workdir (codes "atomic") (after_discovery host 2 no_flat) ≡ codes "/eval/oracle/atomic")
    × (workdir (codes "atomic") (after_discovery host 2 (after_discovery host 1 no_flat))
        ≡ codes "/eval/oracle")
workdir-inherited_example =
    workdir-inherited host (codes "atomic") 1 2 roots b'k' (codes "v") no_flat is_flat
      name_of_package refl (λ p. ground arith)

-- `f` fails, and anything else passes.
abbrev loads : Text → Option Event
loads line = some (record {
  test = some (codes "TestA/x");
  action = some (if has_text (codes "f") line then codes "fail" else codes "pass");
  in_package = some (codes "example.com/kv");
})

abbrev report : Text
report = codes "{ }\n{f}\nnoise"

abbrev d : Dict Text String
d = (codes "kv::TestA/x", "failed") ∷ []

reported : outcomes loads report [] ≡ some d
unfolding outcomes event_outcome or_else lookup insert list_eq nat_eq
reported = refl

outcomes-last_example :
    ((outcomes loads report [] ≡ none) ↔ (any_outcome loads (split_lines report) ≡ false))
    × ((d' : Dict Text String)
        → outcomes loads report [] ≡ some d'
        → (id : Text) → lookup id d' ≡ last_outcome loads id (split_lines report))
outcomes-last_example = outcomes-last loads report []

-- A subtest whose own name holds two colons has a key of its own.
subtest_with_colons : function_of (codes "kv::TestA/x::y") ≡ codes "kv::TestA/x::y"
unfolding function_of or_else
subtest_with_colons = refl

abbrev same : Text → Text
same s = s

abbrev registry : Dict Text (Runner ℕ)
registry = (codes "go", go_runner host loads same same no_flat) ∷ []

found : get_runner registry (some (codes "go")) ≡ some (go_runner host loads same same no_flat)
unfolding get_runner lookup list_eq nat_eq
found = refl

score-flat_without_passes_example :
    let r =
      (score numbers machine registry
        (λ task. some (codes "go"))
        none
        (codes "c")
        (codes "t")
        0
        1
        none
        none
        0).0 in
    (r.atomic_passed ≡ 0) × (r.integration_passed ≡ 0)
unfolding nat_eq
score-flat_without_passes_example =
    score-flat_without_passes numbers machine host loads same same no_flat 1 roots b'k' (codes "v")
      is_flat name_of_package (λ source. (refl, (refl, (refl, tt)))) refl registry
      (λ task. some (codes "go")) none (codes "c") (codes "t") 0 none none 0 found
      (λ p. ground arith) (λ p. ground arith)
