-- ===== src/Runners/Go.antt =====
-- harness/lang/go/runner.py: `GoRunner`, whose methods read and change the state of flat mode. What
-- lies on the host's disk, the matches of the patterns and the decoding of JSON are parameters.
pub mod Reports
pub mod Keys
pub mod Flat
pub mod Ids
pub mod Directory
use mathlib.Core.Option
use mathlib.Core.Option.{get_or, or_else}
use mathlib.Core.List.{flat_map}
use bmk_dev.Base.{
  ℕ, ◌&&◌, ◌||◌, Bool, true, false, not, Option, none, some, List, [], ◌∷◌, ◌++◌, String, map,
  contains, list_eq, nat_eq, option_eq, if◌then◌else◌, is_nil, ◌==◌, Eq,
}
use bmk_dev.Base.Text.{
  Text, codes, starts_with, join, before_first, after_first, after_last, strip_prefix, split_lines,
  strip, lower, is_empty, quote, decimal,
}
use bmk_dev.Base.Dict.{Dict, insert, lookup}
use bmk_dev.Runners.{Batch, Runner}
use bmk_dev.Runners.GoEvents.{Event, outcomes}
use bmk_dev.Runners.GoSetup.{setup, provenance}

-- A value of a decoded object, as far as it is read: missing, `null`, `false`, `0` and the like are
-- `falsy`.
pub data Value : Type 0 where
  text : Text → Value
  falsy : Value
  other_value : Value

-- `a or b`
abbrev or_value : Value → Value → Value
or_value (text []) b = b
or_value (text (c ∷ s)) b = text (c ∷ s)
or_value falsy b = b
or_value other_value b = other_value

-- An entry of a root's `tests`, and a root with `str(root.get("layer") or "")`.
pub data RootTest : Type 0 where
  plain : Text → RootTest
  described : Value → Value → RootTest
  other_test : RootTest

pub record Root : Type 0 where
  pub layer : Text
  pub tests : List RootTest

-- The fields `_flat_pkg`, `_flat_layers` and `_flat_host`.
pub record FlatState (Host : Type 0) : Type 0 where
  pub flat_pkg : Option Text
  pub flat_layers : Dict Text Text
  pub flat_host : Option Host

-- `__init__`
abbrev pub no_flat : {Host : Type 0} → FlatState Host
no_flat = record { flat_pkg = none; flat_layers = []; flat_host = none }

abbrev layer_of : Text → Text
layer_of layer =
    let name = lower (strip layer) in if name == codes "system" then codes "integration" else name

abbrev name_of_test : RootTest → Option Text
name_of_test (plain entry) = some entry
name_of_test (described n test) = elim (or_value n test) [
  | text entry ↦ some entry
  | falsy ↦ none
  | other_value ↦ none
]
name_of_test other_test = none

unfoldable pub tests_loop : Text → List RootTest → Dict Text Text → Dict Text Text
tests_loop layer [] layers = layers
tests_loop layer (entry ∷ tests) layers =
    tests_loop layer tests
      (elim (name_of_test entry) [ none ↦ layers | some n ↦ insert n layer layers ])

unfoldable pub roots_loop : List Root → Dict Text Text → Dict Text Text
roots_loop [] layers = layers
roots_loop (root ∷ roots) layers =
    let layer = layer_of root.layer in
    roots_loop roots (
      if contains (codes "atomic" ∷ codes "integration" ∷ []) layer
      then tests_loop layer root.tests layers
      else layers)

-- `s.rstrip("/")`
abbrev rstrip_slash : Text → Text
rstrip_slash [] = []
rstrip_slash (c ∷ s) =
    let rest = rstrip_slash s in if is_nil rest && c == b'/' then [] else c ∷ rest

-- `a or b`, for text
abbrev or_default : Text → Text → Text
or_default [] b = b
or_default (c ∷ s) b = c ∷ s

-- The host's disk under an oracle: the texts of the `*_test.go` files of a directory, sorted by
-- their names, with the empty path for the root.
pub record GoHost (Host : Type 0) : Type 0 where
  pub base_name : Host → Text
  pub is_file : Host → Text → Bool
  pub is_dir : Host → Text → Bool
  pub test_files : Host → Text → List Text
  -- the `roots` of ROOT-MAP.json; `none` is the `OSError` or the `ValueError`
  pub roots : Host → Option (List Root)
  -- the group of `_MODULE_LINE.search` on go.mod, and `_TEST_FUNC.findall`
  pub module_line : Host → Option Text
  pub test_names : Text → List Text

-- The names of a file that the map puts in the suite.
abbrev pub flat_ids : Text → Dict Text Text → Text → List Text → List Text
flat_ids pkg layers suite [] = []
flat_ids pkg layers suite (n ∷ names) =
    let rest = flat_ids pkg layers suite names in
    if lookup n layers == some suite then (pkg ++ codes "::" ++ n) ∷ rest else rest

module _ {Host : Type 0} ⦃e : Eq Host⦄ (host : GoHost Host) where
  abbrev pub package_of : Host → Text
  package_of oracle =
      or_default
        (elim (host.module_line oracle) [
          | none ↦ []
          | some path ↦ after_last (codes "/") (rstrip_slash path)
        ])
        (host.base_name oracle)

  -- `_enter_flat_mode`, with the state it leaves
  unfoldable pub enter_flat_mode : Host → FlatState Host → Bool × FlatState Host
  enter_flat_mode oracle s =
      if not (host.is_file oracle (codes "ROOT-MAP.json"))
        || not (host.is_file oracle (codes "go.mod"))
      then (false, (if s.flat_host == some oracle then no_flat else s))
      else if is_nil (host.test_files oracle [])
      then (false, s)
      else elim (host.roots oracle) [
        | none ↦ (false, s)
        | some roots ↦ (
          true,
          record {
            flat_pkg = some (package_of oracle);
            flat_layers = roots_loop roots [];
            flat_host = some oracle;
          },
        )
      ]

  abbrev pub flat_discover : Host → Text → FlatState Host → List Text
  flat_discover oracle suite s =
      let pkg = or_default (get_or s.flat_pkg []) (host.base_name oracle) in
      flat_map (λ (source : Text). flat_ids pkg s.flat_layers suite (host.test_names source))
        (host.test_files oracle [])

  abbrev pub package_discover : Host → Text → List Text
  package_discover oracle suite =
      if not (host.is_dir oracle suite)
      then []
      else flat_map
          (λ (source : Text). map (λ (n : Text). suite ++ codes "::" ++ n) (host.test_names source))
          (host.test_files oracle suite)

  unfoldable pub discover : Host → Text → FlatState Host → List Text × FlatState Host
  unfolding enter_flat_mode
  discover oracle suite s =
      let (flat, s') = enter_flat_mode oracle s in
      ((if flat then flat_discover oracle suite s' else package_discover oracle suite), s')

abbrev pub short_name : Text → Text
short_name t = get_or (after_first (codes "::") t) t

-- The directory of a batch.
abbrev pub workdir : {Host : Type 0} → Text → FlatState Host → Text
workdir suite s = elim s.flat_pkg [
  | none ↦ codes "/eval/oracle/" ++ suite
  | some [] ↦ codes "/eval/oracle/" ++ suite
  | some (c ∷ pkg) ↦ codes "/eval/oracle"
]

-- `escape` is `re.escape`.
unfoldable pub batch :
    {Host : Type 0} → (Text → Text) → Text → List Text → ℕ → ℕ → FlatState Host → Batch
batch escape suite tests offset timeout s =
    let names =
      join (codes "|")
        (map (λ (t : Text). codes "^" ++ escape (short_name t) ++ codes "$") tests) in
    let report = codes "/eval/rb_" ++ suite ++ codes "_" ++ decimal offset ++ codes ".json" in
    record {
      command =
          codes "cd "
          ++ quote (workdir suite s)
          ++ codes " && timeout "
          ++ decimal timeout
          ++ codes " go test -json -count=1 -timeout "
          ++ decimal timeout
          ++ codes "s -run "
          ++ quote names
          ++ codes " ./... > "
          ++ report
          ++ codes " 2>&1";
      report = some report;
    }

-- `test.rpartition("::")`, and `none` where the separator does not occur.
abbrev pub last_split : Text → Text → Option (Text × Text)
last_split sep [] = none
last_split sep (c ∷ s) =
    or_else (Option.map (λ (front, back). (c ∷ front, back)) (last_split sep s))
      (Option.map (λ (rest : Text). ([], rest)) (strip_prefix sep (c ∷ s)))

abbrev pub parent_of : Text → Text
parent_of n = get_or (before_first (codes "/") n) n

unfoldable pub function_of : Text → Text
unfolding or_else
function_of test = elim (last_split (codes "::") test) [
  | none ↦ parent_of test
  | some ([], n) ↦ parent_of n
  | some (c ∷ pkg, n) ↦ (c ∷ pkg) ++ codes "::" ++ parent_of n
]

abbrev pub synthetic_id : Text → Text
synthetic_id suite = suite ++ codes "::TestPlaceholder"

-- The methods of the runner in a state. A score calls `discover` for both suites and has the state
-- that they leave in its batches.
unfoldable pub go_runner :
    {Host : Type 0}
    → ⦃e : Eq Host⦄ → GoHost Host
    → (Text → Option Event)
    → (Text → Text)
    → (Text → Text)
    → FlatState Host
    → Runner Host
go_runner host loads escape repr s = record {
  discover = λ oracle suite. (discover host oracle suite s).0;
  setup = setup;
  batch = λ suite tests offset timeout. batch escape suite tests offset timeout s;
  outcomes = λ report stdout. some (outcomes loads report stdout);
  function_of = function_of;
  synthetic_id = synthetic_id;
  dependencies = λ oracle. [];
  provenance = provenance repr;
}
