-- ===== src/Runners/Java.antt =====
-- harness/lang/java/runner.py: `JavaRunner`. The host's disk, the matches of the patterns, Python's
-- `repr` and the tree of the XML are parameters; the word characters are ASCII's.
pub mod Names
pub mod Methods
use mathlib.Core.List.{flat_map, reverse}
use mathlib.Core.Option.{get_or}
use bmk_dev.Base.{
  ℕ, ◌+◌, ◌-◌, ◌&&◌, ◌||◌, Bool, true, false, not, Option, none, some, List, [], ◌∷◌, ◌++◌, String,
  map, contains, list_eq, nat_eq, if◌then◌else◌, is_nil, ◌==◌, leb, eqb, drop, take, all, length,
}
use bmk_dev.Base.Text.{
  Text, codes, starts_with, join, strip, quote, decimal, is_digit, is_empty, strip_prefix,
  find_last, after_last, before_first, split_text, split_on, remove_prefix,
}
use bmk_dev.Base.Sorting.{sorted, le_text}
use bmk_dev.Base.Dict.{Dict, insert, lookup}
use bmk_dev.Runners.{Batch, Env, Runner, Step}
use bmk_dev.Runners.Rust.{set_of}
use bmk_dev.Runners.TypeScript.{before_last, with_head, rest_of, trim, is_letter, is_word}
use bmk_dev.Runners.JavaSetup.{candidate_version_flags, java_setup, java_provenance}

-- A test method: the text before it, and its name.
pub record Method : Type 0 where
  pub before : Text
  pub name_of : Text

-- A source file, with the class that its pattern finds.
pub record JavaSource : Type 0 where
  pub stem : Text
  pub class_of : Option Text
  pub methods : List Method

-- An element of the report, with the fields that are read; a child is its tag without a namespace.
pub record TestCase : Type 0 where
  pub name_of : Text
  pub classname : Text
  pub tags : List Text

pub record TestSuite : Type 0 where
  pub name_of : Text
  pub cases : List TestCase

pub record JavaHost (Host : Type 0) : Type 0 where
  pub is_dir : Host → Text → Bool
  -- the `*.java` files below the directory of a suite, sorted by their paths
  pub sources : Host → Text → List JavaSource
  -- the group of `_DEPENDS_ON`, and a text without its annotations
  pub depends_on : Text → Option Text
  pub without_annotations : Text → Text
  -- the suites of the document; `none` is the `ParseError`
  pub parse : Text → Option (List TestSuite)
  pub repr : Text → Text
  pub repr_names : List Text → Text

-- Where a text stands for the first time.
abbrev pub index_of : Text → Text → Option ℕ
index_of p [] = if is_empty p then some 0 else none
index_of p (c ∷ s) =
    let rest = index_of p s in
    if starts_with (c ∷ s) p then some 0 else elim rest [ none ↦ none | some n ↦ some (n + 1) ]

-- Where a text, which is not empty, stands for the last time: `s.rfind(p)`.
abbrev pub last_index_of : Text → Text → Option ℕ
last_index_of p [] = none
last_index_of p (c ∷ s) = elim (last_index_of p s) [
  | some n ↦ some (n + 1)
  | none ↦ if starts_with (c ∷ s) p then some 0 else none
]

-- Whether a parenthesis closes on the line.
abbrev pub closes : Text → Bool
closes [] = false
closes (c ∷ s) = eqb c b')' || (not (eqb c 10) && closes s)

-- `re.sub(r"\(.*?\)", "", leaf)`: outside of parentheses, and in them.
unfoldable mutual
  pub outside : Text → Text
  outside [] = []
  outside (c ∷ s) =
      let within = inside s in
      let kept = outside s in if eqb c b'(' && closes s then within else c ∷ kept

  pub inside : Text → Text
  inside [] = []
  inside (c ∷ s) =
      let after = outside s in let within = inside s in if eqb c b')' then after else within

abbrev pub before_bracket : Text → Text
before_bracket [] = []
before_bracket (c ∷ s) = let rest = before_bracket s in if eqb c b']' then [] else c ∷ rest

-- `re.sub(r"\[[^\]]*\]\s*$", "", leaf)`, on the text turned around.
abbrev pub drop_brackets : Text → Text
drop_brackets s = elim (strip_prefix (codes "]") (trim s)) [
  | none ↦ s
  | some u ↦ elim (find_last (codes "[") (before_bracket u)) [
    | none ↦ s
    | some kept ↦ kept ++ rest_of (λ (c : ℕ). not (eqb c b']')) u
  ]
]

unfoldable pub method_of : Text → Text
unfolding outside
method_of leaf = strip (reverse (drop_brackets (reverse (outside leaf))))

unfoldable pub java_function_of : Text → Text
java_function_of test =
    with_head (get_or (before_last (codes "::") test) []) (method_of (after_last (codes "::") test))

-- `re.fullmatch` of a binary name.
abbrev pub is_identifier : Text → Bool
is_identifier [] = false
is_identifier (c ∷ s) =
    (is_letter c || eqb c b'_' || eqb c b'$') && all (λ (d : ℕ). is_word d || eqb d b'$') s

abbrev pub is_java_name : Text → Bool
is_java_name s = all is_identifier (split_on b'.' s)

abbrev pub case_key : Text → Text → Text
case_key classname n =
    let simple = after_last (codes ".") classname in
    elim (get_or (before_last (codes ".") classname) []) [
      | [] ↦ simple ++ codes "::" ++ n
      | c ∷ suite ↦ (c ∷ suite) ++ codes "::" ++ simple ++ codes "::" ++ n
    ]

-- The loop over the children of a case.
unfoldable pub outcome_of_tags : List Text → String
outcome_of_tags [] = "passed"
outcome_of_tags (tag ∷ tags) =
    let rest = outcome_of_tags tags in
    if contains (codes "failure" ∷ codes "error" ∷ []) tag
    then "failed"
    else if tag == codes "skipped"
    then "skipped"
    else rest

unfoldable pub cases_loop : Text → List TestCase → Dict Text String → Dict Text String
unfolding outcome_of_tags
cases_loop fallback [] results = results
cases_loop fallback (case ∷ cases) results =
    let classname = if is_java_name case.classname then case.classname else fallback in
    cases_loop fallback cases (
      if is_empty case.name_of
      then results
      else insert (case_key classname case.name_of) (outcome_of_tags case.tags) results)

unfoldable pub suites_loop : List TestSuite → Dict Text String → Dict Text String
unfolding cases_loop
suites_loop [] results = results
suites_loop (suite ∷ suites) results =
    suites_loop suites (cases_loop suite.name_of suite.cases results)

-- `text[start:end + len("</reports>")]`
abbrev pub document : Text → Option Text
document text = elim (index_of (codes "<reports>") text) [
  | none ↦ none
  | some start ↦ elim (last_index_of (codes "</reports>") text) [
    | none ↦ none
    | some end ↦ some (take (end + 10 - start) (drop start text))
  ]
]

unfoldable pub java_outcomes :
    (Text → Option (List TestSuite)) → Text → Text → Option (Dict Text String)
unfolding suites_loop
java_outcomes parse report stdout = elim (document (if is_empty report then stdout else report)) [
  | none ↦ none
  | some text ↦ elim (parse text) [
    | none ↦ none
    | some suites ↦
        let results = suites_loop suites [] in if is_nil results then none else some results
  ]
]

-- The loop over the tests of a batch, with `by_class`.
unfoldable pub by_class_loop : List Text → Dict Text (List Text) → Dict Text (List Text)
by_class_loop [] by_class = by_class
by_class_loop (test ∷ tests) by_class = by_class_loop tests (elim (split_text (codes "::") test) [
  | suite ∷ cls ∷ method ∷ more ↦
      insert cls (get_or (lookup cls by_class) [] ++ (method ∷ [])) by_class
  | _ ↦ by_class
])

abbrev pub select_class : Text × List Text → Text
select_class (cls, methods) = cls ++ codes "#" ++ join (codes "+") (sorted le_text (set_of methods))

unfoldable pub java_batch : Text → List Text → ℕ → ℕ → Batch
unfolding by_class_loop
java_batch suite tests offset timeout =
    let classes = sorted (λ (a b : Text × List Text). le_text a.0 b.0) (by_class_loop tests []) in
    let selector = join (codes ",") (map select_class classes) in
    record {
      command =
          codes "cd "
          ++ quote (codes "/eval/oracle")
          ++ codes " && rm -rf target/surefire-reports && timeout "
          ++ decimal timeout
          ++ codes " mvn -B -o test "
          ++ candidate_version_flags
          ++ codes " -Dtest="
          ++ quote selector
          ++ codes " -DfailIfNoSpecifiedTests=false -Dsurefire.failIfNoSpecifiedTests=false "
          ++ codes "> /dev/null 2>&1; "
          ++ codes "printf '<reports>' && cat target/surefire-reports/TEST-*.xml 2>/dev/null "
          ++ codes "| sed 's|<?xml[^>]*?>||g' && printf '</reports>'";
      report = none;
    }

-- A name of the list of a comment, without what qualifies it.
abbrev pub bare_name : Text → Text
bare_name raw =
    after_last (codes "::") (after_last (codes "#") (remove_prefix (codes "atomic::") (strip raw)))

unfoldable pub bare_names : List Text → List Text → List Text
bare_names [] dependencies = dependencies
bare_names (raw ∷ more) dependencies = bare_names more (
    if is_empty (bare_name raw) || contains dependencies (bare_name raw)
    then dependencies
    else dependencies ++ (bare_name raw ∷ []))

module _ {Host : Type 0} (host : JavaHost Host) where
  abbrev pub class_name : JavaSource → Text
  class_name source = get_or source.class_of source.stem

  unfoldable pub java_discover : Host → Text → List Text
  java_discover oracle suite =
      if not (host.is_dir oracle suite)
      then []
      else flat_map
          (λ (source : JavaSource).
            map
              (λ (m : Method). suite ++ codes "::" ++ class_name source ++ codes "::" ++ m.name_of)
              source.methods)
          (host.sources oracle suite)

  -- The comment that ends before a method with only annotations between them.
  abbrev pub comment_above : Text → Option Text
  comment_above prefix = elim (last_index_of (codes "*/") prefix) [
    | none ↦ none
    | some end ↦ elim (last_index_of (codes "/**") (take (end + 1) prefix)) [
      | none ↦ none
      | some start ↦
          if is_empty (strip (host.without_annotations (drop (end + 2) prefix)))
          then some (take (end + 2 - start) (drop start prefix))
          else none
    ]
  ]

  abbrev pub names_above : Text → List Text
  names_above prefix = elim (comment_above prefix) [
    | none ↦ []
    | some comment ↦ elim (host.depends_on comment) [
      | none ↦ []
      | some group ↦ bare_names (split_on b',' group) []
    ]
  ]

  unfoldable pub methods_loop : List Method → Dict Text (List Text) → Dict Text (List Text)
  methods_loop [] result = result
  methods_loop (m ∷ methods) result =
      let dependencies = names_above m.before in
      methods_loop methods
        (if is_nil dependencies then result else insert m.name_of dependencies result)

  unfoldable pub java_sources_loop : List JavaSource → Dict Text (List Text) → Dict Text (List Text)
  unfolding methods_loop
  java_sources_loop [] result = result
  java_sources_loop (source ∷ sources) result =
      java_sources_loop sources (methods_loop source.methods result)

  unfoldable pub java_dependencies : Host → Dict Text (List Text)
  unfolding java_sources_loop
  java_dependencies oracle =
      if not (host.is_dir oracle (codes "integration"))
      then []
      else java_sources_loop (host.sources oracle (codes "integration")) []

  unfoldable pub java_runner : Runner Host
  java_runner = record {
    discover = java_discover;
    setup = java_setup host.repr;
    batch = java_batch;
    outcomes = λ report stdout. some (java_outcomes host.parse report stdout);
    function_of = java_function_of;
    synthetic_id = λ suite. suite ++ codes "::Placeholder::placeholder";
    dependencies = java_dependencies;
    provenance = java_provenance host.repr host.repr_names;
  }
