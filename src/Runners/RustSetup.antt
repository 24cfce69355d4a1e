-- ===== src/Runners/RustSetup.antt =====
-- harness/lang/rust/runner.py: the preparation of a container by `RustRunner`, and its probe. The
-- packages of the candidate's workspace are an argument; `none` stands for no manifest or an
-- exception.
use bmk_dev.Base.{
  ◌&&◌, true, not, Option, none, some, List, [], ◌∷◌, ◌++◌, map, contains, list_eq, nat_eq,
  if◌then◌else◌, is_nil,
}
use mathlib.Core.Option.{get_or}
use bmk_dev.Base.Text.{Text, codes, join, quote}
use bmk_dev.Base.Dict.{Dict, insert, lookup}
use bmk_dev.Runners.{Step, Env, step_of}

-- A package: its directory below the root, and its version.
pub record Package : Type 0 where
  pub name_of : Text
  pub rel : Text
  pub version : Text

-- The dict comprehensions over the packages.
unfoldable pub rels : List Package → Dict Text Text → Dict Text Text
rels [] found = found
rels (pkg ∷ packages) found = rels packages (insert pkg.name_of pkg.rel found)

unfoldable pub versions : List Text → List Package → Dict Text Text → Dict Text Text
versions targets [] found = found
versions targets (pkg ∷ packages) found = versions targets packages (
    if contains targets pkg.name_of && not (is_nil pkg.version)
    then insert pkg.name_of pkg.version found
    else found)

-- `_patch_paths` of a crate
abbrev pub patch_path : Text → Option (List Package) → Text → Text
patch_path workspace none crate = workspace
patch_path workspace (some packages) crate = elim (lookup crate (rels packages [])) [
  | none ↦ workspace
  | some rel ↦ workspace ++ codes "/" ++ rel
]

-- `_patch_versions`
abbrev pub patch_versions : List Text → Option (List Package) → Dict Text Text
patch_versions targets none = []
patch_versions targets (some packages) = versions targets packages []

abbrev pub update_command : Dict Text Text → Text → Text
update_command known crate = elim (get_or (lookup crate known) []) [
  | [] ↦ codes "cargo update -p " ++ quote crate ++ codes " 2>&1"
  | c ∷ version ↦
      codes "cargo update -p "
      ++ quote crate
      ++ codes " --precise "
      ++ quote (c ∷ version)
      ++ codes " 2>&1"
]

abbrev pub patch_text : Text → Option (List Package) → List Text → Text
patch_text workspace packages targets =
    join (codes "\n") (
      []
      ∷ codes "[patch.crates-io]"
      ∷ map
          (λ (crate : Text).
            crate ++ codes " = { path = \"" ++ patch_path workspace packages crate ++ codes "\" }")
          targets)
    ++ codes "\n"

abbrev pub patch_steps : {Host : Type 0} → Option (List Package) → Env Host → List Step
patch_steps packages env =
    if is_nil env.target_modules
    then []
    else record (step_of (
        codes "cd "
        ++ env.oracle
        ++ codes " && printf %s "
        ++ quote (patch_text env.workspace packages env.target_modules)
        ++ codes " >> Cargo.toml")) { timeout = 60; required = true }
      ∷ record (step_of (
          codes "cd "
          ++ env.oracle
          ++ codes " && "
          ++ join (codes " && ") (
              map (update_command (patch_versions env.target_modules packages))
                env.target_modules))) { timeout = 600; capture = true }
      ∷ []

unfoldable pub rust_setup : {Host : Type 0} → Option (List Package) → Env Host → List Step
unfolding rels versions
rust_setup packages env =
    (record (step_of (codes "cargo --version && cargo nextest --version")) {
      timeout = 120;
      required = true;
    }
      ∷ [])
    ++ patch_steps packages env
    ++ (record (step_of (codes "cd " ++ env.workspace ++ codes " && cargo fetch 2>&1")) {
      timeout = 600;
      capture = true;
    }
        ∷ record (step_of (codes "cd " ++ env.oracle ++ codes " && cargo fetch 2>&1")) {
          timeout = 600;
          capture = true;
        }
        ∷ record (step_of
            (codes "cd " ++ env.oracle ++ codes " && cargo nextest run --no-run 2>&1")) {
              timeout = 900;
              capture = true;
              required = true;
            }
        ∷ [])

-- The script that reshapes the metadata, for the `repr` of the names.
abbrev pub reshape_of : Text → Text
reshape_of names_repr =
    codes "import json, sys\nnames = "
    ++ names_repr
    ++ codes "\npackages = {p['name']: p for p in json.load(sys.stdin).get('packages', [])}\n"
    ++ codes "rows = [{'name': n,\n"
    ++ codes "         'paths': [packages[n]['manifest_path']] if n in packages else [],\n"
    ++ codes "         'direct_urls': [],\n"
    ++ codes "         'error': None if n in packages else 'absent from cargo metadata'}\n"
    ++ codes "        for n in names]\n"
    ++ codes "print('__PROVENANCE__' + json.dumps(rows, sort_keys=True))\n"

unfoldable pub rust_provenance : {Host : Type 0} → (List Text → Text) → Env Host → Option Text
rust_provenance repr env =
    if is_nil env.target_modules
    then none
    else some (
        codes "cd "
        ++ quote env.oracle
        ++ codes " && cargo metadata --format-version 1 2>/dev/null | python3 -c "
        ++ quote (reshape_of (repr env.target_modules)))
