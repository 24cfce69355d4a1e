-- ===== src/Runners/GoSetup.antt =====
-- harness/lang/go/runner.py: the preparation of a container by `GoRunner`, and its probe.
use bmk_dev.Base.{true, Option, none, some, List, [], ◌∷◌, ◌++◌}
use bmk_dev.Base.Text.{Text, codes, quote}
use bmk_dev.Runners.{Step, Env, step_of}

abbrev replace_step : {Host : Type 0} → Env Host → List Step
replace_step env = elim env.target_modules [
  | [] ↦ []
  | [] ∷ _ ↦ []
  | (c ∷ path) ∷ _ ↦
      record (step_of (
        codes "cd "
        ++ env.oracle
        ++ codes " && go mod edit -replace="
        ++ quote (c ∷ path)
        ++ codes "="
        ++ env.workspace)) { timeout = 60; required = true }
      ∷ []
]

unfoldable pub setup : {Host : Type 0} → Env Host → List Step
setup env =
    (record (step_of (codes "go version")) { timeout = 60; required = true } ∷ [])
    ++ replace_step env
    ++ (record (step_of (codes "cd " ++ env.workspace ++ codes " && go mod tidy 2>&1")) {
      capture = true;
    }
        ∷ record (step_of (codes "cd " ++ env.oracle ++ codes " && go mod tidy 2>&1")) {
          capture = true;
        }
        ∷ record (step_of (codes "cd " ++ env.workspace ++ codes " && go build ./... 2>&1")) {
          capture = true;
        }
        ∷ [])

-- The script of the probe, for the `repr` of the module and of the oracle's directory.
abbrev probe_of : Text → Text → Text
probe_of module_repr oracle_repr =
    codes "import json, subprocess, sys\nmodule = "
    ++ module_repr
    ++ codes "\noracle = "
    ++ oracle_repr
    ++ codes "\nrows = []\ntry:\n"
    ++ codes "    out = subprocess.run(['go', 'list', '-m', '-f', '{{.Dir}}', module],\n"
    ++ codes "                         cwd=oracle, capture_output=True, text=True, timeout=60)\n"
    ++ codes "    path = out.stdout.strip()\n"
    ++ codes "    rows.append({'name': module, 'paths': [path] if path else [],\n"
    ++ codes "                 'error': out.stderr.strip() or None, 'direct_urls': []})\n"
    ++ codes "except Exception as exc:\n"
    ++ codes "    rows.append({'name': module, 'paths': [], 'direct_urls': [],\n"
    ++ codes "                 'error': f'{type(exc).__name__}: {exc}'})\n"
    ++ codes "print('__PROVENANCE__' + json.dumps(rows, sort_keys=True))\n"

unfoldable pub provenance : {Host : Type 0} → (Text → Text) → Env Host → Option Text
provenance repr env = elim env.target_modules [
  | [] ↦ none
  | path ∷ _ ↦ some (codes "python3 -c " ++ quote (probe_of (repr path) (repr env.oracle)))
]
