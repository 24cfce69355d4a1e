-- ===== src/Runners/PythonSetup.antt =====
-- harness/lang/python/runner.py: the preparation of a container by `PythonRunner`, and its probe.
use bmk_dev.Base.{Bool, true, false, Option, none, some, List, [], ◌∷◌, ◌++◌, if◌then◌else◌, is_nil}
use bmk_dev.Base.Text.{Text, codes, quote, join}
use bmk_dev.Runners.{Step, Env, step_of}

abbrev pub pip : Text
pip = codes "pip install --no-cache-dir"

module _ {Host : Type 0} (exists : Host → Text → Bool) where
  abbrev has_requirements : Option Host → Bool
  has_requirements none = false
  has_requirements (some host) = exists host (codes "requirements.txt")

  unfoldable pub install_candidate : Env Host → List Step
  install_candidate env =
      let pth =
        codes "echo "
        ++ env.workspace
        ++ codes " > $(python3 -c 'import site; print(site.getsitepackages()[0])')/ws.pth" in
      (if has_requirements env.workspace_host
        then record (step_of
            (pip ++ codes " -r " ++ env.workspace ++ codes "/requirements.txt -q 2>&1")) {
              capture = true;
            }
          ∷ []
        else [])
      ++ (record (step_of (
            codes "cd "
            ++ env.workspace
            ++ codes " && "
            ++ codes "if [ -f pyproject.toml ] || [ -f setup.py ] || [ -f setup.cfg ]; then "
            ++ pip
            ++ codes " -e . -q 2>&1 || "
            ++ pip
            ++ codes " . -q 2>&1 || "
            ++ codes "("
            ++ pth
            ++ codes " && echo 'fallback: sys.path pth'); "
            ++ codes "else "
            ++ pth
            ++ codes " && echo 'no packaging metadata: sys.path pth'; fi")) { capture = true }
          ∷ [])

  abbrev extra_steps : Option Text → List Step
  extra_steps none = []
  extra_steps (some []) = []
  extra_steps (some (c ∷ path)) =
      record (step_of (pip ++ codes " -r " ++ quote (c ∷ path) ++ codes " -q")) { required = true }
      ∷ []

  unfoldable pub setup : Env Host → List Step
  unfolding install_candidate
  setup env =
      (record (step_of
          (pip ++ codes " pytest pytest-timeout pytest-json-report pytest-asyncio -q")) {
            timeout = 180;
            required = true;
          }
        ∷ [])
      ++ (if has_requirements env.oracle_host
          then record (step_of
              (pip ++ codes " -r " ++ env.oracle ++ codes "/requirements.txt -q")) {
                required = true;
              }
            ∷ []
          else [])
      ++ extra_steps env.extra_requirements
      ++ (if is_nil env.shadowing
          then []
          else record (step_of (codes "pip uninstall -y " ++ join (codes " ") env.shadowing)) {
            timeout = 60;
          }
            ∷ [])
      ++ install_candidate env

-- The script of the probe; `repr` writes the list of the names.
unfoldable probe_head : Text
probe_head = codes "import json, os\nimport importlib.metadata as md\nnames = "

unfoldable probe_tail : Text
probe_tail =
    codes "\nrows = []\nprovider_map = md.packages_distributions()\nfor n in names:\n"
    ++ codes "    row = {'name': n, 'paths': [], 'error': None, 'direct_urls': []}\n    try:\n"
    ++ codes "        m = __import__(n)\n        f = getattr(m, '__file__', None)\n        if f:\n"
    ++ codes "            row['paths'].append(os.path.realpath(f))\n"
    ++ codes "        for p in list(getattr(m, '__path__', []) or []):\n"
    ++ codes "            row['paths'].append(os.path.realpath(str(p)))\n"
    ++ codes "        # PEP 610: a non-editable `pip install /eval/workspace` copies\n"
    ++ codes "        # code into site-packages but records its source in\n"
    ++ codes "        # direct_url.json - that is still candidate code.\n"
    ++ codes "        for dist_name in provider_map.get(n, []):\n            try:\n"
    ++ codes "                dist = md.distribution(dist_name)\n"
    ++ codes "                raw = dist.read_text('direct_url.json')\n                if raw:\n"
    ++ codes "                    row['direct_urls'].append(json.loads(raw).get('url', ''))\n"
    ++ codes "            except Exception:\n                pass\n    except BaseException as e:\n"
    ++ codes "        row['error'] = f'{type(e).__name__}: {e}'\n    rows.append(row)\n"
    ++ codes "print('__PROVENANCE__' + json.dumps(rows, sort_keys=True))\n"

unfoldable pub provenance : {Host : Type 0} → (List Text → Text) → Env Host → Option Text
unfolding probe_head probe_tail
provenance repr env =
    if is_nil env.target_modules
    then none
    else some (codes "python3 -c " ++ quote (probe_head ++ repr env.target_modules ++ probe_tail))
