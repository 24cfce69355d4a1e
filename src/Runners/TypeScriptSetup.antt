-- ===== src/Runners/TypeScriptSetup.antt =====
-- harness/lang/typescript/runner.py: the preparation of a container by `TypeScriptRunner`, and its
-- probe. The package manager's order is the source's: the oracle's own dependencies come before the
-- candidate is linked in.
use bmk_dev.Base.{true, false, Option, none, some, List, [], ◌∷◌, ◌++◌, map}
use bmk_dev.Base.Text.{Text, codes, quote}
use bmk_dev.Runners.{Step, Env}

abbrev pub check_tools : Step
check_tools = record {
  command = codes "node --version && npm --version";
  timeout = 60;
  required = true;
  capture = false;
}

abbrev pub install_delivery : Text → Step
install_delivery workspace = record {
  command =
      codes "cd "
      ++ workspace
      ++ codes " && if [ -f package.json ]; then npm install --no-audit --no-fund 2>&1; fi";
  timeout = 600;
  required = false;
  capture = true;
}

abbrev pub install_oracle : Text → Step
install_oracle oracle = record {
  command = codes "cd " ++ oracle ++ codes " && npm install --no-audit --no-fund 2>&1";
  timeout = 900;
  required = false;
  capture = true;
}

abbrev pub link_module : Text → Text → Text → Step
link_module oracle workspace target = record {
  command =
      codes "cd "
      ++ oracle
      ++ codes " && npm install --no-save "
      ++ quote (target ++ codes "@file:" ++ workspace)
      ++ codes " 2>&1";
  timeout = 600;
  required = false;
  capture = true;
}

unfoldable pub ts_setup : {Host : Type 0} → Env Host → List Step
ts_setup env =
    check_tools
    ∷ install_delivery env.workspace
    ∷ install_oracle env.oracle
    ∷ map (link_module env.oracle env.workspace) env.target_modules

-- The script of the probe; `dumps` is `json.dumps`.
abbrev pub probe_text : (List Text → Text) → List Text → Text
probe_text dumps names =
    codes "const rows = [];\nfor (const name of "
    ++ dumps names
    ++ codes ") {\n  const row = {name, paths: [], direct_urls: [], error: null};\n"
    ++ codes "  try { row.paths.push(require.resolve(name, {paths: [process.cwd()]})); }\n"
    ++ codes "  catch (e) { row.error = `${e.code || e.name}: ${e.message}`; }\n"
    ++ codes "  rows.push(row);\n}\nconsole.log('__PROVENANCE__' + JSON.stringify(rows));\n"

abbrev pub probe_command : (List Text → Text) → Text → List Text → Option Text
probe_command dumps oracle [] = none
probe_command dumps oracle (target ∷ targets) =
    some
      (codes "cd " ++ oracle ++ codes " && node -e " ++ quote (probe_text dumps (target ∷ targets)))

unfoldable pub ts_provenance : {Host : Type 0} → (List Text → Text) → Env Host → Option Text
ts_provenance dumps env = probe_command dumps env.oracle env.target_modules
