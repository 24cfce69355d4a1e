-- ===== src/Sandbox/Provenance.antt =====
-- harness/sandbox.py: `_check_provenance`, which audits that the target modules resolve inside the
-- candidate's workspace.
pub mod Laws
use bmk_dev.Base.{
  Bool, true, false, ◌&&◌, ◌||◌, not, Option, none, some, List, [], ◌∷◌, ◌++◌, ◌==◌, list_eq,
  nat_eq, if◌then◌else◌, any, keep,
}
use bmk_dev.Base.Text.{Text, codes, starts_with, strip, first_line, after_first, is_empty}
use bmk_dev.Runners.{Runner, Env}
use bmk_dev.Sandbox.Docker.{Process, Exec, exec, pure, ◌>>=◌}

-- One row of the probe's output, as `json.loads` gives it.
pub record Row : Type 0 where
  pub name : Text
  pub error : Option Text
  pub paths : List Text
  pub direct_urls : List Text

-- A row that fails the audit.
pub data Bad : Type 0 where
  import_failed : Text → Text → Bad
  resolved_outside : Text → List Text → Bad

pub data Provenance : Type 0 where
  no_target_roots probe_failed output_invalid : Provenance
  outside_workspace : List Bad → Provenance

abbrev pub workspace : Text
workspace = codes "/eval/workspace"

abbrev pub is_inside : Text → Bool
is_inside p = p == workspace || starts_with p (workspace ++ codes "/")

abbrev pub is_workspace_url : Text → Bool
is_workspace_url u = starts_with u (codes "file://" ++ workspace)

abbrev pub resolved : Row → List Bad
resolved row =
    let paths : List Text = keep (λ p. not (is_empty p)) row.paths in
    if not (any is_inside paths) && not (any is_workspace_url row.direct_urls)
    then resolved_outside row.name paths ∷ []
    else []

-- The body of the loop over the rows.
unfoldable pub bad_of : Row → List Bad
bad_of row = elim row.error [
  | none ↦ resolved row
  | some [] ↦ resolved row
  | some (c ∷ error) ↦ import_failed row.name (c ∷ error) ∷ []
]

unfoldable pub bad_rows : List Row → List Bad
bad_rows [] = []
bad_rows (row ∷ rows) = bad_of row ++ bad_rows rows

module _ (loads : Text → Option (List Row)) where
  -- From the output of the probe on; `loads` is `json.loads` of the probe's line.
  unfoldable pub judge : Text → Option Provenance
  judge output = elim (after_first (codes "__PROVENANCE__") output) [
    | none ↦ some probe_failed
    | some rest ↦
        let line = first_line (strip rest) in
        if is_empty (strip rest) then some output_invalid else elim (loads line) [
          | none ↦ some output_invalid
          | some rows ↦ elim (bad_rows rows) [
            | [] ↦ none
            | b ∷ bad ↦ some (outside_workspace (b ∷ bad))
          ]
        ]
  ]

  module _ {World : Type 0} (run : Process World) where
    audit : Text → Option Text → Exec World (Text × Option Provenance)
    audit cid none = pure (codes "provenance audit not available for this language", none)
    audit cid (some probe) = do output ← exec run cid probe 60 false; pure (output, judge output)

    unfoldable pub check_provenance :
        {Host : Type 0} → Text → Runner Host → Env Host → Exec World (Text × Option Provenance)
    unfolding audit
    check_provenance cid runner env = elim env.target_modules [
      | [] ↦ pure ([], some no_target_roots)
      | _ ∷ _ ↦ audit cid (runner.provenance env)
    ]
