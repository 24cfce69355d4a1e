-- ===== src/Sandbox/Score/PythonTask.antt =====
-- The score of a Python task: the keys of its two suites are apart, so the bounds hold of every
-- result.
use bmk_dev.Base.{
  ◌≤◌, false, Option, some, List, [], ◌∷◌, ◌++◌, ◌≡◌, refl, list_eq, nat_eq, Bool-cases,
  Option-cases, inl, inr, arith, map, ==-cases,
}
use mathlib.Core.Option.{or_else}
use bmk_dev.Base.Text.{Text, codes, starts_with}
use bmk_dev.Base.Floats.{Floats}
use bmk_dev.Base.Dict.{Dict}
use bmk_dev.Runners.{Runner}
use bmk_dev.Runners.Python.{PythonHost, python_runner, discover, suite_file, function_of}
use bmk_dev.Runners.Python.Keys.{AllBehind, atomic_key, integration_key, discover_loop-behind}
use bmk_dev.Sandbox.Gap.{suite_prefix}
use bmk_dev.Sandbox.Results.{error_result}
use bmk_dev.Sandbox.Score.{Machine, score, get_runner, chosen_language}
use bmk_dev.Sandbox.Score.Every.{score_every}
use bmk_dev.Sandbox.Score.Bounds.{Apart, finish-bounds}

-- Where each id's key refuses a prefix, no key of the ids begins with it.
refused_keys :
    (prefix front : Text)
    → ((rest : Text) → starts_with (function_of (front ++ rest)) prefix ≡ false)
    → (ids : List Text) → AllBehind front ids
    → Apart prefix (map function_of ids)
refused_keys prefix front refuses [] behind k h = cc
refused_keys prefix front refuses (id ∷ ids) ((rest, same), behind) k h =
    elim (==-cases k (function_of id)) [
      | inl (t, here) ↦ rw (here, same) (refuses rest)
      | inr (f, differ) ↦ refused_keys prefix front refuses ids behind k (ground arith)
    ]

module _ {Host : Type 0} (host : PythonHost Host) (oracle : Host) where
  discover-AllBehind :
      (suite : Text) → AllBehind (suite_file suite ++ codes "::") (discover host oracle suite)
  unfolding discover
  discover-AllBehind suite = elim (Bool-cases (host.exists oracle (suite_file suite))) [
    | inr absent ↦ rw absent tt
    | inl present ↦ elim (Option-cases (host.parse oracle (suite_file suite))) [
      | inl unreadable ↦ rw (present, unreadable) tt
      | inr (tree, parsed) ↦
          rw (present, parsed) (discover_loop-behind (suite_file suite ++ codes "::") tree.body)
    ]
  ]

  integration_ids-Apart :
      Apart
        (suite_prefix (python_runner host) (codes "atomic") ++ codes "::")
        (map function_of (discover host oracle (codes "integration")))
  unfolding suite_prefix python_runner function_of or_else
  integration_ids-Apart =
      refused_keys (codes "test_atomic::") (suite_file (codes "integration") ++ codes "::")
        (λ rest. let (more, key) = integration_key rest in rw key refl) _
        (discover-AllBehind (codes "integration"))

  atomic_ids-Apart :
      Apart
        (suite_prefix (python_runner host) (codes "integration") ++ codes "::")
        (map function_of (discover host oracle (codes "atomic")))
  unfolding suite_prefix python_runner function_of or_else
  atomic_ids-Apart =
      refused_keys (codes "test_integration::") (suite_file (codes "atomic") ++ codes "::")
        (λ rest. let (more, key) = atomic_key rest in rw key refl) _
        (discover-AllBehind (codes "atomic"))

module _ (F : Floats) {World Host : Type 0} (machine : Machine World Host)
    (host : PythonHost Host) where
  -- Where the registered runner of the task's language is the Python runner, no score has more
  -- passes than tests in a suite, whatever the container did and whatever the candidate's reports
  -- held.
  pub score-within_totals :
      (registry : Dict Text (Runner Host)) (task_language : Text → Option Text)
      (image : Option Text) (cid task_id : Text) (workspace oracle : Host) (extra : Option Host)
      (language : Option Text) (w : World)
      → get_runner registry (chosen_language (task_language task_id) language)
        ≡ some (python_runner host)
      → (let r =
            (score F machine registry task_language image cid task_id workspace oracle extra
              language w).0 in
          (r.atomic_passed ≤ r.atomic_total) × (r.integration_passed ≤ r.integration_total))
  unfolding python_runner error_result
  score-within_totals registry task_language image cid task_id workspace oracle extra language w h =
      score_every F machine (python_runner host) cid task_id oracle
        (λ r. (r.atomic_passed ≤ r.atomic_total) × (r.integration_passed ≤ r.integration_total))
        (λ why log provenance. (omega arith, omega arith))
        (λ log provenance a i ka ki.
          finish-bounds F (python_runner host) task_id oracle _ _ log provenance a i ka.0 ki.0
            (integration_ids-Apart host oracle) (atomic_ids-Apart host oracle))
        registry task_language image workspace extra language w h
