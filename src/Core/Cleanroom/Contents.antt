-- ===== src/Core/Cleanroom/Contents.antt =====
-- What a cleanroom that is made holds.
use bmk_dev.Base.{
  split_nil, Bool, true, false, ◌&&◌, not, Option, none, some, [], ◌∷◌, ◌++◌, contains, list_eq,
  nat_eq, ◌==◌, if◌then◌else◌, is_nil, any, ◌≡◌, ◌⊎◌, refl, inl, inr, arith, Bool-cases,
  Option-cases,
}
use mathlib.Core.Path.{subst}
use bmk_dev.Base.Text.{Text, codes, starts_with, has_text, lower}
use bmk_dev.Core.Cleanroom.{
  PathBelow, Entries, TaskDir, Manifest, made, banned_names, is_generated, last_name, hits,
  leaked_loop, copy_tree, starter_entries, packet_file, prompt, manifest_of, public_entries,
  all_entries, assert_no_banned_paths, finish_workspace, create_cleanroom,
}

abbrev pub Among : PathBelow → Option Text → Entries → Type 0
Among path item [] = ⊥
Among path item ((p, n) ∷ entries) = ((path ≡ p) × (item ≡ n)) ⊎ Among path item entries

module _ (task : TaskDir) (include : Bool) where
  -- Where an entry of a workspace comes from.
  pub data IsPublic : PathBelow → Option Text → Type 0 where
    solution_directory : IsPublic (codes "solution" ∷ []) none
    packet_directory : IsPublic (codes "public_packet" ∷ []) none
    starter_directory : IsPublic (codes "starter" ∷ []) none
    own_prompt : (text : Text) → IsPublic (codes "task_prompt.txt" ∷ []) (some text)
    own_manifest : (text : Text) → IsPublic (codes "cleanroom_manifest.json" ∷ []) (some text)
    task_spec :
        (text : Text)
        → task.read (codes "spec.md" ∷ []) ≡ some text
        → IsPublic (codes "public_packet" ∷ codes "spec.md" ∷ []) (some text)
    task_prd :
        (text : Text)
        → task.read (codes "spec.md" ∷ []) ≡ none
        → task.read (codes "prd.md" ∷ []) ≡ some text
        → IsPublic (codes "public_packet" ∷ codes "prd.md" ∷ []) (some text)
    task_packet :
        (text : Text)
        → task.read (codes "candidate_task" ∷ codes "public_packet.md" ∷ []) ≡ some text
        → IsPublic (codes "public_packet" ∷ codes "public_packet.md" ∷ []) (some text)
    task_source_repo :
        (text : Text)
        → include ≡ true
        → task.read (codes "doc" ∷ codes "source_repo.md" ∷ []) ≡ some text
        → IsPublic (codes "public_packet" ∷ codes "source_repo.md" ∷ []) (some text)
    from_starter :
        (entries : Entries) (path : PathBelow) (item : Option Text)
        → task.starter ≡ some entries
        → Among path item entries
        → any is_generated path ≡ false
        → IsPublic (codes "starter" ∷ path) item

  abbrev pub AllPublic : Entries → Type 0
  AllPublic [] = Unit
  AllPublic ((path, item) ∷ entries) = IsPublic path item × AllPublic entries

  AllPublic-append : (xs ys : Entries) → AllPublic xs → AllPublic ys → AllPublic (xs ++ ys)
  AllPublic-append [] ys tt q = q
  AllPublic-append (x ∷ xs) ys (one, more) q = (one, AllPublic-append xs ys more q)

  copy_tree-AllPublic :
      (all rest : Entries)
      → task.starter ≡ some all
      → ((path : PathBelow) (item : Option Text) → Among path item rest → Among path item all)
      → AllPublic (copy_tree rest)
  unfolding copy_tree
  copy_tree-AllPublic all [] e within = tt
  copy_tree-AllPublic all ((path, item) ∷ rest) e within =
      let later = copy_tree-AllPublic all rest e (λ p n among. within p n (inr among)) in
      elim (Bool-cases (any is_generated path)) [
        | inl generated ↦ rw generated later
        | inr kept ↦
            rw kept (from_starter all path item e (within path item (inl (refl, refl))) kept, later)
      ]

  own-AllPublic :
      (prompt_text manifest_text : Text)
      → AllPublic (
          (codes "task_prompt.txt" ∷ [], some prompt_text)
          ∷ (codes "cleanroom_manifest.json" ∷ [], some manifest_text)
          ∷ [])
  own-AllPublic prompt_text manifest_text =
      (own_prompt prompt_text, (own_manifest manifest_text, tt))

  starter-AllPublic :
      (starter : Option Entries) → task.starter ≡ starter → AllPublic (starter_entries starter)
  starter-AllPublic none e = tt
  starter-AllPublic (some entries) e =
      (starter_directory, copy_tree-AllPublic entries entries e (λ p n among. among))

  packet-AllPublic :
      (found : Option Text)
      → task.read (codes "candidate_task" ∷ codes "public_packet.md" ∷ []) ≡ found
      → AllPublic (packet_file (codes "public_packet.md") found)
  packet-AllPublic none e = tt
  packet-AllPublic (some text) e = (task_packet text e, tt)

  source_repo-AllPublic :
      (b : Bool) (found : Option Text)
      → include ≡ b
      → task.read (codes "doc" ∷ codes "source_repo.md" ∷ []) ≡ found
      → AllPublic (if b then packet_file (codes "source_repo.md") found else [])
  source_repo-AllPublic false found i e = tt
  source_repo-AllPublic true none i e = tt
  source_repo-AllPublic true (some text) i e = (task_source_repo text i e, tt)

-- The packet holds the task's spec with its text or, where it has none, its prd.
abbrev pub IsSpecified : TaskDir → Entries → Type 0
IsSpecified task entries =
    ((text : Text) × (task.read (codes "spec.md" ∷ []) ≡ some text)
      × Among (codes "public_packet" ∷ codes "spec.md" ∷ []) (some text) entries)
    ⊎ ((text : Text) × (task.read (codes "spec.md" ∷ []) ≡ none)
        × (task.read (codes "prd.md" ∷ []) ≡ some text)
        × Among (codes "public_packet" ∷ codes "prd.md" ∷ []) (some text) entries)

-- No entry has a name that a test of `_assert_no_banned_paths` finds.
abbrev pub NoneBanned : Entries → Type 0
NoneBanned [] = Unit
NoneBanned ((path, _) ∷ entries) =
    (contains banned_names (last_name path) ≡ false)
    × (has_text (codes "score_report") (lower (last_name path)) ≡ false)
    × ((starts_with (last_name path) (codes "solution-")
          && not (last_name path == codes "solution"))
        ≡ false)
    × NoneBanned entries

no_hit : (b : Bool) (path : PathBelow) → (if b then path ∷ [] else []) ≡ [] → b ≡ false
no_hit true path h = absurd (ground arith)
no_hit false path h = refl

leaked_loop-NoneBanned : (entries : Entries) → leaked_loop entries ≡ [] → NoneBanned entries
unfolding leaked_loop
leaked_loop-NoneBanned [] h = tt
leaked_loop-NoneBanned ((path, item) ∷ entries) h =
    let (here, later) = split_nil (hits (last_name path) path) _ h in
    let (first_two, third) = split_nil _ _ here in
    let (one, two) = split_nil _ _ first_two in
    (
      no_hit _ path one,
      no_hit _ path two,
      no_hit _ path third,
      leaked_loop-NoneBanned entries later,
    )

module _ (dumps : Manifest → Text) (task : TaskDir)
    (output_root run_id program_file model_label : Text) (include : Bool) where
  abbrev Made : Entries → Type 0
  Made entries = AllPublic task include entries × NoneBanned entries

  assert-NoneBanned :
      (entries result : Entries)
      → assert_no_banned_paths dumps task output_root run_id program_file model_label include
          entries
        ≡ made result
      → (leaked_loop entries ≡ []) × (entries ≡ result)
  unfolding assert_no_banned_paths
  assert-NoneBanned entries result h = elim (Bool-cases (is_nil (leaked_loop entries))) [
    | inl clean ↦ (ground arith, ground arith)
    | inr found ↦ absurd (ground arith)
  ]

  finish_workspace-Made :
      (spec result : Entries)
      → AllPublic task include spec
      → finish_workspace dumps task output_root run_id program_file model_label include spec
        ≡ made result
      → Made result
  finish_workspace-Made spec result public h =
      let (clean, same) = assert-NoneBanned _ result h in
      let packet =
        AllPublic-append task include _ _ public (packet-AllPublic task include _ refl) in
      let with_source =
        AllPublic-append task include _ _ packet
          (source_repo-AllPublic task include include _ refl refl) in
      let shown =
        AllPublic-append task include _ _ with_source
          (starter-AllPublic task include task.starter refl) in
      let front : AllPublic task include
          (public_entries dumps task output_root run_id program_file model_label include spec) =
        (packet_directory, shown) in
      let public_part =
        public_entries dumps task output_root run_id program_file model_label include spec in
      let entries =
        all_entries dumps task output_root run_id program_file model_label include public_part in
      let whole : AllPublic task include entries = (
        solution_directory,
        AllPublic-append task include public_part
            ((
              codes "task_prompt.txt" ∷ [],
              some (prompt dumps task output_root run_id program_file model_label include),
            )
              ∷ (
                codes "cleanroom_manifest.json" ∷ [],
                some (
                    dumps (
                      manifest_of dumps task output_root run_id program_file model_label include
                        public_part)),
              )
              ∷ [])
            front
            (own-AllPublic task include
              (prompt dumps task output_root run_id program_file model_label include)
              (dumps (
                manifest_of dumps task output_root run_id program_file model_label include
                  public_part))),
      ) in
      subst Made same (whole, leaked_loop-NoneBanned entries clean)

  finish_workspace-Among :
      (path : PathBelow) (item : Option Text) (result : Entries)
      → finish_workspace dumps task output_root run_id program_file model_label include
          ((path, item) ∷ [])
        ≡ made result
      → Among path item result
  finish_workspace-Among path item result h =
      let (_, same) = assert-NoneBanned _ result h in
      subst (Among path item) same (inr (inr (inl (refl, refl))))

  -- A cleanroom is made only where no workspace of its name was, and only of a task with a spec or
  -- a prd: the packet holds the spec with its text or, without one, the prd. Each of its entries is then a directory of its own, the prompt, the
  -- manifest, a public file of the task with its text, the note on the source repository only where
  -- it is asked for, or an entry of the starter that is not generated; and no test of a banned name
  -- finds one of them.
  pub create_cleanroom-made :
      (exists : Bool) (result : Entries)
      → create_cleanroom dumps task output_root run_id program_file model_label include exists
        ≡ made result
      → (exists ≡ false)
        × IsSpecified task result
        × AllPublic task include result
        × NoneBanned result
  unfolding create_cleanroom
  create_cleanroom-made true result h = absurd (ground arith)
  create_cleanroom-made false result h = elim (Option-cases (task.read (codes "spec.md" ∷ []))) [
    | inr (text, spec) ↦
        let (public, clean) =
          finish_workspace-Made (packet_file (codes "spec.md") (some text)) result
            (task_spec text spec, tt) (ground arith) in
        let held = finish_workspace-Among _ (some text) result (ground arith) in
        (refl, inl (text, spec, held), public, clean)
    | inl no_spec ↦ elim (Option-cases (task.read (codes "prd.md" ∷ []))) [
      | inr (text, prd) ↦
          let (public, clean) =
            finish_workspace-Made (packet_file (codes "prd.md") (some text)) result
              (task_prd text no_spec prd, tt) (ground arith) in
          let held = finish_workspace-Among _ (some text) result (ground arith) in
          (refl, inr (text, no_spec, prd, held), public, clean)
      | inl no_prd ↦ absurd (ground arith)
    ]
  ]
