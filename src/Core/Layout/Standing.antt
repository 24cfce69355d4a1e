-- ===== src/Core/Layout/Standing.antt =====
-- Where a packet stands: its place, its tier, its language and its verdict agree, and the copy
-- under `tasks/` is the one that is resolved.
use bmk_dev.Base.{
  true, false, Option, none, some, List, [], ◌∷◌, ◌==◌, contains, nat_eq, list_eq, option_eq, ◌≡◌,
  refl, sym, ◌∙◌, arith, Bool-cases, Option-cases, inl, inr, ◌⊎◌, ==-cases, ==-self, length, ◌≤◌,
  ◌+◌, ap,
}
use mathlib.Core.Option.{or_else, none-ne-some, some-injective}
use bmk_dev.Base.Text.{Text, codes}
use bmk_dev.Base.Dict.{lookup, lookup-nil, lookup-update}
use bmk_dev.Core.Layout.{
  Location, Disk, parents, languages, packet_dirname, bucketed, graduated_dirs, benched_packet_dirs,
  task_dir, tasks, benches, tier_of, language_of, language_loop, verdict_path, bench_dir,
}
use bmk_dev.Core.Layout.Laws.{
  IsPlaced, bucketed-NodupKeys, bucketed-IsPlaced, packet_in, packet_loop-lookup,
}

-- A path is no longer than what it has below it.
contains-parents-length : (p q : Location) → contains (parents p) q ≡ true → length q + 1 ≤ length p
contains-parents-length [] q h = cc
contains-parents-length (x ∷ p) q h = elim (==-cases q p) [
  | inl (t, same) ↦ rw same (omega arith)
  | inr (f, differ) ↦
      let deeper = contains-parents-length p q (ground arith) in omega (arith, deeper)
]

or_else_nothing : (o : Option Location) {m : Option Location} → m ≡ none → or_else o m ≡ o
unfolding or_else
or_else_nothing none h = h
or_else_nothing (some p) h = refl

module _ (root : Location) where
  below_root : (name : Text) → contains (parents root) (name ∷ root) ≡ false
  below_root name = elim (Bool-cases (contains (parents root) (name ∷ root))) [
    | inl h ↦ absurd (omega (arith, contains-parents-length root (name ∷ root) h))
    | inr h ↦ h
  ]

  longer : (p q : Location) → length q + 1 ≤ length p → (q == p) ≡ false
  longer p q h = elim (==-cases q p) [
    | inl (t, same) ↦ absurd (omega (arith, ap (λ (l : Location). length l) same))
    | inr (f, differ) ↦ f
  ]

  shorter : (p q : Location) → length p + 1 ≤ length q → (q == p) ≡ false
  shorter p q h = elim (==-cases q p) [
    | inl (t, same) ↦ absurd (omega (arith, ap (λ (l : Location). length l) same))
    | inr (f, differ) ↦ f
  ]

  tiers_differ : (tasks root == benches root) ≡ false
  tiers_differ = elim (==-cases (tasks root) (benches root)) [
    | inl (t, same) ↦ absurd cc
    | inr (f, differ) ↦ f
  ]

  tier_of_graduated :
      (name language : Text) → contains (parents (name ∷ language ∷ tasks root)) (tasks root) ≡ true
  tier_of_graduated name language =
      rw (longer (language ∷ tasks root) (tasks root) (omega arith), ==-self (tasks root)) refl

  tier_of_benched :
      (name language : Text)
      → contains (parents (packet_dirname ∷ name ∷ language ∷ benches root)) (tasks root) ≡ false
  tier_of_benched name language =
      rw
        (
          longer (name ∷ language ∷ benches root) (tasks root) (omega arith),
          longer (language ∷ benches root) (tasks root) (omega arith),
          tiers_differ,
          shorter root (tasks root) (omega arith),
          below_root (codes "tasks"),
        )
        refl

  module _ (disk : Disk) where
    pub task_dir-lookup :
        (task_id : Text)
        → task_dir root disk task_id
          ≡ or_else
              (lookup task_id (graduated_dirs root disk))
              (packet_in disk (lookup task_id (bucketed disk (benches root))))
    unfolding or_else
    task_dir-lookup task_id =
        lookup-update task_id (benched_packet_dirs root disk) (graduated_dirs root disk)
          (bucketed-NodupKeys disk (tasks root))
        ∙ ap (or_else (lookup task_id (graduated_dirs root disk))) (
            packet_loop-lookup disk task_id (bucketed disk (benches root)) []
              (bucketed-NodupKeys disk (benches root))
            ∙ or_else_nothing _ (lookup-nil task_id))

    language_loop-bucket :
        (language : Text) (tree : Location) (more : List Location)
        → contains languages language ≡ true
        → contains (tasks root ∷ benches root ∷ []) tree ≡ true
        → language_loop root disk ((language ∷ tree) ∷ more) ≡ some language
    language_loop-bucket language tree more l t = rw (l, t) refl

    language_loop-skip :
        (name : Text) (above : Location) (more : List Location)
        → contains (tasks root ∷ benches root ∷ []) above ≡ false
        → language_loop root disk ((name ∷ above) ∷ more) ≡ language_loop root disk more
    language_loop-skip name above more h = elim (Bool-cases (contains languages name)) [
      | inl l ↦ rw (l, h) refl
      | inr n ↦ rw n refl
    ]

    in_no_tree :
        (language : Text)
        → contains (tasks root ∷ benches root ∷ []) (language ∷ benches root) ≡ false
    in_no_tree language =
        rw
          (
            shorter (tasks root) (language ∷ benches root) (omega arith),
            shorter (benches root) (language ∷ benches root) (omega arith),
          )
          refl

    graduated-Stands :
        (task_id language : Text)
        → contains languages language ≡ true
        → task_dir root disk task_id ≡ some (task_id ∷ language ∷ tasks root)
        → (tier_of root disk task_id ≡ some (codes "tasks"))
          × (language_of root disk task_id ≡ some language)
    graduated-Stands task_id language l h = (
      rw (tier_of, h, tier_of_graduated task_id language) refl,
      rw (language_of, h)
          (language_loop-bucket language (tasks root) (tasks root ∷ parents (tasks root)) l
            (rw (==-self (tasks root)) refl)),
    )

    benched-Stands :
        (task_id language : Text)
        → contains languages language ≡ true
        → task_dir root disk task_id ≡ some (packet_dirname ∷ task_id ∷ language ∷ benches root)
        → (tier_of root disk task_id ≡ some (codes "wip"))
          × (language_of root disk task_id ≡ some language)
    benched-Stands task_id language l h = (
      rw (tier_of, h, tier_of_benched task_id language) refl,
      rw (language_of, h)
          (language_loop-skip task_id (language ∷ benches root)
              ((language ∷ benches root) ∷ benches root ∷ parents (benches root))
              (in_no_tree language)
            ∙ language_loop-bucket language (benches root) (benches root ∷ parents (benches root)) l
                (rw (==-self (benches root)) (ground arith))),
    )

    -- A resolved packet: its language, its bench, and the tree it is in, with its verdict there.
    abbrev pub Stands : Text → Location → Type 0
    Stands task_id path =
        (language : Text) × (contains languages language ≡ true)
        × (language_of root disk task_id ≡ some language)
        × (bench_dir root disk task_id none ≡ some (task_id ∷ language ∷ benches root))
        × (disk.is_dir path ≡ true)
        × ((path ≡ task_id ∷ language ∷ tasks root)
              × (tier_of root disk task_id ≡ some (codes "tasks"))
              × (verdict_path root disk task_id ≡ some (codes "verdict.json" ∷ path))
            ⊎ (lookup task_id (graduated_dirs root disk) ≡ none)
              × (path ≡ packet_dirname ∷ task_id ∷ language ∷ benches root)
              × (tier_of root disk task_id ≡ some (codes "wip"))
              × (verdict_path root disk task_id
                  ≡ some (codes "verdict.json" ∷ task_id ∷ language ∷ benches root)))

    bench_dir-language :
        (task_id language : Text)
        → language_of root disk task_id ≡ some language
        → bench_dir root disk task_id none ≡ some (task_id ∷ language ∷ benches root)
    unfolding or_else
    bench_dir-language task_id language h = rw (bench_dir, h) refl

    graduated-Stands_at :
        (task_id : Text) (path : Location)
        → task_dir root disk task_id ≡ some path
        → IsPlaced disk (tasks root) languages task_id path
        → Stands task_id path
    unfolding option_eq list_eq nat_eq
    graduated-Stands_at task_id path h (language, l, here, d) =
        let (tier, filed) = graduated-Stands task_id language l (h ∙ ap some here) in
        (
          language,
          l,
          filed,
          bench_dir-language task_id language filed,
          d,
          inl (here, tier, rw (verdict_path, h, tier) refl),
        )

    benched-Stands_at :
        (task_id : Text) (bench : Location)
        → task_dir root disk task_id ≡ some (packet_dirname ∷ bench)
        → lookup task_id (graduated_dirs root disk) ≡ none
        → disk.is_dir (packet_dirname ∷ bench) ≡ true
        → IsPlaced disk (benches root) languages task_id bench
        → Stands task_id (packet_dirname ∷ bench)
    unfolding option_eq list_eq nat_eq
    benched-Stands_at task_id bench h g d (language, l, here, _) =
        let path = ap (λ (p : Location). packet_dirname ∷ p) here in
        let (tier, filed) = benched-Stands task_id language l (h ∙ ap some path) in
        (
          language,
          l,
          filed,
          bench_dir-language task_id language filed,
          d,
          inr (g, path, tier, rw (verdict_path, h, tier, here) refl),
        )

    packet_in-some :
        (found : Option Location) (path : Location)
        → packet_in disk found ≡ some path
        → (bench : Location) × (found ≡ some bench)
          × (path ≡ packet_dirname ∷ bench)
          × (disk.is_dir (packet_dirname ∷ bench) ≡ true)
    packet_in-some none path h = absurd (none-ne-some path h)
    packet_in-some (some bench) path h = (bench, refl, ground arith, ground arith)

    -- A packet that is resolved is a directory in the bucket of its language; its tier is the tree
    -- that it is in, `language_of` is its bucket, `bench_dir` is the bench of that language, and its
    -- verdict stands in a packet under `tasks/` and at the bench for one under `wip/`, which is
    -- resolved only where `tasks/` has none.
    pub task_dir-Stands :
        (task_id : Text) (path : Location)
        → task_dir root disk task_id ≡ some path
        → Stands task_id path
    unfolding or_else
    task_dir-Stands task_id path h =
        elim (Option-cases (lookup task_id (graduated_dirs root disk))) [
          | inr (p, g) ↦
              let same : p ≡ path =
                some-injective p path (sym (task_dir-lookup task_id ∙ rw g refl) ∙ h) in
              graduated-Stands_at task_id path h
                (bucketed-IsPlaced disk (tasks root) task_id path (g ∙ ap some same))
          | inl g ↦
              let (bench, found, at, d) =
                packet_in-some (lookup task_id (bucketed disk (benches root))) path
                  (sym (task_dir-lookup task_id ∙ rw g refl) ∙ h) in
              rw at (
                benched-Stands_at task_id bench (h ∙ ap some at) g d
                  (bucketed-IsPlaced disk (benches root) task_id bench found))
        ]
