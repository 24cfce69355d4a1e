-- ===== src/Core/Layout/Laws.antt =====
-- What the walks over the two trees find: each id once, at the place its language says, and every
-- directory in a bucket.
use bmk_dev.Base.{
  Bool, true, false, ◌&&◌, ◌||◌, not, Option, none, some, List, [], ◌∷◌, contains, nat_eq, list_eq,
  if◌then◌else◌, ◌≡◌, refl, sym, ◌∙◌, arith, Bool-cases, inl, inr, any, ==-cases,
}
use mathlib.Core.Option.{or_else, none-ne-some}
use bmk_dev.Base.Text.{Text}
use bmk_dev.Base.Sorting.{sorted, le_text, contains-sorted}
use bmk_dev.Base.Dict.{
  Dict, lookup, insert, has_key, NodupKeys, insert-NodupKeys, lookup-insert, lookup-nil,
  lookup-cons,
}
use bmk_dev.Core.Layout.{
  Location, Disk, languages, not_a_task, bucket_loop, languages_loop, bucketed, packet_loop,
  packet_dirname,
}

module _ (disk : Disk) where
  -- A directory at the place of the id in a language's bucket.
  abbrev pub IsPlaced : Location → List Text → Text → Location → Type 0
  IsPlaced tree among task_id path =
      (language : Text) × (contains among language ≡ true)
      × (path ≡ task_id ∷ language ∷ tree)
      × (disk.is_dir path ≡ true)

  module _ (among : List Text) (tree : Location) where
    AllPlaced : Dict Text Location → Type 0
    AllPlaced found =
        (task_id : Text) (path : Location)
        → lookup task_id found ≡ some path
        → IsPlaced tree among task_id path

    insert-AllPlaced :
        (language name : Text) (found : Dict Text Location)
        → contains among language ≡ true
        → disk.is_dir (name ∷ language ∷ tree) ≡ true
        → AllPlaced found
        → AllPlaced (insert name (name ∷ language ∷ tree) found)
    unfolding AllPlaced
    insert-AllPlaced language name found l d placed task_id path h = elim (==-cases task_id name) [
      | inl (t, same) ↦
          let here : path ≡ task_id ∷ language ∷ tree =
            ground (arith, lookup-insert task_id name (name ∷ language ∷ tree) found) in
          (language, l, here, rw here (rw same d))
      | inr (f, differ) ↦
          placed task_id path
            (ground (arith, lookup-insert task_id name (name ∷ language ∷ tree) found))
    ]

    bucket_loop-AllPlaced :
        (language : Text)
        → contains among language ≡ true
        → (names : List Text) (found : Dict Text Location) → AllPlaced found
        → AllPlaced (bucket_loop disk (language ∷ tree) names found)
    unfolding bucket_loop
    bucket_loop-AllPlaced language l [] found placed = placed
    bucket_loop-AllPlaced language l (name ∷ names) found placed =
        elim (Bool-cases (disk.is_dir (name ∷ language ∷ tree) && not (contains not_a_task name))) [
          | inl kept ↦ rw kept (
              bucket_loop-AllPlaced language l names _
                (insert-AllPlaced language name found l (ground arith) placed))
          | inr left ↦ rw left (bucket_loop-AllPlaced language l names found placed)
        ]

    languages_loop-AllPlaced :
        (more : List Text)
        → ((language : Text) → contains more language ≡ true → contains among language ≡ true)
        → (found : Dict Text Location) → AllPlaced found
        → AllPlaced (languages_loop disk tree more found)
    unfolding languages_loop
    languages_loop-AllPlaced [] within found placed = placed
    languages_loop-AllPlaced (language ∷ more) within found placed =
        let rest = languages_loop-AllPlaced more (λ l h. within l (ground arith)) in
        elim (Bool-cases (disk.is_dir (language ∷ tree))) [
          | inl d ↦ rw d (
              rest _ (
                bucket_loop-AllPlaced language (within language (ground arith))
                  (sorted le_text (disk.iterdir (language ∷ tree))) found placed))
          | inr n ↦ rw n (rest found placed)
        ]

  -- Each id is found at most once.
  bucket_loop-NodupKeys :
      (bucket : Location) (names : List Text) (found : Dict Text Location)
      → NodupKeys found
      → NodupKeys (bucket_loop disk bucket names found)
  unfolding bucket_loop
  bucket_loop-NodupKeys bucket [] found u = u
  bucket_loop-NodupKeys bucket (name ∷ names) found u =
      bucket_loop-NodupKeys bucket names _
        (elim (Bool-cases (disk.is_dir (name ∷ bucket) && not (contains not_a_task name))) [
          | inl kept ↦ rw kept (insert-NodupKeys name (name ∷ bucket) found u)
          | inr left ↦ rw left u
        ])

  languages_loop-NodupKeys :
      (tree : Location) (more : List Text) (found : Dict Text Location)
      → NodupKeys found
      → NodupKeys (languages_loop disk tree more found)
  unfolding languages_loop
  languages_loop-NodupKeys tree [] found u = u
  languages_loop-NodupKeys tree (language ∷ more) found u =
      languages_loop-NodupKeys tree more _ (elim (Bool-cases (disk.is_dir (language ∷ tree))) [
        | inl d ↦ rw d (
            bucket_loop-NodupKeys (language ∷ tree)
              (sorted le_text (disk.iterdir (language ∷ tree))) found u)
        | inr n ↦ rw n u
      ])

  pub bucketed-NodupKeys : (tree : Location) → NodupKeys (bucketed disk tree)
  bucketed-NodupKeys tree = languages_loop-NodupKeys tree languages [] tt

  pub bucketed-IsPlaced :
      (tree : Location) (task_id : Text) (path : Location)
      → lookup task_id (bucketed disk tree) ≡ some path
      → IsPlaced tree languages task_id path
  unfolding AllPlaced
  bucketed-IsPlaced tree =
      languages_loop-AllPlaced languages tree languages (λ l h. h) []
        (λ task_id path h. absurd (none-ne-some path (sym (lookup-nil task_id) ∙ h)))

  -- A name that a walk takes up.
  abbrev pub is_task : Location → Text → Bool
  is_task bucket name = disk.is_dir (name ∷ bucket) && not (contains not_a_task name)

  bucket_loop-lookup :
      (task_id : Text) (bucket : Location) (names : List Text) (found : Dict Text Location)
      → lookup task_id (bucket_loop disk bucket names found) ≡ (
          if contains names task_id && is_task bucket task_id
          then some (task_id ∷ bucket)
          else lookup task_id found)
  unfolding bucket_loop
  bucket_loop-lookup task_id bucket [] found = refl
  bucket_loop-lookup task_id bucket (name ∷ names) found =
      bucket_loop-lookup task_id bucket names _ ∙ elim (Bool-cases (is_task bucket name)) [
        | inl kept ↦ rw kept (ground (arith, lookup-insert task_id name (name ∷ bucket) found))
        | inr left ↦ rw left (ground arith)
      ]

  -- What `is_dir` and the names of a bucket say of an id.
  abbrev pub is_filed : Location → Text → Text → Bool
  is_filed tree task_id language =
      disk.is_dir (language ∷ tree)
      && contains (disk.iterdir (language ∷ tree)) task_id
      && is_task (language ∷ tree) task_id

  languages_loop-has_key :
      (tree : Location) (task_id : Text) (more : List Text) (found : Dict Text Location)
      → has_key (languages_loop disk tree more found) task_id
        ≡ (any (is_filed tree task_id) more || has_key found task_id)
  unfolding languages_loop
  languages_loop-has_key tree task_id [] found = refl
  languages_loop-has_key tree task_id (language ∷ more) found =
      languages_loop-has_key tree task_id more _
      ∙ elim (Bool-cases (disk.is_dir (language ∷ tree))) [
        | inl d ↦ rw d (
            ground (
              arith,
              contains-sorted le_text task_id (disk.iterdir (language ∷ tree)),
              bucket_loop-lookup task_id (language ∷ tree)
                  (sorted le_text (disk.iterdir (language ∷ tree))) found,
            ))
        | inr n ↦ rw n (ground arith)
      ]

  or_nothing : (task_id : Text) (b : Bool) → (b || has_key {V = Location} [] task_id) ≡ b
  unfolding lookup
  or_nothing task_id true = refl
  or_nothing task_id false = refl

  pub has_key-bucketed :
      (tree : Location) (task_id : Text)
      → has_key (bucketed disk tree) task_id ≡ any (is_filed tree task_id) languages
  has_key-bucketed tree task_id =
      languages_loop-has_key tree task_id languages [] ∙ or_nothing task_id _

  -- The packet in a bench, where there is one.
  abbrev pub packet_in : Option Location → Option Location
  packet_in none = none
  packet_in (some bench) =
      if disk.is_dir (packet_dirname ∷ bench) then some (packet_dirname ∷ bench) else none

  pub packet_loop-lookup :
      (task_id : Text) (dirs found : Dict Text Location)
      → NodupKeys dirs
      → lookup task_id (packet_loop disk dirs found)
        ≡ or_else (packet_in (lookup task_id dirs)) (lookup task_id found)
  unfolding packet_loop or_else
  packet_loop-lookup task_id [] found u = rw lookup-nil refl
  packet_loop-lookup task_id ((id, bench) ∷ more) found (fresh, u) =
      packet_loop-lookup task_id more _ u
      ∙ elim (Bool-cases (disk.is_dir (packet_dirname ∷ bench))) [
        | inl d ↦ ground (
          arith,
          lookup-cons task_id id bench more,
          lookup-insert task_id id (packet_dirname ∷ bench) found,
        )
        | inr n ↦ ground (arith, lookup-cons task_id id bench more)
      ]
