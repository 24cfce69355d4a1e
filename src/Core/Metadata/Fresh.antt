-- ===== src/Core/Metadata/Fresh.antt =====
-- A task that a run has passed has its file as it should be.
use bmk_dev.Base.{
  Bool, true, false, Option, none, some, [], ◌++◌, list_eq, nat_eq, ◌≡◌, refl, sym, ◌∙◌, ap, inl,
  inr, Bool-cases, Option-cases, ==-self,
}
use mathlib.Core.Path.{subst}
use mathlib.Core.Option.{get_or, some-injective, none-ne-some}
use bmk_dev.Base.Text.{Text, strip_prefix, starts_with}
use bmk_dev.Base.Dict.{lookup, insert, lookup-insert}
use bmk_dev.Base.Json.{
  Json, null, boolean, number, string, array, object, Fields, same_json, IsDecoded, HasFields,
}
use bmk_dev.Base.Json.Objects.{same_json_self}
use bmk_dev.Core.Metadata.{Library, Packet, synchronized_metadata}
use bmk_dev.Core.Metadata.Main.{
  Files, byte_order_mark, decoded, prefix_of, meta_path, compare_task, sync_decoded, sync_file,
  sync_task,
}
use bmk_dev.Core.Metadata.Again.{synchronized_metadata-again}
use bmk_dev.Core.Metadata.Decoded.{synchronized_metadata-HasFields}

-- What `json` does: a decoded object has each key once, `loads` reads what `dumps` writes, and an
-- object is not written with a mark of the byte order in front; each number equals itself.
pub record Codec (L : Library) : Type 0 where
  pub reflexive : (n : L.Number) → L.same n n ≡ true
  pub decodes : (raw : Text) (j : Json L.Number) → L.loads raw ≡ some j → IsDecoded L.Number j
  pub reads : (j : Json L.Number) → IsDecoded L.Number j → L.loads (L.dumps j) ≡ some j
  pub unmarked : (f : Fields L.Number) → strip_prefix byte_order_mark (L.dumps (object f)) ≡ none

module _ (L : Library) (codec : Codec L) {Host : Type 0}
    (packets : Text → Option (Packet Host)) where
  -- The file of a task, and what is made of it.
  abbrev pub IsRead : Text → Packet Host → Files → Text → Fields L.Number → Fields L.Number → Type 0
  IsRead task_id packet files raw current expected =
      (packets task_id ≡ some packet)
      × (lookup (meta_path L packets true packet) files ≡ some raw)
      × (decoded L raw ≡ some (object current))
      × (synchronized_metadata L packet task_id current ≡ some expected)

  module _ (check : Bool) (task_id : Text) where
    sync_decoded-made :
        (packet : Packet Host) (raw : Text) (found : Option (Json L.Number)) (files : Files)
        (result : Bool × Files)
        → sync_decoded L packets check task_id packet raw found files ≡ some result
        → (current : Fields L.Number) × (expected : Fields L.Number) × (found
            ≡ some (object current))
          × (synchronized_metadata L packet task_id current ≡ some expected)
          × (result
              ≡ compare_task L packets check
                  (meta_path L packets check packet)
                  raw
                  current
                  expected
                  files)
    unfolding sync_decoded
    sync_decoded-made packet raw (some (object current)) files result h =
        elim (Option-cases (synchronized_metadata L packet task_id current)) [
          | inl n ↦ absurd (none-ne-some result (sym (rw (sync_decoded, n) refl) ∙ h))
          | inr (expected, e) ↦ (
            current,
            expected,
            refl,
            e,
            some-injective result _ (sym h ∙ rw (sync_decoded, e) refl),
          )
        ]
    sync_decoded-made packet raw none files result h = absurd (none-ne-some result h)
    sync_decoded-made packet raw (some null) files result h = absurd (none-ne-some result h)
    sync_decoded-made packet raw (some (boolean _)) files result h = absurd (none-ne-some result h)
    sync_decoded-made packet raw (some (number _)) files result h = absurd (none-ne-some result h)
    sync_decoded-made packet raw (some (string _)) files result h = absurd (none-ne-some result h)
    sync_decoded-made packet raw (some (array _)) files result h = absurd (none-ne-some result h)

    pub sync_task-made :
        (files : Files) (result : Bool × Files)
        → sync_task L packets check task_id files ≡ some result
        → (packet : Packet Host) × (raw : Text) × (current : Fields L.Number) × (expected : Fields
            L.Number)
          × IsRead task_id packet files raw current expected
          × (result
              ≡ compare_task L packets check
                  (meta_path L packets check packet)
                  raw
                  current
                  expected
                  files)
    unfolding sync_task sync_file
    sync_task-made files result h = elim (Option-cases (packets task_id)) [
      | inl n ↦ absurd (none-ne-some result (sym (rw (sync_task, n) refl) ∙ h))
      | inr (packet, p) ↦ elim (Option-cases (lookup (meta_path L packets check packet) files)) [
        | inl n ↦ absurd (none-ne-some result (sym (rw (sync_task, p, n) refl) ∙ h))
        | inr (raw, r) ↦
            let (current, expected, d, e, c) =
              sync_decoded-made packet raw (decoded L raw) files result
                (sym (rw (sync_task, p, r) refl) ∙ h) in
            (packet, raw, current, expected, (p, r, d, e), c)
      ]
    ]

  -- A task whose file is as it should be.
  abbrev pub IsFresh : Text → Files → Type 0
  IsFresh task_id files =
      (packet : Packet Host) × (raw : Text) × (current : Fields L.Number) × (expected : Fields
        L.Number)
      × IsRead task_id packet files raw current expected
      × (same_json L.Number L.same L.of_Bool (object current) (object expected) ≡ true)

  decoded-written :
      (raw : Text) (expected : Fields L.Number)
      → HasFields L.Number expected
      → decoded L (prefix_of L raw ++ L.dumps (object expected)) ≡ some (object expected)
  unfolding IsDecoded
  decoded-written raw expected h = elim (Bool-cases (starts_with raw byte_order_mark)) [
    | inl marked ↦ rw (prefix_of, marked) (codec.reads (object expected) h)
    | inr plain ↦
        let text = L.dumps (object expected) in
        let no_prefix : prefix_of L raw ≡ [] = rw (prefix_of, plain) refl in
        ap (λ (p : Text). decoded L (p ++ text)) no_prefix
        ∙ ap (λ (o : Option Text). L.loads (get_or o text)) (codec.unmarked expected)
        ∙ codec.reads (object expected) h
  ]

  pub sync_task-IsFresh :
      (task_id : Text) (files : Files) (result : Bool × Files)
      → sync_task L packets false task_id files ≡ some result
      → IsFresh task_id result.1
  unfolding compare_task IsDecoded
  sync_task-IsFresh task_id files result h =
      let (packet, raw, current, expected, (p, r, d, e), c) =
        sync_task-made false task_id files result h in
      let same = same_json L.Number L.same L.of_Bool (object current) (object expected) in
      elim (Bool-cases same) [
        | inl t ↦
            let unchanged : result ≡ (false, files) = c ∙ rw (compare_task, t) refl in
            subst (λ (q : Bool × Files). IsFresh task_id q.1) (sym unchanged)
              (packet, raw, current, expected, (p, r, d, e), t)
        | inr f ↦
            let path = meta_path L packets true packet in
            let written = prefix_of L raw ++ L.dumps (object expected) in
            let stored : result ≡ (true, insert path written files) =
              c ∙ rw (compare_task, f) refl in
            let unique : HasFields L.Number expected =
              synchronized_metadata-HasFields L packet task_id current expected
                (codec.decodes (get_or (strip_prefix byte_order_mark raw) raw) (object current) d)
                e in
            let found : lookup path (insert path written files) ≡ some written =
              lookup-insert path path written files ∙ rw (==-self path) refl in
            subst (λ (q : Bool × Files). IsFresh task_id q.1) (sym stored)
              (
                packet,
                written,
                expected,
                expected,
                (
                  p,
                  found,
                  decoded-written raw expected unique,
                  synchronized_metadata-again L packet task_id current expected e,
                ),
                same_json_self L.Number L.same L.of_Bool codec.reflexive (object expected) unique,
              )
      ]
