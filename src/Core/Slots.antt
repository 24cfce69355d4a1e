-- ===== src/Core/Slots.antt =====
-- harness/core/verdict.py: the slots of evidence and what a task.json holds for them.
use bmk_dev.Base.{
  true, false, Option, none, some, List, [], ◌∷◌, nat_eq, list_eq, string_eq, if◌then◌else◌,
}
use bmk_dev.Base.Text.{Text, codes, before_first, after_first}
use bmk_dev.Base.Floats.{Floats}
use bmk_dev.Base.Json.{Json, null, boolean, number, string, array, object, Fields, get_field}

-- `SLOTS`
pub data Slot : Type 0 where
  reference_pass dummy_pass candidate_score adjusted_gap mutation coverage_gap : Slot

abbrev pub slots : List Slot
slots = reference_pass ∷ dummy_pass ∷ candidate_score ∷ adjusted_gap ∷ mutation ∷ coverage_gap ∷ []

-- The keys that the slot's extractor asks for, in order.
abbrev pub extractors : Slot → List Text
extractors reference_pass =
    codes "reference_pass_rate" ∷ codes "reference_score" ∷ codes "reference.pass_rate" ∷ []
extractors dummy_pass = codes "dummy_score" ∷ codes "dummy_pass_rate" ∷ codes "controls.dummy" ∷ []
extractors candidate_score =
    codes "candidate_score" ∷ codes "candidate_evaluation" ∷ codes "score_distribution" ∷ []
extractors adjusted_gap = codes "integration_gap" ∷ codes "true_gap_events" ∷ []
extractors mutation = codes "mutation" ∷ codes "mutation_status" ∷ []
extractors coverage_gap = codes "coverage_gap" ∷ codes "coverage" ∷ []

module _ (F : Floats) where
  open F use {Float, ratio, round4, div, is_zero}

  -- `outer[tail]`, where `outer` is an object that has the key
  abbrev pub field_of : Text → Option (Json Float) → Option (Json Float)
  field_of tail none = none
  field_of tail (some (object entries)) = get_field Float tail entries
  field_of tail (some null) = none
  field_of tail (some (boolean b)) = none
  field_of tail (some (number x)) = none
  field_of tail (some (string s)) = none
  field_of tail (some (array vs)) = none

  -- What a key stands for: a dotted key is a path through one object, any other key a field.
  abbrev pub resolve : Fields Float → Text → Option (Json Float)
  resolve task key = elim (before_first (codes ".") key) [
    | none ↦ get_field Float key task
    | some head ↦ elim (after_first (codes ".") key) [
      | none ↦ none
      | some tail ↦ field_of tail (get_field Float head task)
    ]
  ]

  -- The value and its key.
  unfoldable pub first_of : Fields Float → List Text → Option (Json Float × Text)
  first_of task [] = none
  first_of task (key ∷ keys) =
      let rest = first_of task keys in
      elim (resolve task key) [ none ↦ rest | some value ↦ some (value, key) ]

  -- A number, where a Boolean is one as well.
  abbrev pub number_of : Option (Json Float) → Option Float
  number_of (some (number x)) = some x
  number_of (some (boolean true)) = some (ratio 1 1)
  number_of (some (boolean false)) = some (ratio 0 1)
  number_of (some null) = none
  number_of (some (string s)) = none
  number_of (some (array vs)) = none
  number_of (some (object entries)) = none
  number_of none = none

  abbrev pub quotient : Option Float → Option Float → Option Float
  quotient (some total) (some passed) =
      if is_zero total then none else some (round4 (div passed total))
  quotient (some total) none = none
  quotient none passed = none

  unfoldable pub rate : Json Float → Option Float
  rate (number x) = some (round4 x)
  rate (object entries) =
      quotient (number_of (get_field Float (codes "total") entries))
        (number_of (get_field Float (codes "passed") entries))
  rate null = none
  rate (boolean b) = none
  rate (string s) = none
  rate (array vs) = none

  -- One entry of `evidence`; `source` is the part of `"from"` behind `task.json:`.
  pub record Entry : Type 0 where
    pub name : Slot
    pub source : Text
    pub value : Json Float
    pub rate_of : Option Float

  -- The loop over `SLOTS`.
  unfoldable pub evidence_loop : Fields Float → List Slot → List Entry × List Slot
  evidence_loop task [] = ([], [])
  evidence_loop task (name ∷ more) =
      let (evidence, pending) = evidence_loop task more in
      elim (first_of task (extractors name)) [
        | none ↦ (evidence, name ∷ pending)
        | some (value, source) ↦ (
          record { name = name; source = source; value = value; rate_of = rate value } ∷ evidence,
          pending,
        )
      ]

  abbrev pub evidence_of : Fields Float → List Entry × List Slot
  evidence_of task = evidence_loop task slots
