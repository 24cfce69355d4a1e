-- ===== src/Analysis/Ledger.antt =====
-- analysis/ledger.py: the order of the rows, the roll-up of counters and the split of the trust view.
pub mod Partition
use bmk_dev.Base.{
  ℕ, ◌+◌, Bool, true, false, not, ◌||◌, ◌&&◌, Option, none, some, List, [], ◌∷◌, ◌++◌, String, ◌==◌,
  contains, nat_eq, list_eq, string_eq, option_eq, if◌then◌else◌, ltb, eqb, sum_of, keep,
}
use bmk_dev.Base.Text.{Text, codes}
use bmk_dev.Base.Sorting.{sorted, le_text}
use bmk_dev.Base.Floats.{Floats}
use bmk_dev.Analysis.EvalLib.{
  Row, klass, total, passed, Attribution, listed, bucket_of, is_trusted, lang_key,
}

pub record Roll (F : Floats) : Type 0 where
  pub atomic_passed : ℕ
  pub atomic_total : ℕ
  pub integ_passed : ℕ
  pub integ_total : ℕ
  pub average : Option F.Float

unfoldable pub roll : (F : Floats) → List Row → Roll F
roll F rows =
    let ap = sum_of (λ (r : Row). r.atomic_passed) rows in
    let at = sum_of (λ (r : Row). r.atomic_total) rows in
    let ip = sum_of (λ (r : Row). r.integ_passed) rows in
    let it = sum_of (λ (r : Row). r.integ_total) rows in
    record {
      atomic_passed = ap;
      atomic_total = at;
      integ_passed = ip;
      integ_total = it;
      average = if eqb (at + it) 0 then none else some (F.ratio (ap + ip) (at + it));
    }

module _ (F : Floats) where
  -- The atomic rate; a suite with no test has the rate -1, below every other.
  abbrev pub atomic_rate : Row → Option F.Float
  atomic_rate r =
      if eqb r.atomic_total 0 then none else some (F.ratio r.atomic_passed r.atomic_total)

  abbrev pub rate_below : Option F.Float → Option F.Float → Bool
  rate_below none none = false
  rate_below none (some b) = true
  rate_below (some a) none = false
  rate_below (some a) (some b) = F.ltb a b

  -- The order of the keys: language, then the rate from above, then the name.
  abbrev pub le_row : Row → Row → Bool
  le_row r s =
      let ra = atomic_rate r in
      let sa = atomic_rate s in
      ltb (lang_key r.language) (lang_key s.language)
      || eqb (lang_key r.language) (lang_key s.language)
        && (rate_below sa ra || not (rate_below ra sa) && le_text r.task s.task)

  abbrev pub sorted_rows : List Row → List Row
  sorted_rows = sorted le_row

-- The lists that the trust view reports.
pub record Trust : Type 0 where
  pub trusted : List Row
  pub untrusted : List Row
  pub ok : List Row
  pub candidate_fail : List Row
  pub spec_gap : List Row
  pub pending : List Row
  pub partial_other : List Row
  pub zero_rows : List Row

abbrev pub is_ok : Row → Bool
is_ok r = klass r == "ok"

abbrev pub is_other : Attribution → Row → Bool
is_other attr r = klass r == "partial" && bucket_of attr r.task == none

abbrev pub is_zero_row : Row → Bool
is_zero_row r = klass r == "zero"

unfoldable pub view_trust : Attribution → List Row → Trust
view_trust attr rows =
    let trusted = keep (is_trusted attr) rows in
    let untrusted = keep (λ r. not (is_trusted attr r)) rows in
    record {
      trusted = trusted;
      untrusted = untrusted;
      ok = keep is_ok rows;
      candidate_fail = keep (λ r. not (is_ok r)) trusted;
      spec_gap = keep (λ r. contains (listed attr (codes "B_spec_gap")) r.task) untrusted;
      pending = keep (λ r. contains (listed attr (codes "C_pending")) r.task) untrusted;
      partial_other = keep (is_other attr) untrusted;
      zero_rows = keep is_zero_row untrusted;
    }
