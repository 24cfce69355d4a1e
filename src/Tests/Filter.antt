-- ===== src/Tests/Filter.antt =====
-- A small repository.
use bmk_dev.Base.{◌≤◌, false, none, some, List, [], ◌∷◌, list_eq, nat_eq, ◌≡◌, refl, length}
use bmk_dev.Base.Text.{codes}
use bmk_dev.Base.Dict.{lookup, insert}
use bmk_dev.Core.Filter.{
  RepoFile, summarize, summary_loop, count_file, count_nonblank, gate_passed, scale_gate,
}
use bmk_dev.Core.Filter.Signals.{total_of, summarize-totals}

abbrev files : List RepoFile
files =
    record {
      parts = codes "README.md" ∷ [];
      suffix = codes ".md";
      stem = codes "README";
      text = some (codes "one\n\ntwo\n");
    }
    ∷ record {
      parts = codes "tests" ∷ codes "a.PY" ∷ [];
      suffix = codes ".PY";
      stem = codes "a";
      text = some (codes "x = 1\n");
    }
    ∷ record {
      parts = codes "data.bin" ∷ [];
      suffix = codes ".bin";
      stem = codes "data";
      text = none;
    }
    ∷ []

three_lines : (summarize files).total_loc ≡ 3
unfolding summary_loop count_file count_nonblank lookup insert list_eq nat_eq
three_lines = refl

too_small : gate_passed files ≡ false
unfolding gate_passed scale_gate summary_loop count_file count_nonblank lookup insert list_eq nat_eq
too_small = refl

summarize-totals_example :
    (total_of (summarize files).suffix_counts ≡ length files)
    × (total_of (summarize files).loc_by_suffix ≡ (summarize files).total_loc)
    × ((summarize files).text_files ≤ length files)
summarize-totals_example = summarize-totals files
