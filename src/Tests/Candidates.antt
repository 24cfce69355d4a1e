-- ===== src/Tests/Candidates.antt =====
-- The theorems of the ledger's gate at the disk of Tests.Layout and at two rows.
use bmk_dev.Base.{true, none, some, [], ◌∷◌, List, list_eq, nat_eq, option_eq, ◌≡◌, refl}
use bmk_dev.Base.Text.{Text, codes}
use bmk_dev.Base.Sorting.{sorted, insert_sorted}
use bmk_dev.Base.Dict.{Dict, lookup, insert, update}
use bmk_dev.Core.Layout.{Disk, bucket_loop, languages_loop, packet_loop}
use bmk_dev.Core.Candidates.{
  tier_text, no_object, tier_warning, tier_warnings, tier_differs, parse_markdown_table, table_loop,
}
use bmk_dev.Tests.Layout.{disk, b}

abbrev row : Text → Dict Text Text
row status = (codes "repo", codes "rq") ∷ (codes "status", status) ∷ []

abbrev rows : List (Dict Text Text)
rows = row (codes "QUALIFIED") ∷ row (codes "RETIRED") ∷ []

-- A table of one row, with its header and its rule.
parsed :
    parse_markdown_table (some (codes "text\n| repo | status |\n|---|:---:|\n| rq | RETIRED |\n"))
    ≡ row (codes "RETIRED") ∷ []
unfolding table_loop update insert list_eq nat_eq
parsed = refl

abbrev check_task : Text → List Text × List Text
check_task task_id = ([], [])

-- The same disk, where each path is a file.
abbrev files : Disk
files = record disk { is_file = λ _. true }

-- A packet in wip/ whose verdict says `tasks`, and a verdict that is no object.
misfiled :
    tier_warnings [] files (λ _. tier_text (codes "tasks")) (b ∷ [])
    ≡ some (tier_differs b (codes "tasks") (some (codes "wip")) ∷ [])
unfolding tier_warnings tier_warning lookup insert update bucket_loop languages_loop packet_loop
    sorted insert_sorted list_eq nat_eq option_eq
misfiled = refl

no_warning_list : tier_warnings [] files (λ _. no_object) (b ∷ []) ≡ none
unfolding tier_warnings tier_warning lookup insert update bucket_loop languages_loop packet_loop
    sorted insert_sorted list_eq nat_eq option_eq
no_warning_list = refl
