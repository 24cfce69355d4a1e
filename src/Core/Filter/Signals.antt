-- ===== src/Core/Filter/Signals.antt =====
-- That the counts of a repository add up, and what its objective verdict says.
use bmk_dev.Base.{
  ℕ, ◌+◌, ◌≤◌, Option, some, List, [], ◌∷◌, contains, list_eq, nat_eq, length, sum_of, ◌≡◌, refl,
  ◌∙◌, arith, ap, Bool-cases, inl, inr, ==-cases,
}
use mathlib.Core.Option.{get_or}
use bmk_dev.Base.Text.{Text}
use bmk_dev.Base.Dict.{Dict, lookup, insert, lookup-cons}
use bmk_dev.Core.Filter.{
  RepoFile, bump, Summary, suffix_of, text_exts, count_nonblank, count_file, summary_loop,
  summarize, no_summary,
}

-- The sum of the counts.
abbrev pub total_of : Dict Text ℕ → ℕ
total_of counter = sum_of (λ (entry : Text × ℕ). entry.1) counter

total_of-insert :
    (key : Text) (v : ℕ) (counter : Dict Text ℕ)
    → total_of (insert key v counter) + get_or (lookup key counter) 0 ≡ total_of counter + v
unfolding insert lookup
total_of-insert key v [] = omega arith
total_of-insert key v ((k, m) ∷ counter) = elim (==-cases key k) [
  | inl (t, same) ↦
      let found : lookup key ((k, m) ∷ counter) ≡ some m =
        lookup-cons key k m counter ∙ rw t refl in
      let first : get_or (lookup key ((k, m) ∷ counter)) 0 ≡ m =
        ap (λ (o : Option ℕ). get_or o 0) found in
      rw (t, first) (omega arith)
  | inr (f, _) ↦
      let same : lookup key ((k, m) ∷ counter) ≡ lookup key counter =
        lookup-cons key k m counter ∙ rw f refl in
      let later : get_or (lookup key ((k, m) ∷ counter)) 0 ≡ get_or (lookup key counter) 0 =
        ap (λ (o : Option ℕ). get_or o 0) same in
      rw (f, later) (omega (arith, total_of-insert key v counter))
]

total_of-bump :
    (key : Text) (n : ℕ) (counter : Dict Text ℕ)
    → total_of (bump key n counter) ≡ total_of counter + n
total_of-bump key n counter =
    omega (arith, total_of-insert key (get_or (lookup key counter) 0 + n) counter)

counted_after :
    (file : RepoFile) (s : Summary)
    → total_of (count_file file s).suffix_counts ≡ total_of s.suffix_counts + 1
unfolding count_file
counted_after file s = total_of-bump (suffix_of file) 1 s.suffix_counts

locs_after :
    (file : RepoFile) (s : Summary)
    → total_of s.loc_by_suffix ≡ s.total_loc
    → total_of (count_file file s).loc_by_suffix ≡ (count_file file s).total_loc
unfolding count_file
locs_after file s h = elim (Bool-cases (contains text_exts (suffix_of file))) [
  | inl t ↦ rw t (
      total_of-bump (suffix_of file) (count_nonblank file.text) s.loc_by_suffix
      ∙ ap (λ (n : ℕ). n + count_nonblank file.text) h)
  | inr f ↦ rw f h
]

texts_after : (file : RepoFile) (s : Summary) → (count_file file s).text_files ≤ s.text_files + 1
unfolding count_file
texts_after file s = elim (Bool-cases (contains text_exts (suffix_of file))) [
  | inl t ↦ rw t (omega arith)
  | inr f ↦ rw f (omega arith)
]

summary_loop-totals :
    (files : List RepoFile) (s : Summary)
    → total_of s.loc_by_suffix ≡ s.total_loc
    → (total_of (summary_loop files s).suffix_counts ≡ total_of s.suffix_counts + length files)
      × (total_of (summary_loop files s).loc_by_suffix ≡ (summary_loop files s).total_loc)
      × ((summary_loop files s).text_files ≤ s.text_files + length files)
unfolding summary_loop
summary_loop-totals [] s h = (omega arith, h, omega arith)
summary_loop-totals (file ∷ files) s h =
    let (counts, locs, texts) =
      summary_loop-totals files (count_file file s) (locs_after file s h) in
    (omega (arith, counts, counted_after file s), locs, omega (arith, texts, texts_after file s))

-- The files of all suffixes are the files of the repository, the lines of all suffixes are the
-- lines that the gate asks for, and no more files are read than there are.
pub summarize-totals :
    (files : List RepoFile)
    → (total_of (summarize files).suffix_counts ≡ length files)
      × (total_of (summarize files).loc_by_suffix ≡ (summarize files).total_loc)
      × ((summarize files).text_files ≤ length files)
summarize-totals files =
    let (counts, locs, texts) = summary_loop-totals files no_summary refl in
    (omega (arith, counts), locs, omega (arith, texts))
