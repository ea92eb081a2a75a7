-- ===== src/Jobs/Coverage.antt =====
-- db.rs, in `publish`: the checks that a progressive checkpoint must pass before it is stored.
use rowtrail.Base.{
  Bool, List, Option, Result, [], false, get_elem?, guard, leb, length, ltb, map_option, none, ok,
  some, take, true, ℕ, ◌&&◌, ◌+◌, ◌==◌, ◌>>◌, ◌||◌, ◌∷◌,
}
use rowtrail.Jobs.{
  Analysis, Checkpoint, DbError, FragmentUnit, Preview, available, manifest_file, parquet_row_group,
  result_corrupt, withheld,
}

-- `sum::<Option<usize>>()`
unfoldable pub sum_known : List (Option ℕ) → Option ℕ
sum_known [] = some 0
sum_known (none ∷ groups) = none
sum_known (some n ∷ groups) = map_option (λ m. n + m) (sum_known groups)

-- `map(|f| f.row_groups.unwrap())`, read only where every file is known.
unfoldable pub groups_of : Option ℕ → ℕ
groups_of none = 0
groups_of (some n) = n

unfoldable pub sum_groups : List (Option ℕ) → ℕ
unfolding groups_of
sum_groups [] = 0
sum_groups (g ∷ groups) = groups_of g + sum_groups groups

unfoldable pub get_groups : List (Option ℕ) → ℕ → ℕ
unfolding groups_of
get_groups files i = elim (get_elem? files i) [ none ↦ 0 | some g ↦ groups_of g ]

unfoldable pub same_unit : FragmentUnit → FragmentUnit → Bool
same_unit manifest_file manifest_file = true
same_unit parquet_row_group parquet_row_group = true
same_unit _ _ = false

unfoldable pub total_is : Option ℕ → ℕ → Bool
total_is none n = false
total_is (some m) n = m == n

-- `progress.total_fragments.is_none_or(|n| progress.completed_fragments <= n)`
unfoldable pub total_covers : Option ℕ → ℕ → Bool
total_covers none n = true
total_covers (some m) n = leb n m

-- The prefix of row groups that `completed_files` whole files allow, where every file is known.
unfoldable pub check_prefix : List (Option ℕ) → Checkpoint → Option ℕ → Result DbError (Unit {0})
unfolding sum_groups get_groups total_is
check_prefix files p none = ok tt
check_prefix files p (some total) = do
  guard (total_is p.total_fragments total) result_corrupt
  let complete = sum_groups (take p.completed_files files)
  let upper = complete + get_groups files p.completed_files
  guard (leb complete p.completed_fragments && leb p.completed_fragments upper) result_corrupt

unfoldable pub check_row_groups : List (Option ℕ) → Checkpoint → Result DbError (Unit {0})
unfolding sum_known check_prefix
check_row_groups files p = check_prefix files p (sum_known files)

unfoldable pub check_unit : List (Option ℕ) → Checkpoint → FragmentUnit → Result DbError (Unit {0})
unfolding check_row_groups total_is
check_unit files p manifest_file =
    guard (p.completed_fragments == p.completed_files && total_is p.total_fragments (length files))
      result_corrupt
check_unit files p parquet_row_group = check_row_groups files p

-- The comparison with the stored progress: no counter falls, and a fragment or a file is new.
unfoldable pub check_monotone : Option Checkpoint → Checkpoint → Result DbError (Unit {0})
check_monotone none p = ok tt
check_monotone (some prior) p =
    guard
      (leb prior.completed_files p.completed_files
        && leb prior.completed_fragments p.completed_fragments
        && leb prior.processed_rows p.processed_rows
        && (ltb prior.completed_fragments p.completed_fragments
            || ltb prior.completed_files p.completed_files))
      result_corrupt

unfoldable pub check_final : Preview → ℕ → List (Option ℕ) → Checkpoint → Result DbError (Unit {0})
unfolding total_is
check_final available seq files p = ok tt
check_final withheld seq files p =
    guard
      (seq == 0
        && p.completed_files == length files
        && total_is p.total_fragments p.completed_fragments)
      result_corrupt

-- All checks of a checkpoint, in the order of the code.
unfoldable pub check_checkpoint :
    Analysis → List (Option ℕ) → ℕ → ℕ → Option Checkpoint → Checkpoint → Result DbError (Unit {0})
unfolding same_unit check_unit check_monotone check_final total_covers
check_checkpoint a files seq rows previous p = do
  guard
      (same_unit p.unit a.fragment_unit
        && p.total_files == length files
        && leb p.completed_files (length files)
        && rows == 1)
      result_corrupt
  guard (total_covers p.total_fragments p.completed_fragments) result_corrupt
  check_unit files p p.unit
  check_monotone previous p
  check_final a.preview seq files p
