-- ===== src/Aggregate/Run/Counts.antt =====
-- aggregate.rs: the counters of a fragment have the shape that `publish` checks.
use mathlib.Core.List.{append_assoc}
use mathlib.Core.Option.{none-ne-some, some-injective}
use rowtrail.Base.{
  ==_iff, List, Option, Option-cases, [], ap, arith, false, inl, inr, leb, length, length-append,
  none, ok, refl, some, suc, sym, take, take-append, take_all, true, zero, ℕ, ◌++◌, ◌+◌, ◌<◌, ◌==◌,
  ◌∙◌, ◌∷◌, ◌≡◌, ◌≤◌, ◌⊎◌,
}
use rowtrail.Jobs.{Analysis, Checkpoint, FragmentUnit, manifest_file, parquet_row_group}
use rowtrail.Jobs.Coverage.{
  check_row_groups, check_unit, get_groups, groups_of, sum_groups, sum_known, total_covers,
  total_is,
}
use rowtrail.Aggregate.Run.{is_final, matches_known}
use rowtrail.Aggregate.Run.Accepted.{IsBehind, IsShaped}

pub sum_groups-append :
    (xs ys : List (Option ℕ)) → sum_groups (xs ++ ys) ≡ sum_groups xs + sum_groups ys
unfolding sum_groups
sum_groups-append [] ys = omega arith
sum_groups-append (x ∷ xs) ys = omega (arith, sum_groups-append xs ys)

pub sum_known_value :
    (groups : List (Option ℕ)) (t : ℕ) → sum_known groups ≡ some t → t ≡ sum_groups groups
unfolding sum_known sum_groups groups_of
sum_known_value [] t h = sym (some-injective _ _ h)
sum_known_value (none ∷ groups) t h = cc
sum_known_value (some n ∷ groups) t h = elim (Option-cases (sum_known groups)) [
  | inl e ↦ absurd (none-ne-some _ (rw e at h))
  | inr (m, e) ↦
      let total : n + m ≡ t = some-injective _ _ (rw e at h) in
      omega (arith, total, sum_known_value groups m e)
]

-- A known number of row groups is the one that the file has.
pub known_here :
    (before rest : List (Option ℕ)) (g : Option ℕ) (n t : ℕ)
    → sum_known (before ++ g ∷ rest) ≡ some t
    → matches_known g n ≡ true
    → groups_of g ≡ n
unfolding sum_known groups_of matches_known
known_here [] rest none n t h e = cc
known_here [] rest (some m) n t h e = sym ((==_iff n m).0 e)
known_here (none ∷ before) rest g n t h e = cc
known_here (some m ∷ before) rest g n t h e = elim (Option-cases (sum_known (before ++ g ∷ rest))) [
  | inl x ↦ absurd (none-ne-some _ (rw x at h))
  | inr (k, x) ↦ known_here before rest g n k x e
]

pub take_before :
    (before rest : List (Option ℕ)) (g : Option ℕ) (n : ℕ)
    → n ≡ length before
    → take n (before ++ g ∷ rest) ≡ before
take_before [] rest g zero h = refl
take_before [] rest g (suc n) h = absurd (omega arith)
take_before (x ∷ before) rest g zero h = absurd (omega arith)
take_before (x ∷ before) rest g (suc n) h =
    ap (λ t. x ∷ t) (take_before before rest g n (omega arith))

pub take_here :
    (before rest : List (Option ℕ)) (g : Option ℕ) (n : ℕ)
    → n ≡ length before + 1
    → take n (before ++ g ∷ rest) ≡ before ++ g ∷ []
take_here before rest g n h =
    ap (take n) (sym (append_assoc before (g ∷ []) rest))
    ∙ take-append n (before ++ g ∷ []) rest (omega (arith, length-append before (g ∷ [])))
    ∙ ap (λ m. take m (before ++ g ∷ [])) (h ∙ sym (length-append before (g ∷ [])))
    ∙ take_all (before ++ g ∷ [])

pub get_here :
    (before rest : List (Option ℕ)) (g : Option ℕ) (n : ℕ)
    → n ≡ length before
    → get_groups (before ++ g ∷ rest) n ≡ groups_of g
unfolding get_groups
get_here [] rest g zero h = refl
get_here [] rest g (suc n) h = absurd (omega arith)
get_here (x ∷ before) rest g zero h = absurd (omega arith)
get_here (x ∷ before) rest g (suc n) h = get_here before rest g n (omega arith)

row_groups_ok :
    (files : List (Option ℕ)) (p : Checkpoint) (t c : ℕ)
    → sum_known files ≡ some t
    → p.total_fragments ≡ some t
    → sum_groups (take p.completed_files files) ≡ c
    → c ≤ p.completed_fragments
    → p.completed_fragments ≤ c + get_groups files p.completed_files
    → check_row_groups files p ≡ ok tt
unfolding check_row_groups total_is
row_groups_ok files p t c known total complete low high =
    let same : (t == t) ≡ true = ground arith in
    let low' : leb c p.completed_fragments ≡ true = ground arith in
    let high' : leb p.completed_fragments (c + get_groups files p.completed_files) ≡ true =
      ground arith in
    rw (known, total, same, complete, low', high') refl

row_groups_unknown :
    (files : List (Option ℕ)) (p : Checkpoint)
    → sum_known files ≡ none
    → check_row_groups files p ≡ ok tt
unfolding check_row_groups
row_groups_unknown files p e = rw e refl

module _ (a : Analysis) (files : List (Option ℕ)) (p : Checkpoint) (unit : p.unit ≡ a.fragment_unit)
    (all : p.total_files ≡ length files) (within : p.completed_files ≤ length files) where
  pub IsShaped-file :
      p.unit ≡ manifest_file
      → p.completed_fragments ≡ p.completed_files
      → p.total_fragments ≡ some (length files)
      → IsShaped a files p
  unfolding check_unit total_is total_covers
  IsShaped-file by_file same total =
      let covered : leb p.completed_fragments (length files) ≡ true = ground arith in
      let counted : (p.completed_fragments == p.completed_files) ≡ true = ground arith in
      let reached : (length files == length files) ≡ true = ground arith in
      record {
        unit_same = unit;
        files_total = all;
        files_within = within;
        total_covered = rw (total, covered) refl;
        unit_checked = rw (by_file, counted, total, reached) refl;
      }

  pub IsShaped-known :
      (t c : ℕ)
      → p.unit ≡ parquet_row_group
      → sum_known files ≡ some t
      → p.total_fragments ≡ some t
      → sum_groups (take p.completed_files files) ≡ c
      → c ≤ p.completed_fragments
      → p.completed_fragments ≤ c + get_groups files p.completed_files
      → p.completed_fragments ≤ t
      → IsShaped a files p
  unfolding check_unit total_covers
  IsShaped-known t c by_group known total complete low high fits =
      let covered : leb p.completed_fragments t ≡ true = ground arith in
      record {
        unit_same = unit;
        files_total = all;
        files_within = within;
        total_covered = rw (total, covered) refl;
        unit_checked = rw by_group (row_groups_ok files p t c known total complete low high);
      }

  pub IsShaped-unknown :
      p.unit ≡ parquet_row_group
      → sum_known files ≡ none
      → total_covers p.total_fragments p.completed_fragments ≡ true
      → IsShaped a files p
  unfolding check_unit
  IsShaped-unknown by_group e covered = record {
    unit_same = unit;
    files_total = all;
    files_within = within;
    total_covered = covered;
    unit_checked = rw by_group (row_groups_unknown files p e);
  }

-- What the counters are before fragment `j` of the file behind `before`.
abbrev pub GroupCount : Option ℕ → List (Option ℕ) → ℕ → Checkpoint → Type 0
GroupCount none before j p = p.total_fragments ≡ none
GroupCount (some t) before j p =
    (p.total_fragments ≡ some t) × (p.completed_fragments ≡ sum_groups before + j)

abbrev pub FragmentCount :
    FragmentUnit → List (Option ℕ) → List (Option ℕ) → ℕ → Checkpoint → Type 0
FragmentCount manifest_file files before j p =
    (p.total_fragments ≡ some (length files)) × (p.completed_fragments ≡ length before)
FragmentCount parquet_row_group files before j p = GroupCount (sum_known files) before j p

pub record IsCounted (a : Analysis) (files before : List (Option ℕ)) (j : ℕ) (p : Checkpoint)
    : Type 0 where
  pub unit : p.unit ≡ a.fragment_unit
  pub all : p.total_files ≡ length files
  pub files_done : p.completed_files ≡ length before
  pub fragments : FragmentCount a.fragment_unit files before j p

-- The counters after the fragment.
pub record IsNext (a : Analysis) (files before : List (Option ℕ)) (j : ℕ) (p next : Checkpoint)
    : Type 0 where
  pub shaped : IsShaped a files next
  pub arrived : next.completed_files ≡ length before
  pub behind : IsBehind p next
  pub counted :
      ((is_final next ≡ false) × IsCounted a files before j next)
      ⊎ ((is_final next ≡ true)
          × (p.completed_files < next.completed_files)
          × (total_is next.total_fragments next.completed_fragments ≡ true))

pub total_is_refl : (o : Option ℕ) (n : ℕ) → o ≡ some n → total_is o n ≡ true
unfolding total_is
total_is_refl o n h = let same : (n == n) ≡ true = ground arith in rw (h, same) refl
