-- ===== src/Aggregate/Run/Steps.antt =====
-- aggregate.rs: the counters after one fragment, in both units.
use rowtrail.Base.{
  Bool, Bool-cases, List, Option, Option-cases, [], ap, arith, false, if◌then◌else◌, inl, inr,
  length, length-append, le→leb, none, refl, some, sum, true, ℕ, ◌++◌, ◌+◌, ◌<◌, ◌==◌, ◌∙◌, ◌∷◌,
  ◌≡◌, ◌≤◌,
}
use rowtrail.Jobs.{Analysis, Checkpoint, manifest_file, parquet_row_group}
use rowtrail.Jobs.Coverage.{groups_of, sum_groups, sum_known, total_covers}
use rowtrail.Aggregate.Run.{advance, close_total, is_final, matches_known}
use rowtrail.Aggregate.Run.Counts.{
  FragmentCount, GroupCount, IsCounted, IsNext, get_here, known_here, IsShaped-file, IsShaped-known,
  IsShaped-unknown, sum_groups-append, sum_known_value, take_before, take_here, total_is_refl,
}

closed_total :
    (b : Bool) (n m : ℕ) (o : Option ℕ)
    → o ≡ some m
    → (b ≡ true → n ≡ m)
    → (if b then some n else o) ≡ some m
closed_total true n m o e h = ap some (h refl)
closed_total false n m o e h = e

pub length-here :
    (before rest : List (Option ℕ)) (g : Option ℕ)
    → length (before ++ g ∷ rest) ≡ length before + 1 + length rest
length-here before rest g = omega (arith, length-append before (g ∷ rest))

-- A whole file is one fragment.
pub file_step :
    (a : Analysis) (before rest : List (Option ℕ)) (g : Option ℕ) (rows : ℕ) (p : Checkpoint)
    → a.fragment_unit ≡ manifest_file
    → IsCounted a (before ++ g ∷ rest) before 0 p
    → IsNext a
        (before ++ g ∷ rest)
        (before ++ g ∷ [])
        0
        p
        (close_total (advance true true (length before) rows p))
unfolding close_total advance is_final
file_step a before rest g rows p by_file h =
    let (total, done) : FragmentCount manifest_file (before ++ g ∷ rest) before 0 p =
      rw by_file at h.fragments in
    let size = length-here before rest g in
    let total' =
      closed_total (length before + 1 == p.total_files) (p.completed_fragments + 1)
        (length (before ++ g ∷ rest)) p.total_fragments total λ e. ground (arith, h.all, done) in
    record {
      shaped =
          IsShaped-file a (before ++ g ∷ rest) _ h.unit h.all (omega arith) (h.unit ∙ by_file)
            (omega (arith, done)) total';
      arrived = omega (arith, length-append before (g ∷ []));
      behind = (omega (arith, h.files_done), omega arith, omega arith);
      counted = elim (Bool-cases (length before + 1 == p.total_files)) [
        | inl e ↦ inr (
          e,
          omega (arith, h.files_done),
          total_is_refl _ (p.completed_fragments + 1) (rw e refl),
        )
        | inr e ↦ inl (
          e,
          record {
            unit = h.unit;
            all = h.all;
            files_done = omega (arith, length-append before (g ∷ []));
            fragments = rw by_file (total', omega (arith, done, length-append before (g ∷ [])));
          },
        )
      ];
    }

sum_before :
    (before rest : List (Option ℕ)) (g : Option ℕ) (n t : ℕ)
    → sum_known (before ++ g ∷ rest) ≡ some t
    → matches_known g n ≡ true
    → (groups_of g ≡ n)
      × (sum_groups (before ++ g ∷ []) ≡ sum_groups before + n)
      × (t ≡ sum_groups before + n + sum_groups rest)
unfolding sum_groups
sum_before before rest g n t known same =
    let here = known_here before rest g n t known same in
    (
      here,
      omega (arith, here, sum_groups-append before (g ∷ [])),
      omega (
        arith,
        here,
        sum_known_value (before ++ g ∷ rest) t known,
        sum_groups-append before (g ∷ rest),
      ),
    )

no_groups : (rest : List (Option ℕ)) → length rest ≡ 0 → sum_groups rest ≡ 0
unfolding sum_groups
no_groups [] h = refl
no_groups (g ∷ rest) h = absurd (omega arith)

if_false : {A : Type 0} (b : Bool) (x y z : A) → b ≡ false → y ≡ z → (if b then x else y) ≡ z
if_false b x y z e h = rw e h

if_true : {A : Type 0} (b : Bool) (x y : A) → b ≡ true → (if b then x else y) ≡ x
if_true b x y e = rw e refl

covers_none : (o : Option ℕ) (n : ℕ) → o ≡ none → total_covers o n ≡ true
unfolding total_covers
covers_none o n e = rw e refl

covers_itself : (o : Option ℕ) (n : ℕ) → o ≡ some n → total_covers o n ≡ true
unfolding total_covers
covers_itself o n e = rw e (le→leb n n (omega arith))

module _ (a : Analysis) (before rest : List (Option ℕ)) (g : Option ℕ) (rows n j : ℕ)
    (p : Checkpoint) (by_group : a.fragment_unit ≡ parquet_row_group)
    (same : matches_known g n ≡ true) (h : IsCounted a (before ++ g ∷ rest) before j p) where
  -- A row group that is not the last of its file.
  pub group_within :
      j + 1 < n
      → IsNext a
          (before ++ g ∷ rest)
          before
          (j + 1)
          p
          (close_total (advance true false (length before) rows p))
  unfolding close_total advance is_final
  group_within more = elim (Option-cases (sum_known files)) [
    | inl e ↦
        let total : FragmentCount parquet_row_group files before j p = rw by_group at h.fragments in
        let total' =
          if_false _ (some (p.completed_fragments + 1)) _ none open_end (rw e at total) in
        record {
          shaped =
              IsShaped-unknown a files _ h.unit h.all within (h.unit ∙ by_group) e
                (covers_none _ (p.completed_fragments + 1) total');
          arrived = h.files_done;
          behind = (omega arith, omega arith, omega arith);
          counted = inl (
            open_end,
            record {
              unit = h.unit;
              all = h.all;
              files_done = h.files_done;
              fragments = rw (by_group, e) total';
            },
          );
        }
    | inr (t, e) ↦
        let groups : FragmentCount parquet_row_group files before j p =
          rw by_group at h.fragments in
        let (total, done) : GroupCount (some t) before j p = rw e at groups in
        let (here, sum, whole) = sum_before before rest g n t e same in
        let total' = if_false _ (some (p.completed_fragments + 1)) _ (some t) open_end total in
        let there = get_here before rest g p.completed_files h.files_done in
        record {
          shaped =
              IsShaped-known a files _ h.unit h.all within t (sum_groups before) (h.unit ∙ by_group)
                e total' (ap sum_groups (take_before before rest g p.completed_files h.files_done))
                (omega (arith, done)) (omega (arith, done, there, here, more))
                (omega (arith, done, whole, more));
          arrived = h.files_done;
          behind = (omega arith, omega arith, omega arith);
          counted = inl (
            open_end,
            record {
              unit = h.unit;
              all = h.all;
              files_done = h.files_done;
              fragments = rw (by_group, e) (total', omega (arith, done));
            },
          );
        }
  ]
    where
      files : List (Option ℕ)
      files = before ++ g ∷ rest

      size : length (before ++ g ∷ rest) ≡ length before + 1 + length rest
      size = length-here before rest g

      within : p.completed_files ≤ length files
      within = omega (arith, size, h.files_done)

      open_end : (p.completed_files == p.total_files) ≡ false
      open_end = ground (arith, size, h.all, h.files_done)

  -- The last row group of its file, or a file without any.
  pub group_last :
      (counted : Bool)
      → j + (if counted then 1 else 0) ≡ n
      → IsNext a
          (before ++ g ∷ rest)
          (before ++ g ∷ [])
          0
          p
          (close_total (advance counted true (length before) rows p))
  unfolding close_total advance is_final
  group_last counted moved = elim (Option-cases (sum_known files)) [
    | inl e ↦
        let total : FragmentCount parquet_row_group files before j p = rw by_group at h.fragments in
        elim (Bool-cases ended) [
          | inl x ↦
              let closed = if_true ended (some grown) p.total_fragments x in
              record {
                shaped =
                    IsShaped-unknown a files _ h.unit h.all within (h.unit ∙ by_group) e
                      (covers_itself _ grown closed);
                arrived = one_more;
                behind = behind;
                counted = inr (x, further, total_is_refl _ grown closed);
              }
          | inr x ↦
              let total' = if_false ended (some grown) p.total_fragments none x (rw e at total) in
              record {
                shaped =
                    IsShaped-unknown a files _ h.unit h.all within (h.unit ∙ by_group) e
                      (covers_none _ grown total');
                arrived = one_more;
                behind = behind;
                counted = inl (
                  x,
                  record {
                    unit = h.unit;
                    all = h.all;
                    files_done = one_more;
                    fragments = rw (by_group, e) total';
                  },
                );
              }
        ]
    | inr (t, e) ↦
        let groups : FragmentCount parquet_row_group files before j p =
          rw by_group at h.fragments in
        let (total, done) : GroupCount (some t) before j p = rw e at groups in
        let (here, sum, whole) = sum_before before rest g n t e same in
        let total' = closed_total ended grown t p.total_fragments total λ x.
          let none_left = no_groups rest (last_file x) in
          omega (arith, done, whole, moved, none_left) in
        record {
          shaped =
              IsShaped-known a files _ h.unit h.all within t (sum_groups before + n)
                (h.unit ∙ by_group) e total'
                (ap sum_groups (take_here before rest g (length before + 1) refl) ∙ sum)
                (omega (arith, done, moved)) (omega (arith, done, moved))
                (omega (arith, done, moved, whole));
          arrived = one_more;
          behind = behind;
          counted = elim (Bool-cases ended) [
            | inl x ↦
                inr (
                  x,
                  further,
                  total_is_refl _ grown (if_true ended (some grown) p.total_fragments x),
                )
            | inr x ↦ inl (
              x,
              record {
                unit = h.unit;
                all = h.all;
                files_done = one_more;
                fragments = rw (by_group, e) (total', omega (arith, done, moved, sum));
              },
            )
          ];
        }
  ]
    where
      files : List (Option ℕ)
      files = before ++ g ∷ rest

      grown : ℕ
      grown = p.completed_fragments + (if counted then 1 else 0)

      ended : Bool
      ended = length before + 1 == p.total_files

      size : length (before ++ g ∷ rest) ≡ length before + 1 + length rest
      size = length-here before rest g

      within : length before + 1 ≤ length files
      within = omega (arith, size)

      further : p.completed_files < length before + 1
      further = omega (arith, h.files_done)

      one_more : length before + 1 ≡ length (before ++ g ∷ [])
      one_more = omega (arith, length-append before (g ∷ []))

      last_file : ended ≡ true → length rest ≡ 0
      last_file x = ground (arith, size, h.all)

      behind :
          (p.completed_files ≤ length before + 1)
          × (p.completed_fragments ≤ grown)
          × (p.processed_rows ≤ p.processed_rows + rows)
      behind = (omega (arith, h.files_done), omega arith, omega arith)
