-- ===== src/Aggregate/Run/Files.antt =====
-- aggregate.rs: the loops over the fragments of a file and over the files.
use mathlib.Core.Path.{subst}
use mathlib.Core.List.{append_assoc}
use rowtrail.Base.{
  ==_iff, Bool, Bool-cases, Ensures, Ensures-any, Ensures-bind, Ensures-guarded, List, Option, [],
  arith, false, if◌then◌else◌, inl, inr, length, length-append, ltb, refl, suc, sym, true, zero, ℕ,
  ◌++◌, ◌+◌, ◌<◌, ◌==◌, ◌||◌, ◌∙◌, ◌∷◌, ◌≡◌, ◌⊎◌,
}
use rowtrail.Jobs.{Analysis, FragmentUnit, manifest_file, parquet_row_group, source_changed}
use rowtrail.Aggregate.{corrupt, source_changed}
use rowtrail.Aggregate.Run.{
  InputFile, Opened, Plan, Session, advance, at_least_one, close_total, fragment_rows, fragments_of,
  is_file, is_final, known_groups, matches_known, run_file, run_files, run_fragment, run_fragments,
  scan,
}
use rowtrail.Aggregate.Run.Accepted.{IsConsistent, IsQuiet}
use rowtrail.Aggregate.Run.Counts.{IsCounted, IsNext}
use rowtrail.Aggregate.Run.Landed.{IsAt, IsEnded, Landed, publish-Landed}
use rowtrail.Aggregate.Run.Steps.{file_step, group_last, group_within, length-here}

ended_files :
    {a : Analysis} (files : List (Option ℕ)) (s : Session)
    → IsEnded a files s
    → s.progress.completed_files ≡ length files
unfolding is_final
ended_files files s h =
    (==_iff s.progress.completed_files s.progress.total_files).0 h.final ∙ h.covers

unit-cases : (u : FragmentUnit) → (u ≡ manifest_file) ⊎ (u ≡ parquet_row_group)
unit-cases manifest_file = inl refl
unit-cases parquet_row_group = inr refl

at_least_one-cases : (n : ℕ) → ((n ≡ 0) × (at_least_one n ≡ 1)) ⊎ ((0 < n) × (at_least_one n ≡ n))
unfolding at_least_one
at_least_one-cases zero = inl (refl, refl)
at_least_one-cases (suc n) = inr (omega arith, refl)

some_fragment : (u : FragmentUnit) (f : Opened) → (k : ℕ) × (fragments_of u f ≡ suc k)
unfolding fragments_of at_least_one
some_fragment manifest_file f = (0, refl)
some_fragment parquet_row_group f = positive f.num_row_groups
  where
    positive : (n : ℕ) → (k : ℕ) × (at_least_one n ≡ suc k)
    positive zero = (0, refl)
    positive (suc n) = (n, refl)

module _ (plan : Plan) (before rest : List (Option ℕ)) (g : Option ℕ) (f : Opened)
    (same : matches_known g f.num_row_groups ≡ true) where
  abbrev files : List (Option ℕ)
  files = before ++ g ∷ rest

  abbrev counts : Bool
  counts = is_file plan.analysis.fragment_unit || ltb 0 f.num_row_groups

  -- A round whose counters are right.
  round :
      (fragments index j : ℕ) (after : List (Option ℕ)) (s : Session)
      → IsConsistent plan.analysis files s
      → IsQuiet plan.analysis s
      → ((rows : ℕ)
          → IsNext plan.analysis files after j s.progress (
              close_total
                (advance counts (index + 1 == fragments) (length before) rows s.progress)))
      → Ensures
          (Landed plan.analysis files after j)
          (run_fragment plan f (length before) fragments index s)
  unfolding run_fragment
  round fragments index j after s h quiet next =
      Ensures-bind (λ r. Unit) _ (scan s.states 0 (f.stream index)) _
        (Ensures-any (scan s.states 0 (f.stream index)))
        λ (states, rows) u.
          Ensures-guarded _ (rows == fragment_rows plan.analysis.fragment_unit f index) corrupt _ (
            Ensures-bind (λ r. Unit) _ (f.validated index) _ (Ensures-any (f.validated index))
              λ r v.
                publish-Landed plan files after j (plan.due (length before) index) s states _ h
                  quiet (next rows))

  abbrev fragments : ℕ
  fragments = fragments_of plan.analysis.fragment_unit f

  within_file :
      (index : ℕ) (s : Session)
      → index + 1 < fragments
      → IsAt plan.analysis files before index s
      → Ensures
          (Landed plan.analysis files before (index + 1))
          (run_fragment plan f (length before) fragments index s)
  unfolding fragments_of is_file
  within_file index s more h = elim (unit-cases plan.analysis.fragment_unit) [
    | inl e ↦
        let one : fragments_of plan.analysis.fragment_unit f ≡ 1 = rw e refl in absurd (omega arith)
    | inr e ↦
        let some_left : fragments_of plan.analysis.fragment_unit f ≡ at_least_one f.num_row_groups =
          rw e refl in
        let inside : index + 1 < f.num_row_groups =
          grind (arith, at_least_one-cases f.num_row_groups) in
        let counted : counts ≡ true =
          (let k : ltb 0 f.num_row_groups ≡ true = ground arith in rw (e, k) refl) in
        let open_file : (index + 1 == fragments) ≡ false = ground arith in
        round fragments index (index + 1) before s h.consistent h.quiet λ rows.
          rw (counted, open_file)
            (group_within plan.analysis before rest g rows f.num_row_groups index s.progress e same
              h.counted inside)
  ]

  end_of_file :
      (index : ℕ) (s : Session)
      → index + 1 ≡ fragments
      → IsAt plan.analysis files before index s
      → Ensures
          (Landed plan.analysis files (before ++ g ∷ []) 0)
          (run_fragment plan f (length before) fragments index s)
  unfolding fragments_of is_file
  end_of_file index s end h = elim (unit-cases plan.analysis.fragment_unit) [
    | inl e ↦
        let one : fragments_of plan.analysis.fragment_unit f ≡ 1 = rw e refl in
        let first : index ≡ 0 = omega arith in
        let counted : counts ≡ true = rw e refl in
        let closed : (index + 1 == fragments) ≡ true = ground arith in
        round fragments index 0 (before ++ g ∷ []) s h.consistent h.quiet λ rows.
          rw (counted, closed)
            (file_step plan.analysis before rest g rows s.progress e
              (subst (λ j. IsCounted plan.analysis files before j s.progress) first h.counted))
    | inr e ↦
        let some_left : fragments_of plan.analysis.fragment_unit f ≡ at_least_one f.num_row_groups =
          rw e refl in
        let closed : (index + 1 == fragments) ≡ true = ground arith in
        let same_test : counts ≡ ltb 0 f.num_row_groups = rw e refl in
        let moved : index + (if ltb 0 f.num_row_groups then 1 else 0) ≡ f.num_row_groups =
          grind (arith, at_least_one-cases f.num_row_groups) in
        round fragments index 0 (before ++ g ∷ []) s h.consistent h.quiet λ rows.
          rw (same_test, closed)
            (group_last plan.analysis before rest g rows f.num_row_groups index s.progress e same
              h.counted (ltb 0 f.num_row_groups) moved)
  ]

  -- The rounds that are left of a file.
  rounds :
      (left index : ℕ) (s : Session)
      → index + suc left ≡ fragments
      → IsAt plan.analysis files before index s
      → Ensures
          (Landed plan.analysis files (before ++ g ∷ []) 0)
          (run_fragments plan f (length before) fragments (suc left) index s)
  unfolding run_fragments
  rounds zero index s e h =
      Ensures-bind (Landed plan.analysis files (before ++ g ∷ []) 0)
        (Landed plan.analysis files (before ++ g ∷ []) 0)
        (run_fragment plan f (length before) fragments index s) _
        (end_of_file index s (omega arith) h) λ t landed. landed
  rounds (suc left) index s e h =
      Ensures-bind (Landed plan.analysis files before (index + 1))
        (Landed plan.analysis files (before ++ g ∷ []) 0)
        (run_fragment plan f (length before) fragments index s) _
        (within_file index s (omega arith) h)
        λ t (here, landed). elim landed [
          | inl (open_end, at) ↦ rounds left (index + 1) t (omega arith) at
          | inr r ↦
              let all = ended_files files t r in
              absurd (omega (arith, all, here, length-here before rest g))
        ]

  -- A file that is opened with other row groups than declared ends the run.
  file-Landed :
      (s : Session)
      → IsAt plan.analysis files before 0 s
      → Ensures
          (Landed plan.analysis files (before ++ g ∷ []) 0)
          (run_fragments plan f (length before) fragments fragments 0 s)
  file-Landed s h =
      let (k, e) = some_fragment plan.analysis.fragment_unit f in
      subst
        (λ n.
          Ensures (Landed plan.analysis files (before ++ g ∷ []) 0)
            (run_fragments plan f (length before) fragments n 0 s))
        (sym e) (rounds k 0 s (omega (arith, e)) h)

not_ended :
    (t : Session) (files : List (Option ℕ))
    → is_final t.progress ≡ false
    → t.progress.total_files ≡ length files
    → ¬ (t.progress.completed_files ≡ length files)
unfolding is_final
not_ended t files e all here = ground (arith, all, here)

run_file-Landed :
    (plan : Plan) (before rest : List (Option ℕ)) (file : InputFile) (s : Session)
    → IsAt plan.analysis (before ++ file.row_groups ∷ rest) before 0 s
    → Ensures
        (Landed plan.analysis (before ++ file.row_groups ∷ rest) (before ++ file.row_groups ∷ []) 0)
        (run_file plan (length before) file s)
unfolding run_file
run_file-Landed plan before rest file s h =
    Ensures-bind (λ f. Unit) _ file.opened _ (Ensures-any file.opened)
      λ f u. elim (Bool-cases (matches_known file.row_groups f.num_row_groups)) [
        | inr e ↦ rw (e, Ensures) tt
        | inl e ↦ rw e (
            Ensures-guarded _ (matches_known file.rows f.num_rows) source_changed _
              (file-Landed plan before rest file.row_groups f e s h))
      ]

pub run_files-Ended :
    (plan : Plan) (before : List (Option ℕ)) (file : InputFile) (rest : List InputFile) (i : ℕ)
    (s : Session)
    → i ≡ length before
    → IsAt plan.analysis (before ++ known_groups (file ∷ rest)) before 0 s
    → Ensures
        (IsEnded plan.analysis (before ++ known_groups (file ∷ rest)))
        (run_files plan i (file ∷ rest) s)
unfolding run_files
run_files-Ended plan before file [] i s e h = rw e (
    Ensures-bind (Landed plan.analysis all after 0) (IsEnded plan.analysis all)
      (run_file plan (length before) file s) _ (run_file-Landed plan before [] file s h) last)
  where
    all : List (Option ℕ)
    all = before ++ file.row_groups ∷ []

    after : List (Option ℕ)
    after = before ++ file.row_groups ∷ []

    last : (t : Session) → Landed plan.analysis all after 0 t → IsEnded plan.analysis all t
    last t (here, inr r) = r
    last t (here, inl (open_end, at)) = absurd (not_ended t all open_end at.counted.all here)
run_files-Ended plan before file (next ∷ rest) i s e h = rw e (
    Ensures-bind (Landed plan.analysis all after 0) (IsEnded plan.analysis all)
      (run_file plan (length before) file s) _
      (run_file-Landed plan before (known_groups (next ∷ rest)) file s h)
      λ t (here, landed). elim landed [
        | inr r ↦
            let done = ended_files all t r in
            absurd (
              omega (
                arith,
                done,
                here,
                length-append before (file.row_groups ∷ []),
                length-here before (known_groups (next ∷ rest)) file.row_groups,
              ))
        | inl (open_end, at) ↦
            subst
              (λ fs.
                Ensures (IsEnded plan.analysis fs)
                  (run_files plan (length before + 1) (next ∷ rest) t))
              assoc
              (run_files-Ended plan after next rest (length before + 1) t
                (omega (arith, length-append before (file.row_groups ∷ [])))
                (subst (λ fs. IsAt plan.analysis fs after 0 t) (sym assoc) at))
      ])
  where
    all : List (Option ℕ)
    all = before ++ known_groups (file ∷ next ∷ rest)

    after : List (Option ℕ)
    after = before ++ file.row_groups ∷ []

    assoc : after ++ known_groups (next ∷ rest) ≡ all
    assoc = append_assoc before (file.row_groups ∷ []) (known_groups (next ∷ rest))
