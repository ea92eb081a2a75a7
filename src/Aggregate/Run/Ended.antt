-- ===== src/Aggregate/Run/Ended.antt =====
-- aggregate.rs against db.rs: a whole run of `execute`.
use rowtrail.Base.{
  Bool, Ensures, Ensures-any, Ensures-bind, Ensures-guarded, List, Option-cases, Result, [], ap,
  arith, false, inl, inr, length, length-map, ltb, refl, some, sym, true, ◌<◌, ◌||◌, ◌∷◌, ◌≡◌,
}
use rowtrail.Jobs.{FragmentUnit, manifest_file, parquet_row_group}
use rowtrail.Aggregate.{Aggregate, AggregateError, bad_argument}
use rowtrail.Aggregate.Output.{new_states, output}
use rowtrail.Aggregate.Projection.{Schema}
use rowtrail.Aggregate.Run.{
  InputFile, Plan, execute, first_progress, first_session, known_groups, run_files, total_of,
}
use rowtrail.Jobs.Coverage.{sum_groups, sum_known}
use rowtrail.Jobs.Publish.{is_available}
use rowtrail.Aggregate.Run.Accepted.{is_nil, key_of, last_progress}
use rowtrail.Aggregate.Run.Counts.{FragmentCount, GroupCount}
use rowtrail.Aggregate.Run.Landed.{IsAt, IsEnded}
use rowtrail.Aggregate.Run.Files.{run_files-Ended}

or_true : (b : Bool) → (b || true) ≡ true
or_true true = refl
or_true false = refl

start_count :
    (u : FragmentUnit) (files : List InputFile)
    → FragmentCount u (known_groups files) [] 0 (first_progress u files)
unfolding total_of sum_groups
start_count manifest_file files =
    (ap some (sym (length-map (λ (f : InputFile). f.row_groups) files)), refl)
start_count parquet_row_group files = elim (Option-cases (sum_known (known_groups files))) [
  | inl e ↦ rw (e, GroupCount) refl
  | inr (t, e) ↦ rw (e, GroupCount) (refl, refl)
]

start-IsAt :
    (plan : Plan) (schema : Schema) (aggregates : List Aggregate) (files : List InputFile)
    → 0 < length files
    → IsAt plan.analysis (known_groups files) [] 0 (first_session plan schema aggregates files)
unfolding last_progress key_of is_nil
start-IsAt plan schema aggregates files h = record {
  consistent = record { accepted = tt; numbered = refl; linked = refl; behind = tt };
  quiet = or_true (is_available plan.analysis.preview);
  counted = record {
    unit = refl;
    all = sym (length-map (λ (f : InputFile). f.row_groups) files);
    files_done = refl;
    fragments = start_count plan.analysis.fragment_unit files;
  };
}

-- When `execute` returns, `publish` accepts every checkpoint that it sent, after the ones before it and
-- as the part of its number, and the last one covers all files and fragments. The files may declare
-- their row groups or not, and both units and both previews are covered.
pub execute-Ended :
    (plan : Plan) (schema : Schema) (aggregates : List Aggregate) (files : List InputFile)
    (sources : Result AggregateError (Unit {0}))
    → Ensures
        (IsEnded plan.analysis (known_groups files))
        (execute plan schema aggregates files sources)
unfolding execute
execute-Ended plan schema aggregates [] sources = tt
execute-Ended plan schema aggregates (file ∷ rest) sources =
    Ensures-guarded _ (ltb 0 (length (file ∷ rest))) bad_argument _ (
      Ensures-bind (λ c. Unit) _ (output (new_states schema aggregates)) _
        (Ensures-any (output (new_states schema aggregates)))
        λ c u.
          Ensures-bind (IsEnded plan.analysis (known_groups (file ∷ rest))) _
            (run_files plan 0 (file ∷ rest) (first_session plan schema aggregates (file ∷ rest))) _
            (run_files-Ended plan [] file rest 0
              (first_session plan schema aggregates (file ∷ rest)) refl
              (start-IsAt plan schema aggregates (file ∷ rest) (omega arith)))
            λ s done. Ensures-bind (λ v. Unit) _ sources _ (Ensures-any sources) λ v w. done)
