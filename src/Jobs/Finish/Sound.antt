-- ===== src/Jobs/Finish/Sound.antt =====
-- db.rs: `finish` keeps the shape of every result, and adds to what was committed.
use mathlib.Core.List.{append-nil}
use rowtrail.Base.{
  Bool, Bool-cases, Ensures, Ensures-any, Ensures-bind, Ensures-guard, Ensures-of_Returns, Returns,
  Returns-bind, [], ap, arith, false, guard, inl, inr, length, ltb, ltb→lt, ok_or, refl, sym,
  take_all, true, ℕ, ◌&&◌, ◌++◌, ◌+◌, ◌-◌, ◌==◌, ◌∙◌, ◌∷◌, ◌≡◌,
}
use rowtrail.Jobs.{
  JobSpec, JobState, Quality, ResultRow, Revision, is_some, not_found, partial, result_corrupt,
}
use rowtrail.Jobs.Publish.{add_revision, sum_rows}
use rowtrail.Jobs.Finish.{
  Change, announce, close_result, conclude, conclude_analysis, final_aggregate, full_coverage,
  is_completed, plain_query, salvage, whole_revision,
}
use rowtrail.Jobs.Shape.{Extends, Extends-refl, Fits, IsSound, add_revision-IsSound}

-- What may become of a result row when a job ends.
abbrev pub Closed : Bool → ResultRow → Change → Type 0
Closed progressive row change = IsSound progressive change.0 × Extends row change.0

unchanged :
    (progressive : Bool) (row : ResultRow)
    → IsSound progressive row
    → Closed progressive row (row, [])
unchanged progressive row h = (h, Extends-refl row)

announce-Closed :
    (progressive : Bool) (spec : JobSpec) (rev : Revision) (row : ResultRow)
    → IsSound progressive row
    → rev.revision ≡ row.head + 1
    → Fits progressive row.parts rev
    → Returns (Closed progressive row) (announce spec rev row)
unfolding announce
announce-Closed progressive spec rev row h e f =
    Returns-bind _ _ (add_revision rev row) _ (add_revision-IsSound progressive rev row h e f)
      λ row' (s, x). (
        s,
        record {
          more_parts = ([], ap (λ r. r.parts) x ∙ sym (append-nil row.parts));
          more_revisions = (rev ∷ [], ap (λ r. r.revisions) x);
        },
      )

whole-Fits : (n : ℕ) (q : Quality) (row : ResultRow) → Fits false row.parts (whole_revision n q row)
unfolding whole_revision
whole-Fits n q row = (omega arith, ap sum_rows (sym (take_all row.parts)))

pub salvage-Closed :
    (spec : JobSpec) (row : ResultRow)
    → IsSound false row
    → Returns (Closed false row) (salvage spec row)
unfolding salvage
salvage-Closed spec row h = elim (Bool-cases (row.head == 0 && ltb 0 (length row.parts))) [
  | inl e ↦
      let q : Quality = record spec.quality { kind = partial; final_for_request = false } in
      rw (e, Returns)
        (announce-Closed false spec (whole_revision 1 q row) row h
          (unfold whole_revision in ground arith) (whole-Fits 1 q row))
  | inr e ↦ rw (e, Returns) (unchanged false row h)
]

conclude-Closed :
    (spec : JobSpec) (row : ResultRow)
    → IsSound false row
    → Ensures (Closed false row) (conclude spec row)
unfolding conclude
conclude-Closed spec row h =
    let q : Quality = record spec.quality { final_for_request = true } in
    Ensures-bind _ _ (guard (is_some row.schema) result_corrupt) _ (Ensures-any _) λ u v.
      Ensures-of_Returns _ _ (announce spec (whole_revision (row.head + 1) q row) row) (λ c k. k)
        (announce-Closed false spec (whole_revision (row.head + 1) q row) row h
          (unfold whole_revision in refl) (whole-Fits (row.head + 1) q row))

conclude_analysis-Closed :
    (spec : JobSpec) (row : ResultRow)
    → IsSound true row
    → Ensures (Closed true row) (conclude_analysis spec row)
unfolding conclude_analysis
conclude_analysis-Closed spec row h =
    Ensures-bind _ _ (guard (ltb 0 (length row.parts)) result_corrupt) _ (Ensures-guard _ _)
      λ u some_part. Ensures-bind _ _ (ok_or row.progress not_found) _ (Ensures-any _) λ p v.
        Ensures-bind _ _ (guard (full_coverage p) result_corrupt) _ (Ensures-any _) λ w x.
          let after : ResultRow = record row {
            checkpoints = row.checkpoints ++ (row.head + 1, length row.parts - 1) ∷ [];
          } in
          Ensures-of_Returns _ _ (announce spec (final_aggregate spec p row) after)
            (λ c (s, k).
              (s, record { more_parts = k.more_parts; more_revisions = k.more_revisions }))
            (announce-Closed true spec (final_aggregate spec p row) after
              (record {
                parts_numbered = h.parts_numbered;
                revisions_numbered = h.revisions_numbered;
                head_last = h.head_last;
                revisions_fit = h.revisions_fit;
              })
              (unfold final_aggregate in refl)
              (unfold final_aggregate in
                (omega arith, ltb→lt 0 (length row.parts) some_part, refl)))

-- A plain query has no analysis.
pub plain_query-analysis :
    (spec : JobSpec) → plain_query spec ≡ true → is_some spec.analysis ≡ false
unfolding plain_query
plain_query-analysis spec h = ground arith

close_plain :
    (spec : JobSpec) (state : JobState) (row : ResultRow)
    → plain_query spec ≡ true
    → IsSound (is_some spec.analysis) row
    → Ensures (Closed (is_some spec.analysis) row) (close_result spec state row)
unfolding close_result
close_plain spec state row p =
    rw (p, plain_query-analysis spec p)
      (λ h. elim (Bool-cases (is_completed state)) [
        | inl e ↦ rw e (conclude-Closed spec row h)
        | inr e ↦
            rw e (Ensures-of_Returns _ _ (salvage spec row) (λ c k. k) (salvage-Closed spec row h))
      ])

close_other :
    (spec : JobSpec) (state : JobState) (row : ResultRow)
    → plain_query spec ≡ false
    → IsSound (is_some spec.analysis) row
    → Ensures (Closed (is_some spec.analysis) row) (close_result spec state row)
unfolding close_result
close_other spec state row p = rw p (elim (Bool-cases (is_completed state)) [
  | inl e ↦ rw e (elim (Bool-cases (is_some spec.analysis)) [
    | inl a ↦ rw a λ h. conclude_analysis-Closed spec row h
    | inr a ↦ rw a λ h. unchanged false row h
  ])
  | inr e ↦ rw e λ h. unchanged (is_some spec.analysis) row h
])

-- However a job ends, its result stays sound and keeps what was committed.
pub close_result-Closed :
    (spec : JobSpec) (state : JobState) (row : ResultRow)
    → IsSound (is_some spec.analysis) row
    → Ensures
        (λ change. IsSound (is_some spec.analysis) change.0 × Extends row change.0)
        (close_result spec state row)
close_result-Closed spec state row h = elim (Bool-cases (plain_query spec)) [
  | inl e ↦ close_plain spec state row e h
  | inr e ↦ close_other spec state row e h
]
