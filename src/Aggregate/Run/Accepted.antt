-- ===== src/Aggregate/Run/Accepted.antt =====
-- aggregate.rs against db.rs: a checkpoint that `execute` sends passes the checks of `publish`.
use rowtrail.Base.{
  ==_iff, Bool, Bool-cases, Ensures, Ensures-any, Ensures-bind, Ensures-weaken, List, Option,
  OptionAll, [], ap, arith, false, inl, inr, length, le→leb, none, ok, refl, some, sym, true, ℕ,
  ◌&&◌, ◌-◌, ◌==◌, ◌||◌, ◌∙◌, ◌∷◌, ◌≡◌, ◌≤◌, ◌⊎◌,
}
use rowtrail.Jobs.{
  Analysis, Checkpoint, FragmentUnit, Preview, available, manifest_file, parquet_row_group,
  withheld,
}
use rowtrail.Jobs.Coverage.{
  check_checkpoint, check_final, check_monotone, check_unit, same_unit, total_covers, total_is,
}
use rowtrail.Jobs.Publish.{is_available}
use rowtrail.Aggregate.Output.{output}
use rowtrail.Aggregate.Run.{
  Plan, Sent, Session, is_final, is_new, is_wanted, publish_if, send_checkpoint,
}

unfoldable pub last_progress : List Sent → Option Checkpoint
last_progress [] = none
last_progress (s ∷ older) = some s.progress

-- Every checkpoint is accepted after the ones before it, as part number `seq` with its one row.
abbrev pub AllAccepted : Analysis → List (Option ℕ) → List Sent → Type 0
AllAccepted a files [] = Unit
AllAccepted a files (s ∷ older) =
    (s.seq ≡ length older)
    × (check_checkpoint a files s.seq 1 (last_progress older) s.progress ≡ ok tt)
    × AllAccepted a files older

-- The checks that look at one checkpoint alone.
pub record IsShaped (a : Analysis) (files : List (Option ℕ)) (p : Checkpoint) : Type 0 where
  pub unit_same : p.unit ≡ a.fragment_unit
  pub files_total : p.total_files ≡ length files
  pub files_within : p.completed_files ≤ length files
  pub total_covered : total_covers p.total_fragments p.completed_fragments ≡ true
  pub unit_checked : check_unit files p p.unit ≡ ok tt

abbrev pub IsBehind : Checkpoint → Checkpoint → Type 0
IsBehind q p =
    (q.completed_files ≤ p.completed_files)
    × (q.completed_fragments ≤ p.completed_fragments)
    × (q.processed_rows ≤ p.processed_rows)

unfoldable pub key_of : Option Checkpoint → Option (ℕ × ℕ)
key_of none = none
key_of (some p) = some (p.completed_fragments, p.completed_files)

unfoldable pub is_nil : List Sent → Bool
is_nil [] = true
is_nil (s ∷ older) = false

-- What holds of a session at any time, besides its counters.
pub record IsConsistent (a : Analysis) (files : List (Option ℕ)) (s : Session) : Type 0 where
  pub accepted : AllAccepted a files s.sent
  pub numbered : s.seq ≡ length s.sent
  pub linked : s.published ≡ key_of (last_progress s.sent)
  pub behind : OptionAll (λ q. IsBehind q s.progress) (last_progress s.sent)

-- Without a preview nothing is sent before the end.
abbrev pub IsQuiet : Analysis → Session → Type 0
IsQuiet a s = (is_available a.preview || is_nil s.sent) ≡ true

same_unit_refl : (u : FragmentUnit) → same_unit u u ≡ true
unfolding same_unit
same_unit_refl manifest_file = refl
same_unit_refl parquet_row_group = refl

monotone :
    (previous : Option Checkpoint) (p : Checkpoint)
    → OptionAll (λ q. IsBehind q p) previous
    → is_new (key_of previous) p ≡ true
    → check_monotone previous p ≡ ok tt
unfolding check_monotone is_new key_of
monotone none p b n = refl
monotone (some q) p (f, g, r) n = ground (arith, f, g, r)

-- A new checkpoint of the right shape is accepted; without a preview it must be the final one.
check-accepts :
    (a : Analysis) (files : List (Option ℕ)) (seq : ℕ) (previous : Option Checkpoint)
    (p : Checkpoint)
    → IsShaped a files p
    → OptionAll (λ q. IsBehind q p) previous
    → is_new (key_of previous) p ≡ true
    → check_final a.preview seq files p ≡ ok tt
    → check_checkpoint a files seq 1 previous p ≡ ok tt
unfolding check_checkpoint
check-accepts a files seq previous p shaped behind new final =
    let unit =
      ap (λ u. same_unit u a.fragment_unit) shaped.unit_same ∙ same_unit_refl a.fragment_unit in
    let total = (==_iff p.total_files (length files)).1 shaped.files_total in
    let within = le→leb p.completed_files (length files) shaped.files_within in
    rw
      (
        unit,
        total,
        within,
        shaped.total_covered,
        shaped.unit_checked,
        monotone previous p behind new,
      )
      final

-- A session after `publish_if`: the last checkpoint is sent for sure.
pub record IsPublished (a : Analysis) (files : List (Option ℕ)) (s t : Session) : Type 0 where
  pub consistent : IsConsistent a files t
  pub same_progress : t.progress ≡ s.progress
  pub outcome :
      ((is_final s.progress ≡ false) × IsQuiet a t)
      ⊎ ((is_final s.progress ≡ true) × (last_progress t.sent ≡ some s.progress))

send_checkpoint-Consistent :
    (plan : Plan) (files : List (Option ℕ)) (s : Session)
    → IsConsistent plan.analysis files s
    → IsShaped plan.analysis files s.progress
    → is_new s.published s.progress ≡ true
    → check_final plan.analysis.preview s.seq files s.progress ≡ ok tt
    → Ensures
        (λ t.
          IsConsistent plan.analysis files t
          × (t.progress ≡ s.progress)
          × (last_progress t.sent ≡ some s.progress))
        (send_checkpoint plan s)
unfolding send_checkpoint last_progress key_of
send_checkpoint-Consistent plan files s h shaped new final =
    Ensures-bind (λ cells. Unit) _ (output s.states) _ (Ensures-any (output s.states))
      λ cells u.
        Ensures-bind (λ n. Unit) _
          (plan.checkpoint s.seq (plan.result_bytes - s.written) s.progress cells) _
          (Ensures-any (plan.checkpoint s.seq (plan.result_bytes - s.written) s.progress cells))
          λ n v. (
            record {
              accepted = (
                h.numbered,
                check-accepts plan.analysis files s.seq (last_progress s.sent) s.progress shaped
                    h.behind (ap (λ k. is_new k s.progress) (sym h.linked) ∙ new) final,
                h.accepted,
              );
              numbered = omega (arith, h.numbered);
              linked = refl;
              behind = (omega arith, omega arith, omega arith);
            },
            refl,
            refl,
          )

nothing_sent : (sent : List Sent) → is_nil sent ≡ true → length sent ≡ 0
unfolding is_nil
nothing_sent [] h = refl
nothing_sent (s ∷ older) h = cc

final_ok :
    (preview : Preview) (seq : ℕ) (files : List (Option ℕ)) (p : Checkpoint)
    → (is_available preview ≡ true)
      ⊎ ((seq ≡ 0)
          × (p.completed_files ≡ length files)
          × (total_is p.total_fragments p.completed_fragments ≡ true))
    → check_final preview seq files p ≡ ok tt
unfolding check_final is_available
final_ok available seq files p h = refl
final_ok withheld seq files p (inl h) = cc
final_ok withheld seq files p (inr (a, b, c)) =
    let first = (==_iff seq 0).1 a in
    let all = (==_iff p.completed_files (length files)).1 b in rw (first, all, c) refl

wanted_final :
    (plan : Plan) (due : Bool) (s : Session)
    → is_final s.progress ≡ true
    → is_wanted plan due s ≡ true
unfolding is_wanted
wanted_final plan due s h =
    elim (Bool-cases (is_available plan.analysis.preview && (s.seq == 0 || due))) [
      | inl e ↦ rw e refl
      | inr e ↦ rw (e, h) refl
    ]

wanted_available :
    (plan : Plan) (due : Bool) (s : Session)
    → is_final s.progress ≡ false
    → is_wanted plan due s ≡ true
    → is_available plan.analysis.preview ≡ true
unfolding is_wanted
wanted_available plan due s h w = elim (Bool-cases (is_available plan.analysis.preview)) [
  | inl e ↦ e
  | inr e ↦ cc
]

publish_final :
    (plan : Plan) (files : List (Option ℕ)) (due : Bool) (s : Session)
    → IsConsistent plan.analysis files s
    → IsQuiet plan.analysis s
    → IsShaped plan.analysis files s.progress
    → is_final s.progress ≡ true
    → is_new s.published s.progress ≡ true
    → total_is s.progress.total_fragments s.progress.completed_fragments ≡ true
    → Ensures (IsPublished plan.analysis files s) (publish_if plan due s)
unfolding publish_if is_final
publish_final plan files due s h quiet shaped final new total =
    let ending : check_final plan.analysis.preview s.seq files s.progress ≡ ok tt =
      final_ok plan.analysis.preview s.seq files s.progress
        (elim (Bool-cases (is_available plan.analysis.preview)) [
          | inl e ↦ inl e
          | inr e ↦ inr (
            h.numbered ∙ nothing_sent s.sent (rw e at quiet),
            (==_iff s.progress.completed_files s.progress.total_files).0 final ∙ shaped.files_total,
            total,
          )
        ]) in
    rw (wanted_final plan due s final, new)
      (Ensures-weaken _ (IsPublished plan.analysis files s) (send_checkpoint plan s)
        (λ t (c, same, last). record {
          consistent = c;
          same_progress = same;
          outcome = inr (final, last);
        })
        (send_checkpoint-Consistent plan files s h shaped new ending))

publish_within :
    (plan : Plan) (files : List (Option ℕ)) (due : Bool) (s : Session)
    → IsConsistent plan.analysis files s
    → IsQuiet plan.analysis s
    → IsShaped plan.analysis files s.progress
    → is_final s.progress ≡ false
    → Ensures (IsPublished plan.analysis files s) (publish_if plan due s)
unfolding publish_if
publish_within plan files due s h quiet shaped within =
    elim (Bool-cases (is_wanted plan due s && is_new s.published s.progress)) [
      | inr e ↦
          rw (e, Ensures)
            (record { consistent = h; same_progress = refl; outcome = inl (within, quiet) })
      | inl e ↦
          let (wanted, new) = both (is_wanted plan due s) (is_new s.published s.progress) e in
          let shown = wanted_available plan due s within wanted in
          rw e (
            Ensures-weaken _ (IsPublished plan.analysis files s) (send_checkpoint plan s)
              (λ t (c, same, last). record {
                consistent = c;
                same_progress = same;
                outcome = inl (within, rw shown refl);
              })
              (send_checkpoint-Consistent plan files s h shaped new
                (final_ok plan.analysis.preview s.seq files s.progress (inl shown))))
    ]
  where
    both : (x y : Bool) → (x && y) ≡ true → (x ≡ true) × (y ≡ true)
    both true true e = (refl, refl)
    both true false e = cc
    both false y e = cc

-- The checkpoint of `publish_if`: it stays out, or is sent and accepted.
pub publish_if-Published :
    (plan : Plan) (files : List (Option ℕ)) (due : Bool) (s : Session)
    → IsConsistent plan.analysis files s
    → IsQuiet plan.analysis s
    → IsShaped plan.analysis files s.progress
    → (is_final s.progress ≡ false)
      ⊎ ((is_final s.progress ≡ true)
          × (is_new s.published s.progress ≡ true)
          × (total_is s.progress.total_fragments s.progress.completed_fragments ≡ true))
    → Ensures (IsPublished plan.analysis files s) (publish_if plan due s)
publish_if-Published plan files due s h quiet shaped (inl within) =
    publish_within plan files due s h quiet shaped within
publish_if-Published plan files due s h quiet shaped (inr (final, new, total)) =
    publish_final plan files due s h quiet shaped final new total
