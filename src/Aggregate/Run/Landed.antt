-- ===== src/Aggregate/Run/Landed.antt =====
-- aggregate.rs: where a checkpoint leaves the session of a run.
use mathlib.Core.Path.{subst}
-- use mathlib.Core.List.{*}
use rowtrail.Base.{
  Bool, Ensures, Ensures-weaken, List, Option, OptionAll, ap, arith, false, inl, inr, length, none,
  refl, some, sym, true, ℕ, ◌<◌, ◌∙◌, ◌≡◌, ◌⊎◌,
}
use rowtrail.Jobs.{Analysis, Checkpoint}
use rowtrail.Aggregate.{Aggregate, State}
use rowtrail.Aggregate.Run.{Plan, Session, is_final, is_new, publish_if}
use rowtrail.Aggregate.Run.Accepted.{
  IsBehind, IsConsistent, IsPublished, IsQuiet, key_of, last_progress, publish_if-Published,
}
use rowtrail.Aggregate.Run.Counts.{IsCounted, IsNext}

-- The end of a run: all checkpoints are accepted, and the last one covers every file.
pub record IsEnded (a : Analysis) (files : List (Option ℕ)) (s : Session) : Type 0 where
  pub consistent : IsConsistent a files s
  pub covers : s.progress.total_files ≡ length files
  pub final : is_final s.progress ≡ true
  pub last : last_progress s.sent ≡ some s.progress

-- Before fragment `j` of the file behind `before`.
pub record IsAt (a : Analysis) (files before : List (Option ℕ)) (j : ℕ) (s : Session) : Type 0 where
  pub consistent : IsConsistent a files s
  pub quiet : IsQuiet a s
  pub counted : IsCounted a files before j s.progress

abbrev pub Landed : Analysis → List (Option ℕ) → List (Option ℕ) → ℕ → Session → Type 0
Landed a files before j s =
    (s.progress.completed_files ≡ length before)
    × (((is_final s.progress ≡ false) × IsAt a files before j s) ⊎ IsEnded a files s)

IsBehind-trans :
    (previous : Option Checkpoint) (p next : Checkpoint)
    → OptionAll (λ q. IsBehind q p) previous
    → IsBehind p next
    → OptionAll (λ q. IsBehind q next) previous
IsBehind-trans none p next h k = tt
IsBehind-trans (some q) p next (a, b, c) (x, y, z) = (omega arith, omega arith, omega arith)

new_file :
    (previous : Option Checkpoint) (p next : Checkpoint)
    → OptionAll (λ q. IsBehind q p) previous
    → p.completed_files < next.completed_files
    → is_new (key_of previous) next ≡ true
unfolding is_new key_of
new_file none p next h k = refl
new_file (some q) p next (a, b, c) k = ground (arith, a)

pub publish-Landed :
    (plan : Plan) (files before : List (Option ℕ)) (j : ℕ) (due : Bool) (s : Session)
    (states : List (Aggregate × State)) (next : Checkpoint)
    → IsConsistent plan.analysis files s
    → IsQuiet plan.analysis s
    → IsNext plan.analysis files before j s.progress next
    → Ensures
        (Landed plan.analysis files before j)
        (publish_if plan due (record s { states = states; progress = next }))
publish-Landed plan files before j due s states next h quiet k =
    Ensures-weaken (IsPublished plan.analysis files s') (Landed plan.analysis files before j)
      (publish_if plan due s') landed
      (publish_if-Published plan files due s' moved quiet k.shaped (elim k.counted [
        | inl x ↦ inl x.0
        | inr (final, later, total) ↦ inr (
          final,
          ap (λ o. is_new o next) h.linked
              ∙ new_file (last_progress s.sent) s.progress next h.behind later,
          total,
        )
      ]))
  where
    s' : Session
    s' = record s { states = states; progress = next }

    moved : IsConsistent plan.analysis files s'
    moved = record {
      accepted = h.accepted;
      numbered = h.numbered;
      linked = h.linked;
      behind = IsBehind-trans (last_progress s.sent) s.progress next h.behind k.behind;
    }

    landed :
        (t : Session) → IsPublished plan.analysis files s' t → Landed plan.analysis files before j t
    landed t r = (
      ap (λ q. q.completed_files) r.same_progress ∙ k.arrived,
      elim r.outcome [
        | inr (final, last) ↦ inr (record {
          consistent = r.consistent;
          covers = ap (λ q. q.total_files) r.same_progress ∙ k.shaped.files_total;
          final = ap is_final r.same_progress ∙ final;
          last = last ∙ ap some (sym r.same_progress);
        })
        | inl (open_end, still) ↦ elim k.counted [
          | inr (final, later, total) ↦ cc
          | inl (same, counted) ↦ inl (
            ap is_final r.same_progress ∙ open_end,
            record {
              consistent = r.consistent;
              quiet = still;
              counted =
                  subst (IsCounted plan.analysis files before j) (sym r.same_progress) counted;
            },
          )
        ]
      ],
    )
