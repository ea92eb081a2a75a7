-- ===== src/Worker/Order.antt =====
-- worker.rs: `Output` sends the batches it is given in order, in parts numbered from 0.
use mathlib.Core.List.{append-nil, append_assoc}
use rowtrail.Base.{
  All, All-append, Bool, Bool-cases, Ensures, Ensures-any, Ensures-bind, Ensures-guarded,
  Ensures-weaken, List, Option, Option-cases, [], ap, arith, false, inl, inr, leb, length,
  length-append, none, not, ok, refl, some, suc, sym, ℕ, ◌++◌, ◌+◌, ◌-◌, ◌<◌, ◌>>=◌, ◌||◌, ◌∙◌, ◌∷◌,
  ◌≡◌, ◌≤◌,
}
use rowtrail.Worker.{Batch, HashWriter, new_writer, write_each}
use rowtrail.Worker.Output.{
  Execution, Output, SealedPart, StagedPart, from_writer, is_early, is_full, make_room, open_part,
  publish, publish_early, push, push_all, rejected_part, rows_of, seal, sealed_part, stage,
  staged_batches, staged_or_new, with_part, write_part,
}

unfoldable pub sealed_batches : List SealedPart → List Batch
sealed_batches [] = []
sealed_batches (part ∷ parts) = part.batches ++ sealed_batches parts

-- The parts are numbered from `n` on.
unfoldable pub Numbered : ℕ → List SealedPart → Type 0
Numbered n [] = Unit
Numbered n (part ∷ parts) = (part.seq ≡ n) × Numbered (suc n) parts

unfoldable pub Fits : SealedPart → Type 0
Fits part = (part.rows ≡ rows_of part.batches) × (length part.batches ≤ 128)

-- What is sealed: numbered and counted parts of at most 128 batches.
unfoldable pub IsSealed : Output → Type 0
unfolding Numbered Fits
IsSealed o =
    (o.parts ≡ length o.sealed)
    × (o.rows ≡ rows_of (sealed_batches o.sealed))
    × Numbered 0 o.sealed
    × All Fits o.sealed

-- The batches `given` so far are the sealed and the staged ones, in order.
unfoldable pub Took : List Batch → Output → Type 0
unfolding IsSealed
Took given o =
    (sealed_batches o.sealed ++ staged_batches o.staged ≡ given)
    × (length (staged_batches o.staged) ≤ 128)
    × IsSealed o

-- A part is being filled with room for one more batch.
Ready : List Batch → Output → Type 0
Ready given o = Took given o × (length (staged_batches o.staged) < 128)

sealed_batches-append :
    (parts : List SealedPart) (part : SealedPart)
    → sealed_batches (parts ++ part ∷ []) ≡ sealed_batches parts ++ part.batches
unfolding sealed_batches
sealed_batches-append [] part = append-nil part.batches
sealed_batches-append (p ∷ parts) part =
    rw (sealed_batches-append parts part)
      (sym (append_assoc p.batches (sealed_batches parts) part.batches))

rows_of-append : (xs ys : List Batch) → rows_of (xs ++ ys) ≡ rows_of xs + rows_of ys
unfolding rows_of
rows_of-append [] ys = omega arith
rows_of-append (x ∷ xs) ys = omega (arith, rows_of-append xs ys)

Numbered-append :
    (n : ℕ) (parts : List SealedPart) (part : SealedPart)
    → Numbered n parts
    → part.seq ≡ n + length parts
    → Numbered n (parts ++ part ∷ [])
unfolding Numbered
Numbered-append n [] part h same = (omega (arith, same), tt)
Numbered-append n (p ∷ parts) part (first, h) same =
    (first, Numbered-append (suc n) parts part h (omega (arith, same)))

-- Sealing a part of at most 128 batches.
with_part-Took :
    (batches given : List Batch) (writer : HashWriter) (o : Output)
    → sealed_batches o.sealed ++ batches ≡ given
    → length batches ≤ 128
    → IsSealed o
    → Took given (with_part (sealed_part o.parts writer batches) o)
unfolding Took IsSealed with_part Fits sealed_part
with_part-Took batches given writer o same few (parts, rows, numbered, fits) =
    let part = sealed_part o.parts writer batches in
    let sealed = sealed_batches-append o.sealed part in
    (
      rw (sealed, append-nil (sealed_batches o.sealed ++ batches)) same,
      omega arith,
      (
        omega (arith, parts, length-append o.sealed (part ∷ [])),
        rw sealed (omega (arith, rows, rows_of-append (sealed_batches o.sealed) batches)),
        Numbered-append 0 o.sealed part numbered (omega (arith, parts)),
        All-append Fits o.sealed part fits (refl, few),
      ),
    )

-- The batches that the steps of a stream bring.
unfoldable pub given_by : List (Option Batch) → List Batch
given_by [] = []
given_by (none ∷ steps) = given_by steps
given_by (some batch ∷ steps) = batch ∷ given_by steps

-- Everything that was taken is sealed.
abbrev pub AllSealed : List Batch → Output → Type 0
AllSealed given o = Took given o × (o.staged ≡ none)

none-full : (full : Bool) (n : ℕ) → (full || leb 128 n) ≡ false → n < 128
none-full full n h = ground arith

module _ (run : Execution) (given : List Batch) where
  seal-AllSealed :
      (part : StagedPart) (o : Output)
      → sealed_batches o.sealed ++ part.batches ≡ given
      → length part.batches ≤ 128
      → IsSealed o
      → Ensures (AllSealed given) (seal run part o)
  unfolding seal with_part
  seal-AllSealed part o same few sealed =
      Ensures-bind (λ writes. Unit) (AllSealed given) (run.library.close_part part.batches) _
        (Ensures-any (run.library.close_part part.batches))
        λ writes u.
          Ensures-bind (λ writer. Unit) (AllSealed given)
            (from_writer (write_each writes part.writer)) _
            (Ensures-any (from_writer (write_each writes part.writer)))
            λ writer v.
              Ensures-guarded (AllSealed given)
                (run.library.acknowledge (sealed_part o.parts writer part.batches)) rejected_part
                (ok (with_part (sealed_part o.parts writer part.batches) o))
                (with_part-Took part.batches given writer o same few sealed, refl)

  module _ (parts written rows : ℕ) (sealed : List SealedPart) where
    abbrev fields : Option StagedPart → Output
    fields staged = record {
      staged = staged;
      parts = parts;
      written = written;
      rows = rows;
      sealed = sealed;
    }

    publish_staged-AllSealed :
        (staged : Option StagedPart)
        → Took given (fields staged)
        → Ensures (AllSealed given) (publish run (fields staged))
    unfolding publish Took IsSealed
    publish_staged-AllSealed none t = (t, refl)
    publish_staged-AllSealed (some part) (same, few, all) =
        seal-AllSealed part (fields (some part)) same few all

    make_room_staged-Ready :
        (batch : Batch) (staged : Option StagedPart)
        → Took given (fields staged)
        → Ensures (Ready given) (make_room run batch (fields staged))
    unfolding make_room Ready is_full
    make_room_staged-Ready batch none t = (t, omega arith)
    make_room_staged-Ready batch (some part) t = elim (Bool-cases (is_full run batch part)) [
      | inl full ↦ rw full (
          Ensures-weaken (AllSealed given) (Ready given) (publish run (fields (some part)))
            (λ o (t', gone). (t', rw gone (omega arith))) (publish_staged-AllSealed (some part) t))
      | inr room ↦ rw room (t, none-full _ (length part.batches) room)
    ]

  pub publish-AllSealed : (o : Output) → Took given o → Ensures (AllSealed given) (publish run o)
  publish-AllSealed o t = publish_staged-AllSealed o.parts o.written o.rows o.sealed o.staged t

  make_room-Ready :
      (batch : Batch) (o : Output) → Took given o → Ensures (Ready given) (make_room run batch o)
  make_room-Ready batch o t =
      make_room_staged-Ready o.parts o.written o.rows o.sealed batch o.staged t

  publish_early-Took : (o : Output) → Took given o → Ensures (Took given) (publish_early run o)
  unfolding publish_early
  publish_early-Took o t = elim (Bool-cases (is_early run o)) [
    | inl early ↦ rw early (
        Ensures-weaken (AllSealed given) (Took given) (publish run o) (λ o' k. k.0)
          (publish-AllSealed o t))
    | inr late ↦ rw late t
  ]

  staged_or_new-batches :
      (o : Output)
      → Ensures
          (λ (part : StagedPart). part.batches ≡ staged_batches o.staged)
          (staged_or_new run o)
  unfolding staged_or_new open_part
  staged_or_new-batches o = elim (Option-cases o.staged) [
    | inr (part, e) ↦ rw e refl
    | inl e ↦ rw e (
        Ensures-bind (λ writes. Unit) (λ (part : StagedPart). part.batches ≡ [])
          run.library.open_part _ (Ensures-any run.library.open_part)
          λ writes u.
            Ensures-bind (λ writer. Unit) (λ (part : StagedPart). part.batches ≡ [])
              (from_writer (
                write_each writes
                  (new_writer (not run.style.prepared) (run.result_bytes - o.written))))
              _ (Ensures-any _) λ writer v. refl)
  ]

  write_part-batches :
      (batch : Batch) (part : StagedPart)
      → Ensures
          (λ (next : StagedPart). next.batches ≡ part.batches ++ batch ∷ [])
          (write_part run batch part)
  unfolding write_part
  write_part-batches batch part =
      Ensures-bind (λ writes. Unit) _ (run.library.write_batch (part.batches ++ batch ∷ [])) _
        (Ensures-any (run.library.write_batch (part.batches ++ batch ∷ [])))
        λ writes u.
          Ensures-bind (λ writer. Unit) _ (from_writer (write_each writes part.writer)) _
            (Ensures-any (from_writer (write_each writes part.writer))) λ writer v. refl

  stage-Took :
      (batch : Batch) (o : Output)
      → Ready given o
      → Ensures (Took (given ++ batch ∷ [])) (stage run batch o)
  unfolding stage Ready Took
  stage-Took batch o ((same, few, sealed), room) =
      Ensures-bind (λ (part : StagedPart). part.batches ≡ staged_batches o.staged)
        (Took (given ++ batch ∷ [])) (staged_or_new run o) _ (staged_or_new-batches o)
        λ part e.
          Ensures-bind (λ (next : StagedPart). next.batches ≡ part.batches ++ batch ∷ [])
            (Took (given ++ batch ∷ [])) (write_part run batch part) _
            (write_part-batches batch part)
            λ next e'.
              let grown : next.batches ≡ staged_batches o.staged ++ batch ∷ [] =
                e' ∙ ap (λ bs. bs ++ batch ∷ []) e in
              (
                rw (grown, ← same)
                    (sym (
                      append_assoc (sealed_batches o.sealed) (staged_batches o.staged)
                        (batch ∷ []))),
                rw grown
                    (omega (arith, room, length-append (staged_batches o.staged) (batch ∷ []))),
                sealed,
              )

module _ (run : Execution) where
  pub push-Took :
      (given : List Batch) (batch : Batch) (o : Output)
      → Took given o
      → Ensures (Took (given ++ batch ∷ [])) (push run batch o)
  unfolding push
  push-Took given batch o t =
      Ensures-bind (Ready given) (Took (given ++ batch ∷ [])) (make_room run batch o)
        (λ ready. stage run batch ready >>= publish_early run) (make_room-Ready run given batch o t)
        λ ready r.
          Ensures-bind (Took (given ++ batch ∷ [])) (Took (given ++ batch ∷ []))
            (stage run batch ready) (publish_early run) (stage-Took run given batch ready r)
            (publish_early-Took run (given ++ batch ∷ []))

  pub push_all-Took :
      (given : List Batch) (steps : List (Option Batch)) (o : Output)
      → Took given o
      → Ensures (Took (given ++ given_by steps)) (push_all run steps o)
  unfolding push_all given_by
  push_all-Took given [] o t = rw (append-nil given) t
  push_all-Took given (none ∷ steps) o t =
      Ensures-bind (AllSealed given) (Took (given ++ given_by steps)) (publish run o)
        (push_all run steps) (publish-AllSealed run given o t)
        λ o' k. push_all-Took given steps o' k.0
  push_all-Took given (some batch ∷ steps) o t =
      Ensures-bind (Took (given ++ batch ∷ [])) (Took (given ++ batch ∷ given_by steps))
        (push run batch o) (push_all run steps) (push-Took given batch o t)
        λ o' k.
          rw (← append_assoc given (batch ∷ []) (given_by steps))
            (push_all-Took (given ++ batch ∷ []) steps o' k)
