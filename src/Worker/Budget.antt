-- ===== src/Worker/Budget.antt =====
-- worker.rs: `Output` with its writers stays within the bytes of the result.
use rowtrail.Base.{
  All, All-append, Bool-cases, Ensures, Ensures-any, Ensures-bind, Ensures-guarded, Ensures-weaken,
  List, Option, Result, [], ap, arith, err, inl, inr, length, none, not, ok, refl, some, ℕ, ◌&&◌,
  ◌++◌, ◌+◌, ◌-◌, ◌==◌, ◌∙◌, ◌∷◌, ◌≡◌, ◌≤◌,
}
use rowtrail.Jobs.Publish.{inline_limit}
use rowtrail.Worker.{
  Batch, HashWriter, WorkerError, finish_staged, limit_of, new_writer, part_limit, write_each,
}
use rowtrail.Worker.Log.{IsLog, SendsHashed, limit-small, new_writer-IsLog, sends, write_each-IsLog}
use rowtrail.Worker.Output.{
  Execution, Output, SealedPart, StagedPart, Writes, from_writer, is_early, is_full, make_room,
  no_output, open_part, pad, publish, publish_early, push, push_all, rejected_part, seal,
  sealed_part, stage, staged_or_new, with_part, write_output, write_part,
}

-- What is sent inline is what was hashed, and small.
abbrev pub SentInline : List ℕ → Option (List ℕ) → Type 0
SentInline hashed none = Unit
SentInline hashed (some sent) = (sent ≡ hashed) × (length sent ≤ inline_limit)

-- The bytes of a sealed part are counted and hashed as they are stored, within the limit of a part.
unfoldable pub IsStored : SealedPart → Type 0
IsStored part =
    (part.hashed ≡ part.stored)
    × (part.bytes ≡ length part.stored)
    × (part.bytes ≤ part_limit)
    × SentInline part.hashed part.inline_data

unfoldable pub bytes_of : List SealedPart → ℕ
bytes_of [] = 0
bytes_of (part ∷ parts) = part.bytes + bytes_of parts

-- All parts are stored whole, and their bytes are counted, within those of the result.
unfoldable pub Within : ℕ → Output → Type 0
unfolding IsStored bytes_of
Within result_bytes o =
    All IsStored o.sealed × (o.written ≡ bytes_of o.sealed) × (o.written ≤ result_bytes)

-- The writer of a part has what remains of the result.
abbrev HasRoom : ℕ → HashWriter → Type 0
HasRoom remaining writer = IsLog writer × (writer.limit ≡ limit_of remaining)

abbrev IsOpen : ℕ → Option StagedPart → Type 0
IsOpen remaining none = Unit
IsOpen remaining (some part) = HasRoom remaining part.writer

abbrev IsFilling : ℕ → Output → Type 0
IsFilling result_bytes o = Within result_bytes o × IsOpen (result_bytes - o.written) o.staged

bytes_of-append :
    (parts : List SealedPart) (part : SealedPart)
    → bytes_of (parts ++ part ∷ []) ≡ bytes_of parts + part.bytes
unfolding bytes_of
bytes_of-append [] part = omega arith
bytes_of-append (p ∷ parts) part = omega (arith, bytes_of-append parts part)

limit_of-least : (n : ℕ) → (limit_of n ≤ n) × (limit_of n ≤ part_limit)
unfolding limit_of
limit_of-least n = (ground arith, ground arith)

-- The writes of a library keep a writer as it should be, or are refused.
writes-HasRoom :
    (remaining : ℕ) (writes : Writes) (writer : HashWriter)
    → HasRoom remaining writer
    → Ensures (HasRoom remaining) (from_writer (write_each writes writer))
unfolding from_writer
writes-HasRoom remaining writes writer (log, limit) =
    kept (write_each writes writer)
      (write_each-IsLog writes writer (rw limit (limit-small remaining)) log)
  where
    kept :
        (m : Result WorkerError HashWriter)
        → Ensures (λ next. IsLog next × (next.limit ≡ writer.limit)) m
        → Ensures (HasRoom remaining) (from_writer m)
    kept (ok next) h = (h.0, h.1 ∙ limit)
    kept (err e) h = tt

SentInline-of :
    (writer : HashWriter) (sent : Option (List ℕ))
    → finish_staged writer.file ≡ sent
    → SendsHashed writer
    → SentInline writer.hashed sent
unfolding SendsHashed
SentInline-of writer none e h = tt
SentInline-of writer (some sent) e h = rw (e, SendsHashed) at h

sealed_part-IsStored :
    (seq remaining : ℕ) (writer : HashWriter) (batches : List Batch)
    → HasRoom remaining writer
    → IsStored (sealed_part seq writer batches)
unfolding IsStored sealed_part IsLog
sealed_part-IsStored seq remaining writer batches ((same, counted, within, fits), limit) = (
  same,
  counted ∙ ap (length {A = ℕ}) same,
  omega (arith, within, limit, (limit_of-least remaining).1),
  SentInline-of writer (finish_staged writer.file) refl (
      sends writer.file.disk writer.file.memory writer.hashed writer.file.inline writer.bytes
        writer.limit (same, counted, within, fits)),
)

result-fits :
    (result_bytes written : ℕ) (writer : HashWriter)
    → HasRoom (result_bytes - written) writer
    → written ≤ result_bytes
    → written + writer.bytes ≤ result_bytes
unfolding IsLog
result-fits result_bytes written writer ((same, counted, within, fits), limit) h =
    omega (arith, within, limit, (limit_of-least (result_bytes - written)).0, h)

module _ (run : Execution) where
  with_sealed :
      (part : SealedPart) (o : Output)
      → Within run.result_bytes o
      → IsStored part
      → o.written + part.bytes ≤ run.result_bytes
      → IsFilling run.result_bytes (with_part part o)
  unfolding with_part Within
  with_sealed part o (stored, counted, within) is_stored fits = (
    (
      All-append IsStored o.sealed part stored is_stored,
      omega (arith, counted, bytes_of-append o.sealed part),
      fits,
    ),
    tt,
  )

  seal-Within :
      (part : StagedPart) (o : Output)
      → Within run.result_bytes o
      → HasRoom (run.result_bytes - o.written) part.writer
      → Ensures (IsFilling run.result_bytes) (seal run part o)
  unfolding seal with_part Within
  seal-Within part o (stored, counted, within) room =
      Ensures-bind (λ writes. Unit) (IsFilling run.result_bytes)
        (run.library.close_part part.batches) _ (Ensures-any (run.library.close_part part.batches))
        λ writes u.
          Ensures-bind (HasRoom (run.result_bytes - o.written)) (IsFilling run.result_bytes)
            (from_writer (write_each writes part.writer)) _
            (writes-HasRoom (run.result_bytes - o.written) writes part.writer room)
            λ writer has.
              Ensures-guarded (IsFilling run.result_bytes)
                (run.library.acknowledge (sealed_part o.parts writer part.batches)) rejected_part
                (ok (with_part (sealed_part o.parts writer part.batches) o))
                (with_sealed (sealed_part o.parts writer part.batches) o (stored, counted, within)
                  (sealed_part-IsStored o.parts (run.result_bytes - o.written) writer part.batches
                    has)
                  (result-fits run.result_bytes o.written writer has within))

  open_part-IsOpen :
      (o : Output)
      → Ensures
          (λ (part : StagedPart). HasRoom (run.result_bytes - o.written) part.writer)
          (open_part run o)
  unfolding open_part new_writer
  open_part-IsOpen o =
      let remaining = run.result_bytes - o.written in
      let fresh = new_writer (not run.style.prepared) remaining in
      Ensures-bind (λ writes. Unit) _ run.library.open_part _ (Ensures-any run.library.open_part)
        λ writes u.
          Ensures-bind (HasRoom remaining) _ (from_writer (write_each writes fresh)) _
            (writes-HasRoom remaining writes fresh
              (new_writer-IsLog (not run.style.prepared) remaining, refl))
            λ writer h. h

  write_part-IsOpen :
      (remaining : ℕ) (batch : Batch) (part : StagedPart)
      → HasRoom remaining part.writer
      → Ensures (λ (next : StagedPart). HasRoom remaining next.writer) (write_part run batch part)
  unfolding write_part
  write_part-IsOpen remaining batch part h =
      Ensures-bind (λ writes. Unit) _ (run.library.write_batch (part.batches ++ batch ∷ [])) _
        (Ensures-any (run.library.write_batch (part.batches ++ batch ∷ [])))
        λ writes u.
          Ensures-bind (HasRoom remaining) _ (from_writer (write_each writes part.writer)) _
            (writes-HasRoom remaining writes part.writer h) λ writer k. k

  -- What an operation on the output has to keep, for an output with each kind of part.
  module _ (parts written rows : ℕ) (sealed : List SealedPart) where
    abbrev fields : Option StagedPart → Output
    fields staged = record {
      staged = staged;
      parts = parts;
      written = written;
      rows = rows;
      sealed = sealed;
    }

    publish_staged :
        (staged : Option StagedPart)
        → IsFilling run.result_bytes (fields staged)
        → Ensures (IsFilling run.result_bytes) (publish run (fields staged))
    unfolding publish
    publish_staged none h = h
    publish_staged (some part) h = seal-Within part (fields (some part)) h.0 h.1

    make_room_staged :
        (batch : Batch) (staged : Option StagedPart)
        → IsFilling run.result_bytes (fields staged)
        → Ensures (IsFilling run.result_bytes) (make_room run batch (fields staged))
    unfolding make_room
    make_room_staged batch none h = h
    make_room_staged batch (some part) h = elim (Bool-cases (is_full run batch part)) [
      | inl full ↦ rw full (publish_staged (some part) h)
      | inr room ↦ rw room h
    ]

    new_staged :
        (staged : Option StagedPart)
        → IsFilling run.result_bytes (fields staged)
        → Ensures
            (λ (part : StagedPart). HasRoom (run.result_bytes - written) part.writer)
            (staged_or_new run (fields staged))
    unfolding staged_or_new
    new_staged none h = open_part-IsOpen (fields none)
    new_staged (some part) h = h.1

  publish-IsFilling :
      (o : Output)
      → IsFilling run.result_bytes o
      → Ensures (IsFilling run.result_bytes) (publish run o)
  publish-IsFilling o h = publish_staged o.parts o.written o.rows o.sealed o.staged h

  stage-IsFilling :
      (batch : Batch) (o : Output)
      → IsFilling run.result_bytes o
      → Ensures (IsFilling run.result_bytes) (stage run batch o)
  unfolding stage Within
  stage-IsFilling batch o h =
      let remaining = run.result_bytes - o.written in
      Ensures-bind (λ (part : StagedPart). HasRoom remaining part.writer) _ (staged_or_new run o) _
        (new_staged o.parts o.written o.rows o.sealed o.staged h)
        λ part k.
          Ensures-bind (λ (next : StagedPart). HasRoom remaining next.writer) _
            (write_part run batch part) _ (write_part-IsOpen remaining batch part k)
            λ next l. (h.0, l)

  push-IsFilling :
      (batch : Batch) (o : Output)
      → IsFilling run.result_bytes o
      → Ensures (IsFilling run.result_bytes) (push run batch o)
  unfolding push publish_early
  push-IsFilling batch o h =
      Ensures-bind (IsFilling run.result_bytes) _ (make_room run batch o) _
        (make_room_staged o.parts o.written o.rows o.sealed batch o.staged h)
        λ ready k.
          Ensures-bind (IsFilling run.result_bytes) _ (stage run batch ready) _
            (stage-IsFilling batch ready k)
            λ next l. elim (Bool-cases (is_early run next)) [
              | inl early ↦ rw early (publish-IsFilling next l)
              | inr late ↦ rw late l
            ]

  push_all-IsFilling :
      (steps : List (Option Batch)) (o : Output)
      → IsFilling run.result_bytes o
      → Ensures (IsFilling run.result_bytes) (push_all run steps o)
  unfolding push_all
  push_all-IsFilling [] o h = h
  push_all-IsFilling (none ∷ steps) o h =
      Ensures-bind (IsFilling run.result_bytes) _ (publish run o) _ (publish-IsFilling o h)
        (push_all-IsFilling steps)
  push_all-IsFilling (some batch ∷ steps) o h =
      Ensures-bind (IsFilling run.result_bytes) _ (push run batch o) _ (push-IsFilling batch o h)
        (push_all-IsFilling steps)

  pad_staged :
      (empty : Batch) (staged : Option StagedPart) (parts written rows : ℕ)
      (sealed : List SealedPart)
      → IsFilling run.result_bytes (fields parts written rows sealed staged)
      → Ensures
          (IsFilling run.result_bytes)
          (pad run empty (fields parts written rows sealed staged))
  unfolding pad
  pad_staged empty (some part) parts written rows sealed h = h
  pad_staged empty none parts written rows sealed h =
      elim (Bool-cases (run.style.prepared && (parts == 0))) [
        | inl needed ↦ rw needed (push-IsFilling empty (fields parts written rows sealed none) h)
        | inr skip ↦ rw skip h
      ]

no_output-IsFilling : (result_bytes : ℕ) → IsFilling result_bytes no_output
unfolding Within bytes_of
no_output-IsFilling result_bytes = ((tt, refl, omega arith), tt)

-- Whatever the libraries write, the file accepts and the coordinator answers: of an output that is
-- written without an error, every part was stored as it was counted and hashed, has at most 8 MiB, and
-- what of it is sent inline is small and the same; and all parts together take the bytes that are
-- counted as written, which are within the result bytes of the query.
pub write_output-Within :
    (run : Execution) (empty : Batch) (steps : List (Option Batch))
    → Ensures (Within run.result_bytes) (write_output run empty steps)
unfolding write_output
write_output-Within run empty steps =
    let filling = IsFilling run.result_bytes in
    Ensures-bind filling (Within run.result_bytes) (push_all run steps no_output) _
      (push_all-IsFilling run steps no_output (no_output-IsFilling run.result_bytes))
      λ o h.
        Ensures-bind filling (Within run.result_bytes) (pad run empty o) (publish run)
          (pad_staged run empty o.staged o.parts o.written o.rows o.sealed h)
          λ padded k.
            Ensures-weaken filling (Within run.result_bytes) (publish run padded) (λ last l. l.0)
              (publish-IsFilling run padded k)
