-- ===== src/Worker/Output.antt =====
-- `Output` of crates/runtime/src/worker.rs: batches fill a part, and full parts are sealed and sent.
-- The Arrow and Parquet libraries encode the batches: what they write to the counting writer of the
-- part is an argument, and so is the answer of the coordinator.
use rowtrail.Base.{
  Bool, List, Option, Result, [], err, guard, if◌then◌else◌, leb, length, ltb, none, not, ok, some,
  ℕ, ◌&&◌, ◌*◌, ◌++◌, ◌+◌, ◌-◌, ◌==◌, ◌>>=◌, ◌>>◌, ◌||◌, ◌∷◌,
}
use rowtrail.Worker.{
  Batch, HashWriter, WorkerError, contents, finish_staged, new_writer, saturating, write_each,
}

-- The errors of the libraries and of validate_batch, of the counting writer, and the coordinator's
-- refusal.
pub data SealError : Type 0 where
  not_written over_budget rejected_part : SealError

-- `?` on an error of the writer
unfoldable pub from_writer {ℓ} : {A : Type ℓ} → Result WorkerError A → Result SealError A
from_writer (ok a) = ok a
from_writer (err e) = err over_budget

-- A part that is being filled, with its writer.
pub record StagedPart : Type 0 where
  pub batches : List Batch
  pub writer : HashWriter
  pub estimated_bytes : ℕ

-- A part as it is sent, and the bytes `stored` in its file or sent inline: its digest is that of the
-- bytes `hashed`.
pub record SealedPart : Type 0 where
  pub seq : ℕ
  pub bytes : ℕ
  pub rows : ℕ
  pub hashed : List ℕ
  pub inline_data : Option (List ℕ)
  pub stored : List ℕ
  pub batches : List Batch

-- `Output`, with the parts that were acknowledged.
pub record Output : Type 0 where
  pub staged : Option StagedPart
  pub parts : ℕ
  pub written : ℕ
  pub rows : ℕ
  pub sealed : List SealedPart

-- How the output of a job is written: to managed Parquet or not, with dictionaries, with a preview.
pub record Style : Type 0 where
  pub prepared : Bool
  pub dictionary_batches : Bool
  pub preview : Bool

abbrev pub Writes : Type 0
Writes = List (ℕ × List ℕ)

-- The Arrow and Parquet writers: what they write to open a part, for the last of its batches (an error
-- also if validate_batch refuses it), and to close it, each write with what the file accepts of it; and
-- the coordinator's answer to a part.
pub record Library : Type 0 where
  pub open_part : Result SealError Writes
  pub write_batch : List Batch → Result SealError Writes
  pub close_part : List Batch → Result SealError Writes
  pub acknowledge : SealedPart → Bool

-- The execution of a query: its result bytes and its style, and the libraries.
pub record Execution : Type 0 where
  pub result_bytes : ℕ
  pub style : Style
  pub library : Library

unfoldable pub rows_of : List Batch → ℕ
rows_of [] = 0
rows_of (b ∷ batches) = b.num_rows + rows_of batches

-- `StagedPart::finish` once the libraries have closed it.
unfoldable pub sealed_part : ℕ → HashWriter → List Batch → SealedPart
unfolding rows_of finish_staged contents
sealed_part seq writer batches = record {
  seq = seq;
  bytes = writer.bytes;
  rows = rows_of batches;
  hashed = writer.hashed;
  inline_data = finish_staged writer.file;
  stored = contents writer.file;
  batches = batches;
}

abbrev pub staged_batches : Option StagedPart → List Batch
staged_batches none = []
staged_batches (some part) = part.batches

-- `Output` before its first batch.
abbrev pub no_output : Output
no_output = record { staged = none; parts = 0; written = 0; rows = 0; sealed = [] }

-- The output once `part` is acknowledged.
unfoldable pub with_part : SealedPart → Output → Output
with_part part o = record {
  staged = none;
  parts = o.parts + 1;
  written = o.written + part.bytes;
  rows = o.rows + part.rows;
  sealed = o.sealed ++ part ∷ [];
}

module _ (run : Execution) where
  unfoldable pub seal : StagedPart → Output → Result SealError Output
  unfolding with_part sealed_part from_writer write_each
  seal part o = do
    writes ← run.library.close_part part.batches
    writer ← from_writer (write_each writes part.writer)
    guard (run.library.acknowledge (sealed_part o.parts writer part.batches)) rejected_part
    ok (with_part (sealed_part o.parts writer part.batches) o)

  -- `Output::publish`
  unfoldable pub publish : Output → Result SealError Output
  unfolding seal
  publish o = elim o.staged [ none ↦ ok o | some part ↦ seal part o ]

  -- `PART_TARGET`, or less for managed Parquet.
  unfoldable pub part_target : ℕ
  part_target = if run.style.prepared then 4 * 1024 * 1024 else 6 * 1024 * 1024

  -- `StagedPart::occupied_bytes`
  unfoldable pub occupied_bytes : StagedPart → ℕ
  occupied_bytes part = if run.style.prepared then part.estimated_bytes else part.writer.bytes

  unfoldable pub is_full : Batch → StagedPart → Bool
  unfolding part_target occupied_bytes
  is_full batch part =
      ltb part_target (saturating (occupied_bytes part) batch.memory_size)
      || leb 128 (length part.batches)

  unfoldable pub make_room : Batch → Output → Result SealError Output
  unfolding publish is_full
  make_room batch o = elim o.staged [
    | none ↦ ok o
    | some part ↦ if is_full batch part then publish o else ok o
  ]

  -- `StagedPart::new`, with the result bytes that remain.
  unfoldable pub open_part : Output → Result SealError StagedPart
  unfolding from_writer write_each new_writer
  open_part o = do
    writes ← run.library.open_part
    writer ←
        from_writer
          (write_each writes (new_writer (not run.style.prepared) (run.result_bytes - o.written)))
    ok (record { batches = []; writer = writer; estimated_bytes = 0 })

  -- The part that is being filled, or a new one.
  unfoldable pub staged_or_new : Output → Result SealError StagedPart
  unfolding open_part
  staged_or_new o = elim o.staged [ some part ↦ ok part | none ↦ open_part o ]

  -- `StagedPart::write`
  unfoldable pub write_part : Batch → StagedPart → Result SealError StagedPart
  unfolding from_writer write_each
  write_part batch part = do
    writes ← run.library.write_batch (part.batches ++ batch ∷ [])
    writer ← from_writer (write_each writes part.writer)
    ok (record {
      batches = part.batches ++ batch ∷ [];
      writer = writer;
      estimated_bytes = part.estimated_bytes + batch.memory_size;
    })

  unfoldable pub stage : Batch → Output → Result SealError Output
  unfolding staged_or_new write_part
  stage batch o = do
    part ← staged_or_new o
    written ← write_part batch part
    ok (record o { staged = some written })

  unfoldable pub is_early : Output → Bool
  is_early o = run.style.dictionary_batches || (o.parts == 0 && run.style.preview)

  unfoldable pub publish_early : Output → Result SealError Output
  unfolding publish is_early
  publish_early o = if is_early o then publish o else ok o

  -- `Output::push`
  unfoldable pub push : Batch → Output → Result SealError Output
  unfolding make_room stage publish_early
  push batch o = do ready ← make_room batch o; next ← stage batch ready; publish_early next

  -- The slices of the stream, and `none` where 50 ms of the clock pass first.
  unfoldable pub push_all : List (Option Batch) → Output → Result SealError Output
  unfolding push
  push_all [] o = ok o
  push_all (none ∷ steps) o = publish o >>= push_all steps
  push_all (some batch ∷ steps) o = push batch o >>= push_all steps

  -- A managed file has a part even without rows.
  unfoldable pub pad : Batch → Output → Result SealError Output
  unfolding push
  pad empty o = elim o.staged [
    | some part ↦ ok o
    | none ↦ if run.style.prepared && (o.parts == 0) then push empty o else ok o
  ]

  -- The output of a stream, with `RecordBatch::new_empty`.
  unfoldable pub write_output : Batch → List (Option Batch) → Result SealError Output
  unfolding push_all pad
  write_output empty steps = do o ← push_all steps no_output; padded ← pad empty o; publish padded
