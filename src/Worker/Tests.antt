-- ===== src/Worker/Tests.antt =====
-- Runs of the writer and the slices of worker.rs.
use rowtrail.Base.{
  Ensures, List, Option, Result, Returns, [], arith, err, false, is_ok, length, none, ok, refl,
  some, true, ℕ, ◌∷◌, ◌≡◌,
}
use rowtrail.Worker.Budget.{Within, write_output-Within}
use rowtrail.Worker.{Batch, new_writer, slices, write_each}
use rowtrail.Worker.Log.{IsLog, SendsHashed, write_each-IsLog_inline}
use rowtrail.Worker.Order.{given_by}
use rowtrail.Worker.Output.{
  Execution, Library, Output, SealError, is_full, make_room, occupied_bytes, part_target,
  write_output,
}
use rowtrail.Worker.Whole.{IsWhole, write_output-IsWhole}
use rowtrail.Worker.Slices.{Tile, slices-Tile}
use rowtrail.Worker.Stored.{Stores, TakesAll, joined, write_each-Stores}

abbrev two_writes : List (ℕ × List ℕ)
two_writes = (9, 1 ∷ 2 ∷ []) ∷ (9, 3 ∷ []) ∷ []

abbrev a_short_write : List (ℕ × List ℕ)
a_short_write = (9, 1 ∷ 2 ∷ []) ∷ (1, 3 ∷ 4 ∷ []) ∷ []

-- A part of two bytes at most does not take three.
write_each_run : is_ok (write_each two_writes (new_writer true 2)) ≡ false
unfolding write_each new_writer
write_each_run = refl

-- Three rows of 2 MiB each are three slices.
slices_run : slices (record { num_rows = 3; memory_size = 6291456 }) ≡ (0, 1) ∷ (1, 1) ∷ (2, 1) ∷ []
unfolding slices rowtrail.Worker.per_row
slices_run = refl

write_each-IsLog_inline_example :
    Ensures
      (λ writer. IsLog writer × SendsHashed writer)
      (write_each a_short_write (new_writer false 5))
write_each-IsLog_inline_example = write_each-IsLog_inline a_short_write false 5

write_each-Stores_example :
    Returns (Stores (joined two_writes)) (write_each two_writes (new_writer true 3))
unfolding TakesAll joined
write_each-Stores_example =
    write_each-Stores two_writes true 3 (omega arith, (omega arith, tt)) (omega arith) (omega arith)

slices-Tile_example : Tile 8192 3 0 (slices (record { num_rows = 3; memory_size = 6291456 }))
slices-Tile_example = slices-Tile (record { num_rows = 3; memory_size = 6291456 })

abbrev a_batch : Batch
a_batch = record { num_rows = 2; memory_size = 4194304 }

abbrev no_rows : Batch
no_rows = record { num_rows = 0; memory_size = 0 }

-- A library that writes a byte for every batch, and two to open and close a part.
abbrev serving : Library
serving = record {
  open_part = ok ((9, 1 ∷ []) ∷ []);
  write_batch = λ batches. ok ((9, 2 ∷ []) ∷ []);
  close_part = λ batches. ok ((9, 3 ∷ []) ∷ []);
  acknowledge = λ part. true;
}

abbrev an_execution : Execution
an_execution = record {
  result_bytes = 100000000;
  style = record { prepared = true; dictionary_batches = false; preview = false };
  library = serving;
}

-- Two batches, a pause and a third.
abbrev a_stream : List (Option Batch)
a_stream = some a_batch ∷ some a_batch ∷ none ∷ some a_batch ∷ []

count_parts : Result SealError Output → ℕ
count_parts (ok o) = length o.sealed
count_parts (err e) = 0

-- Two batches of 4 MiB do not share a part of managed Parquet.
write_output_run : count_parts (write_output an_execution no_rows a_stream) ≡ 3
unfolding count_parts write_output make_room is_full part_target
write_output_run = refl

-- A managed file without rows has one part.
pad_run : count_parts (write_output an_execution no_rows []) ≡ 1
unfolding count_parts write_output
pad_run = refl

write_output-IsWhole_example :
    Ensures (IsWhole no_rows (given_by a_stream)) (write_output an_execution no_rows a_stream)
write_output-IsWhole_example = write_output-IsWhole an_execution no_rows a_stream

write_output-Within_example :
    Ensures (Within 100000000) (write_output an_execution no_rows a_stream)
write_output-Within_example = write_output-Within an_execution no_rows a_stream

bytes_written : Result SealError Output → ℕ
bytes_written (ok o) = o.written
bytes_written (err e) = 0

-- Three parts of three bytes each are written, and do not fit into eight bytes.
bytes_run : bytes_written (write_output an_execution no_rows a_stream) ≡ 9
unfolding bytes_written write_output make_room is_full part_target occupied_bytes
bytes_run = refl

over_budget_run :
    is_ok (write_output (record an_execution { result_bytes = 8 }) no_rows a_stream) ≡ false
unfolding write_output make_room is_full part_target occupied_bytes
over_budget_run = refl
