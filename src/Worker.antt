-- ===== src/Worker.antt =====
-- The parts that a worker writes, in crates/runtime/src/worker.rs: the staged file behind the counting
-- writer, and the slices of a large batch. What a write to the file accepts is an argument, and so is
-- the memory size of a batch, which the Arrow library computes.
pub mod Budget
pub mod Log
pub mod Order
pub mod Output
pub mod Slices
pub mod Stored
pub mod Tests
pub mod Whole
use rowtrail.Base.{
  Bool, List, Option, Result, [], err, if◌then◌else◌, leb, length, ltb, none, ok, some, suc, take,
  zero, ℕ, ◌&&◌, ◌*◌, ◌++◌, ◌+◌, ◌-◌, ◌/◌, ◌>>=◌, ◌>>◌, ◌^◌, ◌∷◌,
}
use rowtrail.Jobs.Publish.{inline_limit}

pub data WorkerError : Type 0 where
  storage_budget : WorkerError

-- `StagedFile`. A file on disk is what was written to it.
pub record StagedFile : Type 0 where
  pub memory : List ℕ
  pub disk : Option (List ℕ)
  pub inline : Bool

-- `write` on the file, which may accept fewer bytes than it is given.
unfoldable pub append_disk : ℕ → List ℕ → StagedFile → List ℕ → StagedFile × ℕ
append_disk accepted bytes f on_disk =
    (record f { disk = some (on_disk ++ take accepted bytes) }, length (take accepted bytes))

-- `StagedFile::write`: in memory up to the limit, and from then on in the file, which is created with
-- what was in memory. `accepted` is what a write to the file accepts.
unfoldable pub write_staged : ℕ → List ℕ → StagedFile → StagedFile × ℕ
unfolding append_disk
write_staged accepted bytes f = elim f.disk [
  | some on_disk ↦ append_disk accepted bytes f on_disk
  | none ↦
      if f.inline && leb (length f.memory + length bytes) inline_limit
      then (record f { memory = f.memory ++ bytes }, length bytes)
      else append_disk accepted bytes (record f { memory = [] }) f.memory
]

-- `HashWriter`: the digest has been fed the bytes `hashed`.
pub record HashWriter : Type 0 where
  pub file : StagedFile
  pub hashed : List ℕ
  pub bytes : ℕ
  pub limit : ℕ

-- `u64::saturating_add`
abbrev pub saturating : ℕ → ℕ → ℕ
saturating a b = if ltb (a + b) (2 ^ 64) then a + b else 2 ^ 64 - 1

-- One write that is within the limit: what the file accepted is hashed and counted.
unfoldable pub write_within : ℕ → List ℕ → HashWriter → HashWriter × ℕ
unfolding write_staged
write_within accepted bytes w =
    let (file, n) = write_staged accepted bytes w.file in
    (record w { file = file; hashed = w.hashed ++ take n bytes; bytes = w.bytes + n }, n)

-- `HashWriter::write`
unfoldable pub write : ℕ → List ℕ → HashWriter → Result WorkerError (HashWriter × ℕ)
unfolding write_within
write accepted bytes w =
    if ltb w.limit (saturating w.bytes (length bytes))
    then err storage_budget
    else ok (write_within accepted bytes w)

-- The bytes of a staged file.
unfoldable pub contents : StagedFile → List ℕ
contents f = elim f.disk [ some on_disk ↦ on_disk | none ↦ f.memory ]

-- `StagedFile::finish`: the bytes of an inline part, or none for a file.
unfoldable pub finish_staged : StagedFile → Option (List ℕ)
finish_staged f = elim f.disk [ some on_disk ↦ none | none ↦ some f.memory ]

-- `PART_LIMIT`
abbrev pub part_limit : ℕ
part_limit = 8 * 1024 * 1024

-- `remaining.min(PART_LIMIT)`
unfoldable pub limit_of : ℕ → ℕ
limit_of remaining = if ltb part_limit remaining then part_limit else remaining

-- The writer of a new part, with the result bytes that remain.
unfoldable pub new_writer : Bool → ℕ → HashWriter
unfolding limit_of
new_writer inline remaining = record {
  file = record { memory = []; disk = none; inline = inline };
  hashed = [];
  bytes = 0;
  limit = limit_of remaining;
}

-- The writes of an encoder, each with what the file accepts of it.
unfoldable pub write_each : List (ℕ × List ℕ) → HashWriter → Result WorkerError HashWriter
unfolding write
write_each [] w = ok w
write_each ((accepted, bytes) ∷ writes) w = do
  (next, n) ← write accepted bytes w
  write_each writes next

-- A batch, of which only the rows and the size in memory count.
pub record Batch : Type 0 where
  pub num_rows : ℕ
  pub memory_size : ℕ

-- `(2*1024*1024/per_row).clamp(1,8192)`
unfoldable pub clamp : ℕ → ℕ → ℕ → ℕ
clamp n low high = if ltb n low then low else if ltb high n then high else n

unfoldable pub per_row : Batch → ℕ
per_row batch = batch.memory_size / (if ltb batch.num_rows 1 then 1 else batch.num_rows)

unfoldable pub chunk_rows : Batch → ℕ
unfolding clamp
chunk_rows batch =
    let bytes = per_row batch in clamp (2 * 1024 * 1024 / (if ltb bytes 1 then 1 else bytes)) 1 8192

-- `(0..n).step_by(chunk)` with the length of each slice.
unfoldable pub slices_from : ℕ → ℕ → ℕ → ℕ → List (ℕ × ℕ)
slices_from zero chunk n offset = []
slices_from (suc fuel) chunk n offset =
    let size = if ltb chunk (n - offset) then chunk else n - offset in
    let rest = slices_from fuel chunk n (offset + chunk) in
    if ltb offset n then (offset, size) ∷ rest else []

-- The offsets and lengths of the slices of a batch; every slice has a row, so the fuel is enough.
unfoldable pub slices : Batch → List (ℕ × ℕ)
unfolding chunk_rows slices_from
slices batch = slices_from batch.num_rows (chunk_rows batch) batch.num_rows 0
