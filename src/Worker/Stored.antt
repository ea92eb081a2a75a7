-- ===== src/Worker/Stored.antt =====
-- worker.rs: a part that fits its limit is stored whole.
use mathlib.Core.List.{append-nil, append_assoc}
use rowtrail.Base.{
  Bool, Bool-cases, List, Option, Returns, Returns-weaken, [], ap, arith, inl, inr, leb, length,
  length-append, none, refl, some, suc, sym, take, take_all, zero, ℕ, ◌&&◌, ◌++◌, ◌+◌, ◌-◌, ◌<◌,
  ◌^◌, ◌∙◌, ◌∷◌, ◌≡◌, ◌≤◌,
}
use rowtrail.Worker.{
  HashWriter, append_disk, contents, limit_of, new_writer, part_limit, write, write_each,
  write_staged, write_within,
}
use rowtrail.Jobs.Publish.{inline_limit}
use rowtrail.Worker.Log.{
  IsLog, limit-small, new_writer-IsLog, room-fits, write_within-IsLog, write_within-limit,
}

-- The bytes of the writes, one after the other.
unfoldable pub joined : List (ℕ × List ℕ) → List ℕ
joined [] = []
joined ((accepted, bytes) ∷ writes) = bytes ++ joined writes

-- The file takes the whole of each write.
unfoldable pub TakesAll : List (ℕ × List ℕ) → Type 0
TakesAll [] = Unit
TakesAll ((accepted, bytes) ∷ writes) = (length bytes ≤ accepted) × TakesAll writes

take-enough : {A : Type 0} (n : ℕ) (xs : List A) → length xs ≤ n → take n xs ≡ xs
take-enough zero [] h = refl
take-enough (suc n) [] h = refl
take-enough zero (x ∷ xs) h = absurd (omega (arith, h))
take-enough (suc n) (x ∷ xs) h = ap (x ∷◌) (take-enough n xs (omega (arith, h)))

module _ (accepted : ℕ) (bytes memory : List ℕ) (inline : Bool) where
  write_staged-all :
      (disk : Option (List ℕ))
      → length bytes ≤ accepted
      → (write_staged accepted bytes (record { memory = memory; disk = disk; inline = inline })).1
        ≡ length bytes
  unfolding write_staged append_disk
  write_staged-all (some d) h = rw (take-enough accepted bytes h) refl
  write_staged-all none h =
      elim (Bool-cases (inline && leb (length memory + length bytes) inline_limit)) [
        | inl small ↦ rw small refl
        | inr large ↦ rw (large, take-enough accepted bytes h) refl
      ]

write_within-all :
    (accepted : ℕ) (bytes : List ℕ) (writer : HashWriter)
    → length bytes ≤ accepted
    → let next = (write_within accepted bytes writer).0 in
      (next.hashed ≡ writer.hashed ++ bytes) × (next.bytes ≡ writer.bytes + length bytes)
unfolding write_within
write_within-all accepted bytes writer h =
    rw
      (
        write_staged-all accepted bytes writer.file.memory writer.file.inline writer.file.disk h,
        take_all bytes,
      )
      (refl, refl)

abbrev Holds : List ℕ → HashWriter → Type 0
Holds bytes writer = (writer.hashed ≡ bytes) × IsLog writer

write_each-Holds :
    (writes : List (ℕ × List ℕ)) (writer : HashWriter)
    → writer.limit < 2 ^ 64 - 1
    → TakesAll writes
    → writer.bytes + length (joined writes) ≤ writer.limit
    → IsLog writer
    → Returns (Holds (writer.hashed ++ joined writes)) (write_each writes writer)
unfolding write_each joined TakesAll write
write_each-Holds [] writer small takes room log = (sym (append-nil writer.hashed), log)
write_each-Holds ((accepted, bytes) ∷ writes) writer small (takes, rest) room log =
    let next = (write_within accepted bytes writer).0 in
    let limit = write_within-limit accepted bytes writer in
    let (hashed, counted) = write_within-all accepted bytes writer takes in
    let total = length-append bytes (joined writes) in
    let fits : writer.bytes + length bytes ≤ writer.limit = omega (arith, room, total) in
    rw (room-fits writer.bytes (length bytes) writer.limit small fits) (
      rw (← append_assoc writer.hashed bytes (joined writes), ← hashed)
        (write_each-Holds writes next (rw limit small) rest
          (rw limit (omega (arith, counted, room, total)))
          (write_within-IsLog accepted bytes writer fits log)))

-- The whole of `bytes` was stored, hashed and counted.
unfoldable pub Stores : List ℕ → HashWriter → Type 0
Stores bytes writer =
    (contents writer.file ≡ bytes) × (writer.hashed ≡ bytes) × (writer.bytes ≡ length bytes)

-- When the file takes all of each write, and the writes of a part together are within the bytes that
-- remain and the limit of a part, then the part is written without an error, and what is stored,
-- hashed and counted is all of them in order.
pub write_each-Stores :
    (writes : List (ℕ × List ℕ)) (inline : Bool) (remaining : ℕ)
    → TakesAll writes
    → length (joined writes) ≤ remaining
    → length (joined writes) ≤ part_limit
    → Returns (Stores (joined writes)) (write_each writes (new_writer inline remaining))
unfolding IsLog Stores new_writer limit_of
write_each-Stores writes inline remaining takes room part_room =
    Returns-weaken (Holds (joined writes)) (Stores (joined writes))
      (write_each writes (new_writer inline remaining))
      (λ writer (same, log). (sym log.0 ∙ same, same, log.1 ∙ ap length same))
      (write_each-Holds writes (new_writer inline remaining) (limit-small remaining) takes
        (ground (arith, room, part_room)) (new_writer-IsLog inline remaining))
