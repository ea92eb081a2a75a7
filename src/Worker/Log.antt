-- ===== src/Worker/Log.antt =====
-- worker.rs: what the counting writer has hashed and counted is what the staged file holds.
use rowtrail.Base.{
  Bool, Bool-cases, Ensures, Ensures-bind, Ensures-weaken, List, Option, [], ap, arith, false, inl,
  inr, leb, length, length-append, ltb, none, refl, some, suc, sym, take, take_all, true, zero, ℕ,
  ◌&&◌, ◌++◌, ◌+◌, ◌-◌, ◌<◌, ◌^◌, ◌∙◌, ◌∷◌, ◌≡◌, ◌≤◌,
}
use rowtrail.Jobs.Publish.{inline_limit}
use rowtrail.Worker.{
  HashWriter, StagedFile, append_disk, contents, finish_staged, limit_of, new_writer, saturating,
  write, write_each, write_staged, write_within,
}

-- A file that was not created holds at most what may be sent inline.
unfoldable pub FitsInline : StagedFile → Type 0
FitsInline f = elim f.disk [ some on_disk ↦ Unit | none ↦ length f.memory ≤ inline_limit ]

-- The hash, the count and the file agree, and the count is within the limit.
unfoldable pub IsLog : HashWriter → Type 0
unfolding contents FitsInline
IsLog writer =
    (writer.hashed ≡ contents writer.file)
    × (writer.bytes ≡ length writer.hashed)
    × (writer.bytes ≤ writer.limit)
    × FitsInline writer.file

-- What one write to the file adds.
Appends : StagedFile → List ℕ → StagedFile × ℕ → Type 0
Appends f bytes (f', n) =
    (contents f' ≡ contents f ++ take n bytes) × (n ≤ length bytes) × FitsInline f'

pub take-length-take : {A : Type 0} (n : ℕ) (xs : List A) → take (length (take n xs)) xs ≡ take n xs
take-length-take zero [] = refl
take-length-take (suc n) [] = refl
take-length-take zero (x ∷ xs) = refl
take-length-take (suc n) (x ∷ xs) = ap (x ∷◌) (take-length-take n xs)

length-take : {A : Type 0} (n : ℕ) (xs : List A) → length (take n xs) ≤ length xs
length-take zero [] = omega arith
length-take (suc n) [] = omega arith
length-take zero (x ∷ xs) = omega arith
length-take (suc n) (x ∷ xs) = omega (arith, length-take n xs)

module _ (accepted : ℕ) (bytes memory : List ℕ) (inline : Bool) where
  write_memory-Appends :
      (fits : Bool)
      → (inline && leb (length memory + length bytes) inline_limit) ≡ fits
      → Appends
          (record { memory = memory; disk = none; inline = inline })
          bytes
          (write_staged accepted bytes (record { memory = memory; disk = none; inline = inline }))
  unfolding write_staged append_disk Appends contents FitsInline
  write_memory-Appends true h =
      rw (h, take_all bytes) (refl, omega arith, ground (arith, h, length-append memory bytes))
  write_memory-Appends false h =
      rw (h, take-length-take accepted bytes) (refl, length-take accepted bytes, tt)

  write_staged-Appends :
      (disk : Option (List ℕ))
      → Appends
          (record { memory = memory; disk = disk; inline = inline })
          bytes
          (write_staged accepted bytes (record { memory = memory; disk = disk; inline = inline }))
  unfolding write_staged append_disk Appends contents FitsInline
  write_staged-Appends (some d) =
      rw (take-length-take accepted bytes) (refl, length-take accepted bytes, tt)
  write_staged-Appends none =
      write_memory-Appends (inline && leb (length memory + length bytes) inline_limit) refl

length-take_within : {A : Type 0} (n : ℕ) (xs : List A) → n ≤ length xs → length (take n xs) ≡ n
length-take_within zero [] h = refl
length-take_within (suc n) [] h = omega (arith, h)
length-take_within zero (x ∷ xs) h = refl
length-take_within (suc n) (x ∷ xs) h = omega (arith, length-take_within n xs (omega (arith, h)))

pub write_within-IsLog :
    (accepted : ℕ) (bytes : List ℕ) (writer : HashWriter)
    → writer.bytes + length bytes ≤ writer.limit
    → IsLog writer
    → IsLog (write_within accepted bytes writer).0
unfolding write_within IsLog Appends
write_within-IsLog accepted bytes writer room (hashed, counted, within, fits) =
    let n = (write_staged accepted bytes writer.file).1 in
    let (holds, accepts, fits') =
      write_staged-Appends accepted bytes writer.file.memory writer.file.inline writer.file.disk in
    (
      rw (holds, hashed) refl,
      omega (
        arith,
        counted,
        length-append writer.hashed (take n bytes),
        length-take_within n bytes accepts,
      ),
      omega (arith, room, accepts),
      fits',
    )

pub write_within-limit :
    (accepted : ℕ) (bytes : List ℕ) (writer : HashWriter)
    → (write_within accepted bytes writer).0.limit ≡ writer.limit
unfolding write_within
write_within-limit accepted bytes writer = refl

fits-room :
    (used more limit : ℕ)
    → limit < 2 ^ 64 - 1
    → ltb limit (saturating used more) ≡ false
    → used + more ≤ limit
fits-room used more limit small h = ground (arith, small, h)

pub room-fits :
    (used more limit : ℕ)
    → limit < 2 ^ 64 - 1
    → used + more ≤ limit
    → ltb limit (saturating used more) ≡ false
room-fits used more limit small h = ground (arith, small, h)

write-IsLog :
    (accepted : ℕ) (bytes : List ℕ) (writer : HashWriter)
    → writer.limit < 2 ^ 64 - 1
    → IsLog writer
    → Ensures (λ r. IsLog r.0 × (r.0.limit ≡ writer.limit)) (write accepted bytes writer)
unfolding write write_within
write-IsLog accepted bytes writer small log =
    elim (Bool-cases (ltb writer.limit (saturating writer.bytes (length bytes)))) [
      | inl h ↦ rw h tt
      | inr h ↦ rw h (
        write_within-IsLog accepted bytes writer
            (fits-room writer.bytes (length bytes) writer.limit small h) log,
        refl,
      )
    ]

pub write_each-IsLog :
    (writes : List (ℕ × List ℕ)) (writer : HashWriter)
    → writer.limit < 2 ^ 64 - 1
    → IsLog writer
    → Ensures (λ next. IsLog next × (next.limit ≡ writer.limit)) (write_each writes writer)
unfolding write_each
write_each-IsLog [] writer small log = (log, refl)
write_each-IsLog ((accepted, bytes) ∷ writes) writer small log =
    Ensures-bind (λ r. IsLog r.0 × (r.0.limit ≡ writer.limit)) _ (write accepted bytes writer)
      (λ r. write_each writes r.0) (write-IsLog accepted bytes writer small log)
      λ r k.
        Ensures-weaken (λ next. IsLog next × (next.limit ≡ r.0.limit))
          (λ next. IsLog next × (next.limit ≡ writer.limit)) (write_each writes r.0)
          (λ next h. (h.0, h.1 ∙ k.1)) (write_each-IsLog writes r.0 (rw k.1 small) k.0)

-- The part that is sent inline is small, and it is what was hashed.
unfoldable pub SendsHashed : HashWriter → Type 0
unfolding finish_staged
SendsHashed writer = elim (finish_staged writer.file) [
  | none ↦ Unit
  | some sent ↦ (sent ≡ writer.hashed) × (length sent ≤ inline_limit)
]

pub sends :
    (disk : Option (List ℕ)) (memory hashed : List ℕ) (inline : Bool) (bytes limit : ℕ)
    → IsLog (record {
      file = record { memory = memory; disk = disk; inline = inline };
      hashed = hashed;
      bytes = bytes;
      limit = limit;
    })
    → SendsHashed (record {
      file = record { memory = memory; disk = disk; inline = inline };
      hashed = hashed;
      bytes = bytes;
      limit = limit;
    })
unfolding SendsHashed IsLog finish_staged contents FitsInline
sends (some d) memory hashed inline bytes limit log = tt
sends none memory hashed inline bytes limit (same, counted, within, fits) = (sym same, fits)

pub limit-small : (remaining : ℕ) → limit_of remaining < 2 ^ 64 - 1
unfolding limit_of
limit-small remaining = ground arith

pub new_writer-IsLog : (inline : Bool) (remaining : ℕ) → IsLog (new_writer inline remaining)
unfolding IsLog new_writer contents FitsInline
new_writer-IsLog inline remaining = (refl, refl, omega arith, omega arith)

-- Whatever the file accepts of each write, a part that is written without an error was hashed and
-- counted as it is stored, within its limit; and if its bytes are sent inline, they are those and at
-- most the inline limit.
pub write_each-IsLog_inline :
    (writes : List (ℕ × List ℕ)) (inline : Bool) (remaining : ℕ)
    → Ensures
        (λ writer. IsLog writer × SendsHashed writer)
        (write_each writes (new_writer inline remaining))
unfolding new_writer
write_each-IsLog_inline writes inline remaining =
    Ensures-weaken (λ next. IsLog next × (next.limit ≡ limit_of remaining))
      (λ writer. IsLog writer × SendsHashed writer)
      (write_each writes (new_writer inline remaining))
      (λ writer (log, same). (
        log,
        sends writer.file.disk writer.file.memory writer.hashed writer.file.inline writer.bytes
            writer.limit log,
      ))
      (write_each-IsLog writes (new_writer inline remaining) (limit-small remaining)
        (new_writer-IsLog inline remaining))
