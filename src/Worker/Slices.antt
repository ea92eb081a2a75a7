-- ===== src/Worker/Slices.antt =====
-- worker.rs: the slices of a batch are its rows in order, and each has at most 8192.
use rowtrail.Base.{
  Bool-cases, List, [], arith, false, if◌then◌else◌, inl, inr, ltb, refl, suc, zero, ℕ, ◌*◌, ◌+◌,
  ◌-◌, ◌/◌, ◌∷◌, ◌≡◌, ◌≤◌,
}
use rowtrail.Worker.{Batch, chunk_rows, clamp, per_row, slices, slices_from}

-- The slices are next to each other, from `offset` to `n`, and none is empty or larger than `chunk`.
unfoldable pub Tile : ℕ → ℕ → ℕ → List (ℕ × ℕ) → Type 0
Tile chunk n offset [] = offset ≡ n
Tile chunk n offset ((start, size) ∷ rest) =
    (start ≡ offset) × (1 ≤ size) × (size ≤ chunk) × Tile chunk n (offset + size) rest

Tile-weaken :
    (small large n offset : ℕ) (slices : List (ℕ × ℕ))
    → small ≤ large
    → Tile small n offset slices
    → Tile large n offset slices
unfolding Tile
Tile-weaken small large n offset [] h tile = tile
Tile-weaken small large n offset ((start, size) ∷ rest) h (same, some_rows, within, tile) = (
  same,
  some_rows,
  omega (arith, h, within),
  Tile-weaken small large n (offset + size) rest h tile,
)

past : (n offset : ℕ) → n ≤ offset → ltb offset n ≡ false
past n offset h = ground arith

slices_from-done : (fuel chunk n offset : ℕ) → n ≤ offset → slices_from fuel chunk n offset ≡ []
unfolding slices_from
slices_from-done zero chunk n offset h = refl
slices_from-done (suc fuel) chunk n offset h = rw (past n offset h) refl

slices_from-Tile :
    (fuel chunk n offset : ℕ)
    → 1 ≤ chunk
    → offset ≤ n
    → n ≤ offset + fuel
    → Tile chunk n offset (slices_from fuel chunk n offset)
unfolding slices_from Tile
slices_from-Tile zero chunk n offset positive start enough = omega (arith, start, enough)
slices_from-Tile (suc fuel) chunk n offset positive start enough =
    elim (Bool-cases (ltb offset n)) [
      | inr done ↦ rw done (ground (arith, done, start))
      | inl left ↦ elim (Bool-cases (ltb chunk (n - offset))) [
        | inl more ↦
            rw (left, more)
              (
                refl,
                positive,
                omega arith,
                slices_from-Tile fuel chunk n (offset + chunk) positive (ground (arith, more))
                    (omega (arith, enough, positive)),
              )
        | inr last ↦
            rw (left, last, slices_from-done fuel chunk n (offset + chunk) (ground (arith, last)))
              (refl, ground (arith, left), ground (arith, last), omega (arith, start))
      ]
    ]

clamp-within : (n low high : ℕ) → low ≤ high → (low ≤ clamp n low high) × (clamp n low high ≤ high)
unfolding clamp
clamp-within n low high h = (ground arith, ground arith)

chunk_rows-within : (batch : Batch) → (1 ≤ chunk_rows batch) × (chunk_rows batch ≤ 8192)
unfolding chunk_rows
chunk_rows-within batch =
    clamp-within (2 * 1024 * 1024 / (if ltb (per_row batch) 1 then 1 else per_row batch)) 1 8192
      (omega arith)

-- The slices of a batch are next to each other from its first row to its last, in order; none is empty
-- and none has more than 8192 rows.
pub slices-Tile : (batch : Batch) → Tile 8192 batch.num_rows 0 (slices batch)
unfolding slices
slices-Tile batch =
    let (positive, within) = chunk_rows-within batch in
    Tile-weaken (chunk_rows batch) 8192 batch.num_rows 0 (slices batch) within (
      slices_from-Tile batch.num_rows (chunk_rows batch) batch.num_rows 0 positive (omega arith)
        (omega arith))
