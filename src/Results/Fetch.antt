-- ===== src/Results/Fetch.antt =====
-- The bytes of a part: `verified_bytes`, `verified_inline` and `verified_part` of results.rs.
use rowtrail.Base.{
  ==_iff, Bool-cases, List, Option, Result, [], ap, arith, err, false, guard, if◌then◌else◌, inl,
  inr, leb, leb→le, length, none, ok, ok_or, refl, some, suc, sym, take, zero, ℕ, ◌&&◌, ◌*◌, ◌==◌,
  ◌>>=◌, ◌>>◌, ◌∙◌, ◌∷◌, ◌≡◌, ◌≤◌, ◌⊎◌,
}
use rowtrail.Jobs.Publish.{inline_limit}
use rowtrail.Results.{ReadError, corrupt, unavailable}

abbrev pub part_limit : ℕ
part_limit = 8 * 1024 * 1024

-- An opened file: the length in its metadata, and what reading it to the end gives.
pub record DiskFile : Type 0 where
  pub size : ℕ
  pub content : List ℕ

-- A row of `inline_parts`.
pub record InlinePart : Type 0 where
  pub result_ref : ℕ
  pub seq : ℕ
  pub bytes : List ℕ

-- sources.rs: `InlineSource`
pub record InlineSource : Type 0 where
  pub database : ℕ
  pub result_ref : ℕ
  pub seq : ℕ

-- SELECT data FROM inline_parts WHERE result_id=? AND seq=? AND length(data)=?
unfoldable pub select_inline : ℕ → ℕ → ℕ → List InlinePart → Option (List ℕ)
select_inline result seq size [] = none
select_inline result seq size (p ∷ parts) =
    if p.result_ref == result && p.seq == seq && length p.bytes == size
    then some p.bytes
    else select_inline result seq size parts

-- The digest is SHA-256 in hexadecimal, as a number; the disk answers `File::open`.
module _ (digest : List ℕ → ℕ) where
  unfoldable pub verified_bytes : (ℕ → Option DiskFile) → ℕ → ℕ → ℕ → Result ReadError (List ℕ)
  verified_bytes disk path expected checksum = do
    guard (leb expected part_limit) corrupt
    file ← ok_or (disk path) unavailable
    guard (file.size == expected) corrupt
    let bytes = take (suc expected) file.content
    guard (length bytes == expected) corrupt
    guard (digest bytes == checksum) corrupt
    ok bytes

  unfoldable pub verified_inline :
      List InlinePart → InlineSource → ℕ → ℕ → Result ReadError (List ℕ)
  unfolding select_inline
  verified_inline parts source size checksum = do
    guard (leb size inline_limit) corrupt
    bytes ← ok_or (select_inline source.result_ref source.seq size parts) corrupt
    guard (digest bytes == checksum) corrupt
    ok bytes

take_short : (n : ℕ) (xs : List ℕ) → length (take (suc n) xs) ≡ n → take (suc n) xs ≡ xs
take_short zero [] h = refl
take_short zero (x ∷ xs) h = absurd (omega arith)
take_short (suc n) [] h = refl
take_short (suc n) (x ∷ xs) h = ap (λ t. x ∷ t) (take_short n xs (omega arith))

take_whole : (n : ℕ) (xs : List ℕ) → length xs ≡ n → take (suc n) xs ≡ xs
take_whole zero [] h = refl
take_whole zero (x ∷ xs) h = absurd (omega arith)
take_whole (suc n) [] h = refl
take_whole (suc n) (x ∷ xs) h = ap (λ t. x ∷ t) (take_whole n xs (omega arith))

false-leb : (a b : ℕ) → leb a b ≡ false → ¬ (a ≤ b)
false-leb a b h k = ground arith

false-eq : (a b : ℕ) → (a == b) ≡ false → ¬ (a ≡ b)
false-eq a b h k = ground arith

-- What a file must be for its bytes to be served.
abbrev pub IsIntact : (List ℕ → ℕ) → DiskFile → ℕ → ℕ → Type 0
IsIntact digest file expected checksum =
    (expected ≤ part_limit)
    × (file.size ≡ expected)
    × (length file.content ≡ expected)
    × (digest file.content ≡ checksum)

module _ (digest : List ℕ → ℕ) (disk : ℕ → Option DiskFile) (path expected checksum : ℕ) where
  -- An opened file is served whole if its length, in the metadata and in fact, is the recorded one of
  -- at most 8 MiB and its digest is the recorded one; else the error is RESULT_CORRUPT.
  pub verified_bytes-IsIntact :
      (file : DiskFile)
      → disk path ≡ some file
      → ((verified_bytes digest disk path expected checksum ≡ ok file.content)
          × IsIntact digest file expected checksum)
        ⊎ ((verified_bytes digest disk path expected checksum ≡ err corrupt)
            × ¬ IsIntact digest file expected checksum)
  unfolding verified_bytes
  verified_bytes-IsIntact file h = elim (Bool-cases (leb expected part_limit)) [
    | inr a ↦ inr (rw a refl, λ (x, y, z, w). absurd (false-leb expected part_limit a x))
    | inl a ↦ elim (Bool-cases (file.size == expected)) [
      | inr b ↦ inr (rw (a, h, b) refl, λ (x, y, z, w). absurd (false-eq file.size expected b y))
      | inl b ↦ elim (Bool-cases (length (take (suc expected) file.content) == expected)) [
        | inr c ↦ inr (
          rw (a, h, b, c) refl,
          λ (x, y, z, w). absurd (
              false-eq (length (take (suc expected) file.content)) expected c
                (ap length (take_whole expected file.content z) ∙ z)),
        )
        | inl c ↦
            let whole =
              take_short expected file.content
                ((==_iff (length (take (suc expected) file.content)) expected).0 c) in
            elim (Bool-cases (digest file.content == checksum)) [
              | inr d ↦ inr (
                rw (a, h, b, c, whole, d) refl,
                λ (x, y, z, w). absurd (false-eq (digest file.content) checksum d w),
              )
              | inl d ↦ inl (
                rw (a, h, b, c, whole, d) refl,
                (
                  leb→le expected part_limit a,
                  (==_iff file.size expected).0 b,
                  ap length (sym whole)
                      ∙ (==_iff (length (take (suc expected) file.content)) expected).0 c,
                  (==_iff (digest file.content) checksum).0 d,
                ),
              )
            ]
      ]
    ]
  ]
