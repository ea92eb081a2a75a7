-- ===== src/Jobs/Snapshot.antt =====
-- results.rs: `snapshot`, which opens one revision of a result for reading. The rows of `parts` stand
-- in the order of their numbers, so `ORDER BY seq` keeps it.
pub mod Reopen
use mathlib.Core.Option.{some-injective}
use mathlib.Core.Path.{subst}
use rowtrail.Base.{
  ==_iff, All, Bool, Bool-cases, List, Option, Result, [], ap, arith, false, find, guard,
  if◌then◌else◌, inl, inr, leb, length, le→leb, ltb, ltb→lt, none, not, ok, ok_or, refl, some, suc,
  sym, take, true, zero, ℕ, ◌&&◌, ◌+◌, ◌-◌, ◌==◌, ◌>>=◌, ◌>>◌, ◌∙◌, ◌∷◌, ◌≡◌, ◌≤◌,
}
use rowtrail.Jobs.{
  DbError, Job, JobState, PartRow, Quality, ResultRow, Revision, Tables, Validity, expired,
  not_found, object_expired, result_corrupt, result_not_ready,
}
use rowtrail.Jobs.Publish.{sum_rows}
use rowtrail.Jobs.Shape.{Fits, IsSound, PartsFrom, RevisionsFrom}

pub record Snapshot : Type 0 where
  pub schema : ℕ
  pub quality : Quality
  pub revision : ℕ
  pub rows : ℕ
  pub parts : List PartRow
  pub validity : Validity
  pub job_state : JobState

unfoldable pub is_expired : Validity → Bool
is_expired expired = true
is_expired _ = false

-- SELECT … FROM revisions WHERE result_id=? AND revision=?
unfoldable pub find_revision : ℕ → List Revision → Option Revision
find_revision n [] = none
find_revision n (r ∷ revisions) = if r.revision == n then some r else find_revision n revisions

-- SELECT part_seq FROM checkpoints, or 0
unfoldable pub start_of : ℕ → List (ℕ × ℕ) → ℕ
start_of n [] = 0
start_of n ((revision, seq) ∷ checkpoints) = if revision == n then seq else start_of n checkpoints

-- WHERE seq>=? AND seq<?
unfoldable pub select : ℕ → ℕ → List PartRow → List PartRow
select start cutoff [] = []
select start cutoff (p ∷ parts) =
    let rest = select start cutoff parts in
    if leb start p.seq && ltb p.seq cutoff then p ∷ rest else rest

unfoldable pub or_head : Option ℕ → ℕ → ℕ
or_head none head = head
or_head (some revision) head = revision

unfoldable pub read_row : ResultRow → JobState → ℕ → Result DbError Snapshot
unfolding find_revision start_of select
read_row row state revision = do
  guard (ltb 0 revision) result_not_ready
  r ← ok_or (find_revision revision row.revisions) not_found
  let start = start_of revision row.checkpoints
  let parts = select start r.cutoff row.parts
  guard (length parts == r.cutoff - start) result_corrupt
  schema ← ok_or row.schema result_not_ready
  ok (record {
    schema = schema;
    quality = r.quality;
    revision = revision;
    rows = r.rows;
    parts = parts;
    validity = row.validity;
    job_state = state;
  })

-- `snapshot`
unfoldable pub snapshot : ℕ → Option ℕ → Tables → Result DbError Snapshot
unfolding read_row is_expired or_head
snapshot id revision db = do
  row ← ok_or (find id db.results) not_found
  job ← ok_or (find row.job_id db.jobs) not_found
  guard (not (is_expired row.validity)) object_expired
  read_row row job.state (or_head revision row.head)

take_nil : (n : ℕ) → take {A = PartRow} n [] ≡ []
take_nil zero = refl
take_nil (suc n) = refl

-- The selected parts of a numbered list.
select-take :
    (n cutoff : ℕ) (parts : List PartRow)
    → PartsFrom n parts
    → select 0 cutoff parts ≡ take (cutoff - n) parts
unfolding select
select-take n cutoff [] h = sym (take_nil (cutoff - n))
select-take n cutoff (p ∷ parts) (e, h) =
    let rest = select-take (n + 1) cutoff parts h in
    let low : leb 0 n ≡ true = le→leb 0 n (omega arith) in
    rw (e, rest, low)
      (elim (Bool-cases (ltb n cutoff)) [
        | inl x ↦
            let k : cutoff - n ≡ suc (cutoff - (n + 1)) =
              (let lt = ltb→lt n cutoff x in omega arith) in
            rw (x, k) refl
        | inr x ↦
            let z : cutoff - (n + 1) ≡ 0 = ground arith in
            let k : cutoff - n ≡ 0 = ground arith in rw (x, k, z) refl
      ])

revision_positive :
    (n revision : ℕ) (revisions : List Revision) {r : Revision}
    → RevisionsFrom n revisions
    → find_revision revision revisions ≡ some r
    → n ≤ revision
unfolding find_revision
revision_positive n revision [] h e = cc
revision_positive n revision (q ∷ revisions) h e = elim (Bool-cases (q.revision == revision)) [
  | inl x ↦ ground arith
  | inr x ↦ let k = revision_positive (n + 1) revision revisions h.1 (rw x at e) in omega arith
]

found-Fits :
    (parts : List PartRow) (revision : ℕ) (revisions : List Revision) {r : Revision}
    → All (Fits false parts) revisions
    → find_revision revision revisions ≡ some r
    → Fits false parts r
unfolding find_revision
found-Fits parts revision [] h e = cc
found-Fits parts revision (q ∷ revisions) h e = elim (Bool-cases (q.revision == revision)) [
  | inl x ↦ subst (Fits false parts) (some-injective _ _ (rw x at e)) h.0
  | inr x ↦ found-Fits parts revision revisions h.1 (rw x at e)
]

length-take : (n : ℕ) (parts : List PartRow) → n ≤ length parts → length (take n parts) ≡ n
length-take zero parts h = refl
length-take (suc n) [] h = elim h [ ]
length-take (suc n) (p ∷ parts) h = omega (arith, length-take n parts (omega arith))

-- The parts that a revision of a plain result covers.
abbrev pub view_of : ResultRow → Revision → ℕ → JobState → Snapshot
view_of row r schema state = record {
  schema = schema;
  quality = r.quality;
  revision = r.revision;
  rows = sum_rows (take r.cutoff row.parts);
  parts = take r.cutoff row.parts;
  validity = row.validity;
  job_state = state;
}

found_number :
    (revision : ℕ) (revisions : List Revision) {r : Revision}
    → find_revision revision revisions ≡ some r
    → r.revision ≡ revision
unfolding find_revision
found_number revision [] e = cc
found_number revision (q ∷ revisions) e = elim (Bool-cases (q.revision == revision)) [
  | inl x ↦
      subst (λ r. r.revision ≡ revision) (some-injective _ _ (rw x at e))
        ((==_iff q.revision revision).0 x)
  | inr x ↦ found_number revision revisions (rw x at e)
]

read_row_lem :
    (row : ResultRow) (state : JobState) (revision schema : ℕ) (r : Revision)
    → IsSound false row
    → row.checkpoints ≡ []
    → row.schema ≡ some schema
    → find_revision revision row.revisions ≡ some r
    → read_row row state revision ≡ ok (view_of row r schema state)
unfolding read_row start_of
read_row_lem row state revision schema r sound plain has found =
    let fits = found-Fits row.parts revision row.revisions sound.revisions_fit found in
    let zero_off : r.cutoff - 0 ≡ r.cutoff = omega arith in
    let selected : select 0 r.cutoff row.parts ≡ take r.cutoff row.parts =
      select-take 0 r.cutoff row.parts sound.parts_numbered ∙ ap (λ n. take n row.parts) zero_off in
    let enough = length-take r.cutoff row.parts fits.0 in
    let positive : ltb 0 revision ≡ true =
      (let k = revision_positive 1 revision row.revisions sound.revisions_numbered found in
        ground arith) in
    let same : (length (take r.cutoff row.parts) == r.cutoff - start_of revision []) ≡ true =
      (==_iff (length (take r.cutoff row.parts)) (r.cutoff - 0)).1 (enough ∙ sym zero_off) in
    let number = found_number revision row.revisions found in
    rw (positive, found, plain, selected, same, has)
      λ i. ok (record {
        schema = schema;
        quality = r.quality;
        revision = sym number i;
        rows = fits.1 i;
        parts = take r.cutoff row.parts;
        validity = row.validity;
        job_state = state;
      })

-- A committed revision of a sound plain result can be read, unless the result has expired: it shows
-- the first `cutoff` parts, and its row count is the sum of theirs. The result has a schema, its job
-- is there, and no checkpoint belongs to it.
pub snapshot-view_of :
    (id revision schema : ℕ) (db : Tables) (row : ResultRow) (job : Job) (r : Revision)
    → find id db.results ≡ some row
    → find row.job_id db.jobs ≡ some job
    → is_expired row.validity ≡ false
    → IsSound false row
    → row.checkpoints ≡ []
    → row.schema ≡ some schema
    → find_revision revision row.revisions ≡ some r
    → snapshot id (some revision) db ≡ ok (view_of row r schema job.state)
unfolding snapshot
snapshot-view_of id revision schema db row job r a b c sound plain has found =
    rw (a, b, c) (read_row_lem row job.state revision schema r sound plain has found)
