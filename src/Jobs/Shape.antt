-- ===== src/Jobs/Shape.antt =====
-- db.rs: the shape that every committed result keeps. Parts are numbered from 0 and revisions from
-- 1 without a gap, the head is the last revision, and a revision speaks of committed parts only.
use mathlib.Core.List.{append-nil, append_assoc}
use mathlib.Core.Option.{some-injective}
use mathlib.Core.Path.{subst}
use rowtrail.Base.{
  ==_iff, All, All-append, All-weaken, Bool, Bool-cases, List, OptionAll, OptionAll-value,
  OptionAll-of, OptionAny, OptionAny-value, OptionAny-of, Returns, [], ap, arith, false, find,
  find-modify, if◌then◌else◌, inl, inr, length, length-append, refl, some, sym, take, take-append,
  true, ℕ, ◌++◌, ◌+◌, ◌<◌, ◌==◌, ◌∙◌, ◌∷◌, ◌≡◌, ◌≤◌,
}
use rowtrail.Jobs.{EventKind, JobSpec, PartRow, ResultRow, Revision, Tables, set_result, with_event}
use rowtrail.Jobs.Publish.{add_revision, commit_part, has_revision, sum_rows, with_events}

abbrev pub PartsFrom : ℕ → List PartRow → Type 0
PartsFrom n [] = Unit
PartsFrom n (p ∷ parts) = (p.seq ≡ n) × PartsFrom (n + 1) parts

abbrev pub RevisionsFrom : ℕ → List Revision → Type 0
RevisionsFrom n [] = Unit
RevisionsFrom n (r ∷ revisions) = (r.revision ≡ n) × RevisionsFrom (n + 1) revisions

-- A revision covers the first `cutoff` parts and counts their rows; a checkpoint is one row.
abbrev pub Fits : Bool → List PartRow → Revision → Type 0
Fits true parts r = (r.cutoff ≤ length parts) × (0 < r.cutoff) × (r.rows ≡ 1)
Fits false parts r = (r.cutoff ≤ length parts) × (r.rows ≡ sum_rows (take r.cutoff parts))

pub Fits-of_rows :
    (progressive : Bool) (parts : List PartRow) (r : Revision)
    → r.cutoff ≤ length parts
    → 0 < r.cutoff
    → r.rows ≡ (if progressive then 1 else sum_rows (take r.cutoff parts))
    → Fits progressive parts r
Fits-of_rows true parts r h k e = (h, k, e)
Fits-of_rows false parts r h k e = (h, e)

pub record IsSound (progressive : Bool) (row : ResultRow) : Type 0 where
  pub parts_numbered : PartsFrom 0 row.parts
  pub revisions_numbered : RevisionsFrom 1 row.revisions
  pub head_last : row.head ≡ length row.revisions
  pub revisions_fit : All (Fits progressive row.parts) row.revisions

-- The later row has the same parts and revisions, and possibly more.
pub record Extends (before after : ResultRow) : Type 0 where
  pub more_parts : (ps : List PartRow) × (after.parts ≡ before.parts ++ ps)
  pub more_revisions : (rs : List Revision) × (after.revisions ≡ before.revisions ++ rs)

PartsFrom-append :
    (n : ℕ) (parts : List PartRow) (p : PartRow)
    → PartsFrom n parts
    → p.seq ≡ n + length parts
    → PartsFrom n (parts ++ p ∷ [])
PartsFrom-append n [] p h e = (omega arith, tt)
PartsFrom-append n (q ∷ parts) p h e = (h.0, PartsFrom-append (n + 1) parts p h.1 (omega arith))

RevisionsFrom-append :
    (n : ℕ) (revisions : List Revision) (r : Revision)
    → RevisionsFrom n revisions
    → r.revision ≡ n + length revisions
    → RevisionsFrom n (revisions ++ r ∷ [])
RevisionsFrom-append n [] r h e = (omega arith, tt)
RevisionsFrom-append n (q ∷ revisions) r h e =
    (h.0, RevisionsFrom-append (n + 1) revisions r h.1 (omega arith))

-- The next number is free.
has_revision_next :
    (n m : ℕ) (revisions : List Revision)
    → RevisionsFrom n revisions
    → m ≡ n + length revisions
    → has_revision m revisions ≡ false
unfolding has_revision
has_revision_next n m [] h e = refl
has_revision_next n m (r ∷ revisions) h e =
    ground (arith, has_revision_next (n + 1) m revisions h.1)

-- More parts change nothing for the revisions that are there.
Fits-append :
    (progressive : Bool) (parts : List PartRow) (p : PartRow) (r : Revision)
    → Fits progressive parts r
    → Fits progressive (parts ++ p ∷ []) r
Fits-append true parts p r (b, c, d) = (omega (arith, length-append parts (p ∷ [])), c, d)
Fits-append false parts p r (b, c) = (
  omega (arith, length-append parts (p ∷ [])),
  c ∙ ap sum_rows (sym (take-append r.cutoff parts (p ∷ []) b)),
)

pub add_part-IsSound :
    (progressive : Bool) (row : ResultRow) (p : PartRow)
    → IsSound progressive row
    → p.seq ≡ length row.parts
    → IsSound progressive (record row { parts = row.parts ++ p ∷ [] })
add_part-IsSound progressive row p h e = record {
  parts_numbered = PartsFrom-append 0 row.parts p h.parts_numbered (omega arith);
  revisions_numbered = h.revisions_numbered;
  head_last = h.head_last;
  revisions_fit =
      All-weaken _ _ row.revisions (Fits-append progressive row.parts p) h.revisions_fit;
}

-- A revision with the next number that fits is accepted, and keeps the shape.
pub add_revision-IsSound :
    (progressive : Bool) (r : Revision) (row : ResultRow)
    → IsSound progressive row
    → r.revision ≡ row.head + 1
    → Fits progressive row.parts r
    → Returns
        (λ row'.
          IsSound progressive row'
          × (row' ≡ record row { revisions = row.revisions ++ r ∷ []; head = r.revision }))
        (add_revision r row)
unfolding add_revision
add_revision-IsSound progressive r row h e f =
    rw
      (
        has_revision_next 1 r.revision row.revisions h.revisions_numbered
            (omega (arith, h.head_last)),
        Returns,
      )
      (
        record {
          parts_numbered = h.parts_numbered;
          revisions_numbered =
              RevisionsFrom-append 1 row.revisions r h.revisions_numbered
                (omega (arith, h.head_last));
          head_last = omega (arith, h.head_last, length-append row.revisions (r ∷ []));
          revisions_fit = All-append _ row.revisions r h.revisions_fit f;
        },
        refl,
      )

-- Every result is sound; `kinds` says which results a progressive aggregate writes.
abbrev pub SoundTables : (ℕ → Bool) → Tables → Type 0
SoundTables kinds db = (id : ℕ) → OptionAll (IsSound (kinds id)) (find id db.results)

-- Every committed part and revision of every result is still there, in its place.
abbrev pub ExtendsAll : Tables → Tables → Type 0
ExtendsAll db db' =
    (id : ℕ) → OptionAll (λ row. OptionAny (Extends row) (find id db'.results)) (find id db.results)

pub Extends-refl : (row : ResultRow) → Extends row row
Extends-refl row = record {
  more_parts = ([], sym (append-nil row.parts));
  more_revisions = ([], sym (append-nil row.revisions));
}

pub Extends-trans : (a b c : ResultRow) → Extends a b → Extends b c → Extends a c
Extends-trans a b c h k = record {
  more_parts = (
    h.more_parts.0 ++ k.more_parts.0,
    k.more_parts.1
        ∙ ap (λ t. t ++ k.more_parts.0) h.more_parts.1
        ∙ append_assoc a.parts h.more_parts.0 k.more_parts.0,
  );
  more_revisions = (
    h.more_revisions.0 ++ k.more_revisions.0,
    k.more_revisions.1
        ∙ ap (λ t. t ++ k.more_revisions.0) h.more_revisions.1
        ∙ append_assoc a.revisions h.more_revisions.0 k.more_revisions.0,
  );
}

ExtendsAll-of :
    (db db' : Tables)
    → ((id : ℕ) (row : ResultRow)
        → find id db.results ≡ some row
        → (row' : ResultRow) × (find id db'.results ≡ some row') × Extends row row')
    → ExtendsAll db db'
ExtendsAll-of db db' h id =
    OptionAll-of _ (find id db.results) λ row e.
      let (row', e', x) = h id row e in OptionAny-of (Extends row) (find id db'.results) e' x

extended_row :
    (db db' : Tables) (id : ℕ) (row : ResultRow)
    → ExtendsAll db db'
    → find id db.results ≡ some row
    → (row' : ResultRow) × (find id db'.results ≡ some row') × Extends row row'
extended_row db db' id row h e = OptionAny-value (Extends row) (find id db'.results) (
    OptionAll-value (λ r. OptionAny (Extends r) (find id db'.results)) (find id db.results) (h id)
      e)

pub ExtendsAll-refl : (db : Tables) → ExtendsAll db db
ExtendsAll-refl db = ExtendsAll-of db db λ id row h. (row, h, Extends-refl row)

pub ExtendsAll-trans : (a b c : Tables) → ExtendsAll a b → ExtendsAll b c → ExtendsAll a c
ExtendsAll-trans a b c h k = ExtendsAll-of a c λ id row e.
    let (row1, e1, x1) = extended_row a b id row h e in
    let (row2, e2, x2) = extended_row b c id row1 k e1 in
    (row2, e2, Extends-trans row row1 row2 x1 x2)

results-with_events :
    (job : ℕ) (kinds : List EventKind) (db : Tables)
    → (with_events job kinds db).results ≡ db.results
unfolding with_events
results-with_events job [] db = refl
results-with_events job (k ∷ ks) db = results-with_events job ks (with_event job k db)

-- The result row that a transaction writes replaces the row that it has read.
find-commit_part :
    (spec : JobSpec) (change : ResultRow × List EventKind) (db : Tables) (id : ℕ) (row : ResultRow)
    → find spec.result_ref db.results ≡ some row
    → find id (commit_part spec change db).results
      ≡ (if spec.result_ref == id then some change.0 else find id db.results)
unfolding commit_part
find-commit_part spec change db id row e =
    ap (find id)
      (results-with_events spec.job_id change.1 (set_result spec.result_ref (λ _. change.0) db))
    ∙ find-modify spec.result_ref id (λ _. change.0) db.results
    ∙ ground arith

module _ (kinds : ℕ → Bool) (spec : JobSpec) (db : Tables) (row : ResultRow)
    (change : ResultRow × List EventKind) (read : find spec.result_ref db.results ≡ some row) where
  commit_part-same :
      (id : ℕ)
      → (spec.result_ref == id) ≡ true
      → find id (commit_part spec change db).results ≡ some change.0
  commit_part-same id same =
      find-commit_part spec change db id row read
      ∙ ap (λ b. if b then some change.0 else find id db.results) same

  commit_part-other :
      (id : ℕ)
      → (spec.result_ref == id) ≡ false
      → find id (commit_part spec change db).results ≡ find id db.results
  commit_part-other id other =
      find-commit_part spec change db id row read
      ∙ ap (λ b. if b then some change.0 else find id db.results) other

  pub commit_part-SoundTables :
      IsSound (kinds spec.result_ref) change.0
      → SoundTables kinds db
      → SoundTables kinds (commit_part spec change db)
  commit_part-SoundTables h all id = elim (Bool-cases (spec.result_ref == id)) [
    | inl same ↦
        rw (commit_part-same id same, OptionAll)
          (subst (λ i. IsSound (kinds i) change.0) ((==_iff spec.result_ref id).0 same) h)
    | inr other ↦ rw (commit_part-other id other) (all id)
  ]

  pub commit_part-ExtendsAll : Extends row change.0 → ExtendsAll db (commit_part spec change db)
  commit_part-ExtendsAll x = ExtendsAll-of db (commit_part spec change db) λ id old e.
      elim (Bool-cases (spec.result_ref == id)) [
        | inl same ↦ (
          change.0,
          commit_part-same id same,
          subst (λ r. Extends r change.0)
              (some-injective _ _
                (sym read ∙ ap (λ i. find i db.results) ((==_iff spec.result_ref id).0 same) ∙ e))
              x,
        )
        | inr other ↦ (old, commit_part-other id other ∙ e, Extends-refl old)
      ]

-- A transaction keeps what was committed, and the shape of every result.
abbrev pub Keeps : (ℕ → Bool) → Tables → Tables → Type 0
Keeps kinds db db' = SoundTables kinds db' × ExtendsAll db db'

-- Only the result rows count.
pub Keeps-same :
    (kinds : ℕ → Bool) (db a b : Tables)
    → b.results ≡ a.results
    → Keeps kinds db a
    → Keeps kinds db b
Keeps-same kinds db a b e k = rw e k
