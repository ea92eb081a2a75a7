-- ===== src/Jobs/Retention/Invalid.antt =====
-- db.rs: `invalidate` touches no job, and no committed part or revision.
use rowtrail.Base.{
  List, Option, Table, [], arith, find, length, modify, none, refl, some, ℕ, ◌+◌, ◌∷◌,
}
use rowtrail.Jobs.{ResultRow, Tables, result_invalidated}
use rowtrail.Jobs.Events.{SameJobs, SameJobs-refl, SameJobs-trans, ended_count-with_event}
use rowtrail.Jobs.Retention.{
  changed, descend, invalidate, invalidate_each, invalidate_one, tell_invalid,
}

tell_invalid-SameJobs :
    (id : ℕ) (row : Option ResultRow) (db : Tables) → SameJobs db (tell_invalid id row db)
unfolding tell_invalid
tell_invalid-SameJobs id none db = SameJobs-refl db
tell_invalid-SameJobs id (some row) db = record {
  jobs_same = refl;
  ended_same =
      λ other. omega (arith, ended_count-with_event other row.job_id (result_invalidated id) db);
}

invalidate_one-SameJobs : (id : ℕ) (db : Tables) → SameJobs db (invalidate_one id db)
unfolding invalidate_one
invalidate_one-SameJobs id db =
    let h = tell_invalid-SameJobs id (find id db.results) _ in
    record { jobs_same = h.jobs_same; ended_same = h.ended_same }

invalidate_each-SameJobs : (ids : List ℕ) (db : Tables) → SameJobs db (invalidate_each ids db)
unfolding invalidate_each
invalidate_each-SameJobs [] db = SameJobs-refl db
invalidate_each-SameJobs (id ∷ ids) db =
    SameJobs-trans db (invalidate_one id db) (invalidate_each ids (invalidate_one id db))
      (invalidate_one-SameJobs id db) (invalidate_each-SameJobs ids (invalidate_one id db))

pub invalidate-SameJobs : (id : ℕ) (db : Tables) → SameJobs db (invalidate id db)
unfolding invalidate
invalidate-SameJobs id db =
    invalidate_each-SameJobs (descend (length db.deps + 2) db.deps 0 (id ∷ [])) db

abbrev pub invalidated_row : ResultRow → ResultRow
invalidated_row row = record row { validity = changed row.validity }

-- What the change of a validity keeps of the results, an invalidation keeps.
module _ (P : Table ResultRow → Type 0)
    (kept : (id : ℕ) (results : Table ResultRow)
      → P results
      → P (modify id invalidated_row results)) where
  tell_invalid-results :
      (id : ℕ) (row : Option ResultRow) (db : Tables)
      → P db.results
      → P (tell_invalid id row db).results
  unfolding tell_invalid
  tell_invalid-results id none db h = h
  tell_invalid-results id (some row) db h = h

  invalidate_each-results :
      (ids : List ℕ) (db : Tables) → P db.results → P (invalidate_each ids db).results
  unfolding invalidate_each invalidate_one
  invalidate_each-results [] db h = h
  invalidate_each-results (id ∷ ids) db h =
      invalidate_each-results ids (invalidate_one id db)
        (tell_invalid-results id (find id db.results) _ (kept id db.results h))

  pub invalidate-results : (id : ℕ) (db : Tables) → P db.results → P (invalidate id db).results
  unfolding invalidate
  invalidate-results id db h =
      invalidate_each-results (descend (length db.deps + 2) db.deps 0 (id ∷ [])) db h
