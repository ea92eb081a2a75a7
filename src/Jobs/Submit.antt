-- ===== src/Jobs/Submit.antt =====
-- storage.rs: `usage` and `admit`; api.rs: the transaction of `submit`; db.rs: `event`.
use rowtrail.Base.{
  Bool, List, Option, Result, Table, [], err, false, find, guard, if◌then◌else◌, leb, map_option,
  none, not, ok, ok_or, some, true, ℕ, ◌&&◌, ◌++◌, ◌+◌, ◌-◌, ◌==◌, ◌>>=◌, ◌>>◌, ◌^◌, ◌||◌, ◌∷◌,
}
use rowtrail.Jobs.{
  DbError, Job, JobSpec, JobState, ObjectRow, PartRow, Query, ResultRow, Tables, Validity,
  constraint, expired, is_queued, is_some, job_accepted, not_found, object_expired, other_object,
  resource_exhausted, running, source_changed, source_changed_input, stopping, valid, waiting,
  with_event,
}

abbrev pub max_u64 : ℕ
max_u64 = 2 ^ 64 - 1

-- `u64::saturating_add`
unfoldable pub saturating_add : ℕ → ℕ → ℕ
saturating_add a b = if leb (a + b) max_u64 then a + b else max_u64

-- COALESCE(SUM(bytes),0)
unfoldable pub sum_bytes : List PartRow → ℕ
sum_bytes [] = 0
sum_bytes (p ∷ parts) = p.bytes + sum_bytes parts

unfoldable pub stored_bytes : Table ResultRow → ℕ
unfolding sum_bytes
stored_bytes [] = 0
stored_bytes ((i, row) ∷ results) = sum_bytes row.parts + stored_bytes results

-- `state IN ('queued','running','stopping')`
unfoldable pub is_active : JobState → Bool
is_active is_queued = true
is_active running = true
is_active stopping = true
is_active _ = false

reserve : ℕ → Option Query → ℕ
unfolding saturating_add
reserve n none = n
reserve n (some q) = saturating_add (saturating_add n q.result_bytes) q.spill_bytes

-- The loop over the specs of the active jobs.
unfoldable pub reserved_from : ℕ → Table Job → ℕ
unfolding is_active reserve
reserved_from n [] = n
reserved_from n ((i, job) ∷ jobs) =
    reserved_from (if is_active job.state then reserve n job.spec.query else n) jobs

-- `usage`: the stored and the reserved bytes, and the quota.
unfoldable pub usage : Tables → ℕ × ℕ × ℕ
unfolding stored_bytes reserved_from
usage db = (
  stored_bytes db.results,
  reserved_from 0 db.jobs,
  elim db.quota [ none ↦ 0 | some quota ↦ quota ],
)

-- `admit`
unfoldable pub admit_query : Option Query → Tables → Result DbError (Unit {0})
unfolding usage saturating_add
admit_query none db = ok tt
admit_query (some q) db =
    let (stored, reserved, quota) = usage db in
    if quota == 0
    then ok tt
    else guard
        (leb
          (saturating_add (saturating_add (saturating_add stored reserved) q.result_bytes)
            q.spill_bytes)
          quota)
        resource_exhausted

validity_of : ℕ → Tables → Option Validity
validity_of id db = elim (find id db.objects) [
  | some object ↦ some object.validity
  | none ↦ map_option (λ row. row.validity) (find id db.results)
]

check_validity : Validity → Result DbError (Unit {0})
check_validity valid = ok tt
check_validity expired = err object_expired
check_validity source_changed = err source_changed_input

-- The loop over the inputs.
pub check_inputs : List ℕ → Tables → Result DbError (Unit {0})
unfolding validity_of check_validity
check_inputs [] db = ok tt
check_inputs (source ∷ sources) db = do
  validity ← ok_or (validity_of source db) not_found
  check_validity validity
  check_inputs sources db

has_dep : ℕ → ℕ → List (ℕ × ℕ) → Bool
has_dep c p [] = false
has_dep c p ((d, q) ∷ deps) = (d == c && q == p) || has_dep c p deps

-- INSERT OR IGNORE INTO deps
add_deps : ℕ → List ℕ → List (ℕ × ℕ) → List (ℕ × ℕ)
unfolding has_dep
add_deps result [] deps = deps
add_deps result (source ∷ sources) deps =
    add_deps result sources
      (if has_dep result source deps then deps else deps ++ (result, source) ∷ [])

unfoldable pub new_job : JobSpec → ℕ → Job
new_job spec now = record {
  state = is_queued;
  phase = waiting;
  spec = spec;
  error = none;
  created = now;
  started = none;
  finished = none;
  stop_requested = none;
  worker = none;
}

unfoldable pub new_result : ℕ → ResultRow
new_result job = record {
  job_id = job;
  schema = none;
  head = 0;
  validity = valid;
  parts = [];
  revisions = [];
  checkpoints = [];
  progress = none;
}

-- The primary keys of the new rows are free.
unfoldable pub free_keys : JobSpec → ℕ → ℕ → Tables → Bool
free_keys spec view scope db =
    not (is_some (find spec.job_id db.jobs))
    && not (is_some (find spec.result_ref db.results))
    && not (is_some (find view db.objects))
    && not (is_some (find scope db.objects))
    && not (view == scope)

unfoldable pub insert_rows : JobSpec → ℕ → ℕ → List ℕ → ℕ → Tables → Tables
unfolding new_job new_result add_deps
insert_rows spec view scope sources now db =
    let object : ObjectRow = record { kind = other_object; validity = valid } in
    record db {
      jobs = db.jobs ++ (spec.job_id, new_job spec now) ∷ [];
      results = db.results ++ (spec.result_ref, new_result spec.job_id) ∷ [];
      objects = db.objects ++ (view, object) ∷ (scope, object) ∷ [];
      deps = add_deps spec.result_ref sources db.deps;
    }

-- The transaction of `submit` on a request that is new, with the identifiers that it has drawn.
unfoldable pub submit : JobSpec → ℕ → ℕ → List ℕ → ℕ → Tables → Result DbError Tables
unfolding admit_query check_inputs insert_rows free_keys
submit spec view scope sources now db = do
  admit_query spec.query db
  check_inputs sources db
  guard (free_keys spec view scope db) constraint
  ok (
      with_event spec.job_id (job_accepted spec.result_ref)
        (insert_rows spec view scope sources now db))
