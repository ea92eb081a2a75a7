-- ===== src/Jobs/Retention.antt =====
-- storage.rs: `retain`, the quota and the garbage collection of `workspace`; db.rs: `invalidate`.
-- A loop over the dependencies runs on fuel: every row of `deps` is followed at most once.
pub mod Roots
pub mod Invalid
pub mod Needed
pub mod Storage
use rowtrail.Base.{
  Bool, List, Option, Result, Table, [], false, find, get_elem?, guard, if◌then◌else◌, leb, length,
  map, modify, none, not, ok, ok_or, some, suc, take, true, zero, ℕ, ◌&&◌, ◌++◌, ◌+◌, ◌==◌, ◌>>=◌,
  ◌>>◌, ◌||◌, ◌∷◌,
}
use rowtrail.Jobs.{
  DbError, Job, Owner, ResultRow, Tables, Validity, expired, invalid_reference, is_some,
  object_expired, resource_exhausted, result_invalidated, set_result, source_changed, system, user,
  with_event,
}
use rowtrail.Jobs.Submit.{is_active, saturating_add, sum_bytes, usage}

unfoldable pub contains : ℕ → List ℕ → Bool
contains id [] = false
contains id (i ∷ ids) = i == id || contains id ids

-- SELECT child FROM deps WHERE parent=?, and SELECT parent FROM deps WHERE child=?
children_of : ℕ → List (ℕ × ℕ) → List ℕ
children_of id [] = []
children_of id ((c, p) ∷ deps) =
    let rest = children_of id deps in if p == id then c ∷ rest else rest

unfoldable pub parents_of : ℕ → List (ℕ × ℕ) → List ℕ
parents_of id [] = []
parents_of id ((c, p) ∷ deps) = let rest = parents_of id deps in if c == id then p ∷ rest else rest

-- `for id in more { if !ids.contains(&id) { ids.push(id) } }`: the ids that are new.
add_new : List ℕ → List ℕ → List ℕ
unfolding contains
add_new [] ids = ids
add_new (id ∷ more) ids = add_new more (if contains id ids then ids else ids ++ id ∷ [])

-- The loop of `invalidate` at `pos`.
descend : ℕ → List (ℕ × ℕ) → ℕ → List ℕ → List ℕ
unfolding children_of add_new
descend zero deps at_index ids = ids
descend (suc fuel) deps at_index ids = elim (get_elem? ids at_index) [
  | none ↦ ids
  | some id ↦ descend fuel deps (at_index + 1) (add_new (children_of id deps) ids)
]

unfoldable pub changed : Validity → Validity
changed expired = expired
changed _ = source_changed

tell_invalid : ℕ → Option ResultRow → Tables → Tables
tell_invalid id none db = db
tell_invalid id (some row) db = with_event row.job_id (result_invalidated id) db

-- The body of the second loop.
invalidate_one : ℕ → Tables → Tables
unfolding changed tell_invalid
invalidate_one id db =
    let db' = record db {
      objects =
          modify id (λ object. record object { validity = changed object.validity }) db.objects;
      results = modify id (λ row. record row { validity = changed row.validity }) db.results;
    } in
    tell_invalid id (find id db.results) db'

invalidate_each : List ℕ → Tables → Tables
unfolding invalidate_one
invalidate_each [] db = db
invalidate_each (id ∷ ids) db = invalidate_each ids (invalidate_one id db)

-- `invalidate`
unfoldable pub invalidate : ℕ → Tables → Tables
unfolding descend invalidate_each
invalidate parent db = invalidate_each (descend (length db.deps + 2) db.deps 0 (parent ∷ [])) db

-- The closure of `gc`: `pending` is a stack, whose top stands first here.
unfoldable pub protect : ℕ → List (ℕ × ℕ) → List ℕ → List ℕ → List ℕ
unfolding contains parents_of
protect zero deps pending protected = protected
protect (suc fuel) deps [] protected = protected
protect (suc fuel) deps (id ∷ pending) protected = elim (contains id protected) [
  | true ↦ protect fuel deps pending protected
  | false ↦ protect fuel deps (parents_of id deps ++ pending) (id ∷ protected)
]

unfoldable pub released_of : ℕ → Tables → Option ℕ
released_of id db = find id db.retention

unfoldable pub not_expired : Validity → Bool
not_expired expired = false
not_expired _ = true

-- COALESCE(t.released,0)
unfoldable pub released_or_zero : Option ℕ → ℕ
released_or_zero none = 0
released_or_zero (some n) = n

-- The three selects that are united into the roots.
unfoldable pub kept_results : Tables → Table ResultRow → List ℕ
unfolding not_expired released_of released_or_zero
kept_results db [] = []
kept_results db ((id, row) ∷ results) =
    let rest = kept_results db results in
    let released = released_or_zero (released_of id db) in
    if not_expired row.validity && released == 0 then id ∷ rest else rest

unfoldable pub active_results : Table Job → List ℕ
unfolding is_active
active_results [] = []
active_results ((id, job) ∷ jobs) =
    let rest = active_results jobs in
    if is_active job.state then job.spec.result_ref ∷ rest else rest

unfoldable pub roots : Tables → List ℕ
unfolding kept_results active_results
roots db = kept_results db db.results ++ map (λ pin. pin.0) db.pins ++ active_results db.jobs

-- The results whose job is not active, and which are released or expired and not yet collected.
is_idle : ℕ → Tables → Bool
unfolding is_active
is_idle job db = elim (find job db.jobs) [ none ↦ false | some j ↦ not (is_active j.state) ]

is_eligible : Validity → Option ℕ → Bool
unfolding not_expired
is_eligible validity none = not (not_expired validity)
is_eligible validity (some released) =
    released == 1 || (not (not_expired validity) && not (released == 2))

unfoldable pub eligible : Tables → Table ResultRow → List (ℕ × ℕ)
unfolding is_idle is_eligible released_of sum_bytes
eligible db [] = []
eligible db ((id, row) ∷ results) =
    let rest = eligible db results in
    if is_idle row.job_id db && is_eligible row.validity (released_of id db)
    then (id, sum_bytes row.parts) ∷ rest
    else rest

unfoldable pub unprotected : List ℕ → List (ℕ × ℕ) → List (ℕ × ℕ)
unfolding contains
unprotected protected [] = []
unprotected protected ((id, bytes) ∷ rows) =
    let rest = unprotected protected rows in
    if contains id protected then rest else (id, bytes) ∷ rest

-- `selected`: at most 1000 rows. The rows of `results` are taken to stand in the order of their ids.
unfoldable pub selected : Tables → List (ℕ × ℕ)
unfolding roots protect eligible unprotected
selected db =
    let start = roots db in
    let protected = protect (length start + length db.deps + 1) db.deps start [] in
    take 1000 (unprotected protected (eligible db db.results))

expire_objects : List ℕ → Tables → Tables
expire_objects [] db = db
expire_objects (id ∷ ids) db =
    expire_objects ids (record db {
      objects = modify id (λ object. record object { validity = expired }) db.objects;
    })

-- UPDATE results and, by the recursive query, objects.
expire_one : ℕ → Tables → Tables
unfolding descend expire_objects
expire_one id db =
    expire_objects (descend (length db.deps + 2) db.deps 0 (id ∷ []))
      (set_result id (λ row. record row { validity = expired }) db)

expire_all : List (ℕ × ℕ) → Tables → Tables
unfolding expire_one
expire_all [] db = db
expire_all ((id, bytes) ∷ rows) db = expire_all rows (expire_one id db)

-- INSERT … ON CONFLICT DO UPDATE
put_retention : ℕ → ℕ → Table ℕ → Table ℕ
put_retention id n t = if is_some (find id t) then modify id (λ old. n) t else t ++ (id, n) ∷ []

-- After the tombstones are durable, the directories and the rows of the parts go.
drop_parts : List (ℕ × ℕ) → Tables → Tables
unfolding put_retention
drop_parts [] db = db
drop_parts ((id, bytes) ∷ rows) db =
    drop_parts rows (record (set_result id (λ row. record row { parts = [] }) db) {
      retention = put_retention id 2 db.retention;
    })

reclaimed : List (ℕ × ℕ) → ℕ
reclaimed [] = 0
reclaimed ((id, bytes) ∷ rows) = bytes + reclaimed rows

-- `workspace` with the action gc: the reclaimed bytes and the new tables.
unfoldable pub gc : Bool → Tables → ℕ × Tables
unfolding expire_all drop_parts reclaimed
gc dry_run db =
    let rows = selected db in
    (reclaimed rows, if dry_run then db else drop_parts rows (expire_all rows db))

-- `workspace` with the action configure.
unfoldable pub configure : ℕ → Tables → Result DbError Tables
unfolding usage saturating_add
configure quota db = do
  let (stored, reserved, old) = usage db
  guard (quota == 0 || leb (saturating_add stored reserved) quota) resource_exhausted
  ok (record db { quota = some quota })

-- The closure of a reference over its parents, as the recursive query of `retain` makes it.
ascend : ℕ → List (ℕ × ℕ) → ℕ → List ℕ → List ℕ
unfolding parents_of add_new
ascend zero deps at_index ids = ids
ascend (suc fuel) deps at_index ids = elim (get_elem? ids at_index) [
  | none ↦ ids
  | some id ↦ ascend fuel deps (at_index + 1) (add_new (parents_of id deps) ids)
]

-- `SELECT r.id,r.validity … JOIN parents … LIMIT 1`, in the order of the recursive query.
first_result : List ℕ → Table ResultRow → Option (ℕ × ResultRow)
first_result [] results = none
first_result (id ∷ ids) results =
    let rest = first_result ids results in
    elim (find id results) [ none ↦ rest | some row ↦ some (id, row) ]

is_pin : ℕ → ℕ × Owner → Bool
is_pin object (id, user) = id == object
is_pin object (id, system) = false

has_pin : ℕ → List (ℕ × Owner) → Bool
unfolding is_pin
has_pin object [] = false
has_pin object (pin ∷ pins) = is_pin object pin || has_pin object pins

drop_pin : ℕ → List (ℕ × Owner) → List (ℕ × Owner)
unfolding is_pin
drop_pin object [] = []
drop_pin object (pin ∷ pins) =
    let rest = drop_pin object pins in if is_pin object pin then rest else pin ∷ rest

-- INSERT OR IGNORE INTO pins, and DELETE FROM pins.
change_pin : Bool → ℕ → List (ℕ × Owner) → List (ℕ × Owner)
unfolding has_pin drop_pin
change_pin pin object pins =
    if pin
    then (if has_pin object pins then pins else pins ++ (object, user) ∷ [])
    else drop_pin object pins

-- `retain`
unfoldable pub retain : ℕ → Bool → Tables → Result DbError Tables
unfolding ascend first_result change_pin put_retention not_expired
retain reference pin db = do
  let ids : List ℕ = ascend (length db.deps + 2) db.deps 0 (reference ∷ [])
  (object, row) ← ok_or (first_result ids db.results) invalid_reference
  guard (not_expired row.validity) object_expired
  ok (record db {
    retention = put_retention object (if pin then 0 else 1) db.retention;
    pins = change_pin pin object db.pins;
  })
