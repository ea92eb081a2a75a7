-- ===== src/Jobs/Retention/Storage.antt =====
-- storage.rs and api.rs: retention, the quota, garbage collection and datasets touch no job and no
-- event.
use rowtrail.Base.{
  Bool, Ensures, Ensures-any, Ensures-bind, Ensures-guarded, List, [], ap, false, find, leb, length,
  not, ok_or, refl, true, ℕ, ◌+◌, ◌==◌, ◌||◌, ◌∙◌, ◌∷◌, ◌≡◌,
}
use rowtrail.Jobs.{
  ObjectKind, Tables, constraint, dataset, expired, invalid_reference, is_some, manifest,
  object_expired, resource_exhausted, set_result,
}
use rowtrail.Jobs.Datasets.{insert_object, open_dataset, refresh_dataset}
use rowtrail.Jobs.Events.{SameJobs, SameJobs-trans, ended_count}
use rowtrail.Jobs.Retention.{
  ascend, configure, descend, drop_parts, expire_all, expire_objects, expire_one, first_result, gc,
  not_expired, retain, selected,
}
use rowtrail.Jobs.Submit.{saturating_add, usage}

-- Neither a job nor an event has changed.
record Untouched (before after : Tables) : Type 0 where
  jobs_same : after.jobs ≡ before.jobs
  events_same : after.events ≡ before.events

Untouched-SameJobs : (a b : Tables) → Untouched a b → SameJobs a b
Untouched-SameJobs a b h = record {
  jobs_same = h.jobs_same;
  ended_same = λ id. ap (ended_count id) h.events_same;
}

Untouched-refl : (db : Tables) → Untouched db db
Untouched-refl db = record { jobs_same = refl; events_same = refl }

Untouched-trans : (a b c : Tables) → Untouched a b → Untouched b c → Untouched a c
Untouched-trans a b c h k = record {
  jobs_same = k.jobs_same ∙ h.jobs_same;
  events_same = k.events_same ∙ h.events_same;
}

expire_objects-Untouched : (ids : List ℕ) (db : Tables) → Untouched db (expire_objects ids db)
unfolding expire_objects
expire_objects-Untouched [] db = Untouched-refl db
expire_objects-Untouched (id ∷ ids) db =
    let h = expire_objects-Untouched ids _ in
    record { jobs_same = h.jobs_same; events_same = h.events_same }

expire_all-Untouched : (rows : List (ℕ × ℕ)) (db : Tables) → Untouched db (expire_all rows db)
unfolding expire_all expire_one
expire_all-Untouched [] db = Untouched-refl db
expire_all-Untouched ((id, bytes) ∷ rows) db =
    let h =
      expire_objects-Untouched (descend (length db.deps + 2) db.deps 0 (id ∷ []))
        (set_result id (λ row. record row { validity = expired }) db) in
    Untouched-trans db (expire_one id db) (expire_all rows (expire_one id db))
      (record { jobs_same = h.jobs_same; events_same = h.events_same })
      (expire_all-Untouched rows (expire_one id db))

drop_parts-Untouched : (rows : List (ℕ × ℕ)) (db : Tables) → Untouched db (drop_parts rows db)
unfolding drop_parts
drop_parts-Untouched [] db = Untouched-refl db
drop_parts-Untouched ((id, bytes) ∷ rows) db =
    let h = drop_parts-Untouched rows _ in
    record { jobs_same = h.jobs_same; events_same = h.events_same }

gc-Untouched : (dry_run : Bool) (db : Tables) → Untouched db (gc dry_run db).1
unfolding gc
gc-Untouched true db = Untouched-refl db
gc-Untouched false db =
    Untouched-trans db (expire_all (selected db) db)
      (drop_parts (selected db) (expire_all (selected db) db))
      (expire_all-Untouched (selected db) db)
      (drop_parts-Untouched (selected db) (expire_all (selected db) db))

pub gc-SameJobs : (dry_run : Bool) (db : Tables) → SameJobs db (gc dry_run db).1
gc-SameJobs dry_run db = Untouched-SameJobs db (gc dry_run db).1 (gc-Untouched dry_run db)

pub configure-SameJobs : (quota : ℕ) (db : Tables) → Ensures (SameJobs db) (configure quota db)
unfolding configure
configure-SameJobs quota db =
    Ensures-guarded (SameJobs db)
      (quota == 0 || leb (saturating_add (usage db).0 (usage db).1) quota) resource_exhausted _
      (record { jobs_same = refl; ended_same = λ id. refl })

pub retain-SameJobs :
    (reference : ℕ) (pin : Bool) (db : Tables) → Ensures (SameJobs db) (retain reference pin db)
unfolding retain
retain-SameJobs reference pin db =
    Ensures-bind (λ found. Unit) (SameJobs db)
      (ok_or (first_result (ascend (length db.deps + 2) db.deps 0 (reference ∷ [])) db.results)
        invalid_reference)
      _ (Ensures-any _)
      λ (object, row) u.
        Ensures-guarded (SameJobs db) (not_expired row.validity) object_expired _
          (record { jobs_same = refl; ended_same = λ id. refl })

insert_object-SameJobs :
    (id : ℕ) (kind : ObjectKind) (db : Tables) → Ensures (SameJobs db) (insert_object id kind db)
unfolding insert_object
insert_object-SameJobs id kind db =
    Ensures-guarded (SameJobs db) (not (is_some (find id db.objects))) constraint _
      (record { jobs_same = refl; ended_same = λ id. refl })

pub refresh_dataset-SameJobs :
    (dataset_ref manifest_ref : ℕ) (db : Tables)
    → Ensures (SameJobs db) (refresh_dataset dataset_ref manifest_ref db)
unfolding refresh_dataset
refresh_dataset-SameJobs dataset_ref manifest_ref db =
    Ensures-bind (SameJobs db) (SameJobs db) (insert_object manifest_ref manifest db) _
      (insert_object-SameJobs manifest_ref manifest db)
      λ db' h. record { jobs_same = h.jobs_same; ended_same = h.ended_same }

pub open_dataset-SameJobs :
    (dataset_ref manifest_ref : ℕ) (db : Tables)
    → Ensures (SameJobs db) (open_dataset dataset_ref manifest_ref db)
unfolding open_dataset
open_dataset-SameJobs dataset_ref manifest_ref db =
    Ensures-bind (SameJobs db) (SameJobs db) (insert_object dataset_ref dataset db) _
      (insert_object-SameJobs dataset_ref dataset db)
      λ a h.
        Ensures-bind (SameJobs a) (SameJobs db) (insert_object manifest_ref manifest a) _
          (insert_object-SameJobs manifest_ref manifest a)
          λ b k.
            let j = SameJobs-trans db a b h k in
            record { jobs_same = j.jobs_same; ended_same = j.ended_same }
