-- ===== src/Jobs/Datasets.antt =====
-- The transactions of `open` and `refresh` of crates/runtime/src/api.rs on the job store's tables: a
-- dataset with its manifest, and a new manifest of a dataset. The ids are new; a clash is refused.
use rowtrail.Base.{Result, [], find, guard, not, ok, ℕ, ◌++◌, ◌>>=◌, ◌>>◌, ◌∷◌}
use rowtrail.Jobs.{
  DbError, ObjectKind, ObjectRow, Tables, constraint, dataset, is_some, manifest, valid,
}

abbrev new_object : ObjectKind → ObjectRow
new_object kind = record { kind = kind; validity = valid }

-- INSERT INTO objects
unfoldable pub insert_object : ℕ → ObjectKind → Tables → Result DbError Tables
insert_object id kind db = do
  guard (not (is_some (find id db.objects))) constraint
  ok (record db { objects = db.objects ++ (id, new_object kind) ∷ [] })

-- INSERT INTO deps
abbrev pub insert_dep : ℕ → ℕ → Tables → Tables
insert_dep child parent db = record db { deps = db.deps ++ (child, parent) ∷ [] }

-- The transaction of `open`, for a request that was not answered before.
unfoldable pub open_dataset : ℕ → ℕ → Tables → Result DbError Tables
unfolding insert_object
open_dataset dataset_ref manifest_ref db = do
  with_dataset ← insert_object dataset_ref dataset db
  with_manifest ← insert_object manifest_ref manifest with_dataset
  ok (insert_dep manifest_ref dataset_ref with_manifest)

-- The transaction of `refresh`: the dataset's document is not a modelled column.
unfoldable pub refresh_dataset : ℕ → ℕ → Tables → Result DbError Tables
unfolding insert_object
refresh_dataset dataset_ref manifest_ref db = do
  with_manifest ← insert_object manifest_ref manifest db
  ok (insert_dep manifest_ref dataset_ref with_manifest)
