-- ===== src/Store/Manifest.antt =====
-- store.rs: `CountStore::new`, the files that a job may read, and the reservation of bytes before a
-- read. A path is what the object store's library makes of a file's path, or its error.
use rowtrail.Base.{
  Bool, List, Option, Result, Table, [], err, false, find, guard, if◌then◌else◌, leb, ltb, modify,
  none, not, ok, ok_or, some, sum, true, ℕ, ◌&&◌, ◌*◌, ◌++◌, ◌+◌, ◌-◌, ◌==◌, ◌>>=◌, ◌>>◌, ◌^◌, ◌||◌,
  ◌∷◌,
}

pub record SourceFile : Type 0 where
  pub path : ℕ
  pub size : ℕ
  pub checksum : Option ℕ
  pub inline : Bool

pub data StoreError : Type 0 where
  bad_path conflicting_digests unregistered invalid_range range_overflow exhausted : StoreError

-- Whether a file is external, with the file.
abbrev pub Allowed : Type 0
Allowed = Table (SourceFile × Bool)

agree : Option ℕ → Option ℕ → Bool
agree (some a) (some b) = a == b
agree _ _ = true

abbrev or_else : Option ℕ → Option ℕ → Option ℕ
or_else none b = b
or_else (some a) b = some a

-- `previous.checksum` and `*external &= source`
merge_alias : SourceFile → Bool → SourceFile × Bool → SourceFile × Bool
merge_alias f source (previous, external) =
    (record previous { checksum = or_else previous.checksum f.checksum }, external && source)

add_file : ℕ → SourceFile → Bool → Allowed → Result StoreError Allowed
unfolding agree merge_alias
add_file path f source allowed = elim (find path allowed) [
  | none ↦ ok (allowed ++ (path, (f, source)) ∷ [])
  | some (previous, external) ↦ do
    guard (agree previous.checksum f.checksum) conflicting_digests
    ok (modify path (merge_alias f source) allowed)
]

module _ (from_absolute from_filesystem : ℕ → Option ℕ) where
  key_of : SourceFile → Option ℕ
  key_of f = if f.inline then from_absolute f.path else from_filesystem f.path

  -- The loop of `CountStore::new`.
  allow : List (SourceFile × Bool) → Allowed → Result StoreError Allowed
  unfolding key_of add_file
  allow [] allowed = ok allowed
  allow ((f, source) ∷ files) allowed = do
    path ← ok_or (key_of f) bad_path
    allowed' ← add_file path f source allowed
    allow files allowed'

  unfoldable pub new_store : List (SourceFile × Bool) → Result StoreError Allowed
  unfolding allow
  new_store files = allow files []

-- `fetch_update(|n| n.checked_add(total).filter(|n| *n <= limit))`
unfoldable pub reserve : ℕ → ℕ → ℕ → Result StoreError ℕ
reserve limit total n =
    if ltb (n + total) (2 ^ 64) && leb (n + total) limit then ok (n + total) else err exhausted

-- `ranges.iter().try_fold(0u64, …)`: the bytes of the ranges of a file of this size.
unfoldable pub range_total : ℕ → List (ℕ × ℕ) → ℕ → Result StoreError ℕ
range_total size [] sum = ok sum
range_total size ((start, end) ∷ ranges) sum = do
  guard (not (ltb end start || ltb size end)) invalid_range
  guard (ltb (sum + (end - start)) (2 ^ 64)) range_overflow
  range_total size ranges (sum + (end - start))

is_managed : Option ℕ → Bool
is_managed none = false
is_managed (some digest) = true

pub data Plan : Type 0 where
  coalesced batched : Plan

abbrev pub batch_limit : ℕ
batch_limit = 8 * 1024 * 1024

-- The head of `get_ranges`: how the ranges will be read, and the bytes reserved so far. `validate`
-- compares a file with its recorded identity. A coalesced read reserves its bytes part by part.
unfoldable pub plan_ranges :
    (SourceFile → Result StoreError (Unit {0}))
    → ℕ
    → ℕ
    → List (ℕ × ℕ)
    → Allowed
    → ℕ
    → Result StoreError (Plan × ℕ)
unfolding range_total reserve is_managed
plan_ranges validate limit path ranges allowed n = do
  entry ← ok_or (find path allowed) unregistered
  total ← range_total entry.0.size ranges 0
  if is_managed entry.0.checksum || ltb batch_limit total
      then ok (coalesced, n)
      else do validate entry.0; reserved ← reserve limit total n; ok (batched, reserved)
