-- ===== src/Store.antt =====
-- The verified-part cache of crates/runtime/src/store.rs. A path is a number, and bytes are their
-- content as a number with a length. Subtraction on usize would panic below 0; the invariant of
-- Store/Bounds excludes that.
pub mod Bounds
pub mod Tests
pub mod Manifest
use rowtrail.Base.{
  Bool, List, Option, [], false, if◌then◌else◌, leb, length, ltb, map_option, none, not, some, true,
  ℕ, ◌*◌, ◌++◌, ◌+◌, ◌-◌, ◌==◌, ◌||◌, ◌∷◌,
}

pub record Bytes : Type 0 where
  pub content : ℕ
  pub len : ℕ

-- `VerifiedCache`
pub record Cache : Type 0 where
  pub entries : List (ℕ × Bytes)
  pub bytes : ℕ

abbrev pub cache_bytes : ℕ
cache_bytes = 8 * 1024 * 1024

abbrev pub max_entries : ℕ
max_entries = 128

abbrev pub empty_cache : Cache
empty_cache = record { entries = []; bytes = 0 }

-- `entries.iter().position(…)` and `entries.remove(index)`: the entry, and the others.
take_entry : ℕ → List (ℕ × Bytes) → Option ((ℕ × Bytes) × List (ℕ × Bytes))
take_entry path [] = none
take_entry path (entry ∷ entries) =
    let rest = take_entry path entries in
    if entry.0 == path
    then some (entry, entries)
    else map_option (λ (found, others). (found, entry ∷ others)) rest

-- `VerifiedCache::get`: the entry that is hit moves to the back.
unfoldable pub get : ℕ → Cache → Option Bytes × Cache
unfolding take_entry
get path cache = elim (take_entry path cache.entries) [
  | none ↦ (none, cache)
  | some (entry, others) ↦ (some entry.1, record cache { entries = others ++ entry ∷ [] })
]

is_full : ℕ → List (ℕ × Bytes) → ℕ → Bool
is_full len entries bytes = ltb cache_bytes (bytes + len) || leb max_entries (length entries)

-- The `while` loop: entries leave at the front until the new one fits. It gives up on an empty
-- queue, and says so.
make_room : ℕ → List (ℕ × Bytes) → ℕ → Bool × Cache
unfolding is_full
make_room len [] bytes = (not (is_full len [] bytes), record { entries = []; bytes = bytes })
make_room len (entry ∷ entries) bytes =
    let rest = make_room len entries (bytes - entry.1.len) in
    if is_full len (entry ∷ entries) bytes
    then rest
    else (true, record { entries = entry ∷ entries; bytes = bytes })

-- `push_back`, once there is room.
push : ℕ → Bytes → Bool × Cache → Cache
push path new (true, kept) = record {
  entries = kept.entries ++ (path, new) ∷ [];
  bytes = kept.bytes + new.len;
}
push path new (false, kept) = kept

-- `VerifiedCache::insert`
unfoldable pub insert : ℕ → Bytes → Cache → Cache
unfolding make_room push
insert path new cache = push path new (make_room new.len cache.entries cache.bytes)
