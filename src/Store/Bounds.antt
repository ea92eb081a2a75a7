-- ===== src/Store/Bounds.antt =====
-- store.rs: the cache keeps its budget, and returns what was put in.
use rowtrail.Base.{
  Bool, Bool-cases, List, Option-cases, OptionAll, OptionAll-value, [], arith, false, inl, inr,
  length, length-append, none, refl, some, true, ℕ, ◌++◌, ◌+◌, ◌-◌, ◌∷◌, ◌≡◌, ◌≤◌,
}
use rowtrail.Store.{
  Bytes, Cache, cache_bytes, get, insert, is_full, make_room, max_entries, push, take_entry,
}

unfoldable pub total_len : List (ℕ × Bytes) → ℕ
total_len [] = 0
total_len (entry ∷ entries) = entry.1.len + total_len entries

-- The byte counter is the size of the entries, and both limits hold.
pub record IsBounded (cache : Cache) : Type 0 where
  pub counted : cache.bytes ≡ total_len cache.entries
  pub bytes_bounded : cache.bytes ≤ cache_bytes
  pub entries_bounded : length cache.entries ≤ max_entries

total_len-append : (xs ys : List (ℕ × Bytes)) → total_len (xs ++ ys) ≡ total_len xs + total_len ys
unfolding total_len
total_len-append [] ys = omega arith
total_len-append (x ∷ xs) ys = omega (arith, total_len-append xs ys)

-- What the loop leaves: a bounded cache, with room for the new entry where it says so.
abbrev HasRoom : ℕ → Bool × Cache → Type 0
HasRoom len (true, cache) =
    IsBounded cache × (cache.bytes + len ≤ cache_bytes) × (length cache.entries + 1 ≤ max_entries)
HasRoom len (false, cache) = IsBounded cache

cache_of : List (ℕ × Bytes) → ℕ → Cache
cache_of entries bytes = record { entries = entries; bytes = bytes }

not_full :
    (len : ℕ) (entries : List (ℕ × Bytes)) (bytes : ℕ)
    → is_full len entries bytes ≡ false
    → (bytes + len ≤ cache_bytes) × (length entries + 1 ≤ max_entries)
unfolding is_full
not_full len entries bytes h = ground arith

without_first :
    (entry : ℕ × Bytes) (entries : List (ℕ × Bytes)) (bytes : ℕ)
    → IsBounded (cache_of (entry ∷ entries) bytes)
    → IsBounded (cache_of entries (bytes - entry.1.len))
unfolding cache_of total_len
without_first entry entries bytes h = record {
  counted = omega (arith, h.counted);
  bytes_bounded = omega (arith, h.bytes_bounded);
  entries_bounded = omega (arith, h.entries_bounded);
}

make_room-HasRoom :
    (len : ℕ) (entries : List (ℕ × Bytes)) (bytes : ℕ)
    → IsBounded (cache_of entries bytes)
    → HasRoom len (make_room len entries bytes)
unfolding make_room
make_room-HasRoom len [] bytes h = elim (Bool-cases (is_full len [] bytes)) [
  | inl e ↦ rw (e, HasRoom) (unfold cache_of in h)
  | inr e ↦
      rw (e, HasRoom)
        (unfold cache_of in (h, (not_full len [] bytes e).0, (not_full len [] bytes e).1))
]
make_room-HasRoom len (entry ∷ entries) bytes h =
    elim (Bool-cases (is_full len (entry ∷ entries) bytes)) [
      | inl e ↦ rw e (
          make_room-HasRoom len entries (bytes - entry.1.len) (without_first entry entries bytes h))
      | inr e ↦
          rw (e, HasRoom)
            (unfold cache_of in
              (
                h,
                (not_full len (entry ∷ entries) bytes e).0,
                (not_full len (entry ∷ entries) bytes e).1,
              ))
    ]

push-IsBounded :
    (path : ℕ) (new : Bytes) (p : Bool × Cache) → HasRoom new.len p → IsBounded (push path new p)
unfolding push
push-IsBounded path new (true, kept) (h, b, c) = record {
  counted =
      unfold total_len in
      omega (arith, h.counted, total_len-append kept.entries ((path, new) ∷ []));
  bytes_bounded = b;
  entries_bounded = omega (arith, c, length-append kept.entries ((path, new) ∷ []));
}
push-IsBounded path new (false, kept) h = h

-- Inserting into a cache within its limits leaves it within its limits: at most 8 MiB and 128
-- entries, with a byte counter that is the size of the entries.
pub insert-IsBounded :
    (path : ℕ) (new : Bytes) (cache : Cache) → IsBounded cache → IsBounded (insert path new cache)
unfolding insert
insert-IsBounded path new cache h =
    push-IsBounded path new (make_room new.len cache.entries cache.bytes)
      (make_room-HasRoom new.len cache.entries cache.bytes (unfold cache_of in h))

-- Taking out an entry and putting it back at the end.
take_entry-total_len :
    (path : ℕ) (entries : List (ℕ × Bytes))
    → OptionAll
        (λ p.
          (total_len entries ≡ total_len p.1 + p.0.1.len)
          × (length entries ≡ length p.1 + 1)
          × (p.0.0 ≡ path))
        (take_entry path entries)
unfolding take_entry total_len
take_entry-total_len path [] = tt
take_entry-total_len path (entry ∷ entries) = ground (arith, take_entry-total_len path entries)

-- A lookup leaves the cache within its limits.
pub get-IsBounded : (path : ℕ) (cache : Cache) → IsBounded cache → IsBounded (get path cache).1
unfolding get
get-IsBounded path cache h = elim (Option-cases (take_entry path cache.entries)) [
  | inl e ↦ rw (e, get) h
  | inr (p, e) ↦
      let (a, b, c) =
        OptionAll-value _ (take_entry path cache.entries) (take_entry-total_len path cache.entries)
          e in
      rw (e, get)
        (record {
          counted =
              unfold total_len in omega (arith, h.counted, a, total_len-append p.1 (p.0 ∷ []));
          bytes_bounded = h.bytes_bounded;
          entries_bounded = omega (arith, h.entries_bounded, b, length-append p.1 (p.0 ∷ []));
        })
]

-- What is inserted can be looked up.
take_entry_last :
    (path : ℕ) (new : Bytes) (entries : List (ℕ × Bytes))
    → take_entry path entries ≡ none
    → take_entry path (entries ++ (path, new) ∷ []) ≡ some ((path, new), entries)
unfolding take_entry
take_entry_last path new [] h = ground arith
take_entry_last path new (entry ∷ entries) h = ground (arith, take_entry_last path new entries)

take_entry_tail :
    (path : ℕ) (entry : ℕ × Bytes) (entries : List (ℕ × Bytes))
    → take_entry path (entry ∷ entries) ≡ none
    → take_entry path entries ≡ none
unfolding take_entry
take_entry_tail path entry entries h = ground arith

-- The loop finds room for an entry of at most the whole budget, and brings nothing in.
make_room_enough :
    (path len : ℕ) (entries : List (ℕ × Bytes)) (bytes : ℕ)
    → len ≤ cache_bytes
    → IsBounded (cache_of entries bytes)
    → take_entry path entries ≡ none
    → ((make_room len entries bytes).0 ≡ true)
      × (take_entry path (make_room len entries bytes).1.entries ≡ none)
unfolding make_room
make_room_enough path len [] bytes l h k =
    let z : bytes ≡ 0 = unfold total_len in (unfold cache_of in h.counted) in
    (unfold is_full in ground arith, k)
make_room_enough path len (entry ∷ entries) bytes l h k =
    elim (Bool-cases (is_full len (entry ∷ entries) bytes)) [
      | inl e ↦ rw e (
          make_room_enough path len entries (bytes - entry.1.len) l
            (without_first entry entries bytes h) (take_entry_tail path entry entries k))
      | inr e ↦ rw e (refl, k)
    ]

get-push :
    (path : ℕ) (new : Bytes) (p : Bool × Cache)
    → p.0 ≡ true
    → take_entry path p.1.entries ≡ none
    → (get path (push path new p)).0 ≡ some new
unfolding get push
get-push path new (true, kept) e h = rw (take_entry_last path new kept.entries h, get) refl
get-push path new (false, kept) e h = cc

-- A part that is not in the cache and not larger than 8 MiB is found after it has been inserted into
-- a cache within its limits.
pub get-insert :
    (path : ℕ) (new : Bytes) (cache : Cache)
    → new.len ≤ cache_bytes
    → IsBounded cache
    → (get path cache).0 ≡ none
    → (get path (insert path new cache)).0 ≡ some new
unfolding insert
get-insert path new cache l h k =
    let (a, b) =
      make_room_enough path new.len cache.entries cache.bytes l (unfold cache_of in h)
        (unfold get in ground arith) in
    get-push path new (make_room new.len cache.entries cache.bytes) a b
