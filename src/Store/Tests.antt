-- ===== src/Store/Tests.antt =====
-- Runs of the verified-part cache.
use rowtrail.Base.{[], arith, refl, some, ◌∷◌, ◌≡◌}
use rowtrail.Store.{Bytes, Cache, get, insert}
use rowtrail.Store.Bounds.{IsBounded, get-IsBounded, get-insert, insert-IsBounded, total_len}

-- One entry, and room for a small one only.
abbrev large_cache : Cache
large_cache = record { entries = (1, record { content = 5; len = 8388600 }) ∷ []; bytes = 8388600 }

abbrev new_part : Bytes
new_part = record { content = 6; len = 100 }

large_cache-IsBounded : IsBounded large_cache
large_cache-IsBounded = record {
  counted = unfold total_len in omega arith;
  bytes_bounded = omega arith;
  entries_bounded = omega arith;
}

insert-IsBounded_example : IsBounded (insert 2 new_part large_cache)
insert-IsBounded_example = insert-IsBounded 2 new_part large_cache large_cache-IsBounded

get-IsBounded_example : IsBounded (get 1 large_cache).1
get-IsBounded_example = get-IsBounded 1 large_cache large_cache-IsBounded

get-insert_example : (get 2 (insert 2 new_part large_cache)).0 ≡ some new_part
get-insert_example =
    get-insert 2 new_part large_cache (omega arith) large_cache-IsBounded (unfold get in refl)

-- 150000 bytes in three chunks.
