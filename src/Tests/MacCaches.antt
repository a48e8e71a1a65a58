-- ===== src/Tests/MacCaches.antt =====
-- router/mac_cache.go at a concrete cache.
use weave.Base.{ℕ, ◌≡◌, refl, true, false, List, [], ◌∷◌, none, some, ◌==◌, if◌then◌else◌}
use weave.MacCache.{
  MacCache, new_mac_cache, add, lookup, delete, expire, macint, find, is_fresh, add_locked,
  add_found,
}
use weave.MacCache.Table.{IsMap, answer, holder, dismiss, add_cache_correct, delete_correct}

abbrev mac : List ℕ
mac = 1 ∷ 2 ∷ 3 ∷ 4 ∷ 5 ∷ 255 ∷ []

abbrev key : ℕ
key = 1108152157695

key-mac : macint mac ≡ key
unfolding macint
key-mac = refl

abbrev cache : MacCache
cache = record { table = (key, record { last_seen = 5; peer = 7 }) ∷ []; max_age = 100 }

-- a first sighting, the same again, another peer, and by force
add-first : add (new_mac_cache 100) (new_mac_cache 100) 5 mac 7 false ≡ (cache, (true, none))
unfolding add new_mac_cache macint find is_fresh add_locked add_found
add-first = refl

add-other : add cache cache 6 mac 8 false ≡ (cache, (false, some 7))
unfolding add macint find is_fresh add_locked add_found
add-other = refl

add-forced :
    add cache cache 20 mac 8 true
    ≡ (record cache { table = (key, record { last_seen = 20; peer = 8 }) ∷ [] }, (false, none))
unfolding add macint find is_fresh add_locked add_found
add-forced = refl

expire-late : (expire cache 106).1 ≡ (mac, 7) ∷ []
unfolding expire
expire-late = refl

apart : find key [] ≡ none
unfolding find
apart = refl

add_cache_correct_example :
    ((add cache cache 20 mac 8 true).1 ≡ answer true 8 (lookup cache mac))
    × IsMap (add cache cache 20 mac 8 true).0.table
    × ((other : List ℕ)
        → lookup (add cache cache 20 mac 8 true).0 other ≡ (
            if macint mac == macint other
            then some (holder true 8 (lookup cache mac))
            else lookup cache other))
add_cache_correct_example = add_cache_correct cache 20 mac 8 true (apart, tt)

delete_correct_example :
    IsMap (delete cache 7).0.table
    × ((m : List ℕ) → lookup (delete cache 7).0 m ≡ dismiss 7 (lookup cache m))
    × ((delete cache 7).1 ≡ false → (delete cache 7).0.table ≡ cache.table)
delete_correct_example = delete_correct cache 7 (apart, tt)
