-- ===== src/Tests/Evictions.antt =====
-- Evictions, reads and interleavings in the cache of 10 bytes.
use valkyrie_fs.Base.Assoc
use valkyrie_fs.Types.{hot, prefetch}
use valkyrie_fs.Base.{
  ap, ◌+◌, ◌≤◌, ◌≡◌, ◌≢◌, refl, none, some, [], ◌∷◌, text_dec, arith, false, ℕ, Text,
}
use valkyrie_fs.Cache.{
  get_chunk, scan_chunks, scan_hot, FileEntry, CacheManager, new_cache, new_file, evict_if_needed,
  evict_loop, evict_lru_hot, access, lru_of, over,
}
use valkyrie_fs.Cache.Sizes.{total_bytes}
use valkyrie_fs.Cache.Lru.{EvictsOldest, evict_lru-EvictsOldest}
use valkyrie_fs.Cache.Loop.{Evicted, evict_if_needed-Evicted, evict_loop_hangs}
use valkyrie_fs.Cache.Access.{Accesses, access-Accesses}
use valkyrie_fs.Cache.Invariant.{new_cache-Inv}
use valkyrie_fs.Cache.Capacity.{IsExact}
use valkyrie_fs.Cache.Stats.{get_stats, get_stats-total}
use valkyrie_fs.Cache.Interleaving.{
  accesses, stores, here, next, Reach, IsSound, Reach-evict_if_needed, Overfills,
  interleaved_inserts-Overfills,
}
use valkyrie_fs.Tests.Caches.{
  empty_cache, a, b, bytes_a, bytes_b, with_both, chunk_a, file_a, with_both-Inv, size_a, no_name,
  found_a, hot_both,
}

evict_lru-EvictsOldest_example :
    (f : FileEntry) × EvictsOldest with_both
      (lru_of with_both).0
      f
      (lru_of with_both).1
      (evict_lru_hot with_both)
evict_lru-EvictsOldest_example =
    evict_lru-EvictsOldest with_both b [] with_both-Inv no_name hot_both

evict_if_needed-Evicted_example :
    (c : CacheManager) × (evict_if_needed with_both 5 ≡ some c) × Evicted 5 with_both c
evict_if_needed-Evicted_example = evict_if_needed-Evicted with_both 5 with_both-Inv no_name

-- A file with the empty key.
abbrev unnamed : CacheManager
unnamed = record {
  max_size = 10;
  current_size = 3;
  files = ([], record (new_file [] hot) { chunks = (0, chunk_a) ∷ [] }) ∷ [];
  hot_lru = [] ∷ [];
  prefetch_fifo = [];
}

lru_of-unnamed : (lru_of unnamed).0 ≡ []
unfolding scan_hot scan_chunks Assoc.lookup text_dec
lru_of-unnamed = refl

evict_loop_hangs_example : evict_loop 1000 unnamed 8 ≡ none
evict_loop_hangs_example = evict_loop_hangs 1000 unnamed 8 [] [] refl refl lru_of-unnamed refl

access-Accesses_example :
    (g : FileEntry) × Accesses with_both a file_a 0 9 g (access with_both a 0 9)
access-Accesses_example = access-Accesses with_both a file_a 0 9 with_both-Inv found_a (omega arith)

get_stats-total_example :
    ((get_stats with_both).hot_zone_size + (get_stats with_both).prefetch_zone_size
      ≡ total_bytes with_both)
    × ((get_stats with_both).hot_zone_size + (get_stats with_both).prefetch_zone_size
        ≤ (get_stats with_both).current_size)
get_stats-total_example = get_stats-total with_both with_both-Inv

a_named : a ≢ []
a_named e = cc

b_named : b ≢ []
b_named e = cc

empty_size : empty_cache.current_size ≡ 0
unfolding new_cache
empty_size = refl

-- Two chunks are stored, one is read.
reached : Reach empty_cache (access with_both a 0 9)
reached =
    next
      (next
        (next here
          (stores a 0 bytes_a prefetch 5 a_named (omega arith) (omega (arith, empty_size)) refl))
        (stores b 4 bytes_b hot 6 b_named (omega arith) (omega (arith, size_a)) refl))
      (accesses a 0 9 (omega arith) refl)

Reach-evict_if_needed_example :
    IsSound (access with_both a 0 9)
    × ((c : CacheManager) × (evict_if_needed (access with_both a 0 9) 5 ≡ some c))
Reach-evict_if_needed_example = Reach-evict_if_needed 10 5 reached

abbrev first_byte : Text → ℕ
first_byte [] = 0
first_byte (x ∷ xs) = x

two_keys : b ≢ a
two_keys e = absurd (omega (arith, ap first_byte e))

empty_limit : empty_cache.max_size ≡ 10
unfolding new_cache
empty_limit = refl

empty-IsSound : IsSound empty_cache
unfolding new_cache Assoc.lookup
empty-IsSound = record { inv = new_cache-Inv 10; named = refl }

empty-IsExact : IsExact empty_cache
unfolding new_cache Assoc.sum_by
empty-IsExact = refl

nothing_a : get_chunk empty_cache a 0 ≡ none
unfolding new_cache get_chunk Assoc.lookup
nothing_a = refl

nothing_b : get_chunk empty_cache b 0 ≡ none
unfolding new_cache get_chunk Assoc.lookup
nothing_b = refl

six_fit : over empty_cache 6 ≡ false
unfolding new_cache
six_fit = refl

interleaved_inserts-Overfills_example :
    Overfills empty_cache a b (1 ∷ 2 ∷ 3 ∷ 4 ∷ 5 ∷ 6 ∷ []) (1 ∷ 2 ∷ 3 ∷ 4 ∷ 5 ∷ 6 ∷ []) hot 7
interleaved_inserts-Overfills_example =
    interleaved_inserts-Overfills empty_cache a b (1 ∷ 2 ∷ 3 ∷ 4 ∷ 5 ∷ 6 ∷ [])
      (1 ∷ 2 ∷ 3 ∷ 4 ∷ 5 ∷ 6 ∷ []) hot 7 empty-IsSound empty-IsExact a_named two_keys nothing_a
      nothing_b (omega arith) six_fit six_fit (omega (arith, empty_size, empty_limit))
      (omega (arith, empty_size))
