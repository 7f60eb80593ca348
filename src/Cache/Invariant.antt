-- ===== src/Cache/Invariant.antt =====
-- The cache's invariant: what the two lists, the map and the byte counter have to do with each other.
use valkyrie_fs.Base.{
  ℕ, ◌≤◌, ◌<◌, ◌≡◌, ◌≢◌, refl, none, some, Option, [], Text, text_dec, size_mod, arith, All, count,
}
use valkyrie_fs.Base.Assoc.{lookup, Unique, sum_by}
use valkyrie_fs.Types.{CacheZone, hot, prefetch}
use valkyrie_fs.Cache.{FileEntry, CacheManager, new_cache, find_file, uint64_max}
use valkyrie_fs.Cache.Sizes.{total_bytes}

-- 1 where the two zones are the same.
abbrev pub same_zone : CacheZone → CacheZone → ℕ
same_zone hot hot = 1
same_zone hot prefetch = 0
same_zone prefetch hot = 0
same_zone prefetch prefetch = 1

-- 1 where a file is cached, and in the zone.
abbrev pub in_zone : CacheZone → Option FileEntry → ℕ
in_zone z none = 0
in_zone z (some f) = same_zone z f.zone

-- A file holds a chunk, and its chunks were read before the end of the clock.
abbrev pub IsFilled : FileEntry → Type 0
IsFilled f = (f.chunks ≢ []) × All (λ p. p.1.last_access_time < uint64_max) f.chunks

pub record Inv (c : CacheManager) : Type 0 where
  pub unique : Unique text_dec c.files
  -- `hot_lru_` lists each file of the HOT zone once, and nothing else.
  pub hot_tracked : (k : Text) → count text_dec k c.hot_lru ≡ in_zone hot (find_file k c)
  -- So does `prefetch_fifo_` for the PREFETCH zone.
  pub prefetch_tracked :
      (k : Text) → count text_dec k c.prefetch_fifo ≡ in_zone prefetch (find_file k c)
  pub filled : (k : Text) (f : FileEntry) → find_file k c ≡ some f → IsFilled f
  -- The counter is no smaller than what the cache holds.
  pub accounted : total_bytes c ≤ c.current_size
  pub in_range : c.current_size < size_mod

pub new_cache-Inv : (n : ℕ) → Inv (new_cache n)
unfolding new_cache lookup count sum_by
new_cache-Inv n = record {
  unique = tt;
  hot_tracked = λ k. refl;
  prefetch_tracked = λ k. refl;
  filled = λ k f e. absurd (ground arith);
  accounted = omega arith;
  in_range = omega arith;
}
