-- ===== src/Cache/Stats.antt =====
-- `get_stats`, against the sizes without wrap-around.
use valkyrie_fs.Base.{
  ℕ, ◌+◌, ◌≤◌, ◌<◌, ◌≡◌, refl, List, [], ◌∷◌, Text, text_dec, length, arith, add64, size_mod,
}
use valkyrie_fs.Base.Assoc.{sum_by}
use valkyrie_fs.Types.{CacheZone, hot, prefetch}
use valkyrie_fs.Cache.{FileEntry, CacheManager, calculate_file_size}
use valkyrie_fs.Cache.Sizes.{total_bytes, file_bytes, file_size_exact}
use valkyrie_fs.Cache.Invariant.{Inv}

pub record Stats : Type 0 where
  pub current_size : ℕ
  pub max_size : ℕ
  pub hot_zone_size : ℕ
  pub prefetch_zone_size : ℕ
  pub num_files : ℕ
  pub num_chunks : ℕ

-- The body of the loop: one file's size goes to the sum of its zone.
unfoldable pub count_file : Stats → FileEntry → Stats
unfolding calculate_file_size
count_file s file = elim file.zone [
  | hot ↦ record s {
    hot_zone_size = add64 s.hot_zone_size (calculate_file_size file);
    num_chunks = add64 s.num_chunks (length file.chunks);
  }
  | prefetch ↦ record s {
    prefetch_zone_size = add64 s.prefetch_zone_size (calculate_file_size file);
    num_chunks = add64 s.num_chunks (length file.chunks);
  }
]

unfoldable pub count_files : Stats → List (Text × FileEntry) → Stats
unfolding count_file
count_files s [] = s
count_files s ((_, file) ∷ files) = count_files (count_file s file) files

abbrev stats_start : CacheManager → Stats
stats_start c = record {
  current_size = c.current_size;
  max_size = c.max_size;
  hot_zone_size = 0;
  prefetch_zone_size = 0;
  num_files = length c.files;
  num_chunks = 0;
}

unfoldable pub get_stats : CacheManager → Stats
unfolding count_files
get_stats c = count_files (stats_start c) c.files

-- One file adds its bytes to one of the two sums.
count_file_lem :
    (s : Stats) (f : FileEntry) (z : CacheZone)
    → f.zone ≡ z
    → s.hot_zone_size + s.prefetch_zone_size + file_bytes f < size_mod
    → ((count_file s f).hot_zone_size + (count_file s f).prefetch_zone_size
        ≡ s.hot_zone_size + s.prefetch_zone_size + file_bytes f)
      × ((count_file s f).current_size ≡ s.current_size)
unfolding count_file
count_file_lem s f hot e h = ground (arith, file_size_exact f)
count_file_lem s f prefetch e h = ground (arith, file_size_exact f)

count_files_lem :
    (s : Stats) (files : List (Text × FileEntry))
    → s.hot_zone_size + s.prefetch_zone_size + sum_by text_dec file_bytes files < size_mod
    → ((count_files s files).hot_zone_size + (count_files s files).prefetch_zone_size
        ≡ s.hot_zone_size + s.prefetch_zone_size + sum_by text_dec file_bytes files)
      × ((count_files s files).current_size ≡ s.current_size)
unfolding count_files sum_by
count_files_lem s [] h = (omega arith, refl)
count_files_lem s ((k, f) ∷ files) h =
    let one = count_file_lem s f f.zone refl (omega arith) in
    omega (arith, one.0, one.1, count_files_lem (count_file s f) files (omega (arith, one.0)))

-- On a cache that satisfies `Inv`, the two zone sizes that `get_stats` reports add up to the bytes
-- of all cached chunks, with no wrap-around, and do not exceed the size that it reports.
pub get_stats-total :
    (c : CacheManager)
    → Inv c
    → ((get_stats c).hot_zone_size + (get_stats c).prefetch_zone_size ≡ total_bytes c)
      × ((get_stats c).hot_zone_size + (get_stats c).prefetch_zone_size
          ≤ (get_stats c).current_size)
unfolding get_stats
get_stats-total c v =
    let e = count_files_lem (stats_start c) c.files (omega (arith, v.accounted, v.in_range)) in
    omega (arith, e.0, e.1, v.accounted)
