-- ===== src/Cache.antt =====
-- src/cache_manager.hpp and src/cache_manager.cpp. The clock's reading is an argument of the calls
-- that read it. `Chunk::ready_future` is set by nothing and read by nothing, and is left out. A
-- map is an association list: no operation depends on the order in which `std::unordered_map`
-- walks. `none` from `evict_if_needed` or `insert_chunk` means that the eviction loop did not end.
pub mod Sizes
pub mod Invariant
pub mod Eviction
pub mod Lru
pub mod Loop
pub mod Store
pub mod Insert
pub mod Capacity
pub mod Access
pub mod Stats
pub mod Contents
pub mod Chunks
pub mod Interleaving
pub mod Growth
use valkyrie_fs.Base.{
  ℕ, zero, suc, ◌+◌, ◌-◌, Bool, true, false, Option, none, some, List, [], ◌∷◌, ◌++◌, Text,
  text_dec, ℕ_discrete, length, erase, ltb, if◌then◌else◌, size_mod, add64, sub64, ◌>>=◌,
}
use valkyrie_fs.Base.Assoc
use valkyrie_fs.Types.{CacheZone, hot, prefetch}

pub record Chunk : Type 0 where
  pub bytes : List ℕ
  pub last_access_time : ℕ

-- `Chunk(data)`, made at time `now`.
abbrev pub new_chunk : List ℕ → ℕ → Chunk
new_chunk bytes now = record { bytes = bytes; last_access_time = now }

pub record FileEntry : Type 0 where
  pub s3_key : Text
  pub total_size : ℕ
  pub chunks : List (ℕ × Chunk)
  pub zone : CacheZone

abbrev pub new_file : Text → CacheZone → FileEntry
new_file key zone = record { s3_key = key; total_size = 0; chunks = []; zone = zone }

pub record CacheManager : Type 0 where
  pub max_size : ℕ
  pub current_size : ℕ
  pub files : List (Text × FileEntry)
  pub hot_lru : List Text
  pub prefetch_fifo : List Text

unfoldable pub new_cache : ℕ → CacheManager
new_cache max_size_bytes = record {
  max_size = max_size_bytes;
  current_size = 0;
  files = [];
  hot_lru = [];
  prefetch_fifo = [];
}

-- `files_.find(key)`
abbrev pub find_file : Text → CacheManager → Option FileEntry
find_file key c = Assoc.lookup text_dec key c.files

abbrev pub find_chunk : ℕ → FileEntry → Option Chunk
find_chunk offset f = Assoc.lookup ℕ_discrete offset f.chunks

-- The loop of `calculate_file_size`.
unfoldable pub sum_chunks : ℕ → List (ℕ × Chunk) → ℕ
sum_chunks total [] = total
sum_chunks total ((_, chunk) ∷ rest) = sum_chunks (add64 total (length chunk.bytes)) rest

unfoldable pub calculate_file_size : FileEntry → ℕ
unfolding sum_chunks
calculate_file_size entry = sum_chunks 0 entry.chunks

-- The inner loop of `evict_lru_hot`; the pair is `lru_key` and `oldest_time`.
unfoldable pub scan_chunks : Text → List (ℕ × Chunk) → Text × ℕ → Text × ℕ
scan_chunks key [] best = best
scan_chunks key ((_, chunk) ∷ rest) best =
    scan_chunks key rest
      (if ltb chunk.last_access_time best.1 then (key, chunk.last_access_time) else best)

-- The outer loop of `evict_lru_hot`.
unfoldable pub scan_hot : List (Text × FileEntry) → List Text → Text × ℕ → Text × ℕ
unfolding scan_chunks
scan_hot files [] best = best
scan_hot files (key ∷ keys) best = scan_hot files keys (elim (Assoc.lookup text_dec key files) [
  | none ↦ best
  | some file ↦ scan_chunks key file.chunks best
])

-- `UINT64_MAX`
abbrev pub uint64_max : ℕ
uint64_max = size_mod - 1

abbrev pub lru_of : CacheManager → Text × ℕ
lru_of c = scan_hot c.files c.hot_lru ([], uint64_max)

-- What `evict_lru_hot` does with the key that the scan found.
unfoldable pub evict_hot_file : CacheManager → Text → CacheManager
unfolding calculate_file_size
evict_hot_file c [] = c
evict_hot_file c (b ∷ bs) = elim (find_file (b ∷ bs) c) [
  | none ↦ c
  | some file ↦ record c {
    files = Assoc.erase text_dec (b ∷ bs) c.files;
    current_size = sub64 c.current_size (calculate_file_size file);
    hot_lru = erase text_dec (b ∷ bs) c.hot_lru;
  }
]

unfoldable pub evict_lru_hot : CacheManager → CacheManager
unfolding scan_hot evict_hot_file
evict_lru_hot c = elim c.hot_lru [ [] ↦ c | key ∷ keys ↦ evict_hot_file c (lru_of c).0 ]

-- What `evict_fifo_prefetch` does with the key that it took off the queue.
unfoldable pub evict_prefetch_file : CacheManager → Text → CacheManager
unfolding calculate_file_size
evict_prefetch_file c key = elim (find_file key c) [
  | none ↦ c
  | some file ↦ record c {
    files = Assoc.erase text_dec key c.files;
    current_size = sub64 c.current_size (calculate_file_size file);
  }
]

unfoldable pub evict_fifo_prefetch : CacheManager → CacheManager
unfolding evict_prefetch_file
evict_fifo_prefetch c = elim c.prefetch_fifo [
  | [] ↦ c
  | key ∷ rest ↦ evict_prefetch_file (record c { prefetch_fifo = rest }) key
]

-- The condition of the eviction loop.
abbrev pub over : CacheManager → ℕ → Bool
over c required = ltb c.max_size (add64 c.current_size required)

-- The loop of `evict_if_needed`; `none` when the fuel runs out.
unfoldable pub evict_loop : ℕ → CacheManager → ℕ → Option CacheManager
unfolding evict_fifo_prefetch evict_lru_hot
evict_loop zero c required = none
evict_loop (suc fuel) c required =
    let after_fifo = evict_loop fuel (evict_fifo_prefetch c) required in
    let after_lru = evict_loop fuel (evict_lru_hot c) required in
    if over c required
    then elim c.prefetch_fifo [
      | _ ∷ _ ↦ after_fifo
      | [] ↦ elim c.hot_lru [ _ ∷ _ ↦ after_lru | [] ↦ some c ]
    ]
    else some c

abbrev pub tracked : CacheManager → ℕ
tracked c = length c.prefetch_fifo + length c.hot_lru

-- A round drops one tracked key, so one round more than there are keys is enough.
unfoldable pub evict_if_needed : CacheManager → ℕ → Option CacheManager
unfolding evict_loop
evict_if_needed c required = evict_loop (suc (tracked c)) c required

-- `files_[s3_key]`, made and tracked if it is new.
unfoldable pub open_file : CacheManager → Text → CacheZone → CacheManager
open_file c key zone = elim (find_file key c) [
  | some _ ↦ c
  | none ↦ elim zone [
    | hot ↦ record c {
      files = Assoc.insert text_dec key (new_file key hot) c.files;
      hot_lru = c.hot_lru ++ key ∷ [];
    }
    | prefetch ↦ record c {
      files = Assoc.insert text_dec key (new_file key prefetch) c.files;
      prefetch_fifo = c.prefetch_fifo ++ key ∷ [];
    }
  ]
]

-- `file_ptr->chunks[offset] = Chunk(data)` and the accounting.
unfoldable pub put_chunk : CacheManager → Text → ℕ → List ℕ → ℕ → CacheManager
put_chunk c key offset bytes now = elim (find_file key c) [
  | none ↦ c
  | some file ↦ record c {
    files =
        Assoc.insert text_dec key
          (record file {
            chunks = Assoc.insert ℕ_discrete offset (new_chunk bytes now) file.chunks;
          })
          c.files;
    current_size = add64 c.current_size (length bytes);
  }
]

-- The part of `insert_chunk` under its own lock, after the eviction.
unfoldable pub store_chunk : CacheManager → Text → ℕ → List ℕ → CacheZone → ℕ → CacheManager
unfolding open_file put_chunk
store_chunk c key offset bytes zone now = put_chunk (open_file c key zone) key offset bytes now

unfoldable pub insert_chunk : CacheManager → Text → ℕ → List ℕ → CacheZone → ℕ → Option CacheManager
unfolding evict_if_needed store_chunk
insert_chunk c key offset bytes zone now = do
  c' ← evict_if_needed c (length bytes)
  some (store_chunk c' key offset bytes zone now)

unfoldable pub get_chunk : CacheManager → Text → ℕ → Option Chunk
get_chunk c key offset = do file ← find_file key c; find_chunk offset file

-- The chunk's new access time, where the chunk is there.
unfoldable pub touch_chunk : FileEntry → ℕ → ℕ → FileEntry
touch_chunk file offset now = elim (find_chunk offset file) [
  | none ↦ file
  | some chunk ↦ record file {
    chunks = Assoc.insert ℕ_discrete offset (record chunk { last_access_time = now }) file.chunks;
  }
]

-- The promotion in `access`; `file` is the entry of `key`, touched.
unfoldable pub promote : CacheManager → Text → FileEntry → CacheManager
promote c key file = elim file.zone [
  | hot ↦ record c { files = Assoc.insert text_dec key file c.files }
  | prefetch ↦ record c {
    files = Assoc.insert text_dec key (record file { zone = hot }) c.files;
    prefetch_fifo = erase text_dec key c.prefetch_fifo;
    hot_lru = c.hot_lru ++ key ∷ [];
  }
]

unfoldable pub access : CacheManager → Text → ℕ → ℕ → CacheManager
unfolding touch_chunk promote
access c key offset now = elim (find_file key c) [
  | none ↦ c
  | some file ↦ promote c key (touch_chunk file offset now)
]

unfoldable pub contains : CacheManager → Text → Bool
contains c key = elim (find_file key c) [ none ↦ false | some _ ↦ true ]

-- `none` is the exception.
unfoldable pub get_zone : CacheManager → Text → Option CacheZone
get_zone c key = elim (find_file key c) [ none ↦ none | some file ↦ some file.zone ]

unfoldable pub promote_to_hot : CacheManager → Text → ℕ → CacheManager
unfolding access
promote_to_hot c key now = access c key 0 now
