-- ===== src/Tests/Caches.antt =====
-- A cache of 10 bytes with a file in each zone.
use valkyrie_fs.Base.{
  sym, subst, ap, ℕ, ◌+◌, ◌≤◌, ◌≡◌, refl, none, some, List, [], ◌∷◌, Text, text_dec, codes, arith,
  max, length, ℕ_discrete,
}
use valkyrie_fs.Base.Assoc
use valkyrie_fs.Types.{CacheZone, hot, prefetch}
use valkyrie_fs.Cache.{
  Chunk, FileEntry, CacheManager, new_cache, new_chunk, new_file, store_chunk, insert_chunk,
  get_chunk, over, find_file, find_chunk,
}
use valkyrie_fs.Cache.Invariant.{Inv, new_cache-Inv}
use valkyrie_fs.Cache.Sizes.{total_bytes}
use valkyrie_fs.Cache.Store.{opened}
use valkyrie_fs.Cache.Insert.{Stores, store_chunk-Stores}
use valkyrie_fs.Cache.Capacity.{
  IsExact, insert_chunk-get_chunk, insert_chunk-IsExact, insert_chunk-leaks,
}

abbrev pub empty_cache : CacheManager
empty_cache = new_cache 10

abbrev pub a : Text
a = codes "a"

abbrev pub b : Text
b = codes "b"

abbrev pub bytes_a : List ℕ
bytes_a = 1 ∷ 2 ∷ 3 ∷ []

abbrev pub bytes_b : List ℕ
bytes_b = 4 ∷ 5 ∷ 6 ∷ 7 ∷ []

abbrev pub with_a : CacheManager
with_a = store_chunk empty_cache a 0 bytes_a prefetch 5

abbrev pub with_both : CacheManager
with_both = store_chunk with_a b 4 bytes_b hot 6

abbrev pub chunk_a : Chunk
chunk_a = new_chunk bytes_a 5

abbrev entry : Text → ℕ → Chunk → CacheZone → FileEntry
entry key offset chunk zone = record (new_file key zone) { chunks = (offset, chunk) ∷ [] }

abbrev pub file_a : FileEntry
file_a = entry a 0 chunk_a prefetch

abbrev files_both : List (Text × FileEntry)
files_both = (a, file_a) ∷ (b, entry b 4 (new_chunk bytes_b 6) hot) ∷ []

pub with_a_state : with_a ≡ record {
  max_size = 10;
  current_size = 3;
  files = (a, file_a) ∷ [];
  hot_lru = [];
  prefetch_fifo = a ∷ [];
}
unfolding store_chunk new_cache Assoc.lookup Assoc.insert text_dec ℕ_discrete
with_a_state = refl

with_both_state : with_both ≡ record {
  max_size = 10;
  current_size = 7;
  files = files_both;
  hot_lru = b ∷ [];
  prefetch_fifo = a ∷ [];
}
unfolding store_chunk new_cache Assoc.lookup Assoc.insert text_dec ℕ_discrete
with_both_state = refl

store_a : Stores empty_cache a (opened empty_cache a prefetch) 0 chunk_a with_a
unfolding new_cache
store_a =
    store_chunk-Stores empty_cache a 0 bytes_a prefetch 5 (new_cache-Inv 10) (omega arith)
      (omega arith)

pub with_a-Inv : Inv with_a
with_a-Inv = store_a.inv

pub with_both-Inv : Inv with_both
with_both-Inv =
    (store_chunk-Stores with_a b 4 bytes_b hot 6 with_a-Inv (omega arith)
      (omega (arith, ap (λ (c : CacheManager). c.current_size) with_a_state))).inv

pub size_a : with_a.current_size ≡ 3
size_a = ap (λ (c : CacheManager). c.current_size) with_a_state

pub size_both : with_both.current_size ≡ 7
size_both = ap (λ (c : CacheManager). c.current_size) with_both_state

pub no_name_a : find_file [] with_a ≡ none
unfolding Assoc.lookup text_dec
no_name_a = ap (find_file []) with_a_state

pub no_name : find_file [] with_both ≡ none
unfolding Assoc.lookup text_dec
no_name = ap (find_file []) with_both_state

pub found_a : find_file a with_both ≡ some file_a
unfolding Assoc.lookup text_dec
found_a = ap (find_file a) with_both_state

pub queue_both : with_both.prefetch_fifo ≡ a ∷ []
queue_both = ap (λ (c : CacheManager). c.prefetch_fifo) with_both_state

pub hot_both : with_both.hot_lru ≡ b ∷ []
hot_both = ap (λ (c : CacheManager). c.hot_lru) with_both_state

absent_a4 : get_chunk with_both a 4 ≡ none
unfolding get_chunk Assoc.lookup text_dec ℕ_discrete
absent_a4 = ap (λ (c : CacheManager). get_chunk c a 4) with_both_state

IsExact-both : IsExact with_both
unfolding Assoc.sum_by text_dec
IsExact-both = subst IsExact (sym with_both_state) refl

pub found_chunk_a : find_chunk 0 file_a ≡ some chunk_a
unfolding Assoc.lookup ℕ_discrete
found_chunk_a = refl

insert_chunk-get_chunk_example :
    (c : CacheManager) × (insert_chunk with_both a 4 bytes_b hot 8 ≡ some c)
    × Inv c
    × (c.max_size ≡ with_both.max_size)
    × (get_chunk c a 4 ≡ some (new_chunk bytes_b 8))
insert_chunk-get_chunk_example =
    insert_chunk-get_chunk with_both a 4 bytes_b hot 8 with_both-Inv no_name (omega arith)
      (omega (arith, size_both))

insert_chunk-IsExact_example :
    (c : CacheManager) × (insert_chunk with_both a 4 bytes_b hot 8 ≡ some c)
    × IsExact c
    × (c.current_size ≤ max with_both.max_size (length bytes_b))
insert_chunk-IsExact_example =
    insert_chunk-IsExact with_both a 4 bytes_b hot 8 with_both-Inv no_name (omega arith)
      (omega (arith, size_both)) IsExact-both absent_a4

insert_chunk-leaks_example :
    (c : CacheManager) × (insert_chunk with_both a 0 (9 ∷ []) hot 8 ≡ some c)
    × (c.current_size + total_bytes with_both ≡ with_both.current_size + total_bytes c + 3)
insert_chunk-leaks_example =
    insert_chunk-leaks with_both a file_a 0 chunk_a (9 ∷ []) hot 8 with_both-Inv (omega arith)
      (omega (arith, size_both)) (ap (λ (c : CacheManager). over c 1) with_both_state) found_a
      (found_chunk_a)
