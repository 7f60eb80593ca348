-- ===== src/Fuse/Bytes.antt =====
-- One round of `read` on a cached chunk.
use valkyrie_fs.Base.{
  take-add, drop-drop, take-drop-take, ℕ, suc, ◌+◌, ◌*◌, ◌-◌, ◌/◌, ◌%◌, ◌≤◌, ◌<◌, ◌≡◌, sym, ap, ◌∙◌,
  false, Option, none, some, List, ◌++◌, Text, length, take, drop, length-take, length-drop, ltb,
  lt→ltb, le→ltb, if◌then◌else◌, arith, min, size_mod,
}
use valkyrie_fs.Numeric.{int_bound}
use valkyrie_fs.Types.{default_chunk_size}
use valkyrie_fs.Cache.{Chunk, get_chunk}
use valkyrie_fs.Cache.Contents.{bytes_at, bytes_at-get_chunk}
use valkyrie_fs.Pool.{Pool}
use valkyrie_fs.Fuse.Read.{
  Env, ReadResult, to_copy, copy_chunk, copied, copy, counted, narrowed, after, chunk_for,
  read_from, touched,
}

abbrev pub chunk_start : ℕ → ℕ
chunk_start offset = offset / default_chunk_size * default_chunk_size

abbrev pub in_chunk : ℕ → ℕ
in_chunk offset = offset % default_chunk_size

abbrev pub after_copy : Env → (ℕ → ℕ) → Pool → Text → ℕ → ℕ → ℕ → ℕ → Option (Pool × ReadResult)
after_copy env clock p key size offset fuel copying =
    read_from env clock fuel (touched p key (chunk_start offset) (clock fuel)) key (size - copying)
      (offset + copying)

pub chunk_for_cached :
    (env : Env) (p : Pool) (key : Text) (o now : ℕ) (ch : Chunk)
    → get_chunk p.cache key o ≡ some ch
    → chunk_for env p key o now ≡ some (p, some ch)
unfolding chunk_for
chunk_for_cached env p key o now ch e = rw (e, chunk_for)

-- One round of a read on a cached chunk.
pub read_cached :
    (env : Env) (clock : ℕ → ℕ) (p : Pool) (key : Text) (size offset fuel : ℕ) (bs : List ℕ)
    → bytes_at p.cache key (chunk_start offset) ≡ some bs
    → read_from env clock (suc fuel) p key size offset
      ≡ copy_chunk bs size
          (in_chunk offset)
          (touched p key (chunk_start offset) (clock fuel))
          (after_copy env clock p key size offset fuel (to_copy bs size (in_chunk offset)))
unfolding read_from
read_cached env clock p key size offset fuel bs here =
    let (ch, cached, same) = bytes_at-get_chunk p.cache key (chunk_start offset) bs here in
    rw (chunk_for_cached env p key (chunk_start offset) (clock fuel) ch cached, read_from)
      (ap
        (λ (cs : List ℕ).
          copy_chunk cs size (in_chunk offset) (touched p key (chunk_start offset) (clock fuel))
            (after_copy env clock p key size offset fuel (to_copy cs size (in_chunk offset))))
        same)

pub split_offset : (o : ℕ) → chunk_start o + in_chunk o ≡ o
split_offset o = omega arith

-- The bytes of a chunk that are copied, seen in the file.
pub copy_lem :
    (obj : List ℕ) (start j n : ℕ)
    → j + n ≤ default_chunk_size
    → start + j + n ≤ length obj
    → copy (take default_chunk_size (drop start obj)) j n ≡ copied (take n (drop (start + j) obj))
copy_lem obj start j n fits within =
    let bs = take default_chunk_size (drop start obj) in
    let size : length bs ≡ min default_chunk_size (length obj - start) =
      length-take default_chunk_size (drop start obj)
      ∙ ap (min default_chunk_size) (length-drop start obj) in
    rw (le→ltb (length bs) (j + n) (omega (arith, size))) (
      ap copied (
        take-drop-take j n default_chunk_size (drop start obj) fits
        ∙ ap (take n) (drop-drop start j obj)))

-- The chunk's share of a read: all of it, or up to the chunk's end.
pub to_copy_lem :
    (obj : List ℕ) (size offset : ℕ)
    → offset + size ≤ length obj
    → length obj < size_mod
    → 0 < size
    → to_copy (take default_chunk_size (drop (chunk_start offset) obj)) size (in_chunk offset)
      ≡ min size (default_chunk_size - in_chunk offset)
to_copy_lem obj size offset within small some_size = omega (
  arith,
  split_offset offset,
  length-take default_chunk_size (drop (chunk_start offset) obj),
  length-drop (chunk_start offset) obj,
)

-- A read in two parts.
pub joined :
    (obj : List ℕ) (size offset n : ℕ)
    → n ≤ size
    → take n (drop offset obj) ++ take (size - n) (drop (offset + n) obj)
      ≡ take size (drop offset obj)
joined obj size offset n le =
    ap (λ (cs : List ℕ). take n (drop offset obj) ++ take (size - n) cs)
      (sym (drop-drop offset n obj))
    ∙ sym (take-add n (size - n) (drop offset obj))
    ∙ ap (λ (k : ℕ). take k (drop offset obj)) (omega arith)

-- A number of bytes that an `int` holds.
pub counted-small : (bs : List ℕ) → length bs < int_bound → counted bs ≡ copied bs
counted-small bs small = rw (lt→ltb (length bs) int_bound small)

-- `copy_chunk` where it copies `n` bytes.
abbrev pub copy_n :
    List ℕ → ℕ → ℕ → Pool → Option (Pool × ReadResult) → ℕ → Option (Pool × ReadResult)
copy_n bs size j q rest n =
    if ltb n size
    then elim rest [ none ↦ none | some (q', r) ↦ some (q', after (copy bs j n) r) ]
    else some (q, narrowed (copy bs j n))

pub copy_chunk_lem :
    (bs : List ℕ) (size j : ℕ) (q : Pool) (rest : Option (Pool × ReadResult)) (n : ℕ)
    → to_copy bs size j ≡ n
    → copy_chunk bs size j q rest ≡ copy_n bs size j q rest n
unfolding copy_chunk
copy_chunk_lem bs size j q rest n e = ap (copy_n bs size j q rest) e

pub copy_n-all :
    (bs cs : List ℕ) (size j n : ℕ) (q : Pool) (rest : Option (Pool × ReadResult))
    → ltb n size ≡ false
    → copy bs j n ≡ copied cs
    → length cs < int_bound
    → copy_n bs size j q rest n ≡ some (q, copied cs)
copy_n-all bs cs size j n q rest done e small = rw (done) (
    ap (λ (r : ReadResult). some (q, narrowed r)) e
    ∙ ap (λ (r : ReadResult). some (q, r)) (counted-small cs small))
