-- ===== src/Cache/Contents.antt =====
-- The bytes that the cache holds, as readers see them.
use valkyrie_fs.Base.{
  ℕ, ◌<◌, ◌≡◌, refl, sym, ap, ◌∙◌, none, some, Option, List, Text, text_dec, ℕ_discrete,
  Option-cases, inl, inr,
}
use valkyrie_fs.Types.{hot}
use valkyrie_fs.Cache.{
  Chunk, FileEntry, CacheManager, find_file, find_chunk, uint64_max, get_chunk, access,
}
use valkyrie_fs.Cache.Invariant.{Inv}
use valkyrie_fs.Cache.Access.{Touches, access-Accesses, access_missing}

abbrev pub bytes_of : Option Chunk → Option (List ℕ)
bytes_of none = none
bytes_of (some chunk) = some chunk.bytes

-- The bytes of the chunk at an offset of a file.
pub bytes_at : CacheManager → Text → ℕ → Option (List ℕ)
bytes_at c key offset = bytes_of (get_chunk c key offset)

pub bytes_at_file :
    (c : CacheManager) (key : Text) (f : FileEntry) (offset : ℕ)
    → find_file key c ≡ some f
    → bytes_at c key offset ≡ bytes_of (find_chunk offset f)
unfolding bytes_at get_chunk
bytes_at_file c key f offset e = rw e

Touches-bytes :
    (f g : FileEntry) (o now offset : ℕ)
    → Touches f o now g
    → bytes_of (find_chunk offset g) ≡ bytes_of (find_chunk offset f)
Touches-bytes f g o now offset t = elim (ℕ_discrete offset o) [
  | no p ↦ ap bytes_of (t.same offset p)
  | yes p ↦ elim (Option-cases (find_chunk o f)) [
    | inl absent ↦ rw (p, absent, t.missing absent)
    | inr (old, found) ↦ rw (p, found, t.read old found)
  ]
]

pub same_file :
    (c c' : CacheManager) (key : Text) (offset : ℕ)
    → find_file key c' ≡ find_file key c
    → bytes_at c' key offset ≡ bytes_at c key offset
unfolding bytes_at get_chunk
same_file c c' key offset e = rw e

-- Where the cache satisfies `Inv` and the clock has not reached `UINT64_MAX`, `access` leaves the
-- bytes of every chunk of every file as they are.
pub bytes_at-access :
    (c : CacheManager) (key : Text) (o now : ℕ) (k : Text) (offset : ℕ)
    → Inv c
    → now < uint64_max
    → bytes_at (access c key o now) k offset ≡ bytes_at c k offset
bytes_at-access c key o now k offset v time = elim (Option-cases (find_file key c)) [
  | inl missing ↦
      ap (λ (d : CacheManager). bytes_at d k offset) (access_missing c key o now missing)
  | inr (f, found) ↦
      let (g, a) = access-Accesses c key f o now v found time in
      elim (text_dec k key) [
        | no p ↦ same_file c (access c key o now) k offset (a.others k p)
        | yes p ↦ rw p (
            bytes_at_file (access c key o now) key (record g { zone = hot }) offset a.here
            ∙ Touches-bytes f g o now offset a.touches
            ∙ sym (bytes_at_file c key f offset found))
      ]
]

bytes_of-some :
    (o : Option Chunk) (bs : List ℕ)
    → bytes_of o ≡ some bs
    → (ch : Chunk) × (o ≡ some ch) × (ch.bytes ≡ bs)
bytes_of-some none bs e = absurd (cc)
bytes_of-some (some ch) bs e = (ch, refl, cc)

-- A chunk with the bytes.
pub bytes_at-get_chunk :
    (c : CacheManager) (key : Text) (offset : ℕ) (bs : List ℕ)
    → bytes_at c key offset ≡ some bs
    → (ch : Chunk) × (get_chunk c key offset ≡ some ch) × (ch.bytes ≡ bs)
unfolding bytes_at
bytes_at-get_chunk c key offset bs e = bytes_of-some (get_chunk c key offset) bs e

pub get_chunk-bytes_at :
    (c : CacheManager) (key : Text) (offset : ℕ) (ch : Chunk)
    → get_chunk c key offset ≡ some ch
    → bytes_at c key offset ≡ some ch.bytes
unfolding bytes_at
get_chunk-bytes_at c key offset ch e = ap bytes_of e

pub bytes_at-none :
    (c : CacheManager) (key : Text) (offset : ℕ)
    → find_file key c ≡ none
    → bytes_at c key offset ≡ none
unfolding bytes_at get_chunk
bytes_at-none c key offset e = rw (e, bytes_at, get_chunk)
