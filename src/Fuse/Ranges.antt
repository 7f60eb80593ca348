-- ===== src/Fuse/Ranges.antt =====
-- What `read` returns of an object in the bucket, whatever of it is cached.
use valkyrie_fs.Numeric.{int_bound, negsuc}
use valkyrie_fs.Base.{
  [], ℕ, zero, suc, ◌+◌, ◌*◌, ◌-◌, ◌%◌, ◌≤◌, ◌<◌, ◌≡◌, ◌≢◌, ◌⊎◌, inl, inr, refl, ap, ◌∙◌, true,
  none, some, Option, List, Text, length, length-take, take, drop, arith, size_mod, Bool-cases, ltb,
  ltb→lt, ltb→le, min, ◌^◌, le→ltb, length-drop,
}
use valkyrie_fs.Types.{default_chunk_size}
use valkyrie_fs.Config.{S3Config}
use valkyrie_fs.Cache.{Chunk, uint64_max}
use valkyrie_fs.Pool.{Pool}
use valkyrie_fs.Pool.Objects.{Serves, chunk_request}
use valkyrie_fs.Fuse.{FuseContext, path_to_s3_key}
use valkyrie_fs.Fuse.Read.{
  miscounted, Env, after, prepend, copy, ReadResult, counted, copied, failed, to_copy, copy_chunk,
  chunk_for, touched, read_from, read,
}
use valkyrie_fs.Fuse.Bytes.{
  chunk_start, in_chunk, after_copy, split_offset, copy_lem, to_copy_lem, joined, copy_chunk_lem,
  counted-small, copy_n, copy_n-all,
}
use valkyrie_fs.Fuse.Ends.{read_from-read}
use valkyrie_fs.Fuse.Objects.{Found, IsServing, chunk_for-Found, touched-IsServing}

-- The client refuses a chunk of the range.
abbrev pub RefusesOne : Env → S3Config → Text → ℕ → ℕ → Type 0
RefusesOne env config key size offset =
    (start : ℕ) × (start % default_chunk_size ≡ 0)
    × (chunk_start offset ≤ start)
    × (start < offset + size)
    × (env.client.get_object (chunk_request config key start) ≡ none)

-- One round of `read`, where the chunk is there and where it is not.
read_found :
    (env : Env) (clock : ℕ → ℕ) (p q : Pool) (key : Text) (size offset fuel : ℕ) (ch : Chunk)
    (bs : List ℕ)
    → chunk_for env p key (chunk_start offset) (clock fuel) ≡ some (q, some ch)
    → ch.bytes ≡ bs
    → read_from env clock (suc fuel) p key size offset
      ≡ copy_chunk bs size
          (in_chunk offset)
          (touched q key (chunk_start offset) (clock fuel))
          (after_copy env clock q key size offset fuel (to_copy bs size (in_chunk offset)))
unfolding read_from
read_found env clock p q key size offset fuel ch bs e same =
    rw (e, read_from)
      (ap
        (λ (cs : List ℕ).
          copy_chunk cs size (in_chunk offset) (touched q key (chunk_start offset) (clock fuel))
            (after_copy env clock q key size offset fuel (to_copy cs size (in_chunk offset))))
        same)

pub read_not_found :
    (env : Env) (clock : ℕ → ℕ) (p q : Pool) (key : Text) (size offset fuel : ℕ)
    → chunk_for env p key (chunk_start offset) (clock fuel) ≡ some (q, none)
    → read_from env clock (suc fuel) p key size offset ≡ some (q, failed)
unfolding read_from
read_not_found env clock p q key size offset fuel e = rw (e, read_from)

copy_n-prepend :
    (bs cs : List ℕ) (size j n : ℕ) (q q' : Pool) (r : ReadResult)
    (rest : Option (Pool × ReadResult))
    → ltb n size ≡ true
    → copy bs j n ≡ copied cs
    → rest ≡ some (q', r)
    → copy_n bs size j q rest n ≡ some (q', prepend cs r)
copy_n-prepend bs cs size j n q q' r rest more e ran =
    rw (more, ran) (ap (λ (here : ReadResult). some (q', after here r)) e)

-- What `read` returns: the number of the object's bytes, which it has copied, where an `int` holds
-- the number, a negative number where it does not, or a failure that the client has caused.
abbrev pub Reads : Env → S3Config → Text → List ℕ → ℕ → ℕ → ReadResult → Type 0
Reads env config key obj size offset r =
    ((size < int_bound) × (r ≡ copied (take size (drop offset obj))))
    ⊎ (((int_bound ≤ size) × ((k : ℕ) × (r ≡ miscounted (take size (drop offset obj)) (negsuc k))))
        ⊎ ((r ≡ failed) × RefusesOne env config key size offset))

-- A number of bytes that an `int` does not hold, and a 32-bit number does.
counted-large :
    (bs : List ℕ)
    → int_bound ≤ length bs
    → length bs < 2 ^ 32
    → (k : ℕ) × (counted bs ≡ miscounted bs (negsuc k))
counted-large bs large small =
    let n = length bs in
    (
      2 ^ 32 - 1 - n % 2 ^ 32,
      rw (le→ltb n int_bound large, le→ltb (n % 2 ^ 32) int_bound (omega (arith, large, small)))
          refl,
    )

Reads-prepend :
    (env : Env) (config : S3Config) (key : Text) (obj : List ℕ) (size offset n : ℕ) (r : ReadResult)
    → n ≤ size
    → n ≤ default_chunk_size
    → offset + size ≤ length obj
    → Reads env config key obj (size - n) (offset + n) r
    → Reads env config key obj size offset (prepend (take n (drop offset obj)) r)
Reads-prepend env config key obj size offset n r le short within (inl (small, e)) =
    let bs = take size (drop offset obj) in
    let all : length bs ≡ size =
      omega (arith, length-take size (drop offset obj), length-drop offset obj, within) in
    let whole =
      ap (prepend (take n (drop offset obj))) e ∙ ap counted (joined obj size offset n le) in
    elim (Bool-cases (ltb size int_bound)) [
      | inl fits ↦
          let h = ltb→lt size int_bound fits in
          inl (h, whole ∙ counted-small bs (omega (arith, all, h)))
      | inr large ↦
          let h = ltb→le size int_bound large in
          let (k, e') =
            counted-large bs (omega (arith, all, h)) (omega (arith, all, small, short)) in
          inr (inl (h, (k, whole ∙ e')))
    ]
Reads-prepend env config key obj size offset n r le short within (inr (inl (large, (k, e)))) = inr (
    inl (
      omega (arith, large),
      (
        k,
        ap (prepend (take n (drop offset obj))) e
            ∙ ap (λ (bs : List ℕ). miscounted bs (negsuc k)) (joined obj size offset n le),
      ),
    ))
Reads-prepend env config key obj size offset n r le short within
      (inr (inr (e, (start, aligned, from, to, refused)))) =
    inr (
      inr (
        ap (prepend (take n (drop offset obj))) e,
        (start, aligned, omega arith, omega arith, refused),
      ))

-- What `read` needs of the states between its rounds: a round gets the chunk, or is refused it,
-- in any state that is good for one chunk more, and touching the chunk keeps a good state.
pub record Rounds (env : Env) (config : S3Config) (key : Text) (obj : List ℕ)
    (Good : ℕ → Pool → Type 0) : Type 0 where
  pub chunk :
      (p : Pool) (start now n : ℕ)
      → Good (suc n) p
      → now < uint64_max
      → start < length obj
      → start % default_chunk_size ≡ 0
      → (q : Pool) × (found : Option Chunk) × (chunk_for env p key start now ≡ some (q, found))
        × Good n q
        × Found env config key obj start found
  pub touch :
      (p : Pool) (start now n : ℕ) → Good n p → now < uint64_max → Good n (touched p key start now)
  pub spent : (p : Pool) (n : ℕ) → Good n p → Good 0 p

IsServing-Rounds :
    (env : Env) (config : S3Config) (key : Text) (obj : List ℕ)
    → key ≢ []
    → length obj + default_chunk_size ≤ size_mod
    → Serves env.client config key obj
    → Rounds env config key obj (IsServing config key obj)
IsServing-Rounds env config key obj named small serves = record {
  chunk = chunk_for-Found env config key obj named small serves;
  touch = touched-IsServing env config key obj named small serves;
  spent = λ p n g. record {
    running = g.running;
    working = g.working;
    no_tasks = g.no_tasks;
    fresh = g.fresh;
    sound = g.sound;
    configured = g.configured;
    holds = g.holds;
    room = omega (arith, g.room);
  };
}

module _ (env : Env) (clock : ℕ → ℕ) (config : S3Config) (key : Text) (obj : List ℕ)
    (time : (n : ℕ) → clock n < uint64_max) (small : length obj + default_chunk_size ≤ size_mod)
    (Good : ℕ → Pool → Type 0) (rounds : Rounds env config key obj Good) where
  abbrev Returns : ℕ → Pool → ℕ → ℕ → Type 0
  Returns fuel p size offset =
      (q : Pool) × (r : ReadResult) × (read_from env clock fuel p key size offset ≡ some (q, r))
      × Good 0 q
      × Reads env config key obj size offset r

  pub read_from-Reads :
      (fuel : ℕ) (p : Pool) (size offset : ℕ)
      → Good fuel p
      → offset + size ≤ length obj
      → 0 < size
      → in_chunk offset + size ≤ fuel * default_chunk_size
      → Returns fuel p size offset
  read_from-Reads zero p size offset g within some_size enough = absurd (omega arith)
  read_from-Reads (suc fuel) p size offset g within some_size enough =
      let start = chunk_start offset in
      let now = clock fuel in
      let split = split_offset offset in
      let (q, found, ran, h, result) =
        rounds.chunk p start now fuel g (time fuel) (omega (arith, split)) (omega arith) in
      elim result [
        | inr (missing, refused) ↦ (
          q,
          failed,
          read_not_found env clock p q key size offset fuel
              (ran ∙ ap (λ (f : Option Chunk). some (q, f)) missing),
          rounds.spent q fuel h,
          inr (inr (refl, (start, omega arith, omega arith, omega (arith, split), refused))),
        )
        | inl (ch, is_found, right) ↦
            let j = in_chunk offset in
            let bs = take default_chunk_size (drop start obj) in
            let n = min size (default_chunk_size - j) in
            let next = touched q key start now in
            let first =
              read_found env clock p q key size offset fuel ch bs
                (ran ∙ ap (λ (f : Option Chunk). some (q, f)) is_found) right
              ∙ copy_chunk_lem bs size j next
                  (after_copy env clock q key size offset fuel (to_copy bs size j)) n
                  (to_copy_lem obj size offset within (omega (arith, small)) some_size) in
            let bytes : copy bs j n ≡ copied (take n (drop offset obj)) =
              copy_lem obj start j n (omega arith) (omega (arith, split))
              ∙ ap (λ (k : ℕ). copied (take n (drop k obj))) split in
            let served = rounds.touch q start now fuel h (time fuel) in
            elim (Bool-cases (ltb n size)) [
              | inr done ↦ (
                next,
                copied (take n (drop offset obj)),
                first
                    ∙ copy_n-all bs (take n (drop offset obj)) size j n next
                        (after_copy env clock q key size offset fuel (to_copy bs size j)) done bytes
                        (omega (arith, length-take n (drop offset obj))),
                rounds.spent next fuel served,
                inl (
                  omega (arith, ltb→le n size done),
                  ap (λ (k : ℕ). copied (take k (drop offset obj)))
                      (omega (arith, ltb→le n size done)),
                ),
              )
              | inl more ↦
                  let less = ltb→lt n size more in
                  let (q', r, rest, final, reads) =
                    read_from-Reads fuel next (size - n) (offset + n) served (omega arith)
                      (omega (arith, less)) (omega (arith, less, enough)) in
                  (
                    q',
                    prepend (take n (drop offset obj)) r,
                    first
                        ∙ copy_n-prepend bs (take n (drop offset obj)) size j n next q' r
                            (after_copy env clock q key size offset fuel (to_copy bs size j)) more
                            bytes
                            (ap (after_copy env clock q key size offset fuel) (
                                to_copy_lem obj size offset within (omega (arith, small)) some_size)
                              ∙ rest),
                    final,
                    Reads-prepend env config key obj size offset n r (omega arith) (omega arith)
                        within reads,
                  )
            ]
      ]

-- On an open pool with workers, no queued task and no value for a promise to come, whose cache
-- satisfies `Inv`, has no file with the empty key and holds only right bytes of the object, `read`
-- of a non-empty range inside the object returns, whichever of its chunks are cached, where no
-- other call and not the predictor runs meanwhile, and leaves a pool of the same kind. Either it
-- copies exactly the object's bytes of the range, and returns their number if that is below 2^31
-- and a negative number if not, or it returns -EIO, which it does only where the client refuses one
-- of the range's chunks. The key is not empty, the client's successful answers have the bytes that
-- were asked for, the object's size and a chunk more fit into a `size_t`, the clock is below
-- `UINT64_MAX`, the fuel is enough for the chunks of the range, and the counter has room for as
-- many chunks.
pub read-Reads :
    (env : Env) (clock : ℕ → ℕ) (fuel : ℕ) (c : FuseContext) (path : Text) (obj : List ℕ)
    (size offset : ℕ)
    → ((n : ℕ) → clock n < uint64_max)
    → path_to_s3_key path ≢ []
    → length obj + default_chunk_size ≤ size_mod
    → Serves env.client c.pool.config (path_to_s3_key path) obj
    → IsServing c.pool.config (path_to_s3_key path) obj fuel c.pool
    → offset + size ≤ length obj
    → 0 < size
    → in_chunk offset + size ≤ fuel * default_chunk_size
    → (q : Pool) × (r : ReadResult) × (read env clock fuel (some c) path size offset
        ≡ some (some (record c { pool = q }), r))
      × IsServing c.pool.config (path_to_s3_key path) obj 0 q
      × Reads env c.pool.config (path_to_s3_key path) obj size offset r
read-Reads env clock fuel c path obj size offset time named small serves g within some_size enough =
    let key = path_to_s3_key path in
    let (q, r, ran, served, reads) =
      read_from-Reads env clock c.pool.config key obj time small (IsServing c.pool.config key obj)
        (IsServing-Rounds env c.pool.config key obj named small serves) fuel c.pool size offset g
        within some_size enough in
    (q, r, read_from-read env clock fuel c path size offset q r ran, served, reads)
