-- ===== src/Fuse/Objects.antt =====
-- The chunk of an object that a round of `read` gets, cached or not.
use valkyrie_fs.Fuse.Bytes.{chunk_for_cached}
use valkyrie_fs.Base.{
  true, subst, [], ℕ, suc, ◌+◌, ◌*◌, ◌%◌, ◌≤◌, ◌<◌, ◌≡◌, ◌≢◌, ◌⊎◌, inl, inr, refl, sym, ap, ◌∙◌,
  Bool, false, none, some, Option, List, ◌∷◌, Text, ℕ_discrete, length, take, drop, arith, size_mod,
  Option-cases, if_neg,
}
use valkyrie_fs.Base.Assoc
use valkyrie_fs.Types.{default_chunk_size, urgent}
use valkyrie_fs.Config.{S3Config}
use valkyrie_fs.Queue.{new_queue}
use valkyrie_fs.Cache.{Chunk, get_chunk, uint64_max}
use valkyrie_fs.Cache.Contents.{bytes_at-access, get_chunk-bytes_at}
use valkyrie_fs.Cache.Interleaving.{IsSound}
use valkyrie_fs.Cache.Growth.{access-IsSound, access-current_size}
use valkyrie_fs.Pool.{Pool}
use valkyrie_fs.Pool.Objects.{Serves, Holds, chunk_request, download_chunk-Fetches}
use valkyrie_fs.Fuse.Read.{Env, fetch, chunk_for, touched}
use valkyrie_fs.Fuse.Fetch.{not_chosen, chosen, IsIdle, busy, finished, fetched}
use valkyrie_fs.Fuse.Misses.{fetch_when_missing}

-- An open pool without tasks whose cached chunks of the object are right, with room in the counter
-- for `n` chunks more.
pub record IsServing (config : S3Config) (key : Text) (obj : List ℕ) (n : ℕ) (p : Pool)
    : Type 0 where
  pub running : p.shutdown_flag ≡ false
  pub working : p.working ≡ true
  pub no_tasks : p.task_queue ≡ new_queue
  -- No promise to come has a value.
  pub fresh : (k : ℕ) → p.next_promise ≤ k → Assoc.lookup ℕ_discrete k p.completed ≡ none
  pub sound : IsSound p.cache
  pub configured : p.config ≡ config
  pub holds : Holds p.cache key obj
  pub room : p.cache.current_size + n * default_chunk_size < size_mod

pub fresh-finished :
    (n k : ℕ) (ok : Bool) (rest : List (ℕ × Bool))
    → n < k
    → Assoc.lookup ℕ_discrete k rest ≡ none
    → Assoc.lookup ℕ_discrete k ((n, ok) ∷ rest) ≡ none
unfolding Assoc.lookup
fresh-finished n k ok rest h e = rw (if_neg (ℕ_discrete n k) (λ p. absurd (omega arith))) e

-- The chunk of an object that a round of `read` gets, or a refusal.
abbrev pub Found : Env → S3Config → Text → List ℕ → ℕ → Option Chunk → Type 0
Found env config key obj start found =
    ((ch : Chunk) × (found ≡ some ch) × (ch.bytes ≡ take default_chunk_size (drop start obj)))
    ⊎ ((found ≡ none) × (env.client.get_object (chunk_request config key start) ≡ none))

module _ (env : Env) (config : S3Config) (key : Text) (obj : List ℕ) (named : key ≢ [])
    (small : length obj + default_chunk_size ≤ size_mod)
    (serves : Serves env.client config key obj) where
  fetch-Found :
      (p : Pool) (start now n : ℕ)
      → IsServing config key obj (suc n) p
      → now < uint64_max
      → start < length obj
      → start % default_chunk_size ≡ 0
      → (q : Pool) × (found : Option Chunk) × (fetch env p key start now ≡ some (q, found))
        × IsServing config key obj n q
        × Found env config key obj start found
  fetch-Found p start now n g time inside aligned =
      let idle : IsIdle p = record {
        running = g.running;
        working = g.working;
        no_tasks = g.no_tasks;
        fresh = g.fresh p.next_promise (omega arith);
      } in
      let serves' =
        subst (λ (c : S3Config). Serves env.client c key obj) (sym g.configured) serves in
      let (q, ok, ran, f) =
        download_chunk-Fetches env.client (busy p) key obj start now urgent p.next_promise g.sound
          named time (omega (arith, g.room)) small inside aligned serves' g.holds in
      let whole = fetched env p key start now idle q ok ran f.leaves.running f.leaves.queue in
      let next : IsServing config key obj n (finished q p.next_promise ok) = record {
        running = f.leaves.running;
        working = f.leaves.working ∙ g.working;
        no_tasks = f.leaves.queue;
        fresh = λ k h.
            fresh-finished p.next_promise k ok q.completed (omega (arith, f.leaves.promise)) (
              ap (λ (m : List (ℕ × Bool)). Assoc.lookup ℕ_discrete k m) f.leaves.values
              ∙ g.fresh k (omega (arith, f.leaves.promise)));
        sound = f.sound;
        configured = f.leaves.config ∙ g.configured;
        holds = f.holds;
        room = omega (arith, f.size, g.room);
      } in
      elim f.outcome [
        | inl (success, cached) ↦ (
          _,
          _,
          whole
              ∙ ap (λ (o : Option Chunk). some (finished q p.next_promise ok, o))
                  (chosen ok (get_chunk q.cache key start) success ∙ cached),
          next,
          inl (_, refl, refl),
        )
        | inr (failure, refused) ↦ (
          _,
          _,
          whole
              ∙ ap (λ (o : Option Chunk). some (finished q p.next_promise ok, o))
                  (not_chosen ok (get_chunk q.cache key start) failure),
          next,
          inr (
            refl,
            ap (λ (c : S3Config). env.client.get_object (chunk_request c key start))
                  (sym g.configured)
                ∙ refused,
          ),
        )
      ]

  pub chunk_for-Found :
      (p : Pool) (start now n : ℕ)
      → IsServing config key obj (suc n) p
      → now < uint64_max
      → start < length obj
      → start % default_chunk_size ≡ 0
      → (q : Pool) × (found : Option Chunk) × (chunk_for env p key start now ≡ some (q, found))
        × IsServing config key obj n q
        × Found env config key obj start found
  chunk_for-Found p start now n g time inside aligned =
      elim (Option-cases (get_chunk p.cache key start)) [
        | inl missing ↦
            let (q, found, ran, h, r) = fetch-Found p start now n g time inside aligned in
            (q, found, fetch_when_missing env p key start now missing ∙ ran, h, r)
        | inr (ch, here) ↦ (
          p,
          some ch,
          chunk_for_cached env p key start now ch here,
          record {
            running = g.running;
            working = g.working;
            no_tasks = g.no_tasks;
            fresh = g.fresh;
            sound = g.sound;
            configured = g.configured;
            holds = g.holds;
            room = omega (arith, g.room);
          },
          inl (
            ch,
            refl,
            g.holds start ch.bytes aligned inside (get_chunk-bytes_at p.cache key start ch here),
          ),
        )
      ]

  pub touched-IsServing :
      (p : Pool) (start now n : ℕ)
      → IsServing config key obj n p
      → now < uint64_max
      → IsServing config key obj n (touched p key start now)
  touched-IsServing p start now n g time = record {
    running = g.running;
    working = g.working;
    no_tasks = g.no_tasks;
    fresh = g.fresh;
    sound = access-IsSound p.cache key start now g.sound time;
    configured = g.configured;
    holds = λ at bs a i e.
        g.holds at bs a i (sym (bytes_at-access p.cache key start now key at g.sound.inv time) ∙ e);
    room = omega (arith, access-current_size p.cache key start now g.sound time, g.room);
  }
