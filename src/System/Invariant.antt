-- ===== src/System/Invariant.antt =====
-- What holds in every state of the parts at work.
use valkyrie_fs.Numeric.{ℤ}
use valkyrie_fs.Cache.Invariant.{new_cache-Inv}
use valkyrie_fs.Cache.Interleaving.{IsSound}
use valkyrie_fs.Base.{
  ◌⊎◌, Bool-cases, ℕ, ◌+◌, ◌≤◌, ◌<◌, ◌≡◌, refl, sym, ap, ◌∙◌, subst, some, Option, List, [], Text,
  ℕ_discrete, length, All, arith, size_mod, Option-cases, inl, inr,
}
use valkyrie_fs.Base.Assoc
use valkyrie_fs.Types.{default_chunk_size}
use valkyrie_fs.Config.{is_empty, Config, S3Config}
use valkyrie_fs.Cache.{new_cache, uint64_max}
use valkyrie_fs.Cache.Contents.{bytes_at-none, bytes_at-access}
use valkyrie_fs.Cache.Growth.{access-IsSound}
use valkyrie_fs.Queue.{new_queue}
use valkyrie_fs.Pool
use valkyrie_fs.Queue
use valkyrie_fs.Pool.{new_pool, S3Client, Pool}
use valkyrie_fs.Pool.Objects.{Holds, Serves}
use valkyrie_fs.Predictor.{new_predictor, on_file_accessed, Predictor}
use valkyrie_fs.Fuse.{refresh, FuseContext, Result, new_context, open_file, readdir, start, stop}
use valkyrie_fs.Fuse.Read.{touched}
use valkyrie_fs.System.{
  urgent, Step, Reach, here, next, opens, lists, asks, touches, predicts, works, starts, stops,
}
use valkyrie_fs.Fuse.Created.{loaded, created, new_context-created, new_context-none}
use valkyrie_fs.System.Tasks.{IsTask, IsRight, submit-IsRight}
use valkyrie_fs.System.Work.{worker_round-IsRight}
use valkyrie_fs.System.Predictions.{
  AreNamed, IsReady, predictor_round-IsReady, load_manifest-AreNamed,
}

-- The context between two steps.
abbrev pub Runs : (Text → List ℕ) → S3Config → ℕ → FuseContext → Type 0
Runs objects config base c = IsReady objects config base c.predictor c.pool

-- Another context with the same pool and the same manifest.
same-Runs :
    (objects : Text → List ℕ) (config : S3Config) (base : ℕ) (c d : FuseContext)
    → d.pool ≡ c.pool
    → d.predictor.manifest ≡ c.predictor.manifest
    → Runs objects config base c
    → Runs objects config base d
same-Runs objects config base c d pool manifest (named, right) =
    (subst AreNamed (sym manifest) named, subst (IsRight objects config base) (sym pool) right)

opened-same :
    (c d : FuseContext) (path : Text) (flags : ℕ) (r : Result (Unit {0}))
    → open_file (some c) path flags ≡ (some d, r)
    → (d.pool ≡ c.pool) × (d.predictor.manifest ≡ c.predictor.manifest)
unfolding open_file on_file_accessed
opened-same c d path flags r e = ground arith

listed-same :
    (s3 : S3Client) (c d : FuseContext) (path : Text) (now : ℕ) (r : Result (List Text))
    → readdir s3 (some c) path now ≡ (some d, r)
    → (d.pool ≡ c.pool) × (d.predictor.manifest ≡ c.predictor.manifest)
unfolding readdir refresh
listed-same s3 c d path now r e = ground arith

started-same :
    (c : FuseContext)
    → (((start c).pool ≡ c.pool) ⊎ ((start c).pool ≡ Pool.start c.config.num_workers c.pool))
      × ((start c).predictor.manifest ≡ c.predictor.manifest)
unfolding start
started-same c = elim (Bool-cases c.is_started) [
  | inl on ↦ rw (on, start) (inl refl, refl)
  | inr off ↦ rw (off, start) (inr refl, refl)
]

shutdown-fields :
    (p : Pool)
    → ((Pool.shutdown p).cache ≡ p.cache)
      × ((Pool.shutdown p).config ≡ p.config)
      × ((Pool.shutdown p).task_queue.items ≡ p.task_queue.items)
      × ((Pool.shutdown p).next_promise ≡ p.next_promise)
      × ((Pool.shutdown p).completed ≡ p.completed)
unfolding Pool.shutdown Queue.shutdown
shutdown-fields p = ground arith

shutdown-IsRight :
    (objects : Text → List ℕ) (config : S3Config) (base : ℕ) (p : Pool)
    → IsRight objects config base p
    → IsRight objects config base (Pool.shutdown p)
shutdown-IsRight objects config base p r =
    let (cache, same, items, promise, completed) = shutdown-fields p in
    record {
      sound = subst IsSound (sym cache) r.sound;
      holds = λ k. subst (λ c. Holds c k (objects k)) (sym cache) (r.holds k);
      configured = same ∙ r.configured;
      issued = omega (arith, promise, r.issued);
      tasks =
          subst (λ (n : ℕ). All (λ x. IsTask n x.item) (Pool.shutdown p).task_queue.items)
            (sym promise)
            (subst (λ xs. All (λ x. IsTask p.next_promise x.item) xs) (sym items) r.tasks);
      fresh = λ k h.
          ap (λ m. Assoc.lookup ℕ_discrete k m) completed ∙ r.fresh k (omega (arith, promise));
    }

stopped-same :
    (c : FuseContext)
    → (((stop c).pool ≡ c.pool) ⊎ ((stop c).pool ≡ Pool.shutdown c.pool))
      × ((stop c).predictor.manifest ≡ c.predictor.manifest)
unfolding stop
stopped-same c = elim (Bool-cases c.is_started) [
  | inl on ↦ (inr (ground arith), ground arith)
  | inr off ↦ (inl (ground arith), ground arith)
]

stopped-Runs :
    (objects : Text → List ℕ) (config : S3Config) (base : ℕ) (c : FuseContext)
    → Runs objects config base c
    → Runs objects config base (stop c)
stopped-Runs objects config base c (named, right) =
    let (pool, manifest) = stopped-same c in
    let named' = subst AreNamed (sym manifest) named in
    elim pool [
      | inl same ↦ (named', subst (IsRight objects config base) (sym same) right)
      | inr down ↦ (
        named',
        subst (IsRight objects config base) (sym down)
            (shutdown-IsRight objects config base c.pool right),
      )
    ]

started-Runs :
    (objects : Text → List ℕ) (config : S3Config) (base : ℕ) (c : FuseContext)
    → Runs objects config base c
    → Runs objects config base (start c)
started-Runs objects config base c (named, right) =
    let (pool, manifest) = started-same c in
    let named' = subst AreNamed (sym manifest) named in
    elim pool [
      | inl same ↦ (named', subst (IsRight objects config base) (sym same) right)
      | inr up ↦ (
        named',
        subst (IsRight objects config base) (sym up) (record {
          sound = right.sound;
          holds = right.holds;
          configured = right.configured;
          issued = right.issued;
          tasks = right.tasks;
          fresh = right.fresh;
        }),
      )
    ]

touched-IsRight :
    (objects : Text → List ℕ) (config : S3Config) (base : ℕ) (p : Pool) (key : Text)
    (offset now : ℕ)
    → now < uint64_max
    → IsRight objects config base p
    → IsRight objects config base (touched p key offset now)
touched-IsRight objects config base p key offset now time r = record {
  sound = access-IsSound p.cache key offset now r.sound time;
  holds = λ k at bs a i e.
      r.holds k at bs a i (sym (bytes_at-access p.cache key offset now k at r.sound.inv time) ∙ e);
  configured = r.configured;
  issued = r.issued;
  tasks = r.tasks;
  fresh = r.fresh;
}

module _ (s3 : S3Client) (objects : Text → List ℕ) (config : S3Config) (base : ℕ)
    (small : (k : Text) → length (objects k) + default_chunk_size ≤ size_mod)
    (serves : (k : Text) → Serves s3 config k (objects k)) where
  pub Step-Runs :
      {c d : FuseContext} → Step s3 c d → Runs objects config base c → Runs objects config base d
  Step-Runs {c} {d} (opens path flags r e) runs =
      let (pool, manifest) = opened-same c d path flags r e in
      same-Runs objects config base c d pool manifest runs
  Step-Runs {c} {d} (lists path now r e) runs =
      let (pool, manifest) = listed-same s3 c d path now r e in
      same-Runs objects config base c d pool manifest runs
  Step-Runs {c} (asks key start named aligned e) (keys, right) =
      rw e (keys, submit-IsRight objects config base c.pool key start urgent right named aligned)
  Step-Runs {c} (touches key offset now time e) (keys, right) =
      rw e (keys, touched-IsRight objects config base c.pool key offset now time right)
  Step-Runs {c} (predicts p q ran e) runs =
      rw e (predictor_round-IsReady objects config base c.predictor p c.pool q ran runs)
  Step-Runs {c} (works now q time working fits ran e) (keys, right) = rw e (
    keys,
    worker_round-IsRight s3 objects config base small serves c.pool q now right time fits ran,
  )
  Step-Runs {c} (starts e) runs = rw e (started-Runs objects config base c runs)
  Step-Runs {c} (stops e) runs = rw e (stopped-Runs objects config base c runs)

  pub Reach-Runs :
      {c d : FuseContext} → Reach s3 c d → Runs objects config base c → Runs objects config base d
  Reach-Runs here runs = runs
  Reach-Runs (next r st) runs = Step-Runs st (Reach-Runs r runs)

new_predictor-manifest : (n : ℤ) (p : Predictor) → new_predictor n ≡ some p → p.manifest ≡ []
unfolding new_predictor
new_predictor-manifest n p e = ground arith

loaded-AreNamed :
    (config : Config) (manifest : Option (List Text)) (p : Predictor)
    → p.manifest ≡ []
    → AreNamed (loaded config manifest p).manifest
loaded-AreNamed config manifest p e =
    let none_yet : AreNamed p.manifest = subst AreNamed (sym e) tt in
    elim (Bool-cases (is_empty config.manifest_path)) [
      | inl h ↦ rw h none_yet
      | inr h ↦ rw h (load_manifest-AreNamed p manifest none_yet)
    ]

new_pool-IsRight :
    (objects : Text → List ℕ) (config : S3Config) (n : ℕ)
    → IsRight objects config 0 (new_pool config (new_cache n))
unfolding new_pool new_queue new_cache Assoc.lookup
new_pool-IsRight objects config n = record {
  sound = record { inv = new_cache-Inv n; named = refl };
  holds = λ k start bs a i e. absurd (cc (bytes_at-none (new_cache n) k start refl, e));
  configured = refl;
  issued = omega arith;
  tasks = tt;
  fresh = λ k h. refl;
}

pub new_context-Runs :
    (objects : Text → List ℕ) (config : Config) (manifest : Option (List Text)) (c : FuseContext)
    → new_context config manifest ≡ some c
    → Runs objects config.s3_config 0 c
new_context-Runs objects config manifest c e =
    elim (Option-cases (new_predictor config.lookahead)) [
      | inl f ↦ absurd (cc (new_context-none config manifest f, e))
      | inr (p, f) ↦
          let made = new_context-created config manifest p f in
          let same : created config manifest p ≡ c = cc in
          subst (Runs objects config.s3_config 0) same (
            loaded-AreNamed config manifest p (new_predictor-manifest config.lookahead p f),
            new_pool-IsRight objects config.s3_config config.cache_size,
          )
    ]
