-- ===== src/Main/Outcomes.antt =====
-- How the program ends.
use valkyrie_fs.Base.{
  ℕ, ◌<◌, ◌≡◌, ◌⊎◌, inl, inr, refl, ap, ◌∙◌, Bool, true, false, Option, none, some, List, Text,
  Bool-cases, Option-cases, arith,
}
use valkyrie_fs.Numeric.{ℤ, pos, negsuc}
use valkyrie_fs.Config.Accepts.{IsValid, InRange, parse-IsValid}
use valkyrie_fs.Predictor.{Predictor, new_predictor, load_manifest}
use valkyrie_fs.Config.{Config, default_config, parse, is_empty}
use valkyrie_fs.Pool.{new_pool}
use valkyrie_fs.Predictor.Lookahead.{new_predictor-IsValid}
use valkyrie_fs.Fuse.{FuseContext, new_context}
use valkyrie_fs.Fuse.Lifecycle.{Mount, destruct}
use valkyrie_fs.Fuse.Restarts.{IsFresh, Life, Life-destruct}
use valkyrie_fs.Fuse.Created.{loaded, created, new_context-created, new_context-none}
use valkyrie_fs.Main.{exits, aborts, leave, fuse_args, mount_of, mounted, run_main, signal_handler}

-- `fuse_main` hands the context to the callbacks, which start and stop it, and nothing starts it
-- again after a stop.
abbrev pub RunsOnce : (List Text → Mount → Mount × ℤ) → Type 0
RunsOnce fuse_main = (args : List Text) (m : Mount) → IsFresh m → Life m (fuse_main args m).0

new_predictor-open : (n : ℤ) (p : Predictor) → new_predictor n ≡ some p → p.stop_flag ≡ false
unfolding new_predictor
new_predictor-open n p e = ground arith

load-open : (p : Predictor) (m : Option (List Text)) → (load_manifest p m).0.stop_flag ≡ p.stop_flag
unfolding load_manifest
load-open p m = ground arith

loaded-open :
    (config : Config) (manifest : Option (List Text)) (p : Predictor)
    → p.stop_flag ≡ false
    → (loaded config manifest p).stop_flag ≡ false
loaded-open config manifest p e = elim (Bool-cases (is_empty config.manifest_path)) [
  | inl h ↦ rw (h, e)
  | inr h ↦ rw (h, load-open p manifest, e)
]

pub created-IsFresh :
    (config : Config) (manifest : Option (List Text)) (p : Predictor)
    → new_predictor config.lookahead ≡ some p
    → IsFresh (mount_of (created config manifest p))
unfolding new_pool
created-IsFresh config manifest p e = record {
  not_started = refl;
  pool_open = refl;
  predictor_open = loaded-open config manifest p (new_predictor-open config.lookahead p e);
  no_workers = refl;
  no_predictor = refl;
}

module _ (fuse_main : List Text → Mount → Mount × ℤ) (manifest : Option (List Text))
    (program : Text) (args : List Text) where
  -- The three ends of the program.
  abbrev pub Ending : Type 0
  Ending =
      ((config : Config) × (parse default_config args ≡ (config, false))
        × (run_main fuse_main manifest program args ≡ exits (pos 1)))
      ⊎ (((config : Config) × (n : ℕ) × (parse default_config args ≡ (config, true))
            × IsValid config
            × (config.lookahead ≡ pos n)
            × (100 < n)
            × (run_main fuse_main manifest program args ≡ aborts))
          ⊎ ((config : Config) × (c : FuseContext) × (parse default_config args ≡ (config, true))
              × IsValid config
              × (new_context config manifest ≡ some c)
              × IsFresh (mount_of c)
              × (run_main fuse_main manifest program args
                  ≡ exits (fuse_main (fuse_args program config) (mount_of c)).1)))

  refused :
      (config : Config)
      → parse default_config args ≡ (config, false)
      → run_main fuse_main manifest program args ≡ exits (pos 1)
  unfolding run_main mounted
  refused config e = ap (mounted fuse_main manifest program) e

  thrown :
      (config : Config)
      → parse default_config args ≡ (config, true)
      → new_context config manifest ≡ none
      → run_main fuse_main manifest program args ≡ aborts
  unfolding run_main mounted
  thrown config e f = ap (mounted fuse_main manifest program) e ∙ rw (mounted, f) refl

  ran :
      (config : Config) (c : FuseContext)
      → parse default_config args ≡ (config, true)
      → new_context config manifest ≡ some c
      → destruct (fuse_main (fuse_args program config) (mount_of c)).0 ≡ true
      → run_main fuse_main manifest program args
        ≡ exits (fuse_main (fuse_args program config) (mount_of c)).1
  unfolding run_main mounted leave
  ran config c e f g = ap (mounted fuse_main manifest program) e ∙ rw (mounted, f, leave, g) refl

  valid_number : (z : ℤ) → InRange 1 256 z → (n : ℕ) × (z ≡ pos n)
  valid_number (pos n) h = (n, refl)
  valid_number (negsuc n) h = absurd h

  accepted :
      RunsOnce fuse_main → (config : Config) → parse default_config args ≡ (config, true) → Ending
  accepted once config e =
      let valid = parse-IsValid default_config args config e in
      let (n, number) = valid_number config.lookahead valid.lookahead in
      elim (Option-cases (new_predictor config.lookahead)) [
        | inl f ↦
            let large = (new_predictor-IsValid config n valid number).0 f in
            inr (
              inl (
                config,
                n,
                e,
                valid,
                number,
                large.0,
                thrown config e (new_context-none config manifest f),
              ))
        | inr (p, f) ↦
            let c = created config manifest p in
            let made = new_context-created config manifest p f in
            let fresh = created-IsFresh config manifest p f in
            let life = once (fuse_args program config) (mount_of c) fresh in
            inr (
              inr (
                config,
                c,
                e,
                valid,
                made,
                fresh,
                ran config c e made (Life-destruct (mount_of c) fresh life).0,
              ))
      ]

  parsed : (r : Config × Bool) → parse default_config args ≡ r → RunsOnce fuse_main → Ending
  parsed (config, true) e once = accepted once config e
  parsed (config, false) e once = inl (config, e, refused config e)

  -- For a `fuse_main` that starts and stops the context it is given and does not start it again
  -- after a stop, `main` has one of three ends. The arguments are refused and the status is 1. Or
  -- they are accepted, the configuration is valid with a lookahead over 100, and the program is
  -- terminated by the exception of the predictor's constructor. Or they are accepted, the
  -- configuration is valid, and the status is that of `fuse_main`, run with the program's name, the
  -- mount point and the fixed options on a new context that was never started.
  pub run_main-Ending : RunsOnce fuse_main → Ending
  run_main-Ending once = parsed (parse default_config args) refl once

-- A signal.
pub signal_handler-exits :
    (m : Mount) {a : Mount} (signum : ℕ)
    → IsFresh m
    → Life m a
    → signal_handler (some a) signum ≡ exits (pos signum)
unfolding signal_handler leave
signal_handler-exits m {a} signum f l = rw ((Life-destruct m f l).2) refl
