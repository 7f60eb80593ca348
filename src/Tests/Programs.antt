-- ===== src/Tests/Programs.antt =====
-- The program as a whole: started, stopped, started again, and its output.
use valkyrie_fs.Base.{
  text_dec, inr, inl, Option-cases, ℕ, ◌<◌, ◌≡◌, refl, true, false, none, some, List, [], ◌∷◌, Text,
  codes, drop, arith, size_mod,
}
use valkyrie_fs.Numeric.{ℤ, pos, stoull}
use valkyrie_fs.Config.{default_config}
use valkyrie_fs.Pool
use valkyrie_fs.Base.Assoc
use valkyrie_fs.Pool.{Pool, new_pool}
use valkyrie_fs.Cache.{store_chunk, get_chunk, new_cache}
use valkyrie_fs.Cache.Stats.{get_stats}
use valkyrie_fs.Fuse.{start, stop, path_to_s3_key, getattr, readdir, is_root}
use valkyrie_fs.Fuse.Lifecycle.{
  Mount, start_mount, start_workers, start_predictor, stop_mount, destruct, worker_ids,
}
use valkyrie_fs.Fuse.Restarts.{
  IsFresh, Life, fresh, starts, stops, IsJoined, Life-destruct, restart-destruct,
}
use valkyrie_fs.Fuse.Read.{Env}
use valkyrie_fs.Fuse.Stopped.{Degrades, stop-Degrades}
use valkyrie_fs.Fuse.Mac.{forget, mac_getattr, mac_readdir, mac_callbacks-callbacks}
use valkyrie_fs.Main.{mount_of}
use valkyrie_fs.Main.Outcomes.{RunsOnce, Ending, created-IsFresh, run_main-Ending}
use valkyrie_fs.Metrics.{generate_prometheus_metrics}
use valkyrie_fs.Metrics.Scrape.{scrape, scrape-metrics}
use valkyrie_fs.Logger.{warn_level, log}
use valkyrie_fs.Logger.Timestamps.{body, log-Line}
use valkyrie_fs.Tests.Systems.{mounted, running, predictor, made_predictor, fetched}
use valkyrie_fs.Tests.Files.{clock}
use valkyrie_fs.Tests.Pools.{client}

abbrev mount : Mount
mount = mount_of mounted

mount-IsFresh : IsFresh mount
mount-IsFresh = created-IsFresh default_config none predictor made_predictor

-- With its eight workers and the predictor.
abbrev started : Mount
started = record { context = running; workers = worker_ids 0 8; predictor_thread = true }

was_started : start_mount mount ≡ some started
unfolding start_mount start start_workers start_predictor new_pool
was_started = refl

mount_open : mount.context.pool.shutdown_flag ≡ false
unfolding new_pool
mount_open = refl

started-Life : Life mount started
started-Life = starts fresh mount_open was_started

Life-destruct_example :
    (destruct started ≡ true) × IsJoined started × (destruct (stop_mount started) ≡ true)
Life-destruct_example = Life-destruct mount mount-IsFresh started-Life

stopped_down : (stop_mount started).context.pool.shutdown_flag ≡ true
unfolding stop_mount stop Pool.shutdown new_pool
stopped_down = refl

restart-destruct_example :
    (b : Mount) × (start_mount (stop_mount started) ≡ some b)
    × (b.context.pool.shutdown_flag ≡ true)
    × (destruct b ≡ false)
    × (destruct (stop_mount b) ≡ false)
restart-destruct_example =
    restart-destruct mount mount-IsFresh (stops started-Life refl) stopped_down

absent : get_chunk running.pool.cache (path_to_s3_key (codes "/a")) 0 ≡ none
unfolding new_pool new_cache get_chunk path_to_s3_key Assoc.lookup
absent = refl

abbrev env : Env
env = record { client = client; late = 1 }

stop-Degrades_example : Degrades env clock 3 running (codes "/a") 2 1 9
stop-Degrades_example =
    stop-Degrades env clock 3 running (codes "/a") 2 1 9 refl mount_open absent refl

mac_callbacks-callbacks_example :
    (forget (is_root (codes "/")) (mac_getattr 501 20 (some running) (codes "/"))
      ≡ getattr (some running) (codes "/"))
    × (mac_readdir client (some running) (codes "/") 9
        ≡ readdir client (some running) (codes "/") 9)
mac_callbacks-callbacks_example = mac_callbacks-callbacks 501 20 client (some running) (codes "/") 9

-- A FUSE loop that starts the context and is interrupted.
abbrev loop : List Text → Mount → Mount × ℤ
loop args m = elim (start_mount m) [ none ↦ (m, pos 1) | some m' ↦ (m', pos 0) ]

loop-RunsOnce : RunsOnce loop
loop-RunsOnce args m f = elim (Option-cases (start_mount m)) [
  | inl e ↦ rw (loop, e) fresh
  | inr (m', e) ↦ rw (loop, e) (starts fresh f.pool_open e)
]

abbrev args : List Text
args =
    codes "--mount"
    ∷ codes "/mnt"
    ∷ codes "--bucket"
    ∷ codes "b"
    ∷ codes "--region"
    ∷ codes "eu"
    ∷ []

run_main-Ending_example : Ending loop none (codes "valkyrie") args
run_main-Ending_example = run_main-Ending loop none (codes "valkyrie") args loop-RunsOnce

little : (get_stats fetched.cache).current_size < size_mod
unfolding get_stats store_chunk new_cache Assoc.lookup Assoc.insert text_dec
little = omega arith

few : fetched.stats.total_downloads < size_mod
few = omega arith

scrape-metrics_example :
    (scrape (codes "valkyrie_cache_size_bytes ") (generate_prometheus_metrics fetched)
      ≡ some (get_stats fetched.cache).current_size)
    × (scrape (codes "valkyrie_downloads_total ") (generate_prometheus_metrics fetched) ≡ some 1)
scrape-metrics_example = scrape-metrics fetched little few

abbrev put_time : ℕ → Text
put_time n = codes "2024-02-29 12:00:00"

log-Line_example :
    (stoull (drop 20 (log put_time 1005000000 warn_level (codes "Cache") (codes "full"))) ≡ some 5)
    × (drop 25 (log put_time 1005000000 warn_level (codes "Cache") (codes "full"))
        ≡ body put_time 1005000000 warn_level (codes "Cache") (codes "full"))
log-Line_example = log-Line put_time 1005000000 warn_level (codes "Cache") (codes "full")
