-- ===== src/Metrics.antt =====
-- src/metrics_server.hpp and src/metrics_server.cpp. `start` starts no thread; the text of the
-- metrics is what a scraper would read.
pub mod Scrape
use valkyrie_fs.Base.{Bool, true, false, Text, codes, ◌++◌}
use valkyrie_fs.Numeric.{ℤ, to_string}
use valkyrie_fs.Cache.{CacheManager}
use valkyrie_fs.Cache.Stats.{get_stats}
use valkyrie_fs.Pool.{Pool}

pub record MetricsServer : Type 0 where
  pub port : ℤ
  pub server_thread : Bool
  pub stop_flag : Bool

unfoldable pub new_server : ℤ → MetricsServer
new_server port = record { port = port; server_thread = false; stop_flag = false }

-- `MetricsServer::start`, with the call of `std::thread` in a comment.
unfoldable pub start : MetricsServer → MetricsServer
start server = server

-- `MetricsServer::stop`, which joins the thread if there is one.
unfoldable pub stop : MetricsServer → MetricsServer
stop server = record server { stop_flag = true; server_thread = false }

-- `MetricsServer::generate_prometheus_metrics`. The pool refers to the cache.
unfoldable pub generate_prometheus_metrics : Pool → Text
unfolding to_string get_stats
generate_prometheus_metrics p =
    codes "# HELP valkyrie_cache_size_bytes Current cache size in bytes\n"
    ++ (codes "# TYPE valkyrie_cache_size_bytes gauge\n"
        ++ (codes "valkyrie_cache_size_bytes "
            ++ (to_string (get_stats p.cache).current_size
                ++ (codes "\n\n"
                    ++ (codes "# HELP valkyrie_downloads_total Total S3 downloads\n"
                        ++ (codes "# TYPE valkyrie_downloads_total counter\n"
                            ++ (codes "valkyrie_downloads_total "
                                ++ (to_string p.stats.total_downloads ++ codes "\n\n"))))))))
