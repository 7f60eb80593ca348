-- ===== src/Metrics/Scrape.antt =====
-- A scraper that reads the metrics back.
use valkyrie_fs.Base.{
  ◌+◌, ℕ, ◌<◌, ◌≡◌, refl, ap, ◌∙◌, Bool, true, false, ◌&&◌, Option, none, some, List, [], ◌∷◌, ◌++◌,
  Text, codes, length, drop, arith, ◌==◌, if◌then◌else◌, size_mod,
}
use valkyrie_fs.Numeric.{to_string, stoull, digit_text, IsDigits}
use valkyrie_fs.Numeric.Decimal.{to_string-IsDigits, stoull-to_string}
use valkyrie_fs.Cache.Stats.{get_stats}
use valkyrie_fs.Pool.{Pool}
use valkyrie_fs.Metrics.{generate_prometheus_metrics}

abbrev starts_with : Text → Text → Bool
starts_with [] t = true
starts_with (k ∷ ks) [] = false
starts_with (k ∷ ks) (c ∷ cs) = (k == c) && starts_with ks cs

-- The number after the first line break that a sample's name and a space follow.
unfoldable pub scrape : Text → Text → Option ℕ
unfolding stoull
scrape key [] = none
scrape key (c ∷ cs) =
    let rest = scrape key cs in
    if starts_with (b'\n' ∷ key) (c ∷ cs) then stoull (drop (length key) cs) else rest

not_break : (k d : ℕ) (ks cs : Text) → d < 10 → starts_with (b'\n' ∷ ks) ((b'0' + d) ∷ cs) ≡ false
not_break k d ks cs h = ground arith

-- No sample begins inside a number.
scrape_digits :
    (key : Text) (ds : List ℕ) (rest : Text)
    → IsDigits ds
    → scrape key (digit_text ds ++ rest) ≡ scrape key rest
unfolding scrape
scrape_digits key [] rest h = refl
scrape_digits key (d ∷ ds) rest h =
    rw (not_break 0 d key (digit_text ds ++ rest) h.0) (scrape_digits key ds rest h.1)

scrape-to_string :
    (key : Text) (n : ℕ) (rest : Text)
    → n < size_mod
    → scrape key (to_string n ++ rest) ≡ scrape key rest
scrape-to_string key n rest small =
    let (ds, e, digits, _, _) = to_string-IsDigits n small in
    ap (λ (t : Text). scrape key (t ++ rest)) e ∙ scrape_digits key ds rest digits

abbrev cache_size : Text
cache_size = codes "valkyrie_cache_size_bytes "

abbrev downloads : Text
downloads = codes "valkyrie_downloads_total "

abbrev tail : ℕ → Text
tail m =
    codes "\n\n"
    ++ (codes "# HELP valkyrie_downloads_total Total S3 downloads\n"
        ++ (codes "# TYPE valkyrie_downloads_total counter\n"
            ++ (codes "valkyrie_downloads_total " ++ (to_string m ++ codes "\n\n"))))

first_sample :
    (p : Pool)
    → scrape cache_size (generate_prometheus_metrics p)
      ≡ stoull (to_string (get_stats p.cache).current_size ++ tail p.stats.total_downloads)
unfolding scrape generate_prometheus_metrics
first_sample p = refl

second_sample :
    (p : Pool)
    → scrape downloads (generate_prometheus_metrics p)
      ≡ scrape downloads
          (to_string (get_stats p.cache).current_size ++ tail p.stats.total_downloads)
unfolding scrape generate_prometheus_metrics
second_sample p = refl

tail_sample : (m : ℕ) → scrape downloads (tail m) ≡ stoull (to_string m ++ codes "\n\n")
unfolding scrape
tail_sample m = refl

-- Where the cache's size and the number of downloads are below 2^64, a scraper that looks in the
-- generated metrics for a line with a sample's name and reads the number after it gets exactly the
-- size for the cache's sample and the number for the downloads' sample.
pub scrape-metrics :
    (p : Pool)
    → (get_stats p.cache).current_size < size_mod
    → p.stats.total_downloads < size_mod
    → (scrape cache_size (generate_prometheus_metrics p) ≡ some (get_stats p.cache).current_size)
      × (scrape downloads (generate_prometheus_metrics p) ≡ some p.stats.total_downloads)
scrape-metrics p a b =
    let size = (get_stats p.cache).current_size in
    let total = p.stats.total_downloads in
    (
      first_sample p ∙ stoull-to_string size (tail total) a refl,
      second_sample p
          ∙ scrape-to_string downloads size (tail total) a
          ∙ tail_sample total
          ∙ stoull-to_string total (codes "\n\n") b refl,
    )
