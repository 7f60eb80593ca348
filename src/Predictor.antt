-- ===== src/Predictor.antt =====
-- src/predictor.hpp and src/predictor.cpp. The lines of the manifest file are an argument; what is
-- printed is left out.
pub mod Names
pub mod Lookahead
pub mod Pattern
pub mod Padding
pub mod Manifest
pub mod Chain
pub mod InFlight
unfoldable pub use Names.*
use valkyrie_fs.Base.{
  ℕ, zero, suc, ◌+◌, ◌*◌, ◌-◌, ◌≤◌, ◌<◌, ◌≡◌, refl, Bool, true, false, not, ◌&&◌, ◌||◌, Option,
  none, some, List, [], ◌∷◌, ◌++◌, map, Text, text_dec, ℕ_discrete, codes, length, get_elem?, ltb,
  leb, ◌==◌, ite, if◌then◌else◌, arith, add64, ◌>>=◌,
}
use mathlib.Core.List.{reverse}
use valkyrie_fs.Base.Assoc
use valkyrie_fs.Types.{Priority, normal, is_digit, default_chunk_size}
use valkyrie_fs.Numeric.{ℤ, pos, negsuc, int_ltb, stoi, to_string, int_bound}
use valkyrie_fs.Cache.{CacheManager, contains}
use valkyrie_fs.Pool.{Pool, submit}

pub record Stats : Type 0 where
  pub predictions_made : ℕ
  pub prefetches_issued : ℕ
  pub pattern_hits : ℕ
  pub manifest_hits : ℕ

-- A future is the number of its promise; `none` is a broken promise.
pub record Predictor : Type 0 where
  pub lookahead : ℤ
  pub manifest_mode : Bool
  pub manifest : List Text
  pub last_accessed : Text
  pub in_flight : List Text
  pub in_flight_futures : List (Text × Option ℕ)
  pub stop_flag : Bool
  pub stats : Stats

-- The constructor; `none` is `std::invalid_argument`.
unfoldable pub new_predictor : ℤ → Option Predictor
new_predictor lookahead =
    if int_ltb lookahead (pos 0) || int_ltb (pos 100) lookahead
    then none
    else some (record {
      lookahead = lookahead;
      manifest_mode = false;
      manifest = [];
      last_accessed = [];
      in_flight = [];
      in_flight_futures = [];
      stop_flag = false;
      stats = record {
        predictions_made = 0;
        prefetches_issued = 0;
        pattern_hits = 0;
        manifest_hits = 0;
      };
    })

unfoldable pub on_file_accessed : Predictor → Text → Predictor
on_file_accessed p s3_key = record p { last_accessed = s3_key }

-- `" \t\r\n"`
abbrev pub is_blank : ℕ → Bool
is_blank c =
    if c == 32 then true else (if c == 9 then true else (if c == 13 then true else c == 10))

unfoldable pub trim_left : Text → Text
trim_left [] = []
trim_left (c ∷ cs) = let rest = trim_left cs in if is_blank c then rest else c ∷ cs

-- Everything after the last character that is not blank goes.
unfoldable pub trim_right : Text → Text
trim_right [] = []
trim_right (c ∷ cs) = elim (trim_right cs) [
  | [] ↦ if is_blank c then [] else c ∷ []
  | d ∷ ds ↦ c ∷ d ∷ ds
]

-- A line that is kept, trimmed: not empty, and no comment.
unfoldable pub manifest_line : Text → Option Text
unfolding trim_left trim_right
manifest_line line = elim (trim_right (trim_left line)) [
  | [] ↦ none
  | c ∷ cs ↦ if c == b'#' then none else some (c ∷ cs)
]

unfoldable pub manifest_lines : List Text → List Text
unfolding manifest_line
manifest_lines [] = []
manifest_lines (line ∷ lines) = elim (manifest_line line) [
  | none ↦ manifest_lines lines
  | some key ↦ key ∷ manifest_lines lines
]

abbrev pub has_entries : List Text → Bool
has_entries [] = false
has_entries (_ ∷ _) = true

-- The lines of the file, or `none` if it cannot be opened.
unfoldable pub load_manifest : Predictor → Option (List Text) → Predictor × Bool
unfolding manifest_lines
load_manifest p none = (p, false)
load_manifest p (some lines) = (
  record p { manifest = manifest_lines lines; manifest_mode = has_entries (manifest_lines lines) },
  true,
)

-- The loop of `find_in_manifest`, from index `i` on.
unfoldable pub find_from : ℕ → List Text → Text → Option ℕ
find_from i [] s3_key = none
find_from i (key ∷ keys) s3_key = ite (text_dec key s3_key) (some i) (find_from (i + 1) keys s3_key)

unfoldable pub find_in_manifest : Predictor → Text → Option ℕ
unfolding find_from
find_in_manifest p s3_key = find_from 0 p.manifest s3_key

-- The rounds left of a loop to `lookahead_`.
abbrev pub rounds : ℤ → ℕ
rounds (pos n) = n
rounds (negsuc n) = 0

-- The loop over the manifest from index `next_pos` on.
unfoldable pub from_manifest : ℕ → ℕ → List Text → List Text
from_manifest zero next_pos manifest = []
from_manifest (suc n) next_pos manifest = elim (get_elem? manifest next_pos) [
  | none ↦ from_manifest n (next_pos + 1) manifest
  | some key ↦ key ∷ from_manifest n (next_pos + 1) manifest
]

-- The loop over predicted names. `none` is an overflow.
unfoldable pub from_pattern : ℕ → Text → Option (List Text)
unfolding predict_next_sequential
from_pattern zero current = some []
from_pattern (suc n) current = elim (predict_next_sequential current) [
  | nothing ↦ some []
  | overflow ↦ none
  | predicted next ↦ do rest ← from_pattern n next; some (next ∷ rest)
]

unfoldable pub is_in_flight : List Text → Text → Bool
is_in_flight [] key = false
is_in_flight (k ∷ ks) key = ite (text_dec k key) true (is_in_flight ks key)

-- One file of the loop that issues prefetch tasks.
unfoldable pub issue_one : Predictor → Pool → Text → Predictor × Pool
unfolding contains is_in_flight submit
issue_one p pool file_key =
    if contains pool.cache file_key
    then (p, pool)
    else (if is_in_flight p.in_flight file_key
        then (p, pool)
        else (let (pool', future) = submit pool file_key 0 default_chunk_size normal in
            (
              record p {
                in_flight = file_key ∷ p.in_flight;
                in_flight_futures = p.in_flight_futures ++ (file_key, future) ∷ [];
                stats = record p.stats { prefetches_issued = add64 p.stats.prefetches_issued 1 };
              },
              pool',
            )))

unfoldable pub issue : Predictor → Pool → List Text → Predictor × Pool
unfolding issue_one
issue p pool [] = (p, pool)
issue p pool (key ∷ keys) = issue (issue_one p pool key).0 (issue_one p pool key).1 keys

abbrev pub count_prediction : Predictor → Predictor
count_prediction p = record p {
  stats = record p.stats { predictions_made = add64 p.stats.predictions_made 1 };
}

abbrev pub count_manifest_hit : Predictor → List Text → Predictor
count_manifest_hit p keys =
    if has_entries keys
    then record p { stats = record p.stats { manifest_hits = add64 p.stats.manifest_hits 1 } }
    else p

abbrev pub count_pattern_hit : Predictor → List Text → Predictor
count_pattern_hit p keys =
    if has_entries keys
    then record p { stats = record p.stats { pattern_hits = add64 p.stats.pattern_hits 1 } }
    else p

-- `none` is an overflow.
unfoldable pub predict_and_prefetch : Predictor → Pool → Text → Option (Predictor × Pool)
unfolding find_in_manifest from_manifest from_pattern issue
predict_and_prefetch p pool s3_key =
    if p.manifest_mode
    then elim (find_in_manifest p s3_key) [
      | none ↦ some (count_prediction p, pool)
      | some position ↦
          let keys = from_manifest (rounds p.lookahead) (position + 1) p.manifest in
          some (issue (count_manifest_hit (count_prediction p) keys) pool keys)
    ]
    else (do
      keys ← from_pattern (rounds p.lookahead) s3_key
      some (issue (count_pattern_hit (count_prediction p) keys) pool keys))

-- A future is ready if its promise is set or broken.
abbrev pub is_ready : Pool → Option ℕ → Bool
is_ready pool none = true
is_ready pool (some promise) = elim (Assoc.lookup ℕ_discrete promise pool.completed) [
  | none ↦ false
  | some _ ↦ true
]

unfoldable pub remove_key : Text → List Text → List Text
remove_key key [] = []
remove_key key (k ∷ ks) = ite (text_dec k key) (remove_key key ks) (k ∷ remove_key key ks)

-- The loop of `cleanup_completed_downloads`: the two containers.
unfoldable pub cleanup :
    Pool → List (Text × Option ℕ) → List Text → List (Text × Option ℕ) × List Text
unfolding remove_key
cleanup pool [] in_flight = ([], in_flight)
cleanup pool ((key, future) ∷ futures) in_flight =
    let dropped = cleanup pool futures (remove_key key in_flight) in
    let kept = cleanup pool futures in_flight in
    if is_ready pool future then dropped else ((key, future) ∷ kept.0, kept.1)

unfoldable pub cleanup_completed_downloads : Predictor → Pool → Predictor
unfolding cleanup
cleanup_completed_downloads p pool =
    let (futures, in_flight) = cleanup pool p.in_flight_futures p.in_flight in
    record p { in_flight_futures = futures; in_flight = in_flight }

-- The end of a round: what was accessed last is the basis of the prediction, if there is any.
unfoldable pub predictor_turn : Predictor → Pool → Text → Option (Predictor × Pool)
unfolding predict_and_prefetch
predictor_turn p pool [] = some (p, pool)
predictor_turn p pool (c ∷ cs) = predict_and_prefetch p pool (c ∷ cs)

-- One round of `predictor_loop`.
unfoldable pub predictor_round : Predictor → Pool → Option (Predictor × Pool)
unfolding cleanup_completed_downloads predictor_turn
predictor_round p pool =
    let cleaned = cleanup_completed_downloads p pool in
    predictor_turn cleaned pool cleaned.last_accessed
