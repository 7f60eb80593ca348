-- ===== src/Config.antt =====
-- src/config.hpp and src/config.cpp. What is printed is left out. `parse` takes the arguments that
-- follow the program's name, and returns the configuration beside the result.
pub mod Accepts
pub mod Numbers
use valkyrie_fs.Base.{
  ℕ, zero, suc, ◌+◌, ◌*◌, ◌≤◌, ◌<◌, ◌≡◌, refl, Bool, true, false, ◌&&◌, ◌||◌, Option, none, some,
  List, [], ◌∷◌, Text, text_dec, codes, ltb, ite, if◌then◌else◌, arith,
}
use valkyrie_fs.Types.{default_cache_size, default_worker_count, default_lookahead}
use valkyrie_fs.Numeric.{ℤ, pos, negsuc, int_ltb, stoi}
use valkyrie_fs.Size.{parse_size}

-- `S3Config` of src/s3_worker_pool.hpp.
pub record S3Config : Type 0 where
  pub bucket : Text
  pub region : Text
  pub prefix : Text

pub record Config : Type 0 where
  pub mount_point : Text
  pub s3_config : S3Config
  pub cache_size : ℕ
  pub num_workers : ℤ
  pub lookahead : ℤ
  pub manifest_path : Text
  pub metrics_port : ℤ
  pub enable_tracing : Bool
  pub trace_output : Text

abbrev pub default_config : Config
default_config = record {
  mount_point = [];
  s3_config = record { bucket = []; region = []; prefix = [] };
  cache_size = default_cache_size;
  num_workers = pos default_worker_count;
  lookahead = pos default_lookahead;
  manifest_path = [];
  metrics_port = pos 9090;
  enable_tracing = false;
  trace_output = codes "trace.json";
}

abbrev pub is_empty : Text → Bool
is_empty [] = true
is_empty (_ ∷ _) = false

-- `z < lo || z > hi`
abbrev pub outside : ℕ → ℕ → ℤ → Bool
outside lo hi z = int_ltb z (pos lo) || int_ltb (pos hi) z

unfoldable pub validate : Config → Bool
validate c =
    if is_empty c.mount_point
    then false
    else (if is_empty c.s3_config.bucket
        then false
        else (if is_empty c.s3_config.region
            then false
            else (if ltb c.cache_size (1024 * 1024)
                then false
                else (if outside 1 128 c.num_workers
                    then false
                    else (if outside 1 256 c.lookahead
                        then false
                        else (if outside 1024 65535 c.metrics_port then false else true))))))

-- The options that take an argument.
pub data ValueOption : Type 0 where
  mount : ValueOption
  bucket : ValueOption
  region : ValueOption
  s3_prefix : ValueOption
  cache_size : ValueOption
  workers : ValueOption
  lookahead : ValueOption
  manifest : ValueOption
  metrics_port : ValueOption
  trace_output : ValueOption

pub data Argument : Type 0 where
  value : ValueOption → Argument
  enable_tracing : Argument
  help : Argument
  unknown : Argument

abbrev pub equals : Text → Text → Bool
equals a b = ite (text_dec a b) true false

-- The chain of comparisons in `parse`.
unfoldable pub classify : Text → Argument
unfolding text_dec
classify arg =
    if equals arg (codes "--mount")
    then value mount
    else (if equals arg (codes "--bucket")
        then value bucket
        else (if equals arg (codes "--region")
            then value region
            else (if equals arg (codes "--s3-prefix")
                then value s3_prefix
                else (if equals arg (codes "--cache-size")
                    then value cache_size
                    else (if equals arg (codes "--workers")
                        then value workers
                        else (if equals arg (codes "--lookahead")
                            then value lookahead
                            else (if equals arg (codes "--manifest")
                                then value manifest
                                else (if equals arg (codes "--metrics-port")
                                    then value metrics_port
                                    else (if equals arg (codes "--enable-tracing")
                                        then enable_tracing
                                        else (if equals arg (codes "--trace-output")
                                            then value trace_output
                                            else (if equals arg (codes "--help")
                                                  || equals arg (codes "-h")
                                                then help
                                                else unknown)))))))))))

unfoldable pub parse_cache_size : Config → Text → Config × Bool
parse_cache_size c size_str = elim (parse_size size_str) [
  | none ↦ (c, false)
  | some n ↦ (record c { cache_size = n }, true)
]

-- The branch of an option, with its argument.
unfoldable pub set_option : Config → ValueOption → Text → Config × Bool
unfolding parse_cache_size
set_option c mount v = (record c { mount_point = v }, true)
set_option c bucket v = (record c { s3_config = record c.s3_config { bucket = v } }, true)
set_option c region v = (record c { s3_config = record c.s3_config { region = v } }, true)
set_option c s3_prefix v = (record c { s3_config = record c.s3_config { prefix = v } }, true)
set_option c cache_size v = parse_cache_size c v
set_option c workers v = elim (stoi v) [
  | none ↦ (c, false)
  | some n ↦ (record c { num_workers = n }, true)
]
set_option c lookahead v = elim (stoi v) [
  | none ↦ (c, false)
  | some n ↦ (record c { lookahead = n }, true)
]
set_option c manifest v = (record c { manifest_path = v }, true)
set_option c metrics_port v = elim (stoi v) [
  | none ↦ (c, false)
  | some n ↦ (record c { metrics_port = n }, true)
]
set_option c trace_output v = (record c { trace_output = v }, true)

-- The loop of `parse`, and the validation after it.
unfoldable pub parse_args : Config → List Text → Config × Bool
unfolding set_option
parse_args c [] = (c, validate c)
parse_args c (arg ∷ []) = elim (classify arg) [
  | value o ↦ (c, false)
  | enable_tracing ↦ let c' : Config = record c { enable_tracing = true } in (c', validate c')
  | help ↦ (c, false)
  | unknown ↦ (c, false)
]
parse_args c (arg ∷ v ∷ rest) =
    let traced = parse_args (record c { enable_tracing = true }) (v ∷ rest) in
    let set = λ (o : ValueOption). parse_args (set_option c o v).0 rest in
    elim (classify arg) [
      | value o ↦ if (set_option c o v).1 then set o else set_option c o v
      | enable_tracing ↦ traced
      | help ↦ (c, false)
      | unknown ↦ (c, false)
    ]

unfoldable pub parse : Config → List Text → Config × Bool
unfolding parse_args
parse c [] = (c, false)
parse c (arg ∷ args) = parse_args c (arg ∷ args)
