-- ===== src/Config/Accepts.antt =====
-- What a successful `parse` means: a relation on argument lists, and the ranges of the result.
use valkyrie_fs.Base.{
  sym, none, some, Option-cases, text_dec, if_pos, if_neg, ◌||◌, ℕ, ◌≤◌, ◌≡◌, ◌≢◌, ◌↔◌, ◌⊎◌, inl,
  inr, refl, ap, subst, Bool, true, false, List, [], ◌∷◌, Text, codes, if◌then◌else◌, arith,
  Bool-cases, ltb→le, le→ltb,
}
use valkyrie_fs.Size.{parse_size}
use valkyrie_fs.Numeric.{stoi, ℤ, pos, negsuc}
use valkyrie_fs.Config.{
  Config, default_config, validate, outside, is_empty, ValueOption, Argument, value, enable_tracing,
  help, unknown, classify, set_option, parse_args, parse, mount, bucket, region, s3_prefix,
  cache_size, workers, lookahead, manifest, metrics_port, trace_output, equals, parse_cache_size,
}

-- `z` is one of the numbers from `lo` to `hi`.
abbrev pub InRange : ℕ → ℕ → ℤ → Type 0
InRange lo hi (pos n) = (lo ≤ n) × (n ≤ hi)
InRange lo hi (negsuc n) = ⊥

-- What the usage text and the error messages ask of a configuration.
pub record IsValid (c : Config) : Type 0 where
  pub mounted : c.mount_point ≢ []
  pub bucket_given : c.s3_config.bucket ≢ []
  pub region_given : c.s3_config.region ≢ []
  pub large : 1048576 ≤ c.cache_size
  pub workers : InRange 1 128 c.num_workers
  pub lookahead : InRange 1 256 c.lookahead
  pub port : InRange 1024 65535 c.metrics_port

outside_iff : (lo hi : ℕ) (z : ℤ) → (outside lo hi z ≡ false) ↔ InRange lo hi z
outside_iff lo hi (pos n) = (λ h. ground arith, λ h. ground arith)
outside_iff lo hi (negsuc n) = (λ h. cc, λ h. absurd h)

is_empty_iff : (t : Text) → (is_empty t ≡ false) ↔ (t ≢ [])
is_empty_iff [] = (λ h. cc, λ h. absurd (h refl))
is_empty_iff (c ∷ cs) = (λ h e. cc, λ h. refl)

unless : (b r : Bool) → (if b then false else r) ≡ true → (b ≡ false) × (r ≡ true)
unless false r h = (refl, h)
unless true r h = absurd (cc)

unless_intro : (b r : Bool) → b ≡ false → r ≡ true → (if b then false else r) ≡ true
unless_intro false r e h = h
unless_intro true r e h = absurd (cc)

-- `validate` accepts exactly the configurations with a mount point, a bucket, a region, at least 1
-- MB of cache, 1 to 128 workers, a lookahead of 1 to 256 and a port of 1024 to 65535.
pub validate-IsValid : (c : Config) → (validate c ≡ true) ↔ IsValid c
unfolding validate
validate-IsValid c = (
  λ h.
      let (m, h1) = unless _ _ h in
      let (b, h2) = unless _ _ h1 in
      let (r, h3) = unless _ _ h2 in
      let (s, h4) = unless _ _ h3 in
      let (w, h5) = unless _ _ h4 in
      let (l, h6) = unless _ _ h5 in
      let (p, h7) = unless _ _ h6 in
      record {
        mounted = (is_empty_iff _).0 m;
        bucket_given = (is_empty_iff _).0 b;
        region_given = (is_empty_iff _).0 r;
        large = ltb→le _ _ s;
        workers = (outside_iff _ _ _).0 w;
        lookahead = (outside_iff _ _ _).0 l;
        port = (outside_iff _ _ _).0 p;
      },
  λ v. unless_intro _ _ ((is_empty_iff _).1 v.mounted) (
      unless_intro _ _ ((is_empty_iff _).1 v.bucket_given) (
        unless_intro _ _ ((is_empty_iff _).1 v.region_given) (
          unless_intro _ _ (le→ltb _ _ v.large) (
            unless_intro _ _ ((outside_iff 1 128 c.num_workers).1 v.workers) (
              unless_intro _ _ ((outside_iff 1 256 c.lookahead).1 v.lookahead)
                (unless_intro _ _ ((outside_iff 1024 65535 c.metrics_port).1 v.port) refl)))))),
)

-- What an option with an argument makes of a configuration, as the usage text says.
pub data Sets (c : Config) : Text → Text → Config → Type 0 where
  sets_mount : {v : Text} → Sets c (codes "--mount") v (record c { mount_point = v })
  sets_bucket :
      {v : Text}
      → Sets c (codes "--bucket") v (record c { s3_config = record c.s3_config { bucket = v } })
  sets_region :
      {v : Text}
      → Sets c (codes "--region") v (record c { s3_config = record c.s3_config { region = v } })
  sets_prefix :
      {v : Text}
      → Sets c (codes "--s3-prefix") v (record c { s3_config = record c.s3_config { prefix = v } })
  sets_cache_size :
      {v : Text} {n : ℕ}
      → parse_size v ≡ some n
      → Sets c (codes "--cache-size") v (record c { cache_size = n })
  sets_workers :
      {v : Text} {z : ℤ}
      → stoi v ≡ some z
      → Sets c (codes "--workers") v (record c { num_workers = z })
  sets_lookahead :
      {v : Text} {z : ℤ}
      → stoi v ≡ some z
      → Sets c (codes "--lookahead") v (record c { lookahead = z })
  sets_manifest : {v : Text} → Sets c (codes "--manifest") v (record c { manifest_path = v })
  sets_port :
      {v : Text} {z : ℤ}
      → stoi v ≡ some z
      → Sets c (codes "--metrics-port") v (record c { metrics_port = z })
  sets_trace_output : {v : Text} → Sets c (codes "--trace-output") v (record c { trace_output = v })

-- The argument lists that take `c` to `c'`: each option in its place, with its argument, which is
-- accepted; the result is valid.
pub data Accepts : Config → List Text → Config → Type 0 where
  done : {c : Config} → IsValid c → Accepts c [] c
  trace :
      {c c' : Config} {args : List Text}
      → Accepts (record c { enable_tracing = true }) args c'
      → Accepts c (codes "--enable-tracing" ∷ args) c'
  option :
      {c d c' : Config} {arg v : Text} {args : List Text}
      → Sets c arg v d
      → Accepts d args c'
      → Accepts c (arg ∷ v ∷ args) c'

Accepts-IsValid : {c c' : Config} {args : List Text} → Accepts c args c' → IsValid c'
Accepts-IsValid (done h) = h
Accepts-IsValid (trace a) = Accepts-IsValid a
Accepts-IsValid (option o a) = Accepts-IsValid a

-- The text of an option.
abbrev name_of : ValueOption → Text
name_of mount = codes "--mount"
name_of bucket = codes "--bucket"
name_of region = codes "--region"
name_of s3_prefix = codes "--s3-prefix"
name_of cache_size = codes "--cache-size"
name_of workers = codes "--workers"
name_of lookahead = codes "--lookahead"
name_of manifest = codes "--manifest"
name_of metrics_port = codes "--metrics-port"
name_of trace_output = codes "--trace-output"

-- What a classified argument is.
abbrev Means : Text → Argument → Type 0
Means arg (value o) = arg ≡ name_of o
Means arg enable_tracing = arg ≡ codes "--enable-tracing"
Means arg help = Unit
Means arg unknown = Unit

branch :
    (arg name : Text) (a b : Argument)
    → (arg ≡ name → Means arg a)
    → Means arg b
    → Means arg (if equals arg name then a else b)
branch arg name a b here rest = elim (text_dec arg name) [
  | yes e ↦ rw (if_pos (text_dec arg name) e true false) (here e)
  | no ne ↦ rw (if_neg (text_dec arg name) ne) rest
]

either_help : (arg : Text) (t : Bool) → Means arg (if t then help else unknown)
either_help arg true = tt
either_help arg false = tt

classify-Means : (arg : Text) → Means arg (classify arg)
unfolding classify
classify-Means arg =
    branch arg _ _ _ (λ e. e)
      (branch arg _ _ _ (λ e. e)
        (branch arg _ _ _ (λ e. e)
          (branch arg _ _ _ (λ e. e)
            (branch arg _ _ _ (λ e. e)
              (branch arg _ _ _ (λ e. e)
                (branch arg _ _ _ (λ e. e)
                  (branch arg _ _ _ (λ e. e)
                    (branch arg _ _ _ (λ e. e)
                      (branch arg _ _ _ (λ e. e)
                        (branch arg _ _ _ (λ e. e)
                          (either_help arg
                            (equals arg (codes "--help") || equals arg (codes "-h")))))))))))))

classify_name : (o : ValueOption) → classify (name_of o) ≡ value o
unfolding classify
classify_name mount = refl
classify_name bucket = refl
classify_name region = refl
classify_name s3_prefix = refl
classify_name cache_size = refl
classify_name workers = refl
classify_name lookahead = refl
classify_name manifest = refl
classify_name metrics_port = refl
classify_name trace_output = refl

size_read :
    (c : Config) (v : Text) (n : ℕ)
    → parse_size v ≡ some n
    → parse_cache_size c v ≡ (record c { cache_size = n }, true)
unfolding parse_cache_size
size_read c v n e = rw (e, parse_cache_size) refl

size_refused : (c : Config) (v : Text) → parse_size v ≡ none → parse_cache_size c v ≡ (c, false)
unfolding parse_cache_size
size_refused c v e = rw (e, parse_cache_size) refl

refused_size {ℓ} : {X : Type ℓ} {b : Bool} → b ≡ false → b ≡ true → X
refused_size e h = absurd (cc)

-- An option whose argument is accepted sets its field.
set_option-Sets :
    (c : Config) (o : ValueOption) (v : Text)
    → (set_option c o v).1 ≡ true
    → Sets c (name_of o) v (set_option c o v).0
unfolding set_option
set_option-Sets c mount v ok = sets_mount
set_option-Sets c bucket v ok = sets_bucket
set_option-Sets c region v ok = sets_region
set_option-Sets c s3_prefix v ok = sets_prefix
set_option-Sets c cache_size v ok = elim (Option-cases (parse_size v)) [
  | inl bad ↦ refused_size (ap (λ (r : Config × Bool). r.1) (size_refused c v bad)) ok
  | inr (n, e) ↦
      subst (λ (r : Config × Bool). Sets c (codes "--cache-size") v r.0) (sym (size_read c v n e))
        (sets_cache_size e)
]
set_option-Sets c workers v ok = elim (Option-cases (stoi v)) [
  | inl bad ↦ absurd (cc (rw (bad, set_option) at ok))
  | inr (n, e) ↦ rw (e, set_option) (sets_workers e)
]
set_option-Sets c lookahead v ok = elim (Option-cases (stoi v)) [
  | inl bad ↦ absurd (cc (rw (bad, set_option) at ok))
  | inr (n, e) ↦ rw (e, set_option) (sets_lookahead e)
]
set_option-Sets c manifest v ok = sets_manifest
set_option-Sets c metrics_port v ok = elim (Option-cases (stoi v)) [
  | inl bad ↦ absurd (cc (rw (bad, set_option) at ok))
  | inr (n, e) ↦ rw (e, set_option) (sets_port e)
]
set_option-Sets c trace_output v ok = sets_trace_output

Sets-set_option :
    {c d : Config} {arg v : Text}
    → Sets c arg v d
    → (o : ValueOption) × (classify arg ≡ value o) × (set_option c o v ≡ (d, true))
unfolding set_option
Sets-set_option sets_mount = (mount, classify_name mount, refl)
Sets-set_option sets_bucket = (bucket, classify_name bucket, refl)
Sets-set_option sets_region = (region, classify_name region, refl)
Sets-set_option sets_prefix = (s3_prefix, classify_name s3_prefix, refl)
Sets-set_option {c} (sets_cache_size {v} {n} e) =
    (cache_size, classify_name cache_size, size_read c v n e)
Sets-set_option (sets_workers e) = (workers, classify_name workers, rw (e, set_option) refl)
Sets-set_option (sets_lookahead e) = (lookahead, classify_name lookahead, rw (e, set_option) refl)
Sets-set_option sets_manifest = (manifest, classify_name manifest, refl)
Sets-set_option (sets_port e) = (metrics_port, classify_name metrics_port, rw (e, set_option) refl)
Sets-set_option sets_trace_output = (trace_output, classify_name trace_output, refl)

-- The four kinds of argument.
Argument-cases :
    (a : Argument)
    → ((o : ValueOption) × (a ≡ value o)) ⊎ ((a ≡ enable_tracing) ⊎ ((a ≡ help) ⊎ (a ≡ unknown)))
Argument-cases (value o) = inl (o, refl)
Argument-cases enable_tracing = inr (inl refl)
Argument-cases help = inr (inr (inl refl))
Argument-cases unknown = inr (inr (inr refl))

-- A result that is accepted comes from what made it.
result_of :
    {a c' : Config} {b : Bool} → ◌≡◌ {A = Config × Bool} (a, b) (c', true) → (a ≡ c') × (b ≡ true)
result_of e = (ap (λ p. p.0) e, ap (λ p. p.1) e)

done_of : (c c' : Config) → ◌≡◌ {A = Config × Bool} (c, validate c) (c', true) → Accepts c [] c'
done_of c c' e =
    let (same, ok) = result_of e in subst (Accepts c []) same (done ((validate-IsValid c).0 ok))

means : (arg : Text) (a : Argument) → classify arg ≡ a → Means arg a
means arg a e = subst (Means arg) e (classify-Means arg)

traced :
    {c c' : Config} {arg : Text} {args : List Text}
    → classify arg ≡ enable_tracing
    → Accepts (record c { enable_tracing = true }) args c'
    → Accepts c (arg ∷ args) c'
traced {c} {c'} {arg} {args} k a =
    subst (λ (t : Text). Accepts c (t ∷ args) c') (sym (means arg enable_tracing k)) (trace a)

optioned :
    {c c' : Config} {arg v : Text} {args : List Text} (o : ValueOption)
    → classify arg ≡ value o
    → (set_option c o v).1 ≡ true
    → Accepts (set_option c o v).0 args c'
    → Accepts c (arg ∷ v ∷ args) c'
optioned {c} {c'} {arg} {v} {args} o k ok a =
    subst (λ (t : Text). Accepts c (t ∷ v ∷ args) c') (sym (means arg (value o) k))
      (option (set_option-Sets c o v ok) a)

refused {ℓ} : {X : Type ℓ} {a c' : Config} → ◌≡◌ {A = Config × Bool} (a, false) (c', true) → X
refused e = absurd (cc (ap (λ (p : Config × Bool). p.1) e))

parse_args-Accepts :
    (c : Config) (args : List Text) (c' : Config)
    → parse_args c args ≡ (c', true)
    → Accepts c args c'
unfolding parse_args
parse_args-Accepts c [] c' e = done_of c c' e
parse_args-Accepts c (arg ∷ []) c' e = elim (Argument-cases (classify arg)) [
  | inl (o, k) ↦ refused (rw (k, parse_args) at e)
  | inr (inl k) ↦ traced k (done_of _ c' (rw (k, parse_args) at e))
  | inr (inr (inl k)) ↦ refused (rw (k, parse_args) at e)
  | inr (inr (inr k)) ↦ refused (rw (k, parse_args) at e)
]
parse_args-Accepts c (arg ∷ v ∷ rest) c' e = elim (Argument-cases (classify arg)) [
  | inr (inl k) ↦ traced k (
      parse_args-Accepts (record c { enable_tracing = true }) (v ∷ rest) c'
        (rw (k, parse_args) at e))
  | inr (inr (inl k)) ↦ refused (rw (k, parse_args) at e)
  | inr (inr (inr k)) ↦ refused (rw (k, parse_args) at e)
  | inl (o, k) ↦ elim (Bool-cases (set_option c o v).1) [
    | inl ok ↦
        optioned o k ok
          (parse_args-Accepts (set_option c o v).0 rest c' (rw (k, parse_args, ok) at e))
    | inr bad ↦ absurd (cc (bad, ap (λ (p : Config × Bool). p.1) (rw (k, parse_args, bad) at e)))
  ]
]

tracing : classify (codes "--enable-tracing") ≡ enable_tracing
unfolding classify
tracing = refl

Accepts-parse_args :
    {c c' : Config} {args : List Text} → Accepts c args c' → parse_args c args ≡ (c', true)
unfolding parse_args
Accepts-parse_args (done v) = rw ((validate-IsValid _).1 v)
Accepts-parse_args (trace {args = []} (done v)) = rw (tracing, parse_args, (validate-IsValid _).1 v)
Accepts-parse_args (trace {args = v ∷ rest} a) = rw (tracing, parse_args) (Accepts-parse_args a)
Accepts-parse_args (option s a) =
    let (o, k, e) = Sets-set_option s in rw (k, parse_args, e) (Accepts-parse_args a)

-- On one or more arguments, `parse` succeeds with a configuration exactly if the arguments take the
-- initial configuration to it and it is valid: each argument is --enable-tracing, or one of the ten
-- other options by its name and followed by a text, which sets that option's field to the text or
-- to what `parse_size` or `std::stoi` reads from it; the configuration at the end has a mount
-- point, a bucket, a region, at least 1 MB of cache, 1 to 128 workers, a lookahead of 1 to 256 and
-- a port of 1024 to 65535.
pub parse-Accepts :
    (c c' : Config) (arg : Text) (args : List Text)
    → (parse c (arg ∷ args) ≡ (c', true)) ↔ Accepts c (arg ∷ args) c'
unfolding parse
parse-Accepts c c' arg args = (parse_args-Accepts c (arg ∷ args) c', Accepts-parse_args)

-- Whatever the arguments and the initial configuration, a configuration with which `parse` succeeds
-- is valid.
pub parse-IsValid :
    (c : Config) (args : List Text) (c' : Config) → parse c args ≡ (c', true) → IsValid c'
unfolding parse
parse-IsValid c [] c' e = refused e
parse-IsValid c (arg ∷ args) c' e = Accepts-IsValid (parse_args-Accepts c (arg ∷ args) c' e)

-- The three required options, with arguments that are not empty, make `parse` succeed from the
-- default configuration, with a result that is the default elsewhere.
pub parse_required :
    (m b r : Text)
    → m ≢ []
    → b ≢ []
    → r ≢ []
    → parse default_config (codes "--mount" ∷ m ∷ codes "--bucket" ∷ b ∷ codes "--region" ∷ r ∷ [])
      ≡ (
        record default_config {
          mount_point = m;
          s3_config = record { bucket = b; region = r; prefix = [] };
        },
        true,
      )
unfolding classify set_option
parse_required m b r hm hb hr = (parse-Accepts default_config _ _ _).1 (
    option sets_mount (
      option sets_bucket (
        option sets_region (
          done (record {
            mounted = hm;
            bucket_given = hb;
            region_given = hr;
            large = omega arith;
            workers = omega arith;
            lookahead = omega arith;
            port = omega arith;
          })))))
