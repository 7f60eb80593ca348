-- ===== src/Fuse/Created.antt =====
-- What `new_context` makes of a configuration.
use valkyrie_fs.Base.{◌≡◌, refl, false, none, some, Option, List, [], Text, if◌then◌else◌}
use valkyrie_fs.Config.{Config, is_empty}
use valkyrie_fs.Cache.{new_cache}
use valkyrie_fs.Pool.{new_pool}
use valkyrie_fs.Predictor.{Predictor, new_predictor, load_manifest}
use valkyrie_fs.Fuse.{FuseContext, new_context}

-- The predictor that the constructor makes, with the manifest.
abbrev pub loaded : Config → Option (List Text) → Predictor → Predictor
loaded config manifest p = if is_empty config.manifest_path then p else (load_manifest p manifest).0

-- The context with a predictor.
abbrev pub created : Config → Option (List Text) → Predictor → FuseContext
created config manifest p = record {
  pool = new_pool config.s3_config (new_cache config.cache_size);
  predictor = loaded config manifest p;
  config = config;
  file_sizes = [];
  dir_cache = record { file_list = []; timestamp = 0; populated = false };
  worker_pool_ptr = false;
  is_started = false;
}

pub new_context-created :
    (config : Config) (manifest : Option (List Text)) (p : Predictor)
    → new_predictor config.lookahead ≡ some p
    → new_context config manifest ≡ some (created config manifest p)
unfolding new_context
new_context-created config manifest p e = rw e refl

pub new_context-none :
    (config : Config) (manifest : Option (List Text))
    → new_predictor config.lookahead ≡ none
    → new_context config manifest ≡ none
unfolding new_context
new_context-none config manifest e = rw e refl
