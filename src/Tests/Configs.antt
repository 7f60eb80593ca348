-- ===== src/Tests/Configs.antt =====
-- Numbers, sizes and command lines.
use valkyrie_fs.Base.{
  false, ◌≤◌, ◌⊎◌, ◌<◌, ◌≡◌, ◌↔◌, ◌++◌, ◌*◌, ◌%◌, refl, true, some, List, [], ◌∷◌, Text, codes,
  arith, size_mod,
}
use valkyrie_fs.Numeric.{pos, digit_text, int_bound}
use valkyrie_fs.Size.{parse_size, factor, parse_size-suffix}
use valkyrie_fs.Config.{Config, default_config, parse, workers, set_option}
use valkyrie_fs.Config.Numbers.{of_workers, set_option-digits}
use valkyrie_fs.Config.Accepts.{Accepts, parse-Accepts}

set_option-digits_example :
    ((16 < int_bound)
      × (set_option default_config workers (digit_text (1 ∷ 6 ∷ []) ++ codes "x")
          ≡ (record default_config { num_workers = pos 16 }, true)))
    ⊎ ((int_bound ≤ 16)
        × (set_option default_config workers (digit_text (1 ∷ 6 ∷ []) ++ codes "x")
            ≡ (default_config, false)))
set_option-digits_example =
    set_option-digits default_config of_workers 1 (6 ∷ []) (codes "x")
      (omega arith, (omega arith, tt)) refl

parse_size-suffix_example :
    parse_size (digit_text (1 ∷ 6 ∷ []) ++ codes "G") ≡ some (16 * factor b'G' % size_mod)
parse_size-suffix_example =
    parse_size-suffix 1 (6 ∷ []) b'G' (omega arith, (omega arith, tt)) (omega arith) refl

abbrev args : List Text
args =
    codes "--mount"
    ∷ codes "/mnt"
    ∷ codes "--bucket"
    ∷ codes "data"
    ∷ codes "--region"
    ∷ codes "eu"
    ∷ []

abbrev parsed : Config
parsed = record default_config {
  mount_point = codes "/mnt";
  s3_config = record { bucket = codes "data"; region = codes "eu"; prefix = [] };
}

parse-Accepts_example :
    (parse default_config args ≡ (parsed, true)) ↔ Accepts default_config args parsed
parse-Accepts_example =
    parse-Accepts default_config parsed (codes "--mount")
      (codes "/mnt" ∷ codes "--bucket" ∷ codes "data" ∷ codes "--region" ∷ codes "eu" ∷ [])
