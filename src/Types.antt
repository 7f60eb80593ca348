-- ===== src/Types.antt =====
-- src/types.hpp: cache zones, task priorities and the constants.
use valkyrie_fs.Base.{ℕ, ◌*◌, Bool, true, ◌&&◌, Text, codes, leb, ◌==◌, if◌then◌else◌}

pub data CacheZone : Type 0 where
  hot : CacheZone
  prefetch : CacheZone

pub data Priority : Type 0 where
  urgent : Priority
  normal : Priority
  background : Priority

abbrev pub default_chunk_size : ℕ
default_chunk_size = 4 * 1024 * 1024

abbrev pub default_cache_size : ℕ
default_cache_size = 16 * 1024 * 1024 * 1024

abbrev pub default_worker_count : ℕ
default_worker_count = 8

abbrev pub default_lookahead : ℕ
default_lookahead = 3

abbrev pub urgent_timeout_ms : ℕ
urgent_timeout_ms = 5000

abbrev pub prefetch_timeout_ms : ℕ
prefetch_timeout_ms = 3000

-- The value of the enumerator, by which `<` and `>` compare.
abbrev pub priority_rank : Priority → ℕ
priority_rank urgent = 0
priority_rank normal = 1
priority_rank background = 2

-- `to_string`.
unfoldable pub zone_name : CacheZone → Text
zone_name hot = codes "HOT"
zone_name prefetch = codes "PREFETCH"

unfoldable pub priority_name : Priority → Text
priority_name urgent = codes "URGENT"
priority_name normal = codes "NORMAL"
priority_name background = codes "BACKGROUND"

abbrev pub is_digit : ℕ → Bool
is_digit c = leb b'0' c && leb c b'9'

-- The white space of the C locale.
abbrev pub is_space : ℕ → Bool
is_space c = if c == 32 then true else (leb 9 c && leb c 13)
