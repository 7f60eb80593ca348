-- ===== src/Pool/Range.antt =====
-- The byte range that `download_chunk` asks for.
use valkyrie_fs.Base.{
  ℕ, ◌+◌, ◌-◌, ◌≤◌, ◌<◌, ◌≡◌, ap, ◌∙◌, List, ◌++◌, Text, codes, length, arith, size_mod, add64,
  sub64,
}
use valkyrie_fs.Numeric.{digit_text, value_from, IsDigits, to_string}
use valkyrie_fs.Numeric.Decimal.{to_string-IsDigits}
use valkyrie_fs.Pool.{Pool, PrefetchTask, get_request}

-- The decimal digits of a number.
pub record Decimal (n : ℕ) (ds : List ℕ) : Type 0 where
  pub digits : IsDigits ds
  pub value : value_from 0 ds ≡ n
  pub some_digits : 0 < length ds

to_string-Decimal :
    (n : ℕ) → n < size_mod → (ds : List ℕ) × (to_string n ≡ digit_text ds) × Decimal n ds
to_string-Decimal n h =
    let (ds, e, digits, value, some_digits) = to_string-IsDigits n h in
    (ds, e, record { digits = digits; value = value; some_digits = some_digits })

abbrev range : Text → Text → Text
range x y = codes "bytes=" ++ x ++ codes "-" ++ y

-- For a task of one byte or more whose end is at most 2^64, the range that `get_request` asks for
-- is "bytes=", the decimal digits of the task's first byte, "-" and those of its last byte.
pub get_request-Decimal :
    (p : Pool) (task : PrefetchTask)
    → 0 < task.size
    → task.offset + task.size ≤ size_mod
    → (first last : List ℕ) × ((get_request p task).range
        ≡ codes "bytes=" ++ digit_text first ++ codes "-" ++ digit_text last)
      × Decimal task.offset first
      × Decimal (task.offset + task.size - 1) last
unfolding get_request
get_request-Decimal p task some_size fits =
    let (first, e, a) = to_string-Decimal task.offset (omega arith) in
    let (last, e', b) = to_string-Decimal (task.offset + task.size - 1) (omega arith) in
    let end : sub64 (add64 task.offset task.size) 1 ≡ task.offset + task.size - 1 = omega arith in
    (
      first,
      last,
      ap (λ (x : Text). range x (to_string (sub64 (add64 task.offset task.size) 1))) e
          ∙ ap (λ (y : Text). range (digit_text first) y) (ap to_string end ∙ e'),
      a,
      b,
    )
