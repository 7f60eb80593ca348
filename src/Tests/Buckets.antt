-- ===== src/Tests/Buckets.antt =====
-- A client that decodes the range of a request and answers with that part of an object.
use mathlib.Core.List.{append_assoc, append-nil}
use valkyrie_fs.Base.{
  ℕ, suc, ◌-◌, ◌<◌, ◌≡◌, refl, ap, ◌∙◌, sym, none, some, Option, List, [], ◌∷◌, ◌++◌, Text, codes,
  arith, take, drop, size_mod, if◌then◌else◌, ◌==◌,
}
use valkyrie_fs.Numeric.{to_string, stoull, digit_text, IsDigits}
use valkyrie_fs.Numeric.Decimal.{stoull-to_string, to_string-IsDigits}
use valkyrie_fs.Pool.{S3Client, GetObjectRequest, ListRequest}
use valkyrie_fs.Pool.Objects.{Serves}
use valkyrie_fs.Config.{S3Config}

-- What follows the first '-'.
abbrev after_dash : Text → Text
after_dash [] = []
after_dash (c ∷ cs) = let rest = after_dash cs in if c == b'-' then cs else rest

abbrev part : List ℕ → Option ℕ → Option ℕ → Option (List ℕ)
part obj none last = none
part obj (some first) none = none
part obj (some first) (some last) = some (take (suc last - first) (drop first obj))

abbrev pub letters : List ℕ
letters = codes "abcdef"

-- A range begins with "bytes=".
abbrev ranged : Text → Option (List ℕ)
ranged range = part letters (stoull (drop 6 range)) (stoull (after_dash (drop 6 range)))

abbrev pub bucket : S3Client
bucket = record {
  get_object = λ (r : GetObjectRequest). ranged r.range;
  list_objects_v2 = λ (r : ListRequest). none;
}

dash :
    (ds : List ℕ) (rest : Text)
    → IsDigits ds
    → after_dash (digit_text ds ++ (codes "-" ++ rest)) ≡ rest
dash [] rest h = refl
dash (d ∷ ds) rest h = ground (arith, dash ds rest h.1)

dash-to_string :
    (n : ℕ) (rest : Text) → n < size_mod → after_dash (to_string n ++ (codes "-" ++ rest)) ≡ rest
dash-to_string n rest small =
    let (ds, e, digits, _, _) = to_string-IsDigits n small in
    ap (λ (t : Text). after_dash (t ++ (codes "-" ++ rest))) e ∙ dash ds rest digits

whole : (n : ℕ) → n < size_mod → stoull (to_string n) ≡ some n
whole n small = ap stoull (sym (append-nil (to_string n))) ∙ stoull-to_string n [] small tt

decoded :
    (first last : ℕ)
    → first < size_mod
    → last < size_mod
    → ranged (codes "bytes=" ++ to_string first ++ codes "-" ++ to_string last)
      ≡ some (take (suc last - first) (drop first letters))
decoded first last a b =
    let text = append_assoc (to_string first) (codes "-") (to_string last) in
    ap (λ (t : Text). part letters (stoull t) (stoull (after_dash t))) text
    ∙ ap
        (λ (o : Option ℕ).
          part letters o (stoull (after_dash (to_string first ++ (codes "-" ++ to_string last)))))
        (stoull-to_string first (codes "-" ++ to_string last) a refl)
    ∙ ap (λ (t : Text). part letters (some first) (stoull t))
        (dash-to_string first (to_string last) a)
    ∙ ap (λ (o : Option ℕ). part letters (some first) o) (whole last b)

some_inj : {xs ys : List ℕ} → some xs ≡ some ys → ys ≡ xs
some_inj e = cc

pub bucket-Serves : (config : S3Config) (key : Text) → Serves bucket config key letters
bucket-Serves config key first last body le inside small e =
    some_inj (sym (decoded first last (omega (arith, inside)) small) ∙ e)
