-- ===== src/Pool/Keys.antt =====
-- Keys under the configured prefix, and the listing of a bucket.
use valkyrie_fs.Base.{
  ℕ, zero, suc, ◌+◌, ◌≤◌, ◌≡◌, ◌≢◌, refl, sym, ap, ◌∙◌, true, false, some, List, [], ◌∷◌, ◌++◌,
  Text, codes, length, length-append, map, drop, le→ltb, arith, subst,
}
use mathlib.Core.List.{append_assoc}
use valkyrie_fs.Config.{S3Config, is_empty}
use valkyrie_fs.Pool.{
  S3Client, ListRequest, ObjectInfo, ListResult, get_full_key, relative_key, object_infos,
  list_request, list_pages, list_objects, max_pagination_iterations,
}

drop-append : (xs ys : Text) → drop (length xs) (xs ++ ys) ≡ ys
drop-append [] ys = refl
drop-append (x ∷ xs) ys = drop-append xs ys

drop_prefix : (xs : Text) (c : ℕ) (ys : Text) → drop (length xs + 1) (xs ++ c ∷ ys) ≡ ys
drop_prefix [] c ys = refl
drop_prefix (x ∷ xs) c ys =
    let shift : suc (length xs) + 1 ≡ suc (length xs + 1) = omega arith in
    ap (λ (n : ℕ). drop n (x ∷ (xs ++ c ∷ ys))) shift ∙ drop_prefix xs c ys

relative_under :
    (b : ℕ) (bs key bucket region : Text)
    → let config : S3Config = record { bucket = bucket; region = region; prefix = b ∷ bs } in
      relative_key config (get_full_key config key) ≡ key
unfolding relative_key get_full_key
relative_under b bs key bucket region =
    rw
      (le→ltb (length ((b ∷ bs) ++ (codes "/" ++ key))) (length (b ∷ bs) + 1)
        (omega (arith, length-append bs (codes "/" ++ key))))
      (drop_prefix (b ∷ bs) b'/' key)

-- For every configured prefix, the empty one included, and every key, the key that is put under the
-- prefix for a request is shown by a listing as the key again.
pub relative_key-get_full_key :
    (config : S3Config) (key : Text) → relative_key config (get_full_key config key) ≡ key
unfolding relative_key get_full_key
relative_key-get_full_key config key = go config.prefix refl
  where
    go : (p : Text) → config.prefix ≡ p → relative_key config (get_full_key config key) ≡ key
    go [] e = rw (e, get_full_key, relative_key)
    go (b ∷ bs) e =
        let same : config ≡ record config { prefix = b ∷ bs } =
          λ i. record config { prefix = e i } in
        subst (λ (c : S3Config). relative_key c (get_full_key c key) ≡ key) (sym same)
          (relative_under b bs key config.bucket config.region)

-- What stands before a key under a prefix: nothing, or the prefix and a slash.
abbrev under : Text → Text
under [] = []
under (b ∷ bs) = (b ∷ bs) ++ codes "/"

get_full_key-under :
    (config : S3Config) (key : Text) → get_full_key config key ≡ under config.prefix ++ key
unfolding get_full_key
get_full_key-under config key = go config.prefix refl
  where
    go : (p : Text) → config.prefix ≡ p → get_full_key config key ≡ under config.prefix ++ key
    go [] e = rw (e, get_full_key)
    go (b ∷ bs) e = rw (e, get_full_key) (sym (append_assoc (b ∷ bs) (codes "/") key))

is_empty_ne : (t : Text) → t ≢ [] → is_empty t ≡ false
is_empty_ne [] h = absurd (h refl)
is_empty_ne (c ∷ cs) h = refl

module _ (s3 : S3Client) (config : S3Config) where
  -- The request for a page of the keys under the prefix.
  abbrev page_request : Text → ListRequest
  page_request token = record {
    bucket = config.bucket;
    prefix = under config.prefix;
    token = token;
  }

  -- An object as the client lists it, with its whole key.
  abbrev whole : ObjectInfo → ObjectInfo
  whole obj = record { key = under config.prefix ++ obj.key; size = obj.size }

  -- The objects that a client's answers list from a token on, in so many pages. A page that is
  -- truncated and names no further token is taken for the last.
  pub data Listing : Text → ℕ → List ObjectInfo → Type 0 where
    last :
        {token : Text} {objs : List ObjectInfo} (page : ListResult)
        → s3.list_objects_v2 (page_request token) ≡ some page
        → page.contents ≡ map whole objs
        → page.is_truncated ≡ false
        → Listing token 1 objs
    cut :
        {token : Text} {objs : List ObjectInfo} (page : ListResult)
        → s3.list_objects_v2 (page_request token) ≡ some page
        → page.contents ≡ map whole objs
        → page.is_truncated ≡ true
        → page.next_token ≡ []
        → Listing token 1 objs
    more :
        {token : Text} {n : ℕ} {rest : List ObjectInfo} (objs : List ObjectInfo) (page : ListResult)
        → s3.list_objects_v2 (page_request token) ≡ some page
        → page.contents ≡ map whole objs
        → page.is_truncated ≡ true
        → page.next_token ≢ []
        → Listing page.next_token n rest
        → Listing token (suc n) (objs ++ rest)

  relative_whole : (key : Text) → relative_key config (under config.prefix ++ key) ≡ key
  relative_whole key =
      ap (relative_key config) (sym (get_full_key-under config key))
      ∙ relative_key-get_full_key config key

  object_infos-whole : (objs : List ObjectInfo) → object_infos config (map whole objs) ≡ objs
  unfolding object_infos
  object_infos-whole [] = refl
  object_infos-whole (o ∷ os) =
      λ i. record { key = relative_whole o.key i; size = o.size } ∷ object_infos-whole os i

  page_objects :
      (page : ListResult) (objs : List ObjectInfo)
      → page.contents ≡ map whole objs
      → object_infos config page.contents ≡ objs
  page_objects page objs e = ap (object_infos config) e ∙ object_infos-whole objs

  asked :
      (token : Text) (page : ListResult)
      → s3.list_objects_v2 (page_request token) ≡ some page
      → s3.list_objects_v2 (list_request config token) ≡ some page
  unfolding list_request
  asked token page e = ap s3.list_objects_v2 (request config.prefix refl) ∙ e
    where
      request : (p : Text) → config.prefix ≡ p → list_request config token ≡ page_request token
      request [] e' = rw e'
      request (b ∷ bs) e' = rw e'

  list_pages-Listing :
      {token : Text} {n : ℕ} {objs : List ObjectInfo}
      → Listing token n objs
      → (rounds : ℕ) (results : List ObjectInfo) → n ≤ rounds
      → list_pages s3 config rounds token results ≡ some (results ++ objs)
  unfolding list_pages
  list_pages-Listing (last page e c t) zero results h = absurd (omega arith)
  list_pages-Listing (last {token} {objs} page e c t) (suc rounds) results h =
      rw (asked token page e, list_pages, t)
        (ap (λ (os : List ObjectInfo). some (results ++ os)) (page_objects page objs c))
  list_pages-Listing (cut page e c t k) zero results h = absurd (omega arith)
  list_pages-Listing (cut {token} {objs} page e c t k) (suc rounds) results h =
      rw (asked token page e, list_pages, t, k)
        (ap (λ (os : List ObjectInfo). some (results ++ os)) (page_objects page objs c))
  list_pages-Listing (more objs page e c t k l) zero results h = absurd (omega arith)
  list_pages-Listing (more {token} {rest = rest} objs page e c t k l) (suc rounds) results h =
      rw (asked token page e, list_pages, t, is_empty_ne page.next_token k)
        (list_pages-Listing l rounds (results ++ object_infos config page.contents) (omega arith)
          ∙ ap some (append_assoc results (object_infos config page.contents) rest)
          ∙ ap (λ (os : List ObjectInfo). some (results ++ (os ++ rest)))
              (page_objects page objs c))

  -- Where the client's answers to the requests with the bucket, the prefix followed by a slash (or
  -- no prefix) and the tokens that the pages name list some objects, under their whole keys, in at
  -- most 1000 pages, `list_objects` returns all of these objects, in order, with their keys without
  -- the prefix and the slash.
  pub list_objects-Listing :
      (n : ℕ) (objs : List ObjectInfo)
      → Listing [] n objs
      → n ≤ 1000
      → list_objects s3 config ≡ some objs
  unfolding list_objects
  list_objects-Listing n objs l h = list_pages-Listing l max_pagination_iterations [] h
