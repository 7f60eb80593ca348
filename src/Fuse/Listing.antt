-- ===== src/Fuse/Listing.antt =====
-- `readdir` and the directory cache.
use valkyrie_fs.Base.{
  ℕ, ◌/◌, ◌-◌, ◌<◌, ◌≡◌, refl, true, false, Option, none, some, List, ◌∷◌, Text, text_dec, codes,
  arith,
}
use valkyrie_fs.Base.Assoc
use valkyrie_fs.Pool.{S3Client, ObjectInfo}
use valkyrie_fs.Fuse.{
  file_stat, FuseContext, ok, err, Errno, getattr, readdir, put_sizes, object_keys, is_root,
  path_to_s3_key, ttl,
}
use valkyrie_fs.Fuse.Files.{last_size, root}

abbrev refreshed : FuseContext → List ObjectInfo → ℕ → FuseContext
refreshed c objects now = record c {
  file_sizes = put_sizes objects c.file_sizes;
  dir_cache = record { file_list = object_keys objects; timestamp = now; populated = true };
}

-- What a successful refresh leaves.
pub record Refreshes (c : FuseContext) (objects : List ObjectInfo) (now : ℕ) (c' : FuseContext)
    : Type 0 where
  -- `getattr` gives a file the size of the listing, and else the one known before.
  pub sizes :
      (path : Text)
      → is_root path ≡ false
      → getattr (some c') path
        ≡ file_stat (
            last_size
              (path_to_s3_key path)
              (Assoc.lookup text_dec (path_to_s3_key path) c.file_sizes)
              objects)
  -- Until the cache expires, `readdir` gives the same names, whatever the store holds by then.
  pub cached :
      (s3 : S3Client) (later : ℕ)
      → (later - now) / 1000000000 < ttl
      → readdir s3 (some c') root later
        ≡ (some c', ok (codes "." ∷ codes ".." ∷ object_keys objects))

pub is_root-root : is_root root ≡ true
unfolding text_dec
is_root-root = refl

-- A `readdir` that returns an error leaves the context as it was.
pub readdir-err :
    (s3 : S3Client) (ctx : Option FuseContext) (path : Text) (now : ℕ) (e : Errno)
    → (readdir s3 ctx path now).1 ≡ err e
    → (readdir s3 ctx path now).0 ≡ ctx
unfolding readdir
readdir-err s3 none path now e h = refl
readdir-err s3 (some c) path now e h = ground arith
