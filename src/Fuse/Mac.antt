-- ===== src/Fuse/Mac.antt =====
-- The versions of `getattr` and `readdir` for macFUSE, against those for libfuse3.
use valkyrie_fs.Base.{
  arith, ℕ, ◌≡◌, refl, Bool, false, not, Option, none, some, List, Text, if◌then◌else◌, inl, inr,
  Bool-cases, text_dec,
}
use valkyrie_fs.Base.Assoc
use valkyrie_fs.Pool.{S3Client, list_objects}
use valkyrie_fs.Fuse.{
  file_stat, FuseContext, Result, ok, err, enoent, eio, Stat, dir_mode, file_mode, is_root,
  path_to_s3_key, getattr, readdir, needs_refresh, get_worker_pool, refresh, entries,
}

-- `struct stat`, as far as the callback for macFUSE sets it.
pub record MacStat : Type 0 where
  pub st_mode : ℕ
  pub st_nlink : ℕ
  pub st_ino : ℕ
  pub st_uid : ℕ
  pub st_gid : ℕ
  pub st_size : ℕ
  pub st_blocks : ℕ
  pub st_blksize : ℕ

-- A regular file; what `memset` has cleared stays zero.
abbrev pub mac_file_stat : Option ℕ → Result MacStat
mac_file_stat none = err enoent
mac_file_stat (some size) = ok (record {
  st_mode = file_mode;
  st_nlink = 1;
  st_ino = 0;
  st_uid = 0;
  st_gid = 0;
  st_size = size;
  st_blocks = 0;
  st_blksize = 0;
})

-- `uid` and `gid` are what `getuid` and `getgid` return.
unfoldable pub mac_getattr : ℕ → ℕ → Option FuseContext → Text → Result MacStat
unfolding path_to_s3_key
mac_getattr uid gid none path = err eio
mac_getattr uid gid (some c) path =
    if is_root path
    then ok (record {
      st_mode = dir_mode;
      st_nlink = 2;
      st_ino = 1;
      st_uid = uid;
      st_gid = gid;
      st_size = 4096;
      st_blocks = 8;
      st_blksize = 4096;
    })
    else mac_file_stat (Assoc.lookup text_dec (path_to_s3_key path) c.file_sizes)

-- `filler` takes no flags here.
unfoldable pub mac_readdir :
    S3Client → Option FuseContext → Text → ℕ → Option FuseContext × Result (List Text)
unfolding refresh get_worker_pool
mac_readdir s3 ctx path now = if not (is_root path) then (ctx, err enoent) else elim ctx [
  | none ↦ (none, err eio)
  | some c ↦
      if needs_refresh c now
      then (if get_worker_pool c
          then elim (list_objects s3 c.pool.config) [
            | none ↦ (some c, err eio)
            | some objects ↦ (some (refresh c objects now), ok (entries (refresh c objects now)))
          ]
          else (some c, err eio))
      else (some c, ok (entries c))
]

-- What libfuse3's callback leaves of a file's status: the root has size 0.
abbrev pub forget : Bool → Result MacStat → Result Stat
forget root (err e) = err e
forget root (ok s) =
    ok (record {
      st_mode = s.st_mode;
      st_nlink = s.st_nlink;
      st_size = if root then 0 else s.st_size;
    })

forget-file : (size : Option ℕ) → forget false (mac_file_stat size) ≡ file_stat size
forget-file none = refl
forget-file (some n) = refl

mac_getattr-getattr :
    (uid gid : ℕ) (ctx : Option FuseContext) (path : Text)
    → forget (is_root path) (mac_getattr uid gid ctx path) ≡ getattr ctx path
unfolding mac_getattr getattr
mac_getattr-getattr uid gid none path = refl
mac_getattr-getattr uid gid (some c) path = elim (Bool-cases (is_root path)) [
  | inl e ↦ rw (e, mac_getattr, getattr)
  | inr e ↦
      rw (e, mac_getattr, getattr)
        (forget-file (Assoc.lookup text_dec (path_to_s3_key path) c.file_sizes))
]

mac_readdir-readdir :
    (s3 : S3Client) (ctx : Option FuseContext) (path : Text) (now : ℕ)
    → mac_readdir s3 ctx path now ≡ readdir s3 ctx path now
unfolding mac_readdir readdir
mac_readdir-readdir s3 none path now = ground arith
mac_readdir-readdir s3 (some c) path now = ground arith

-- The macFUSE version of `getattr` gives the same error, or the same mode, link count and size as
-- the version for libfuse3, whose root has size 0, and the macFUSE version of `readdir` gives the
-- same names or error and leaves the same context, for every context and path.
pub mac_callbacks-callbacks :
    (uid gid : ℕ) (s3 : S3Client) (ctx : Option FuseContext) (path : Text) (now : ℕ)
    → (forget (is_root path) (mac_getattr uid gid ctx path) ≡ getattr ctx path)
      × (mac_readdir s3 ctx path now ≡ readdir s3 ctx path now)
mac_callbacks-callbacks uid gid s3 ctx path now =
    (mac_getattr-getattr uid gid ctx path, mac_readdir-readdir s3 ctx path now)
