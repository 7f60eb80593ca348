-- ===== src/Fuse/Files.antt =====
-- `open`, `getattr` and `readdir` against one another.
use valkyrie_fs.Base.{
  ℕ, ◌%◌, ◌≡◌, ◌≢◌, refl, sym, ap, ◌∙◌, subst, false, Option, none, some, List, [], ◌∷◌, Text,
  text_dec, ite, if_pos, if_neg,
}
use valkyrie_fs.Base.Assoc
use valkyrie_fs.Pool.{ObjectInfo}
use valkyrie_fs.Fuse.{
  file_stat, on_file_accessed, FuseContext, ok, getattr, open_file, put_sizes, is_root,
  path_to_s3_key, default_file_size, with_size,
}

-- The size of an object that a list of objects ends up giving a key, or the size before.
abbrev pub last_size : Text → Option ℕ → List ObjectInfo → Option ℕ
last_size key before [] = before
last_size key before (obj ∷ objs) =
    last_size key (ite (text_dec obj.key key) (some obj.size) before) objs

pub put_sizes_lem :
    (objs : List ObjectInfo) (sizes : List (Text × ℕ)) (key : Text)
    → Assoc.lookup text_dec key (put_sizes objs sizes)
      ≡ last_size key (Assoc.lookup text_dec key sizes) objs
unfolding put_sizes
put_sizes_lem [] sizes key = refl
put_sizes_lem (obj ∷ objs) sizes key =
    put_sizes_lem objs (Assoc.insert text_dec obj.key obj.size sizes) key
    ∙ ap (λ (b : Option ℕ). last_size key b objs)
        (elim (text_dec obj.key key) [
          | yes p ↦ rw (if_pos (text_dec obj.key key) p) (
              subst
                (λ q.
                  Assoc.lookup text_dec q (Assoc.insert text_dec obj.key obj.size sizes)
                  ≡ some obj.size)
                p (Assoc.lookup-insert_self text_dec obj.key obj.size sizes))
          | no p ↦
              rw (if_neg (text_dec obj.key key) p)
                (Assoc.lookup-insert_ne text_dec obj.key key obj.size sizes (λ e. p (sym e)))
        ])

abbrev pub root : Text
root = b'/' ∷ []

pub getattr_file :
    (c : FuseContext) (path : Text)
    → is_root path ≡ false
    → getattr (some c) path ≡ file_stat (Assoc.lookup text_dec (path_to_s3_key path) c.file_sizes)
unfolding getattr
getattr_file c path e = rw e

-- The size that a file has once it is open: the known one, or 1 GB.
abbrev pub known_size : Option ℕ → ℕ
known_size none = default_file_size
known_size (some size) = size

with_size_here :
    (sizes : List (Text × ℕ)) (key : Text) (o : Option ℕ)
    → Assoc.lookup text_dec key sizes ≡ o
    → Assoc.lookup text_dec key (with_size sizes key o) ≡ some (known_size o)
with_size_here sizes key none e = Assoc.lookup-insert_self text_dec key default_file_size sizes
with_size_here sizes key (some size) e = e

with_size_others :
    (sizes : List (Text × ℕ)) (key k : Text) (o : Option ℕ)
    → k ≢ key
    → Assoc.lookup text_dec k (with_size sizes key o) ≡ Assoc.lookup text_dec k sizes
with_size_others sizes key k none h =
    Assoc.lookup-insert_ne text_dec key k default_file_size sizes h
with_size_others sizes key k (some size) h = refl

-- What a successful `open_file` leaves for `getattr`.
pub record Opens (c : FuseContext) (path : Text) (c' : FuseContext) : Type 0 where
  pub here :
      getattr (some c') path
      ≡ file_stat (some (known_size (Assoc.lookup text_dec (path_to_s3_key path) c.file_sizes)))
  pub others :
      (path' : Text)
      → path_to_s3_key path' ≢ path_to_s3_key path
      → is_root path' ≡ false
      → getattr (some c') path' ≡ getattr (some c) path'

-- Opening a path other than the root for reading succeeds, whatever is known of it. Afterwards
-- `getattr` gives the path the size known before, or 1 GB where none was known, and gives a path
-- other than the root with another key what it gave before.
pub open_file-Opens :
    (c : FuseContext) (path : Text) (flags : ℕ)
    → flags % 4 ≡ 0
    → is_root path ≡ false
    → (c' : FuseContext) × (open_file (some c) path flags ≡ (some c', ok tt)) × Opens c path c'
unfolding open_file
open_file-Opens c path flags reading file =
    let key = path_to_s3_key path in
    let sizes = with_size c.file_sizes key (Assoc.lookup text_dec key c.file_sizes) in
    let c' : FuseContext = record c {
      predictor = on_file_accessed c.predictor key;
      file_sizes = sizes;
    } in
    (
      c',
      rw reading,
      record {
        here =
            getattr_file c' path file
            ∙ ap file_stat
                (with_size_here c.file_sizes key (Assoc.lookup text_dec key c.file_sizes) refl);
        others = λ path' h file'.
            getattr_file c' path' file'
            ∙ ap file_stat (
                with_size_others c.file_sizes key (path_to_s3_key path')
                  (Assoc.lookup text_dec key c.file_sizes) h)
            ∙ sym (getattr_file c path' file');
      },
    )
