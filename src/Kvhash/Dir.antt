-- ===== src/Kvhash/Dir.antt =====
-- lib/containers/kvhash/kvhash.c: the directories, and the walk from a root to the directory whose
-- buckets hold a key. dir_buf is the list of the bytes that blob_db_get left in it.
use key_value_db.Base.{
  ℕ, ◌+◌, ◌*◌, ◌/◌, ◌%◌, ◌^◌, Bool, not, ◌&&◌, ◌||◌, List, ◌∷◌, ◌++◌, ltb, leb, ◌==◌, if◌then◌else◌,
  length, take, drop, replicate, le_bytes, int_at, enoent, eio, Result, ok, err,
}
use key_value_db.BlobDb.{BlobDb}
use key_value_db.Kvhash.{max_buckets}

abbrev pub dir_magic : ℕ
dir_magic = 0x4b564841

abbrev pub dir_dying : ℕ
dir_dying = 0x4b564844

abbrev pub kvhash_version : ℕ
kvhash_version = 3

abbrev pub kvhash_version_min : ℕ
kvhash_version_min = 2

abbrev pub dir_hdr_len : ℕ
dir_hdr_len = 8

abbrev pub dir_len : ℕ → ℕ
dir_len n = dir_hdr_len + n * 8

-- the two indices of a hash of 32 bits
abbrev pub idx_top : ℕ → ℕ → ℕ
idx_top h n = h / 2 ^ 16 % n % 2 ^ 16

abbrev pub idx_sub : ℕ → ℕ → ℕ
idx_sub h n = h % 2 ^ 16 % n % 2 ^ 16

abbrev pub dir_child : List ℕ → ℕ → ℕ
dir_child buf idx = int_at 8 buf (dir_hdr_len + idx * 8)

unfoldable pub dir_set_child : List ℕ → ℕ → ℕ → List ℕ
dir_set_child buf idx id =
    take (dir_hdr_len + idx * 8) buf ++ (le_bytes 8 id ++ drop (dir_hdr_len + idx * 8 + 8) buf)

-- the first dir_len n bytes of the buffer
unfoldable pub dir_format : ℕ → ℕ → List ℕ
dir_format n depth =
    le_bytes 4 dir_magic ++ (le_bytes 2 n ++ (kvhash_version ∷ depth % 256 ∷ replicate (n * 8) 0))

-- what dir_load_raw reports beside the bytes in dir_buf
pub record Dir : Type 0 where
  pub bytes : List ℕ
  pub n : ℕ
  pub depth : ℕ
  pub dying : Bool

module _ (max_payload : ℕ) where
  -- the checks of dir_load_raw on the bytes read
  unfoldable pub check_dir : List ℕ → Result Dir
  check_dir bs =
      let magic = int_at 4 bs 0 in
      let version = int_at 1 bs 6 in
      let n = int_at 2 bs 4 in
      let depth = int_at 1 bs 7 in
      if ltb (length bs) dir_hdr_len
      then err eio
      else if not (magic == dir_magic) && not (magic == dir_dying)
      then err eio
      else if ltb version kvhash_version_min || ltb kvhash_version version
      then err eio
      else if ltb n 2 || (ltb (max_buckets 32 max_payload) n || ltb (length bs) (dir_len n))
      then err eio
      else if not (depth == 1) && not (depth == 2)
      then err eio
      else ok record { bytes = bs; n = n; depth = depth; dying = not (magic == dir_magic) }

  abbrev pub check_reply : Result (List ℕ) → Result Dir
  check_reply (err e) = err e
  check_reply (ok bs) = check_dir bs

-- a directory whose destroy has committed is gone
abbrev pub if_alive : Result Dir → Result Dir
if_alive (err e) = err e
if_alive (ok d) = if d.dying then err enoent else ok d

-- the leaf directory of a key: its root and its bytes, its n and the index of the key's bucket
pub record Leaf : Type 0 where
  pub root : ℕ
  pub dir : Dir
  pub idx : ℕ

abbrev pub leaf_dir : Result Dir → Result Dir
leaf_dir (err e) = err e
leaf_dir (ok d) = if d.depth == 1 then ok d else err eio

abbrev pub leaf_at : ℕ → ℕ → Result Dir → Result Leaf
leaf_at root h (err e) = err e
leaf_at root h (ok d) = ok record { root = root; dir = d; idx = idx_sub h d.n }

module _ (db : BlobDb) (max_payload : ℕ) where
  open db use {Store, get}

  unfoldable pub dir_load_raw : Store → ℕ → Result Dir
  dir_load_raw s root = check_reply max_payload (get s root max_payload)

  unfoldable pub dir_load : Store → ℕ → Result Dir
  dir_load s root = if_alive (dir_load_raw s root)

  unfoldable pub sub_load : Store → ℕ → Result Dir
  sub_load s sub = if sub == 0 then err eio else leaf_dir (dir_load s sub)

  abbrev below_top : Store → ℕ → Dir → Result Leaf
  below_top s h top =
      let sub = dir_child top.bytes (idx_top h top.n) in leaf_at sub h (sub_load s sub)

  abbrev pub leaf_of : Store → ℕ → ℕ → Result Dir → Result Leaf
  leaf_of s root h (err e) = err e
  leaf_of s root h (ok d) = if d.depth == 1 then leaf_at root h (ok d) else below_top s h d

  unfoldable pub resolve_leaf : Store → ℕ → ℕ → Result Leaf
  resolve_leaf s root h = leaf_of s root h (dir_load s root)

  abbrev child_of : ℕ → Result Dir → Result ℕ
  child_of t (err e) = err e
  child_of t (ok d) = if leb d.n t then err eio else ok (dir_child d.bytes t)

  unfoldable pub top_child : Store → ℕ → ℕ → Result ℕ
  top_child s root t = child_of t (dir_load s root)
