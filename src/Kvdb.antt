-- ===== src/Kvdb.antt =====
-- lib/kvdb/kvdb.c: named string maps over a map container, whose operations are a parameter. The
-- build has the kvhash provider and no other.
pub mod Reopen
pub mod Tests
use key_value_db.Base.{
  ℕ, zero, suc, ◌+◌, ◌-◌, ◌*◌, ◌/◌, ◌%◌, ◌^◌, ◌≤◌, ◌<◌, min, ◌≡◌, refl, sym, ap, ap₂, ◌∙◌, ◌≢◌, ◌↔◌,
  ◌⊎◌, inl, inr, Bool, true, false, not, ◌&&◌, ◌||◌, Option, none, some, List, [], ◌∷◌, ◌++◌, map,
  arith, ltb, leb, ◌==◌, if◌then◌else◌, ltb→lt, ltb→le, leb→le, ==_iff, ==_refl, Bool-cases,
  Option-cases, length, get_or, set, take, drop, replicate, All, length-append, length-set,
  length-take, length-drop, length-replicate, get_or-set_self, get_or-set_ne, take-append_self,
  drop-append_self, take_self, drop-nil, drop-drop, drop-append, take-append, take-append_right,
  values, le_bytes, of_le, int_at, length-le_bytes, of_le-le_bytes, int_at-le_bytes, take-le_bytes,
  drop-le_bytes, Errno, enoent, eio, enomem, eexist, einval, enospc, enotsup, enodev, emsgsize,
  estale, enodata, ebadmsg, is_ebadmsg, code, Result, ok, err, is_enoent, is_enospc, Exec, continue,
  ◌>>=◌, ◌>>◌, return, fail, lift, Result-cases,
}
use Prim.Native.Nat.{bit_xor}
use key_value_db.BlobDb.{BlobDb}
use key_value_db.Rootreg.{rootreg_get_or_create}

abbrev pub kvdb_magic : ℕ
kvdb_magic = 0x4b564442

abbrev pub kvdb_name_max : ℕ
kvdb_name_max = 15

abbrev pub backend_default : ℕ
backend_default = 0

abbrev pub backend_hash : ℕ
backend_hash = 1

-- struct map_config
pub record MapConfig : Type 0 where
  pub expected_entries : ℕ
  pub typical_entry_bytes : ℕ
  pub max_entry_bytes : ℕ

-- struct kvdb_config
pub record KvdbConfig : Type 0 where
  pub backend : ℕ
  pub sizes : MapConfig

-- struct map_ops over a store; `get` takes the size of the buffer, none where there is none
pub record MapOps (S : Type 0) : Type 0 where
  pub create : ℕ → MapConfig → Exec S (Unit {0})
  pub set : ℕ → List ℕ → List ℕ → Exec S (Unit {0})
  pub get : S → ℕ → List ℕ → Option ℕ → Result (List ℕ)
  pub del : ℕ → List ℕ → Exec S (Unit {0})

-- kvdb_t: the only provider is kvhash, so its root is all
pub record Kvdb : Type 0 where
  pub root : ℕ

-- struct kvdb_meta
unfoldable pub encode_meta : ℕ → ℕ → List ℕ → List ℕ
encode_meta backend root name =
    le_bytes 4 kvdb_magic
    ++ (backend
        ∷ 1
        ∷ length name
        ∷ 0
        ∷ (le_bytes 8 root ++ (name ++ replicate (kvdb_name_max + 1 - length name) 0)))

-- memcmp
abbrev pub same_bytes : List ℕ → List ℕ → Bool
same_bytes [] [] = true
same_bytes (x ∷ xs) (y ∷ ys) = x == y && same_bytes xs ys
same_bytes _ _ = false

pub name_hash : ℕ → List ℕ → ℕ
name_hash h [] = h
name_hash h (c ∷ cs) = name_hash (bit_xor h c * 0x01000193 % 2 ^ 32) cs

-- ROOTREG_KEY(KVDB_MAGIC, name_hash(name))
pub kvdb_key : List ℕ → ℕ
kvdb_key name = kvdb_magic * 2 ^ 32 + name_hash 0x811c9dc5 name

-- attaching to what the meta blob holds
pub attach : List ℕ → List ℕ → Result Kvdb
attach name meta =
    if ltb (length meta) 32 || not (int_at 4 meta 0 == kvdb_magic)
    then err eio
    else if not (int_at 1 meta 6 == length name)
        || not (same_bytes (take (length name) (drop 16 meta)) name)
    then err eexist
    else if not (int_at 1 meta 4 == backend_hash)
    then err enotsup
    else ok record { root = int_at 8 meta 8 }

module _ (db : BlobDb) (ops : MapOps db.Store) (default_backend : ℕ) where
  open db use {Store, alloc_id, update}

  -- the backend that a configuration asks for
  abbrev pub wanted : Option KvdbConfig → ℕ
  wanted none = default_backend
  wanted (some cfg) = if cfg.backend == backend_default then default_backend else cfg.backend

  abbrev pub map_config : Option KvdbConfig → MapConfig
  map_config none = record { expected_entries = 0; typical_entry_bytes = 0; max_entry_bytes = 0 }
  map_config (some cfg) = cfg.sizes

  -- the container, and then the meta blob that names it
  pub build : ℕ → List ℕ → ℕ → Option KvdbConfig → ℕ → Exec Store Kvdb
  build meta_id name backend cfg struct_root = do
    ops.create struct_root (map_config cfg)
    update meta_id (encode_meta backend struct_root name)
    return record { root = struct_root }

  unfoldable pub create_instance : ℕ → List ℕ → Option KvdbConfig → Exec Store Kvdb
  create_instance meta_id name cfg s =
      let (struct_root, s') = alloc_id s in
      if not (wanted cfg == backend_hash)
      then (err enotsup, s)
      else if struct_root == 0
      then (err eio, s')
      else build meta_id name (wanted cfg) cfg struct_root s'

  -- what kvdb_open does with the payload of the meta blob
  pub open_meta : ℕ → List ℕ → Option KvdbConfig → Result (List ℕ) → Exec Store Kvdb
  open_meta meta_id name cfg (err enoent) s = create_instance meta_id name cfg s
  open_meta meta_id name cfg (err e) s = (err e, s)
  open_meta meta_id name cfg (ok []) s = create_instance meta_id name cfg s
  open_meta meta_id name cfg (ok (c ∷ cs)) s = (attach name (c ∷ cs), s)

  pub kvdb_open : ℕ → Option (List ℕ) → Option KvdbConfig → Exec Store Kvdb
  kvdb_open max_roots none cfg s = (err einval, s)
  kvdb_open max_roots (some name) cfg s =
      if length name == 0 || ltb kvdb_name_max (length name)
      then (err einval, s)
      else (do
        meta_id ← rootreg_get_or_create db max_roots (kvdb_key name) true
        λ s'. open_meta meta_id name cfg (db.get s' meta_id 32) s')
          s

  -- the name or the handle is none where the source has a null pointer
  pub kvdb_set : Option Kvdb → Option (List ℕ) → List ℕ → Exec Store (Unit {0})
  kvdb_set (some h) (some key) val s = ops.set h.root key val s
  kvdb_set (some h) none val s = (err einval, s)
  kvdb_set none key val s = (err einval, s)

  pub kvdb_get : Store → Option Kvdb → Option (List ℕ) → Option ℕ → Result (List ℕ)
  kvdb_get s (some h) (some key) size = ops.get s h.root key size
  kvdb_get s (some h) none size = err einval
  kvdb_get s none key size = err einval

  pub kvdb_delete : Option Kvdb → Option (List ℕ) → Exec Store (Unit {0})
  kvdb_delete (some h) (some key) s = ops.del h.root key s
  kvdb_delete (some h) none s = (err einval, s)
  kvdb_delete none key s = (err einval, s)

  abbrev pub bound : Result (List ℕ) → Bool
  bound (ok bs) = true
  bound (err e) = not (is_enoent e)

  pub kvdb_has : Store → Option Kvdb → Option (List ℕ) → Bool
  kvdb_has s (some h) (some key) = bound (ops.get s h.root key none)
  kvdb_has s (some h) none = false
  kvdb_has s none key = false
