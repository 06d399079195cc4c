-- ===== src/Kvhash/Destroy.antt =====
-- lib/containers/kvhash/kvhash.c: kvhash_destroy, and what it releases. A return code that is 0 or an
-- error is an Option here.
use key_value_db.Base.{
  ℕ, zero, suc, Bool, true, false, Option, none, some, List, [], ◌∷◌, ◌++◌, leb, ◌==◌,
  if◌then◌else◌, take, drop, le_bytes, Errno, eio, Result, ok, err, is_enoent, Exec, ◌>>◌, fail,
}
use key_value_db.BlobDb.{BlobDb}
use key_value_db.Kvhash.Dir.{Dir, dir_dying, dir_len, dir_child, dir_load_raw}
use key_value_db.Kvhash.Find.{Visit, visits, ent_key_id, ent_val_id}

-- the first of two failures
abbrev pub first_err : Option Errno → Option Errno → Option Errno
first_err (some e) later = some e
first_err none later = later

-- a blob that is already gone is no failure
abbrev pub unless_gone : Result (Unit {0}) → Option Errno
unless_gone (ok u) = none
unless_gone (err e) = if is_enoent e then none else some e

-- what the entries of a bucket name, in the order in which it is released
abbrev pub spilled_ids : List ℕ → List Visit → List ℕ
spilled_ids buf [] = []
spilled_ids buf (v ∷ vs) = ent_key_id buf v.ent ∷ ent_val_id buf v.ent ∷ spilled_ids buf vs

-- the directory in dir_buf with the magic of a destroyed map
unfoldable pub stamped : Dir → List ℕ
stamped d = take (dir_len d.n) (le_bytes 4 dir_dying ++ drop 4 d.bytes)

module _ (db : BlobDb) (max_payload : ℕ) where
  open db use {Store, get, update, delete}

  abbrev pub release_id : ℕ → Store → Option Errno × Store
  release_id id s = if id == 0 then (none, s) else (unless_gone (delete id s).0, (delete id s).1)

  unfoldable pub release_ids : List ℕ → Option Errno → Store → Option Errno × Store
  release_ids [] first s = (first, s)
  release_ids (id ∷ ids) first s =
      let (e, s') = release_id id s in release_ids ids (first_err first e) s'

  -- the bucket, once what its entries name is gone
  abbrev pub release_rest : ℕ → Option Errno → Store → Option Errno × Store
  release_rest bid (some e) s = (some e, s)
  release_rest bid none s = (unless_gone (delete bid s).0, (delete bid s).1)

  abbrev pub release_read : ℕ → Result (List ℕ) → Store → Option Errno × Store
  release_read bid (err e) s = (if is_enoent e then none else some e, s)
  release_read bid (ok buf) s =
      let (e, s') = release_ids (spilled_ids buf (visits buf)) none s in release_rest bid e s'

  unfoldable pub release_bucket : ℕ → Store → Option Errno × Store
  release_bucket bid s = if bid == 0 then (none, s) else release_read bid (get s bid max_payload) s

  -- the buckets of a directory from the `i`-th on, `k` of them
  unfoldable pub release_buckets : ℕ → ℕ → List ℕ → Option Errno → Store → Option Errno × Store
  release_buckets zero i dir first s = (first, s)
  release_buckets (suc k) i dir first s =
      let (e, s') = release_bucket (dir_child dir i) s in
      release_buckets k (suc i) dir (first_err first e) s'

  abbrev pub release_sub_dir : ℕ → Result Dir → Store → Option Errno × Store
  release_sub_dir sub (err e) s = (if is_enoent e then none else some e, s)
  release_sub_dir sub (ok d) s =
      let (e, s') = release_buckets d.n 0 d.bytes none s in release_rest sub e s'

  -- the `i`-th sub-map of the top directory as it is read again
  abbrev pub release_child : ℕ → Result Dir → Store → Option Errno × Store
  release_child i (err e) s = (some e, s)
  release_child i (ok top) s =
      let sub = dir_child top.bytes i in
      if leb top.n i
      then (some eio, s)
      else if sub == 0
      then (none, s)
      else release_sub_dir sub (dir_load_raw db max_payload s sub) s

  unfoldable pub release_subs : ℕ → ℕ → ℕ → Option Errno → Store → Option Errno × Store
  release_subs root zero i first s = (first, s)
  release_subs root (suc k) i first s =
      let (e, s') = release_child i (dir_load_raw db max_payload s root) s in
      release_subs root k (suc i) (first_err first e) s'

  unfoldable pub release_all : ℕ → Dir → Store → Option Errno × Store
  release_all root d s =
      if d.depth == 1 then release_buckets d.n 0 d.bytes none s else release_subs root d.n 0 none s

  -- the root, once everything below it is gone
  abbrev pub release_root : ℕ → Option Errno × Store → Result (Unit {0}) × Store
  release_root root (some e, s) = (err e, s)
  release_root root (none, s) = delete root s

  abbrev pub destroy_committed : ℕ → Dir → Exec Store (Unit {0})
  destroy_committed root d s = release_root root (release_all root d s)

  -- `dying` says that an earlier call has committed
  abbrev pub destroy_from : Bool → ℕ → Dir → Exec Store (Unit {0})
  destroy_from true root d = destroy_committed root d
  destroy_from false root d = update root (stamped d) >> destroy_committed root d

  abbrev pub destroy_loaded : ℕ → Result Dir → Exec Store (Unit {0})
  destroy_loaded root (err e) = fail e
  destroy_loaded root (ok d) = destroy_from d.dying root d

  unfoldable pub kvhash_destroy : ℕ → Exec Store (Unit {0})
  kvhash_destroy root s = destroy_loaded root (dir_load_raw db max_payload s root) s
