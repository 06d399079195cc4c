-- ===== src/Kvhash/Gone.antt =====
-- kvhash_destroy: what a reader finds of the map afterwards, wherever the release stopped.
use key_value_db.Base.{
  ℕ, ◌≤◌, ◌≡◌, ◌≢◌, ◌⊎◌, true, false, not, ◌&&◌, ◌||◌, Option, none, some, List, ltb, ◌==◌, length,
  int_at, Errno, enoent, Result, ok, err,
}
use key_value_db.BlobDb.{BlobDb, Stays, IsFault}
use key_value_db.Kvhash.{max_buckets}
use key_value_db.Kvhash.Dir.{
  Dir, dir_dying, dir_magic, dir_len, kvhash_version, kvhash_version_min, check_dir, dir_load,
}
use key_value_db.Kvhash.Destroy.{stamped}

-- what check_dir has found in the bytes of a directory
record Checked (max_payload : ℕ) (bs : List ℕ) (d : Dir) : Type 0 where
  bytes : d.bytes ≡ bs
  n : int_at 2 bs 4 ≡ d.n
  depth : int_at 1 bs 7 ≡ d.depth
  dying : not (int_at 4 bs 0 == dir_magic) ≡ d.dying
  magic : (not (int_at 4 bs 0 == dir_magic) && not (int_at 4 bs 0 == dir_dying)) ≡ false
  long : dir_len d.n ≤ length bs
  version : (ltb (int_at 1 bs 6) kvhash_version_min || ltb kvhash_version (int_at 1 bs 6)) ≡ false
  count : (ltb d.n 2 || ltb (max_buckets 32 max_payload) d.n) ≡ false
  level : (not (d.depth == 1) && not (d.depth == 2)) ≡ false

module _ (max_payload : ℕ) where
  abbrev pub dying_dir : Dir → Dir
  dying_dir d = record { bytes = stamped d; n = d.n; depth = d.depth; dying = true }

module _ (db : BlobDb) (max_payload : ℕ) where
  open db use {Store, view, Wedged, get, update, get_reply, update_ok, update_err}

  -- what every operation but destroy answers with
  abbrev pub Vanished : Store → ℕ → Type 0
  Vanished s root =
      (dir_load db max_payload s root ≡ err enoent) ⊎ IsFault (dir_load db max_payload s root)

  -- the root's directory with the stamp of a destroyed map
  abbrev pub IsStamp : Store → ℕ → Option (List ℕ) → Type 0
  IsStamp s root o =
      (bs : List ℕ) × (d : Dir) × (view s root ≡ some bs)
      × (check_dir max_payload bs ≡ ok d)
      × (o ≡ some (stamped d))

  -- one call of kvhash_destroy: it failed to stamp the root, or the map is out of view, and every
  -- other blob is bound as before or gone
  abbrev pub Unstamped : Store → ℕ → Result (Unit {0}) × Store → Type 0
  Unstamped s root out =
      ((e : Errno) × (out.0 ≡ err e))
      × ((j : ℕ)
          → Stays (Wedged out.1) (view s j) (view out.1 j)
            ⊎ ((j ≡ root) × IsStamp s root (view out.1 j)))

  pub record Destroyed (s : Store) (root : ℕ) (out : Result (Unit {0}) × Store) : Type 0 where
    pub vanished : Vanished out.1 root
    pub others : (j : ℕ) → j ≢ root → (view out.1 j ≡ view s j) ⊎ (view out.1 j ≡ none)
    pub done : out.0 ≡ ok tt → view out.1 root ≡ none
