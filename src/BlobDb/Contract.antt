-- ===== src/BlobDb/Contract.antt =====
-- The contract of include/app/lib/blob_db.h: payloads under stable ids. `view` is what an id is
-- bound to; no id at or above `ceiling` has been issued.
--
-- An update or a delete that fails may have landed, and where it failed after compaction had erased
-- the bucket (compact_commit in lib/blob_db/blob_db.c), ids of that bucket are not found until the
-- next mount restores them, and the store is wedged: it refuses every further change until then.
use key_value_db.Base.{
  ℕ, ◌≤◌, ◌<◌, ◌≡◌, ◌≢◌, ◌⊎◌, Option, none, some, List, Result, ok, err, Errno, enoent, eio, enomem,
  enodev, length, take, drop, values, leb, ◌==◌, if◌then◌else◌,
}

abbrev pub root_id : ℕ
root_id = 1

-- blob_db_get of an id with this view, into a buffer of `size` bytes.
abbrev pub reply : Option (List ℕ) → ℕ → Result (List ℕ)
reply none size = err enoent
reply (some p) size = if leb (length p) size then ok p else err enomem

-- A call that could not answer: a flash error, or no mount.
abbrev pub IsFault : {A : Type 0} → Result A → Type 0
IsFault r = (r ≡ err eio) ⊎ (r ≡ err enodev)

-- What is left of a binding by a change that failed, and may have wedged the store
abbrev pub Stays : Type 0 → Option (List ℕ) → Option (List ℕ) → Type 0
Stays wedged o o' = (o' ≡ o) ⊎ ((o' ≡ none) × wedged)

pub record BlobDb : Type 1 where
  pub Store : Type 0
  pub view : Store → ℕ → Option (List ℕ)
  pub ceiling : Store → ℕ
  -- no change is taken until the next mount
  pub Wedged : Store → Type 0
  -- id 0 is a failure
  pub alloc_id : Store → ℕ × Store
  pub get : Store → ℕ → ℕ → Result (List ℕ)
  pub update : ℕ → List ℕ → Store → Result (Unit {0}) × Store
  pub delete : ℕ → Store → Result (Unit {0}) × Store
  pub get_reply :
      (s : Store) (id size : ℕ) → (get s id size ≡ reply (view s id) size) ⊎ IsFault (get s id size)
  pub update_ok :
      (id : ℕ) (p : List ℕ) (s : Store)
      → (update id p s).0 ≡ ok tt
      → (j : ℕ) → view (update id p s).1 j ≡ (if j == id then some p else view s j)
  pub update_err :
      (id : ℕ) (p : List ℕ) (s : Store) (e : Errno)
      → (update id p s).0 ≡ err e
      → (j : ℕ)
      → Stays (Wedged (update id p s).1) (view s j) (view (update id p s).1 j)
        ⊎ ((j ≡ id) × (view (update id p s).1 j ≡ some p))
  pub delete_ok :
      (id : ℕ) (s : Store)
      → (delete id s).0 ≡ ok tt
      → (j : ℕ) → view (delete id s).1 j ≡ (if j == id then none else view s j)
  pub delete_err :
      (id : ℕ) (s : Store) (e : Errno)
      → (delete id s).0 ≡ err e
      → (j : ℕ)
      → Stays (Wedged (delete id s).1) (view s j) (view (delete id s).1 j)
        ⊎ ((j ≡ id) × (view (delete id s).1 j ≡ none))
  pub Wedged-update : (id : ℕ) (p : List ℕ) (s : Store) → Wedged s → Wedged (update id p s).1
  pub Wedged-delete : (id : ℕ) (s : Store) → Wedged s → Wedged (delete id s).1
  pub Wedged-alloc_id : (s : Store) → Wedged s → Wedged (alloc_id s).1
  pub ceiling-update : (id : ℕ) (p : List ℕ) (s : Store) → ceiling (update id p s).1 ≡ ceiling s
  pub ceiling-delete : (id : ℕ) (s : Store) → ceiling (delete id s).1 ≡ ceiling s
  pub view-alloc_id : (s : Store) (j : ℕ) → view (alloc_id s).1 j ≡ view s j
  pub ceiling-alloc_id : (s : Store) → ceiling s ≤ ceiling (alloc_id s).1
  pub alloc_id_fresh :
      (s : Store)
      → (alloc_id s).0 ≢ 0
      → (root_id < (alloc_id s).0)
        × (ceiling s ≤ (alloc_id s).0)
        × ((alloc_id s).0 < ceiling (alloc_id s).1)
  -- ids are uint64_t
  pub alloc_id-lt : (s : Store) → (alloc_id s).0 < values 8

-- blob_db_read of an id with this view: what there is of `n` bytes from `pos` on
abbrev pub window : Option (List ℕ) → ℕ → ℕ → Result (List ℕ)
window none pos n = err enoent
window (some p) pos n = ok (take n (drop pos p))

pub record BlobReads (db : BlobDb) : Type 1 where
  pub read : db.Store → ℕ → ℕ → ℕ → Result (List ℕ)
  pub read_window :
      (s : db.Store) (id pos n : ℕ)
      → (read s id pos n ≡ window (db.view s id) pos n) ⊎ IsFault (read s id pos n)
