-- ===== src/Compaction.antt =====
-- lib/blob_db/blob_db.c: committing a compacted bucket to flash, and the recovery that mount runs.
-- The store backend is a parameter; of the flash, the sectors of the bucket and of the scratch
-- area are all that these functions touch.
pub mod Window
pub mod Recover
pub mod Restore
pub mod Tests
use key_value_db.Base.{
  ℕ, zero, suc, ◌+◌, ◌-◌, ◌*◌, ◌/◌, ◌%◌, ◌^◌, ◌≤◌, ◌<◌, min, ◌≡◌, refl, sym, ap, ap₂, ◌∙◌, ◌≢◌, ◌↔◌,
  ◌⊎◌, inl, inr, Bool, true, false, not, ◌&&◌, ◌||◌, Option, none, some, List, [], ◌∷◌, ◌++◌, map,
  arith, ltb, leb, ◌==◌, if◌then◌else◌, ltb→lt, ltb→le, leb→le, ==_iff, ==_refl, Bool-cases,
  Option-cases, length, get_or, set, take, drop, replicate, All, length-append, length-set,
  length-take, length-drop, length-replicate, get_or-set_self, get_or-set_ne, take-append_self,
  drop-append_self, take_self, drop-nil, drop-drop, drop-append, take-append, take-append_right,
  values, le_bytes, of_le, int_at, length-le_bytes, of_le-le_bytes, int_at-le_bytes, take-le_bytes,
  drop-le_bytes, Errno, enoent, eio, enomem, eexist, einval, enospc, enotsup, enodev, emsgsize,
  estale, enodata, ebadmsg, is_ebadmsg, code, Result, ok, err, is_enoent, is_enospc, Exec, continue,
  ◌>>=◌, ◌>>◌, return, fail, lift, Result-cases,
}
use key_value_db.BucketLog.{Geometry, build_compacted_image, bucket_data_off, erased}
use key_value_db.BucketLog.Header.{bucket_hdr_valid, compaction_may_drop_tail, starts}

-- peb_offset(BLOB_DB_SCRATCH_SECTOR), and bucket_offset(bid) for each bucket
pub data Sector : Type 0 where
  scratch : Sector
  bucket : ℕ → Sector

-- blob_db_store_*: offsets are within the sector
pub record Backend : Type 1 where
  pub Flash : Type 0
  pub read : Flash → Sector → ℕ → ℕ → Result (List ℕ)
  pub erase : Sector → Exec Flash (Unit {0})
  pub write : Sector → ℕ → List ℕ → Exec Flash (Unit {0})
  pub replace : Sector → List ℕ → Exec Flash (Unit {0})
  pub replace_is_atomic : Bool

-- the flash, and `st.wedged`
pub record Core (b : Backend) : Type 0 where
  pub flash : b.Flash
  pub wedged : Bool

module _ (b : Backend) where
  abbrev pub io : Exec b.Flash (Unit {0}) → Exec (Core b) (Unit {0})
  io m c = let (r, f) = m c.flash in (r, record { flash = f; wedged = c.wedged })

  abbrev pub wedge : Result (Unit {0}) → Bool → Bool
  wedge (ok u) w = w
  wedge (err e) w = true

  -- COMPACT_OR_WEDGE
  abbrev pub compact_or_wedge : Exec b.Flash (Unit {0}) → Exec (Core b) (Unit {0})
  compact_or_wedge m c =
      let (r, f) = m c.flash in (r, record { flash = f; wedged = wedge r c.wedged })

module _ (g : Geometry) where
  unfoldable pub scratch_seal_len : ℕ
  scratch_seal_len = let a = if g.write_align == 0 then 1 else g.write_align in (16 + a - 1) / a * a

  unfoldable pub scratch_seal_off : ℕ
  scratch_seal_off = g.peb_size - scratch_seal_len

  -- the first 12 bytes of the seal
  abbrev pub seal_head : List ℕ → List ℕ
  seal_head image =
      b'B' ∷ b'D' ∷ b'S' ∷ b'L' ∷ (le_bytes 4 (length image) ++ le_bytes 4 (g.crc32 image))

  unfoldable pub seal_bytes : List ℕ → List ℕ
  seal_bytes image =
      let head = seal_head image in
      head ++ (le_bytes 4 (g.crc32 head) ++ replicate (scratch_seal_len - 16) erased)

  -- the length of the image, where the sector's seal covers it
  pub scratch_seal_valid : List ℕ → Option ℕ
  scratch_seal_valid sector =
      let seal = take 16 (drop scratch_seal_off sector) in
      let image_len = int_at 4 seal 4 in
      if not (starts (b'B' ∷ b'D' ∷ b'S' ∷ b'L' ∷ []) seal)
      then none
      else if not (int_at 4 seal 12 == g.crc32 (take 12 seal))
      then none
      else if ltb image_len bucket_data_off || ltb scratch_seal_off image_len
      then none
      else if not (int_at 4 seal 8 == g.crc32 (take image_len sector))
      then none
      else some image_len

  module _ (b : Backend) where
    -- from the bucket's erase to the erase that leaves the window
    pub rewrite_bucket : ℕ → List ℕ → Exec (Core b) (Unit {0})
    rewrite_bucket bid image = do
      compact_or_wedge b (b.erase (bucket bid))
      compact_or_wedge b (b.write (bucket bid) 0 image)
      compact_or_wedge b (b.erase scratch)

    -- the window: scratch is filled and sealed, and then the bucket is rewritten
    pub commit_through_scratch : ℕ → List ℕ → Exec (Core b) (Unit {0})
    commit_through_scratch bid image = do
      io b (b.erase scratch)
      io b (b.write scratch 0 image)
      io b (b.write scratch scratch_seal_off (seal_bytes image))
      rewrite_bucket bid image

    pub compact_commit : ℕ → List ℕ → Exec (Core b) (Unit {0})
    compact_commit bid image c =
        if ltb scratch_seal_off (length image)
        then (err enospc, c)
        else if b.replace_is_atomic
        then io b (b.replace (bucket bid) image) c
        else commit_through_scratch bid image c

    -- the build without the slot index, in which nothing follows the commit
    unfoldable pub compact_bucket : ℕ → Exec (Core b) (Unit {0})
    compact_bucket bid c = elim (b.read c.flash (bucket bid) 0 g.peb_size) [
      | err e ↦ (err e, c)
      | ok buf ↦
          if not (bucket_hdr_valid g buf bid)
          then (err einval, c)
          else let (out, new_len, stop) = build_compacted_image g buf bid in
            elim (compaction_may_drop_tail g out stop) [
              | err e ↦ (err e, c)
              | ok u ↦ compact_commit bid (take new_len out) c
            ]
    ]

    -- the image that a sealed scratch sector holds, and its bucket; none where the source has -1
    pub scratch_sealed_bucket : ℕ → b.Flash → Result (Option (ℕ × List ℕ))
    scratch_sealed_bucket n_buckets f = elim (b.read f scratch scratch_seal_off 16) [
      | err e ↦ err e
      | ok seal ↦
          if not (starts (b'B' ∷ b'D' ∷ b'S' ∷ b'L' ∷ []) seal)
            || not (int_at 4 seal 12 == g.crc32 (take 12 seal))
          then ok none
          else elim (b.read f scratch 0 g.peb_size) [
            | err e ↦ err e
            | ok buf ↦ elim (scratch_seal_valid buf) [
              | none ↦ ok none
              | some image_len ↦
                  let bid = int_at 2 buf 4 in
                  if leb n_buckets bid || not (bucket_hdr_valid g buf bid)
                  then ok none
                  else ok (some (bid, take image_len buf))
            ]
          ]
    ]

    pub restore : ℕ → List ℕ → Exec b.Flash (Unit {0})
    restore bid image = do b.erase (bucket bid); b.write (bucket bid) 0 image; b.erase scratch

    pub recover_compaction : ℕ → Exec b.Flash (Unit {0})
    recover_compaction n_buckets f = elim (scratch_sealed_bucket n_buckets f) [
      | err e ↦ (err e, f)
      | ok none ↦ (ok tt, f)
      | ok (some (bid, image)) ↦ restore bid image f
    ]
