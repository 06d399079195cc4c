-- ===== src/BucketLog.antt =====
-- lib/blob_db/blob_db.c: one bucket of the log, as the bytes of its erase block. The build is the
-- one without CONFIG_BLOB_DB_LARGE_PAYLOADS, so SEALED and TOMBSTONE are the known flags.
pub mod Parse
pub mod Walk
pub mod Move
pub mod Compact
pub mod Reparse
pub mod Header
pub mod Rebuild
pub mod Below
use key_value_db.Base.{
  ℕ, zero, suc, ◌+◌, ◌-◌, ◌*◌, ◌/◌, ◌%◌, ◌^◌, ◌≤◌, ◌<◌, min, ◌≡◌, refl, sym, ap, ap₂, ◌∙◌, ◌≢◌, ◌↔◌,
  ◌⊎◌, inl, inr, Bool, true, false, not, ◌&&◌, ◌||◌, Option, none, some, List, [], ◌∷◌, ◌++◌, map,
  arith, ltb, leb, ◌==◌, if◌then◌else◌, ltb→lt, ltb→le, leb→le, ==_iff, ==_refl, Bool-cases,
  Option-cases, length, get_or, set, take, drop, replicate, All, length-append, length-set,
  length-take, length-drop, length-replicate, get_or-set_self, get_or-set_ne, take-append_self,
  drop-append_self, take_self, values, le_bytes, of_le, int_at, length-le_bytes, of_le-le_bytes,
  int_at-le_bytes, take-le_bytes, drop-le_bytes, Errno, enoent, eio, enomem, eexist, einval, enospc,
  enotsup, enodev, emsgsize, estale, enodata, code, Result, ok, err, is_enoent, is_enospc, Exec,
  continue, ◌>>=◌, ◌>>◌, return, fail, lift, Result-cases,
}

-- What mount has found out of the partition, the payload cap, and Zephyr's CRC functions.
pub record Geometry : Type 0 where
  pub peb_size : ℕ
  pub write_align : ℕ
  pub max_payload : ℕ
  -- crc16_ccitt(seed, bytes) and crc32_ieee(bytes)
  pub crc16 : ℕ → List ℕ → ℕ
  pub crc32 : List ℕ → ℕ

abbrev pub slot_overhead : ℕ
slot_overhead = 14

abbrev pub bucket_data_off : ℕ
bucket_data_off = 16

-- an erased byte
abbrev pub erased : ℕ
erased = 0xff

abbrev pub is_sealed : ℕ → Bool
is_sealed flags = flags % 2 == 1

abbrev pub is_tombstone : ℕ → Bool
is_tombstone flags = flags / 2 % 2 == 1

-- no flag outside BLOB_DB_SLOT_F_KNOWN
abbrev pub is_known : ℕ → Bool
is_known flags = flags / 4 == 0

-- struct slot_view
pub record Slot : Type 0 where
  pub id : ℕ
  pub flags : ℕ
  pub val_len : ℕ
  pub total_size : ℕ

-- memmove(buf + dst, buf + src, n)
pub memmove : List ℕ → ℕ → ℕ → ℕ → List ℕ
memmove buf dst src n = take dst buf ++ (take n (drop src buf) ++ drop (dst + n) buf)

module _ (g : Geometry) where
  -- `write_align` is a power of two, so `& ~(a - 1)` rounds down to a multiple of it
  unfoldable pub slot_size_for : ℕ → ℕ
  slot_size_for val_len =
      let a = if g.write_align == 0 then 1 else g.write_align in
      (slot_overhead + val_len + a - 1) / a * a

  -- over the bytes of the header, of the id and of the payload in turn
  unfoldable pub slot_crc16 : List ℕ → List ℕ → List ℕ → ℕ
  slot_crc16 hdr id payload =
      let c = g.crc16 (g.crc16 0xffff hdr) id in
      if ltb 0 (length payload) then g.crc16 c payload else c

  -- The slot at offset `off` of a bucket image, `bs` being the image from there on.
  unfoldable pub slot_at : ℕ → List ℕ → Option (Slot × Bool)
  unfolding slot_crc16
  slot_at off bs =
      let flags = int_at 1 bs 0 in
      let val_len = int_at 2 bs 2 in
      let size = slot_size_for val_len in
      if ltb g.peb_size (off + slot_overhead)
      then none
      else if flags == erased
      then none
      else if not (is_sealed flags)
      then none
      else if not (is_known flags)
      then none
      else if ltb g.max_payload val_len
      then none
      else if ltb g.peb_size (off + size)
      then none
      else some (
        record { id = int_at 8 bs 4; flags = flags; val_len = val_len; total_size = size },
        slot_crc16 (take 4 bs) (take 8 (drop 4 bs)) (take val_len (drop 12 bs))
            == int_at 2 bs (12 + val_len),
      )

  unfoldable pub slot_walk_at : List ℕ → ℕ → Option (Slot × Bool)
  slot_walk_at buf off = slot_at off (drop off buf)

  -- `head` starts with the header of a slot
  unfoldable pub slot_foreign_head : List ℕ → ℕ → Bool
  slot_foreign_head head off =
      let flags = int_at 1 head 0 in
      let val_len = int_at 2 head 2 in
      not (flags == erased)
      && is_sealed flags
      && not (is_known flags)
      && leb val_len g.max_payload
      && leb (off + slot_size_for val_len) g.peb_size

  unfoldable pub slot_foreign_at : List ℕ → ℕ → Bool
  slot_foreign_at buf off =
      let bs = drop off buf in
      let val_len = int_at 2 bs 2 in
      if ltb g.peb_size (off + slot_overhead)
      then false
      else if not (slot_foreign_head bs off)
      then false
      else slot_crc16 (take 4 bs) (take 8 (drop 4 bs)) (take val_len (drop 12 bs))
        == int_at 2 bs (12 + val_len)

  -- The walk by slot header, which runs out of slots before it runs out of fuel: an offset grows
  -- by `slot_overhead` at least. `step` is the body of the loop, `stop` what follows it.
  unfoldable pub walk_end : ℕ → List ℕ → ℕ → ℕ
  unfolding slot_walk_at
  walk_end zero buf off = off
  walk_end (suc k) buf off = elim (slot_walk_at buf off) [
    | none ↦ off
    | some (sv, intact) ↦ walk_end k buf (off + sv.total_size)
  ]

  unfoldable pub bucket_image_ends_foreign : List ℕ → Bool
  bucket_image_ends_foreign buf = slot_foreign_at buf (walk_end g.peb_size buf bucket_data_off)

  -- the loop of slot_superseded from offset `scan` on
  pub superseded_from : ℕ → List ℕ → ℕ → ℕ → Bool
  superseded_from zero buf scan id = false
  superseded_from (suc k) buf scan id = elim (slot_walk_at buf scan) [
    | none ↦ false
    | some (future, intact) ↦
        (intact && future.id == id) || superseded_from k buf (scan + future.total_size) id
  ]

  pub slot_superseded : List ℕ → ℕ → Slot → Bool
  unfolding superseded_from
  slot_superseded buf off sv = superseded_from g.peb_size buf (off + sv.total_size) sv.id

  pub kept : List ℕ → ℕ → Slot → Bool → Bool
  unfolding slot_superseded
  kept buf cursor sv intact =
      intact && not (is_tombstone sv.flags) && not (slot_superseded buf cursor sv)

  -- The loop of build_compacted_image: the buffer, `new_cursor` and `cursor` when it ends.
  pub compact_from : ℕ → List ℕ → ℕ → ℕ → List ℕ × ℕ × ℕ
  unfolding slot_walk_at kept memmove
  compact_from zero buf new_cursor cursor = (buf, new_cursor, cursor)
  compact_from (suc k) buf new_cursor cursor = elim (slot_walk_at buf cursor) [
    | none ↦ (buf, new_cursor, cursor)
    | some (sv, intact) ↦
        let keep = kept buf cursor sv intact in
        compact_from k
          (if keep && not (new_cursor == cursor)
            then memmove buf new_cursor cursor sv.total_size
            else buf)
          (if keep then new_cursor + sv.total_size else new_cursor) (cursor + sv.total_size)
  ]

  -- the bucket header that compaction writes: magic, bucket id, 0, the next generation, its CRC
  unfoldable pub next_header : List ℕ → ℕ → List ℕ
  next_header buf bid =
      let head =
        b'B'
        ∷ b'D'
        ∷ b'B'
        ∷ b'H'
        ∷ (le_bytes 2 bid ++ (le_bytes 2 0 ++ le_bytes 4 ((int_at 4 buf 8 + 1) % values 4))) in
      head ++ le_bytes 4 (g.crc32 head)

  -- The compacted image in `buf`, its length, and where the walk of the old image stopped.
  pub build_compacted_image : List ℕ → ℕ → List ℕ × ℕ × ℕ
  unfolding compact_from next_header
  build_compacted_image buf bid =
      let (out, new_cursor, stop) = compact_from g.peb_size buf bucket_data_off bucket_data_off in
      (next_header buf bid ++ drop bucket_data_off out, new_cursor, stop)
