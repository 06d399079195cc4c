-- ===== src/Scan.antt =====
-- lib/blob_db/blob_db.c: finding an id in a bucket by reading slot headers from flash, in the
-- build without the slot index. `read off n` stands for blob_db_store_read of `n` bytes at `off`
-- of the bucket.
pub mod Reads
pub mod Find
pub mod Untorn
use key_value_db.Base.{
  ℕ, zero, suc, ◌+◌, ◌-◌, ◌*◌, ◌/◌, ◌%◌, ◌^◌, ◌≤◌, ◌<◌, min, ◌≡◌, refl, sym, ap, ap₂, ◌∙◌, ◌≢◌, ◌↔◌,
  ◌⊎◌, inl, inr, Bool, true, false, not, ◌&&◌, ◌||◌, Option, none, some, List, [], ◌∷◌, ◌++◌, map,
  arith, ltb, leb, ◌==◌, if◌then◌else◌, ltb→lt, ltb→le, leb→le, ==_iff, ==_refl, Bool-cases,
  Option-cases, length, get_or, set, take, drop, replicate, All, length-append, length-set,
  length-take, length-drop, length-replicate, get_or-set_self, get_or-set_ne, take-append_self,
  drop-append_self, take_self, drop-nil, drop-drop, drop-append, take-append, take-append_right,
  values, le_bytes, of_le, int_at, length-le_bytes, of_le-le_bytes, int_at-le_bytes, take-le_bytes,
  drop-le_bytes, Errno, enoent, eio, enomem, eexist, einval, enospc, enotsup, enodev, emsgsize,
  estale, enodata, ebadmsg, is_ebadmsg, code, Result, ok, err, is_enoent, is_enospc, Exec, continue,
  ◌>>=◌, ◌>>◌, return, fail, lift, Result-cases,
}
use key_value_db.BucketLog.{
  Geometry, slot_overhead, slot_size_for, slot_crc16, slot_foreign_head, bucket_data_off, erased,
  is_sealed, is_known, is_tombstone,
}

-- struct slot_head, by its offset in the bucket and its 12 bytes
pub record Head : Type 0 where
  pub off : ℕ
  pub bytes : List ℕ

-- struct bucket_scan; `target` is none where the source has a negative target_off
pub record BucketScan : Type 0 where
  pub write_cursor : ℕ
  pub target : Option Head
  pub tail_torn : Bool
  pub foreign : Bool

abbrev pub head_flags : Head → ℕ
head_flags h = int_at 1 h.bytes 0

abbrev pub head_val_len : Head → ℕ
head_val_len h = int_at 2 h.bytes 2

abbrev pub head_id : Head → ℕ
head_id h = int_at 8 h.bytes 4

-- what one round of the walk of scan_bucket_for decides
pub data Round : Type 0 where
  halt : Result BucketScan → Round
  next : ℕ → Option Head → Round

module _ (g : Geometry) (read : ℕ → ℕ → Result (List ℕ)) where
  -- the loop of slot_crc_ok_on_flash: `left` bytes from `at` on, in chunks of 64
  pub crc_chunks : ℕ → ℕ → ℕ → ℕ → Result ℕ
  crc_chunks zero pos left c = ok c
  crc_chunks (suc k) pos left c = if left == 0 then ok c else elim (read pos (min left 64)) [
    | err e ↦ err e
    | ok chunk ↦ crc_chunks k (pos + min left 64) (left - min left 64) (g.crc16 c chunk)
  ]

  -- every round but the last takes 64 bytes, so `left` rounds are enough
  pub slot_crc_ok_on_flash : Head → Result Bool
  slot_crc_ok_on_flash sh =
      let c = g.crc16 (g.crc16 0xffff (take 4 sh.bytes)) (take 8 (drop 4 sh.bytes)) in
      elim (crc_chunks (head_val_len sh) (sh.off + 12) (head_val_len sh) c) [
        | err e ↦ err e
        | ok crc ↦ elim (read (sh.off + 12 + head_val_len sh) 2) [
          | err e ↦ err e
          | ok stored ↦ ok (crc == of_le stored)
        ]
      ]

  -- a header that cannot be trusted to size its slot
  abbrev pub unsized : Head → Bool
  unsized sh =
      head_flags sh == erased
      || not (is_sealed (head_flags sh))
      || not (is_known (head_flags sh))
      || ltb g.max_payload (head_val_len sh)

  -- the branch of an untrusted header
  pub stop_at : Head → Option Head → Result BucketScan
  stop_at sh target =
      elim (if slot_foreign_head g sh.bytes sh.off then slot_crc_ok_on_flash sh else ok false) [
        | err e ↦ err e
        | ok foreign ↦ ok record {
          write_cursor = sh.off;
          target = target;
          tail_torn = not foreign && not (head_flags sh == erased);
          foreign = foreign;
        }
      ]

  abbrev stop_clean : ℕ → Option Head → Bool → Result BucketScan
  stop_clean cursor target torn =
      ok record { write_cursor = cursor; target = target; tail_torn = torn; foreign = false }

  pub round_at : Head → ℕ → ℕ → Option Head → Round
  round_at sh id limit target =
      let ssz = slot_size_for g (head_val_len sh) in
      if unsized sh
      then halt (stop_at sh target)
      else if ltb g.peb_size (sh.off + ssz)
      then halt (stop_clean sh.off target true)
      else next (sh.off + ssz) (if head_id sh == id && ltb sh.off limit then some sh else target)

  pub scan_round : ℕ → ℕ → ℕ → Option Head → Round
  scan_round id limit cursor target =
      if ltb g.peb_size (cursor + slot_overhead)
      then halt (stop_clean cursor target false)
      else elim (read cursor 12) [
        | err e ↦ halt (err e)
        | ok bytes ↦ round_at record { off = cursor; bytes = bytes } id limit target
      ]

  pub scan_from : ℕ → ℕ → ℕ → ℕ → Option Head → Result BucketScan
  scan_from zero id limit cursor target = stop_clean cursor target false
  scan_from (suc k) id limit cursor target = elim (scan_round id limit cursor target) [
    | halt r ↦ r
    | next cursor' target' ↦ scan_from k id limit cursor' target'
  ]

  -- a round advances by `slot_overhead` at least, so `peb_size` rounds are enough
  pub scan_bucket_for : ℕ → ℕ → Result BucketScan
  scan_bucket_for id limit = scan_from g.peb_size id limit bucket_data_off none

  -- the payload, or -EBADMSG where the CRC does not verify
  pub slot_verify : Head → Result (List ℕ)
  slot_verify sh =
      elim (if ltb 0 (head_val_len sh) then read (sh.off + 12) (head_val_len sh) else ok []) [
        | err e ↦ err e
        | ok dst ↦ elim (read (sh.off + 12 + head_val_len sh) 2) [
          | err e ↦ err e
          | ok stored ↦
              if slot_crc16 g (take 4 sh.bytes) (take 8 (drop 4 sh.bytes)) dst == of_le stored
              then ok dst
              else err ebadmsg
        ]
      ]

  -- the loop of walk_live_slot: each retry is below the last target, so `peb_size` rounds and one
  -- more are enough
  pub walk_below : ℕ → ℕ → ℕ → Result (BucketScan × List ℕ)
  walk_below zero id limit = err eio
  walk_below (suc k) id limit = elim (scan_bucket_for id limit) [
    | err e ↦ err e
    | ok sc ↦ if sc.foreign then err enotsup else elim sc.target [
      | none ↦ err enoent
      | some sh ↦ elim (slot_verify sh) [
        | err e ↦ elim (is_ebadmsg e) [ true ↦ walk_below k id sh.off | false ↦ err e ]
        | ok dst ↦ if is_tombstone (head_flags sh) then err enoent else ok (sc, dst)
      ]
    ]
  ]

  pub walk_live_slot : ℕ → Result (BucketScan × List ℕ)
  walk_live_slot id = walk_below (suc g.peb_size) id g.peb_size
