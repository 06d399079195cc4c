-- ===== src/Append.antt =====
-- lib/blob_db/blob_db.c: appending a slot to a bucket. `write off bytes` stands for
-- blob_db_store_write at `off` of the bucket; the build is the one without the slot index.
pub mod Image
pub mod Extend
pub mod Live
use key_value_db.Base.{
  ℕ, zero, suc, ◌+◌, ◌-◌, ◌*◌, ◌/◌, ◌%◌, ◌^◌, ◌≤◌, ◌<◌, min, ◌≡◌, refl, sym, ap, ap₂, ◌∙◌, ◌≢◌, ◌↔◌,
  ◌⊎◌, inl, inr, Bool, true, false, not, ◌&&◌, ◌||◌, Option, none, some, List, [], ◌∷◌, ◌++◌, map,
  arith, ltb, leb, ◌==◌, if◌then◌else◌, ltb→lt, ltb→le, leb→le, ==_iff, ==_refl, Bool-cases,
  Option-cases, length, get_or, set, take, drop, replicate, All, length-append, length-set,
  length-take, length-drop, length-replicate, get_or-set_self, get_or-set_ne, take-append_self,
  drop-append_self, take_self, drop-nil, drop-drop, drop-append, take-append, take-append_right,
  values, le_bytes, of_le, int_at, length-le_bytes, of_le-le_bytes, int_at-le_bytes, take-le_bytes,
  drop-le_bytes, Errno, enoent, eio, enomem, eexist, einval, enospc, enotsup, enodev, emsgsize,
  estale, enodata, ebadmsg, is_ebadmsg, code, Result, ok, err, is_enoent, is_enospc, Exec, continue,
  ◌>>=◌, ◌>>◌, return, fail, lift, Result-cases,
}
use key_value_db.BucketLog.{Geometry, slot_overhead, slot_size_for, slot_crc16, erased}

-- `BLOB_DB_SLOT_F_SEALED | extra_flags`
abbrev pub sealed_flags : ℕ → ℕ
sealed_flags extra = extra - extra % 2 + 1

module _ (g : Geometry) where
  abbrev pub slot_head : ℕ → ℕ → List ℕ
  slot_head extra val_len = sealed_flags extra ∷ 0 ∷ le_bytes 2 val_len

  -- what append_slot2 assembles in g_slot_buf
  unfoldable pub slot_image : ℕ → ℕ → List ℕ → List ℕ
  slot_image id extra val =
      let val_len = length val in
      let crc = slot_crc16 g (slot_head extra val_len) (le_bytes 8 id) val in
      slot_head extra val_len
      ++ (le_bytes 8 id
          ++ (val
              ++ (le_bytes 2 crc
                  ++ replicate (slot_size_for g val_len - (slot_overhead + val_len)) erased)))

  module _ {S : Type 0} (max_write_align : ℕ) (write : ℕ → List ℕ → Exec S (Unit {0})) where
    -- `hdr` and `payload` are the two parts of the slot's payload
    unfoldable pub append_slot2 : ℕ → ℕ → ℕ → List ℕ → List ℕ → Exec S (Unit {0})
    append_slot2 write_cursor id extra hdr payload =
        if ltb g.max_payload (length (hdr ++ payload))
        then fail einval
        else if ltb max_write_align g.write_align
        then fail enotsup
        else write write_cursor (slot_image id extra (hdr ++ payload))

    unfoldable pub append_slot : ℕ → ℕ → ℕ → List ℕ → Exec S (Unit {0})
    append_slot write_cursor id extra payload = append_slot2 write_cursor id extra [] payload
