-- ===== src/BucketLog/Header.antt =====
-- lib/blob_db/blob_db.c: the header of a bucket, and what compaction checks before it drops a tail.
use key_value_db.Base.{
  ℕ, ◌+◌, ◌%◌, ◌^◌, ◌<◌, ◌≡◌, refl, sym, Bool, true, false, not, ◌&&◌, List, [], ◌∷◌, ◌++◌, arith,
  ◌==◌, if◌then◌else◌, ==_refl, length, take, drop, take-append_self, drop-append_self, values,
  le_bytes, int_at, of_le-le_bytes, take-le_bytes, eio, enotsup, Result, ok, err,
}
use key_value_db.BucketLog.{Geometry, slot_size_for, slot_foreign_at, next_header, erased}

-- memcmp of the first bytes
abbrev pub starts : List ℕ → List ℕ → Bool
starts [] bs = true
starts (m ∷ ms) [] = false
starts (m ∷ ms) (b ∷ bs) = m == b && starts ms bs

module _ (g : Geometry) where
  unfoldable pub bucket_hdr_valid : List ℕ → ℕ → Bool
  bucket_hdr_valid buf bid =
      if not (starts (b'B' ∷ b'D' ∷ b'B' ∷ b'H' ∷ []) buf)
      then false
      else if not (int_at 4 buf 12 == g.crc32 (take 12 buf))
      then false
      else if not (int_at 2 buf 4 == bid)
      then false
      else true

  -- `i` from `off` on, in an image of `peb_size` bytes
  abbrev all_erased : List ℕ → Bool
  all_erased [] = true
  all_erased (b ∷ bs) = b == erased && all_erased bs

  unfoldable pub compaction_may_drop_tail : List ℕ → ℕ → Result (Unit {0})
  compaction_may_drop_tail old_buf stop =
      if slot_foreign_at g old_buf stop
      then err enotsup
      else if all_erased (drop (stop + slot_size_for g g.max_payload) (take g.peb_size old_buf))
      then ok tt
      else err eio

  -- A header that carries its own CRC and the bucket's id is valid.
  pub header_fields :
      (head rest : List ℕ) (bid : ℕ)
      → length head ≡ 12
      → starts (b'B' ∷ b'D' ∷ b'B' ∷ b'H' ∷ []) (head ++ (le_bytes 4 (g.crc32 head) ++ rest)) ≡ true
      → int_at 2 (head ++ (le_bytes 4 (g.crc32 head) ++ rest)) 4 ≡ bid
      → g.crc32 head < 2 ^ 32
      → bucket_hdr_valid (head ++ (le_bytes 4 (g.crc32 head) ++ rest)) bid ≡ true
  unfolding bucket_hdr_valid
  header_fields head rest bid l magic here wide =
      rw
        (
          magic,
          drop-append_self head (le_bytes 4 (g.crc32 head) ++ rest) 12 (sym l),
          take-append_self head (le_bytes 4 (g.crc32 head) ++ rest) 12 (sym l),
          take-le_bytes 4 (g.crc32 head) rest,
          of_le-le_bytes 4 (g.crc32 head) (omega arith),
          here,
          ==_refl (g.crc32 head),
          ==_refl bid,
        )
        refl

  -- The rewritten header is valid where the CRC is 32 bits wide and the bucket id 16.
  pub next_header-bucket_hdr_valid :
      (buf rest : List ℕ) (bid : ℕ)
      → bid < 2 ^ 16
      → ((bs : List ℕ) → g.crc32 bs < 2 ^ 32)
      → bucket_hdr_valid (next_header g buf bid ++ rest) bid ≡ true
  unfolding next_header le_bytes
  next_header-bucket_hdr_valid buf rest bid small wide =
      let head =
        b'B'
        ∷ b'D'
        ∷ b'B'
        ∷ b'H'
        ∷ (le_bytes 2 bid ++ (le_bytes 2 0 ++ le_bytes 4 ((int_at 4 buf 8 + 1) % values 4))) in
      header_fields head rest bid refl refl (of_le-le_bytes 2 bid (omega arith)) (wide head)

  pub length-next_header : (buf : List ℕ) (bid : ℕ) → length (next_header g buf bid) ≡ 16
  unfolding next_header le_bytes
  length-next_header buf bid = refl
