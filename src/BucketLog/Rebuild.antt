-- ===== src/BucketLog/Rebuild.antt =====
-- What build_compacted_image makes of a bucket: the sector that is programmed from it.
use key_value_db.Base.{
  ℕ, ◌+◌, ◌-◌, ◌^◌, ◌≤◌, ◌<◌, ◌≡◌, sym, ap, ◌∙◌, true, List, ◌++◌, arith, length, take, drop,
  replicate, length-append, length-take, length-drop, length-replicate, drop-append_self, drop-drop,
  take-append_right,
}
use mathlib.Core.List.{append_assoc}
use key_value_db.BucketLog.{
  Geometry, bucket_data_off, erased, compact_from, next_header, build_compacted_image,
}
use key_value_db.BucketLog.Walk.{Log, live, keep, bytes_of, parse, live-keep}
use key_value_db.BucketLog.Move.{take-add}
use key_value_db.BucketLog.Compact.{Compacted, compact_from-Compacted}
use key_value_db.BucketLog.Reparse.{live-relocate, slot_at-erased, parse-bytes_of}
use key_value_db.BucketLog.Header.{
  bucket_hdr_valid, next_header-bucket_hdr_valid, length-next_header,
}

module _ (g : Geometry) where
  -- the log of a sector
  abbrev pub log : List ℕ → Log
  log buf = parse g g.peb_size bucket_data_off (drop bucket_data_off buf)

  -- an erased sector after its first bytes are programmed
  abbrev pub programmed : List ℕ → List ℕ
  programmed bs = bs ++ replicate (g.peb_size - length bs) erased

  abbrev pub compacted_sector : List ℕ → ℕ → List ℕ
  compacted_sector buf bid =
      let (out, new_len, stop) = build_compacted_image g buf bid in programmed (take new_len out)

  module _ (buf : List ℕ) (bid : ℕ) (full : length buf ≡ g.peb_size)
      (room : bucket_data_off ≤ g.peb_size) where
    loop : List ℕ × ℕ × ℕ
    loop = compact_from g g.peb_size buf bucket_data_off bucket_data_off

    packed : Compacted g buf bucket_data_off bucket_data_off (log buf) loop
    unfolding loop
    packed =
        compact_from-Compacted g g.peb_size buf bucket_data_off bucket_data_off full (omega arith)
          (omega arith)

    abbrev pub bytes : List ℕ
    bytes = bytes_of (keep (log buf))

    packed_bytes : take (length bytes) (drop bucket_data_off loop.0) ≡ bytes
    packed_bytes =
        let c = packed in
        let m = length (bytes_of (keep (log buf))) in
        let front : take (bucket_data_off + m) loop.0
            ≡ take bucket_data_off buf ++ bytes_of (keep (log buf)) =
          ap (λ n. take n loop.0) (sym c.len) ∙ c.front in
        let split = sym (take-add bucket_data_off m loop.0) ∙ front in
        let l : bucket_data_off ≡ length (take bucket_data_off loop.0) =
          omega (arith, length-take bucket_data_off loop.0, c.whole) in
        let l' : bucket_data_off ≡ length (take bucket_data_off buf) =
          omega (arith, length-take bucket_data_off buf) in
        sym (
          drop-append_self (take bucket_data_off loop.0) (take m (drop bucket_data_off loop.0))
            bucket_data_off l)
        ∙ ap (drop bucket_data_off) split
        ∙ drop-append_self (take bucket_data_off buf) (bytes_of (keep (log buf))) bucket_data_off l'

    image :
        take loop.1 (next_header g buf bid ++ drop bucket_data_off loop.0)
        ≡ next_header g buf bid ++ bytes
    image =
        let e : loop.1 ≡ length (next_header g buf bid) + length bytes =
          packed.len ∙ ap (λ n. n + length bytes) (sym (length-next_header g buf bid)) in
        ap (λ n. take n (next_header g buf bid ++ drop bucket_data_off loop.0)) e
        ∙ take-append_right (length bytes) (next_header g buf bid) (drop bucket_data_off loop.0)
        ∙ ap (λ l. next_header g buf bid ++ l) packed_bytes

    fits : bucket_data_off + length bytes ≤ g.peb_size
    fits = omega (arith, packed.len, packed.below, packed.within (omega arith))

    pub compacted_sector-image :
        compacted_sector buf bid ≡ programmed (next_header g buf bid ++ bytes)
    unfolding build_compacted_image loop
    compacted_sector-image = ap programmed image

    pub length-compacted_sector : length (compacted_sector buf bid) ≡ g.peb_size
    length-compacted_sector =
        let len = length-append (next_header g buf bid) bytes in
        rw compacted_sector-image (
          omega (
            arith,
            len,
            length-next_header g buf bid,
            fits,
            length-append (next_header g buf bid ++ bytes)
                (replicate (g.peb_size - length (next_header g buf bid ++ bytes)) erased),
            length-replicate (g.peb_size - length (next_header g buf bid ++ bytes)) erased,
          ))

    -- The sector that compaction programs binds every id as the old sector did.
    pub compacted_sector-live :
        (id : ℕ) → live (log (compacted_sector buf bid)) id ≡ live (log buf) id
    compacted_sector-live id =
        let free = replicate (g.peb_size - length (next_header g buf bid ++ bytes)) erased in
        ap (λ b. live (log b) id)
          (compacted_sector-image ∙ append_assoc (next_header g buf bid) bytes free)
        ∙ ap (λ b. live (parse g g.peb_size bucket_data_off b) id)
            (drop-append_self (next_header g buf bid) (bytes ++ free) bucket_data_off
              (sym (length-next_header g buf bid)))
        ∙ ap (λ l. live l id)
            (parse-bytes_of g g.peb_size g.peb_size bucket_data_off bucket_data_off
              (drop bucket_data_off buf) free (omega (arith, length-drop bucket_data_off buf))
              (omega arith) (omega arith)
              (slot_at-erased g (g.peb_size - length (next_header g buf bid ++ bytes))))
        ∙ live-relocate bucket_data_off (keep (log buf)) id
        ∙ live-keep g (log buf) id

    pub compacted_sector-bucket_hdr_valid :
        bid < 2 ^ 16
        → ((bs : List ℕ) → g.crc32 bs < 2 ^ 32)
        → bucket_hdr_valid g (compacted_sector buf bid) bid ≡ true
    compacted_sector-bucket_hdr_valid small wide =
        let free = replicate (g.peb_size - length (next_header g buf bid ++ bytes)) erased in
        ap (λ b. bucket_hdr_valid g b bid)
          (compacted_sector-image ∙ append_assoc (next_header g buf bid) bytes free)
        ∙ next_header-bucket_hdr_valid g buf (bytes ++ free) bid small wide

    behind :
        (k n : ℕ)
        → n ≡ bucket_data_off + k
        → drop n loop.0 ≡ drop n buf
        → drop n (next_header g buf bid ++ drop bucket_data_off loop.0) ≡ drop n buf
    behind k n e h =
        ap (λ m. drop m (next_header g buf bid ++ drop bucket_data_off loop.0)) e
        ∙ sym (drop-drop k bucket_data_off (next_header g buf bid ++ drop bucket_data_off loop.0))
        ∙ ap (drop k) (
            drop-append_self (next_header g buf bid) (drop bucket_data_off loop.0) bucket_data_off
              (sym (length-next_header g buf bid)))
        ∙ drop-drop k bucket_data_off loop.0
        ∙ ap (λ m. drop m loop.0) (sym e)
        ∙ h

    -- What stands from where the walk stopped on, the caller still reads in the rewritten buffer.
    pub build_compacted_image-tail :
        drop (build_compacted_image g buf bid).2 (build_compacted_image g buf bid).0
        ≡ drop (build_compacted_image g buf bid).2 buf
    unfolding build_compacted_image loop
    build_compacted_image-tail =
        behind (loop.2 - bucket_data_off) loop.2 (omega (arith, packed.past)) packed.behind
