-- ===== src/Point/Format.antt =====
-- update_impl of the first blob of a bucket: on flash that does not fail, it formats the bucket.
use key_value_db.Base.{
  ℕ, zero, suc, ◌+◌, ◌-◌, ◌^◌, ◌≤◌, ◌<◌, ◌≡◌, refl, ap, ◌∙◌, ◌≢◌, inl, inr, true, false, none, some,
  List, [], ◌∷◌, ◌++◌, arith, ltb, leb, ◌==◌, if◌then◌else◌, ==_iff, Bool-cases, length, drop,
  replicate, le_bytes, of_le-le_bytes, ok,
}
use key_value_db.BucketLog.{
  Geometry, slot_size_for, slot_walk_at, slot_at, walk_end, bucket_data_off, erased,
}
use key_value_db.BucketLog.Header.{bucket_hdr_valid, header_fields}
use key_value_db.BucketLog.Reparse.{slot_at-erased, parse-none}
use key_value_db.BucketLog.Rebuild.{log}
use key_value_db.Append.Live.{program, drop-replicate}
use key_value_db.Compaction.{Backend, Core, bucket}
use key_value_db.Point.{
  Mount, id_to_bucket, first_header, format_bucket, update_cursor, make_room, append_at, update_in,
  update_impl,
}
use key_value_db.Point.Nor.{Nor, IsCrc, bound_in, bound, sector_of}
use key_value_db.Point.Lookup.{read_bucket_hdr_lem}
use key_value_db.Point.Update.{append_at_lem, appended-bound, bucket_ne}

walk_end-none :
    (g : Geometry) (k : ℕ) (buf : List ℕ) (off : ℕ)
    → slot_walk_at g buf off ≡ none
    → walk_end g k buf off ≡ off
unfolding walk_end
walk_end-none g zero buf off e = refl
walk_end-none g (suc k) buf off e = rw (walk_end, e) refl

module _ (g : Geometry) (bid : ℕ) (small : bid < 2 ^ 16)
    (wide : (bs : List ℕ) → g.crc32 bs < 2 ^ 32) (room : bucket_data_off ≤ g.peb_size) where
  -- the sector after it is formatted
  abbrev formatted : List ℕ
  formatted = program 0 (first_header g bid) (replicate g.peb_size erased)

  length-first_header : length (first_header g bid) ≡ 16
  unfolding first_header le_bytes
  length-first_header = refl

  drop-formatted : drop bucket_data_off formatted ≡ replicate (g.peb_size - bucket_data_off) erased
  unfolding first_header le_bytes
  drop-formatted = drop-replicate bucket_data_off g.peb_size erased

  formatted-bucket_hdr_valid : bucket_hdr_valid g formatted bid ≡ true
  unfolding first_header le_bytes
  formatted-bucket_hdr_valid =
      let head = b'B' ∷ b'D' ∷ b'B' ∷ b'H' ∷ (le_bytes 2 bid ++ (le_bytes 2 0 ++ le_bytes 4 1)) in
      header_fields g head (drop (0 + length (first_header g bid)) (replicate g.peb_size erased))
        bid refl refl (of_le-le_bytes 2 bid (omega arith)) (wide head)

  formatted_walk : slot_walk_at g formatted bucket_data_off ≡ none
  unfolding slot_walk_at
  formatted_walk =
      ap (slot_at g bucket_data_off) drop-formatted
      ∙ slot_at-erased g (g.peb_size - bucket_data_off) bucket_data_off

  formatted_end : walk_end g g.peb_size formatted bucket_data_off ≡ bucket_data_off
  formatted_end = walk_end-none g g.peb_size formatted bucket_data_off formatted_walk

  formatted-log : log g formatted ≡ []
  formatted-log =
      parse-none g g.peb_size bucket_data_off (drop bucket_data_off formatted)
        (λ n. ap (slot_at g n) drop-formatted ∙ slot_at-erased g (g.peb_size - bucket_data_off) n)

module _ (g : Geometry) (b : Backend) (mwa : ℕ) (k : Nor g b) (crc : IsCrc g)
    (wide : g.max_payload < 2 ^ 16) (aligned : g.write_align ≤ mwa)
    (wide32 : (bs : List ℕ) → g.crc32 bs < 2 ^ 32) (room : bucket_data_off ≤ g.peb_size)
    (st : Mount) (id : ℕ) (small : id < 2 ^ 64) (few : id_to_bucket st id < 2 ^ 16) where
  abbrev pub bid : ℕ
  bid = id_to_bucket st id

  -- A freshly formatted bucket holds nothing.
  format_bucket_lem :
      (c : Core b)
      → bucket_hdr_valid g (sector_of g b k c bid) bid ≡ false
      → ((format_bucket g b mwa bid c).0 ≡ ok tt)
        × (sector_of g b k (format_bucket g b mwa bid c).1 bid ≡ formatted g bid few wide32 room)
        × ((j : ℕ) → bound g b k st (format_bucket g b mwa bid c).1 j ≡ bound g b k st c j)
  unfolding format_bucket bound_in
  format_bucket_lem c invalid =
      let (done, here) =
        k.replace_ok (bucket bid) (first_header g bid) c.flash
          (omega (arith, length-first_header g bid few wide32 room)) in
      (
        done,
        here,
        λ j. elim (Bool-cases (id_to_bucket st j == bid)) [
          | inl e ↦
              let same : id_to_bucket st j ≡ bid = (==_iff (id_to_bucket st j) bid).0 e in
              rw
                (
                  same,
                  invalid,
                  here,
                  formatted-bucket_hdr_valid g bid few wide32 room,
                  formatted-log g bid few wide32 room,
                )
                refl
          | inr e ↦
              let apart : bid ≢ id_to_bucket st j = ground arith in
              rw
                (k.replace_elsewhere (bucket bid) (bucket (id_to_bucket st j)) (first_header g bid)
                  c.flash (bucket_ne bid (id_to_bucket st j) apart))
                refl
        ],
      )

  module _ (payload : List ℕ) (cap : length payload ≤ g.max_payload) (c : Core b)
      (invalid : bucket_hdr_valid g (sector_of g b k c bid) bid ≡ false)
      (fits : bucket_data_off + slot_size_for g (length payload) ≤ g.peb_size) where
    fresh : Core b
    fresh = (format_bucket g b mwa bid c).1

    fresh_sector : sector_of g b k fresh bid ≡ formatted g bid few wide32 room
    unfolding fresh
    fresh_sector = (format_bucket_lem c invalid).1

    fresh_bound : (j : ℕ) → bound g b k st fresh j ≡ bound g b k st c j
    unfolding fresh
    fresh_bound = (format_bucket_lem c invalid).2

    fresh_end : walk_end g g.peb_size (sector_of g b k fresh bid) bucket_data_off ≡ bucket_data_off
    fresh_end =
        ap (λ bs. walk_end g g.peb_size bs bucket_data_off) fresh_sector
        ∙ formatted_end g bid few wide32 room

    fresh_run :
        update_in g b mwa bid id payload false c
        ≡ append_at g b mwa bid id 0 payload
            (walk_end g g.peb_size (sector_of g b k fresh bid) bucket_data_off)
            fresh
    unfolding update_in update_cursor make_room fresh
    fresh_run =
        let enough : ltb g.peb_size (bucket_data_off + slot_size_for g (length payload)) ≡ false =
          ground arith in
        rw (update_in, update_cursor, (format_bucket_lem c invalid).0, make_room, enough, fresh_end)
          refl

    -- On mounted and unwedged flash that does not fail, in a geometry that the build supports
    -- (sectors of 16 bytes at least, a payload cap of 16 bits, an alignment within the limit),
    -- with a CRC16 that composes over chunks and stays within 16 bits and a 32-bit CRC32, an
    -- update of an issued 64-bit id with a payload within the cap, whose bucket has a 16-bit
    -- number and no valid header and can hold the slot, succeeds and binds the id to the payload
    -- and no other id anew.
    pub update_impl-formatted :
        st.mounted ≡ true
        → c.wedged ≡ false
        → id ≢ 0
        → id < st.next_id
        → ((update_impl g b mwa st id (some payload) c).0 ≡ ok tt)
          × ((j : ℕ)
              → bound g b k st (update_impl g b mwa st id (some payload) c).1 j
                ≡ (if id == j then some payload else bound g b k st c j))
    unfolding update_impl
    update_impl-formatted on whole nz issued =
        let fits' : walk_end g g.peb_size (sector_of g b k fresh bid) bucket_data_off
              + slot_size_for g (length payload)
            ≤ g.peb_size =
          omega (arith, fresh_end, fits) in
        let clean : drop (walk_end g g.peb_size (sector_of g b k fresh bid) bucket_data_off)
              (sector_of g b k fresh bid)
            ≡ replicate
                (g.peb_size - walk_end g g.peb_size (sector_of g b k fresh bid) bucket_data_off)
                erased =
          rw (fresh_end)
            (ap (drop bucket_data_off) fresh_sector ∙ drop-formatted g bid few wide32 room) in
        let valid : bucket_hdr_valid g (sector_of g b k fresh bid) bid ≡ true =
          rw (fresh_sector) (formatted-bucket_hdr_valid g bid few wide32 room) in
        let (done, only) =
          append_at_lem g b mwa k crc wide aligned bid id 0 payload _ fresh cap fits' clean in
        let other : (id == 0) ≡ false = ground arith in
        let given : leb st.next_id id ≡ false = ground arith in
        let short : ltb g.max_payload (length payload) ≡ false = ground arith in
        let run : update_impl g b mwa st id (some payload) c
            ≡ append_at g b mwa bid id 0 payload
                (walk_end g g.peb_size (sector_of g b k fresh bid) bucket_data_off) fresh =
          rw
            (
              update_impl,
              read_bucket_hdr_lem g b mwa k crc c.flash bid room,
              invalid,
              fresh_run,
              on,
              whole,
              other,
              given,
              short,
            )
            refl in
        rw (run) (
          done,
          λ j.
              appended-bound g b mwa k crc wide aligned room st id small 0 payload fresh _
                (omega arith) cap valid fits' clean only j
              ∙ ap (λ o. if id == j then some payload else o) (fresh_bound j),
        )
