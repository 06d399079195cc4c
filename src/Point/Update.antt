-- ===== src/Point/Update.antt =====
-- update_impl on flash that does not fail, where the slot fits behind the log.
use key_value_db.Base.{take-take}
use key_value_db.Base.{
  ℕ, zero, suc, ◌+◌, ◌-◌, ◌^◌, ◌≤◌, ◌<◌, ◌≡◌, refl, sym, ap, ◌∙◌, ◌≢◌, inl, inr, true, false, none,
  some, List, ◌++◌, arith, ltb, leb, ◌==◌, if◌then◌else◌, ==_iff, Bool-cases, Option-cases, length,
  take, drop, replicate, length-take, take-append, ok,
}
use key_value_db.BucketLog.{
  Geometry, slot_size_for, slot_walk_at, bucket_image_ends_foreign, walk_end, bucket_data_off,
  erased, is_tombstone,
}
use key_value_db.BucketLog.Header.{bucket_hdr_valid}
use key_value_db.BucketLog.Parse.{slot_size-ge}
use key_value_db.Scan.{scan_bucket_for}
use key_value_db.Scan.Find.{scanned}
use key_value_db.Scan.Untorn.{Untorn, scan_bucket_for-Untorn}
use key_value_db.Append.{slot_image, sealed_flags, append_slot, append_slot2}
use key_value_db.Append.Live.{program, length-slot_image, append-live}
use key_value_db.Compaction.{Backend, Core, Sector, scratch, bucket}
use key_value_db.Compaction.Window.{take-replicate}
use key_value_db.Point.{
  Mount, id_to_bucket, sector_read, bucket_cursor, update_cursor, make_room, append_at, update_in,
  update_impl,
}
use key_value_db.Point.Nor.{Nor, IsCrc, bound_in, bound, sector_of, bucket_hdr_valid-take}
use key_value_db.Point.Lookup.{read_bucket_hdr_lem}

walk_end-ge : (g : Geometry) (k : ℕ) (buf : List ℕ) (off : ℕ) → off ≤ walk_end g k buf off
unfolding walk_end
walk_end-ge g zero buf off = omega arith
walk_end-ge g (suc k) buf off = elim (Option-cases (slot_walk_at g buf off)) [
  | inl e ↦ rw (walk_end, e) (omega arith)
  | inr ((sv, intact), e) ↦
      rw (walk_end, e) (omega (arith, walk_end-ge g k buf (off + sv.total_size)))
]

-- what one bucket holds after a slot is programmed at its end
module _ (g : Geometry) (b : Backend) (mwa : ℕ) (k : Nor g b) (crc : IsCrc g)
    (wide : g.max_payload < 2 ^ 16) (aligned : g.write_align ≤ mwa) where
  -- Only the sector `s` changed, to `buf`.
  pub record Only (c c' : Core b) (s : Sector) (buf : List ℕ) : Type 0 where
    pub here : k.view c'.flash s ≡ buf
    pub elsewhere : (t : Sector) → s ≢ t → k.view c'.flash t ≡ k.view c.flash t

  pub append_at_lem :
      (bid id extra : ℕ) (payload : List ℕ) (cursor : ℕ) (c : Core b)
      → length payload ≤ g.max_payload
      → cursor + slot_size_for g (length payload) ≤ g.peb_size
      → drop cursor (sector_of g b k c bid) ≡ replicate (g.peb_size - cursor) erased
      → ((append_at g b mwa bid id extra payload cursor c).0 ≡ ok tt)
        × Only c
            (append_at g b mwa bid id extra payload cursor c).1
            (bucket bid)
            (program cursor (slot_image g id extra payload) (sector_of g b k c bid))
  unfolding append_at append_slot append_slot2
  append_at_lem bid id extra payload cursor c cap fits clean =
      let image = slot_image g id extra payload in
      let len = length-slot_image g id extra payload in
      let blank =
        ap (take (length image)) clean
        ∙ take-replicate (length image) (g.peb_size - cursor) erased (omega (arith, len)) in
      let (done, here) = k.write_ok (bucket bid) cursor image c.flash (omega (arith, len)) blank in
      let short : ltb g.max_payload (length payload) ≡ false = ground arith in
      let fine : ltb mwa g.write_align ≡ false = ground arith in
      rw (append_at, append_slot, append_slot2, short, fine)
        (
          done,
          record {
            here = here;
            elsewhere = λ t ne. k.write_elsewhere (bucket bid) t cursor image c.flash ne;
          },
        )

  -- a bucket whose log can be appended to where it ends
  pub record Appendable (f : b.Flash) (bid : ℕ) : Type 0 where
    pub known : bucket_image_ends_foreign g (k.view f (bucket bid)) ≡ false
    pub clean :
        drop (walk_end g g.peb_size (k.view f (bucket bid)) bucket_data_off) (k.view f (bucket bid))
        ≡ replicate
            (g.peb_size - walk_end g g.peb_size (k.view f (bucket bid)) bucket_data_off)
            erased

  bucket_cursor_lem :
      (bid id : ℕ) (c : Core b)
      → Appendable c.flash bid
      → bucket_cursor g b mwa bid id c
        ≡ (ok (walk_end g g.peb_size (sector_of g b k c bid) bucket_data_off), c)
  unfolding bucket_cursor bucket_image_ends_foreign
  bucket_cursor_lem bid id c ready =
      let (torn, s) =
        scanned g (sector_read g b mwa c.flash bid) (sector_of g b k c bid)
          (k.full c.flash (bucket bid)) (λ off n h. k.read_ok c.flash (bucket bid) off n h)
          crc.crc_nil crc.crc_append id g.peb_size in
      let untorn : Untorn (scan_bucket_for g (sector_read g b mwa c.flash bid) id g.peb_size) =
        scan_bucket_for-Untorn g (sector_read g b mwa c.flash bid) (sector_of g b k c bid)
          (k.full c.flash (bucket bid)) (λ off n h. k.read_ok c.flash (bucket bid) off n h)
          crc.crc_nil crc.crc_append id g.peb_size ready.clean in
      rw (bucket_cursor, s, ready.known, rw (s) at untorn) refl

take-program :
    (n off : ℕ) (bs buf : List ℕ)
    → n ≤ off
    → off ≤ length buf
    → take n (program off bs buf) ≡ take n buf
take-program n off bs buf h l =
    take-append n (take off buf) (bs ++ drop (off + length bs) buf)
      (omega (arith, length-take off buf))
    ∙ take-take n off buf h

index_of : Sector → ℕ
index_of scratch = 0
index_of (bucket i) = i

pub bucket_ne : (i j : ℕ) → i ≢ j → (bucket i) ≢ (bucket j)
unfolding index_of
bucket_ne i j ne e = ne (ap index_of e)

module _ (g : Geometry) (b : Backend) (mwa : ℕ) (k : Nor g b) (crc : IsCrc g)
    (wide : g.max_payload < 2 ^ 16) (aligned : g.write_align ≤ mwa)
    (room : bucket_data_off ≤ g.peb_size) (st : Mount) (id : ℕ) (small : id < 2 ^ 64) where
  abbrev pub bid : ℕ
  bid = id_to_bucket st id

  -- A slot at the end of the log of a formatted bucket binds its id, or unbinds it.
  pub appended-bound :
      (extra : ℕ) (payload : List ℕ) (c c' : Core b)
      → extra < 4
      → length payload ≤ g.max_payload
      → bucket_hdr_valid g (sector_of g b k c bid) bid ≡ true
      → (fits : walk_end g g.peb_size (sector_of g b k c bid) bucket_data_off
            + slot_size_for g (length payload)
          ≤ g.peb_size)
      → (clean : drop
            (walk_end g g.peb_size (sector_of g b k c bid) bucket_data_off)
            (sector_of g b k c bid)
          ≡ replicate
              (g.peb_size - walk_end g g.peb_size (sector_of g b k c bid) bucket_data_off)
              erased)
      → Only g b mwa k crc wide aligned c c' (bucket bid) (
          program
            (walk_end g g.peb_size (sector_of g b k c bid) bucket_data_off)
            (slot_image g id extra payload)
            (sector_of g b k c bid))
      → (j : ℕ)
      → bound g b k st c' j ≡ (
          if id == j
          then if is_tombstone (sealed_flags extra) then none else some payload
          else bound g b k st c j)
  unfolding bound_in
  appended-bound extra payload c c' known cap valid fits clean only j =
      let buf = sector_of g b k c bid in
      let full = k.full c.flash (bucket bid) in
      let end = walk_end g g.peb_size buf bucket_data_off in
      let image = slot_image g id extra payload in
      elim (Bool-cases (id_to_bucket st j == bid)) [
        | inl e ↦
            let same : id_to_bucket st j ≡ bid = (==_iff (id_to_bucket st j) bid).0 e in
            let full' : length (program end image buf) ≡ g.peb_size =
              ap length (sym only.here) ∙ k.full c'.flash (bucket bid) in
            let valid' : bucket_hdr_valid g (program end image buf) bid ≡ true =
              sym (bucket_hdr_valid-take g (program end image buf) bid (omega arith))
              ∙ ap (λ bs. bucket_hdr_valid g bs bid)
                  (take-program bucket_data_off end image buf
                    (walk_end-ge g g.peb_size buf bucket_data_off)
                    (omega (arith, slot_size-ge g (length payload))))
              ∙ bucket_hdr_valid-take g buf bid (omega arith)
              ∙ valid in
            rw (same, only.here, valid', valid)
              (append-live g id extra payload small known cap wide crc.crc_fits buf full room fits
                clean j)
        | inr e ↦
            let apart : bid ≢ id_to_bucket st j = ground arith in
            let other : (id == j) ≡ false = ground arith in
            rw
              (
                other,
                only.elsewhere (bucket (id_to_bucket st j))
                    (bucket_ne bid (id_to_bucket st j) apart),
              )
              refl
      ]

  module _ (payload : List ℕ) (cap : length payload ≤ g.max_payload) (c : Core b)
      (valid : bucket_hdr_valid g (sector_of g b k c bid) bid ≡ true)
      (ready : Appendable g b mwa k crc wide aligned c.flash bid)
      (fits : walk_end g g.peb_size (sector_of g b k c bid) bucket_data_off
          + slot_size_for g (length payload)
        ≤ g.peb_size) where
    update_in_lem :
        update_in g b mwa bid id payload true c
        ≡ append_at g b mwa bid id 0 payload
            (walk_end g g.peb_size (sector_of g b k c bid) bucket_data_off)
            c
    unfolding update_in update_cursor make_room
    update_in_lem =
        let enough : ltb g.peb_size (
              walk_end g g.peb_size (sector_of g b k c bid) bucket_data_off
              + slot_size_for g (length payload))
            ≡ false =
          ground arith in
        rw
          (
            update_in,
            update_cursor,
            make_room,
            bucket_cursor_lem g b mwa k crc wide aligned bid id c ready,
            enough,
          )
          refl

    -- On mounted and unwedged flash that does not fail, in a geometry that the build supports
    -- (sectors of 16 bytes at least, a payload cap of 16 bits, an alignment within the limit),
    -- with a CRC16 that composes over chunks and stays within 16 bits, an update of an issued
    -- 64-bit id with a payload within the cap, whose slot fits behind the log of its formatted
    -- bucket, where erased flash follows and no foreign slot, succeeds and binds the id to the
    -- payload and no other id anew.
    pub update_impl-bound :
        st.mounted ≡ true
        → c.wedged ≡ false
        → id ≢ 0
        → id < st.next_id
        → ((update_impl g b mwa st id (some payload) c).0 ≡ ok tt)
          × ((j : ℕ)
              → bound g b k st (update_impl g b mwa st id (some payload) c).1 j
                ≡ (if id == j then some payload else bound g b k st c j))
    unfolding update_impl
    update_impl-bound on whole nz issued =
        let (done, only) =
          append_at_lem g b mwa k crc wide aligned bid id 0 payload _ c cap fits ready.clean in
        let other : (id == 0) ≡ false = ground arith in
        let given : leb st.next_id id ≡ false = ground arith in
        let short : ltb g.max_payload (length payload) ≡ false = ground arith in
        let run : update_impl g b mwa st id (some payload) c
            ≡ append_at g b mwa bid id 0 payload
                (walk_end g g.peb_size (sector_of g b k c bid) bucket_data_off) c =
          rw
            (
              update_impl,
              read_bucket_hdr_lem g b mwa k crc c.flash bid room,
              valid,
              update_in_lem,
              on,
              whole,
              other,
              given,
              short,
            )
            refl in
        rw (run) (done, appended-bound 0 payload c _ (omega arith) cap valid fits ready.clean only)
