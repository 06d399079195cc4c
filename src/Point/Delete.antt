-- ===== src/Point/Delete.antt =====
-- delete_impl on flash that does not fail, where the tombstone fits behind the log.
use key_value_db.Base.{
  ℕ, ◌+◌, ◌-◌, ◌^◌, ◌≤◌, ◌<◌, ◌≡◌, refl, ◌≢◌, inl, inr, true, false, Option, none, some, List, [],
  arith, ltb, ◌==◌, if◌then◌else◌, Bool-cases, drop, replicate, enoent, ok, err,
}
use mathlib.Core.Path.{subst}
use key_value_db.BucketLog.{
  Geometry, slot_size_for, bucket_image_ends_foreign, walk_end, bucket_data_off, erased,
}
use key_value_db.BucketLog.Header.{bucket_hdr_valid}
use key_value_db.BucketLog.Walk.{live}
use key_value_db.BucketLog.Rebuild.{log}
use key_value_db.Scan.{BucketScan}
use key_value_db.Scan.Find.{Answers}
use key_value_db.Scan.Untorn.{Clean, walk_live_slot-Clean}
use key_value_db.Compaction.{Backend, Core, bucket}
use key_value_db.Point.{
  Mount, id_to_bucket, sector_read, find_live_slot, delete_room, delete_in, delete_impl, append_at,
  f_tombstone,
}
use key_value_db.Point.Nor.{Nor, IsCrc, bound_in, bound, sector_of}
use key_value_db.Point.Lookup.{read_bucket_hdr_lem, find_live_slot_lem}
use key_value_db.Point.Update.{append_at_lem, appended-bound}

module _ (g : Geometry) (b : Backend) (mwa : ℕ) (k : Nor g b) (crc : IsCrc g)
    (wide : g.max_payload < 2 ^ 16) (aligned : g.write_align ≤ mwa)
    (room : bucket_data_off ≤ g.peb_size) (st : Mount) (id : ℕ) (small : id < 2 ^ 64)
    (c : Core b) where
  abbrev pub buf : List ℕ
  buf = sector_of g b k c (id_to_bucket st id)

  abbrev pub end : ℕ
  end = walk_end g g.peb_size buf bucket_data_off

  -- a bound id is unbound, and another is refused
  abbrev pub Deleted : Option (List ℕ) → Type 0
  Deleted none = delete_impl g b mwa st id c ≡ (err enoent, c)
  Deleted (some p) =
      ((delete_impl g b mwa st id c).0 ≡ ok tt)
      × ((j : ℕ)
          → bound g b k st (delete_impl g b mwa st id c).1 j
            ≡ (if id == j then none else bound g b k st c j))

  module _ (on : st.mounted ≡ true) (whole : c.wedged ≡ false) (nz : id ≢ 0)
      (known : bucket_image_ends_foreign g buf ≡ false)
      (fits : end + slot_size_for g 0 ≤ g.peb_size)
      (clean : drop end buf ≡ replicate (g.peb_size - end) erased) where
    delete_in_lem :
        (sc : BucketScan)
        → sc.foreign ≡ false
        → sc.tail_torn ≡ false
        → sc.write_cursor ≡ end
        → delete_in g b mwa (id_to_bucket st id) id sc c
          ≡ append_at g b mwa (id_to_bucket st id) id f_tombstone [] end c
    unfolding delete_in delete_room
    delete_in_lem sc f t w =
        let enough : ltb g.peb_size (end + slot_size_for g 0) ≡ false = ground arith in
        rw (delete_in, f, t, w, delete_room, enough) refl

    found-Clean : Clean (find_live_slot g b mwa c.flash (id_to_bucket st id) id)
    unfolding find_live_slot
    found-Clean =
        walk_live_slot-Clean g (sector_read g b mwa c.flash (id_to_bucket st id)) buf
          (k.full c.flash (bucket (id_to_bucket st id)))
          (λ off n h. k.read_ok c.flash (bucket (id_to_bucket st id)) off n h) crc.crc_nil
          crc.crc_append id clean

    found :
        (o : Option (List ℕ))
        → live (log g buf) id ≡ o
        → bucket_hdr_valid g buf (id_to_bucket st id) ≡ true
        → Deleted o
    unfolding delete_impl
    found none e valid =
        let other : (id == 0) ≡ false = ground arith in
        let none_found : find_live_slot g b mwa c.flash (id_to_bucket st id) id ≡ err enoent =
          subst (λ o. Answers end o (find_live_slot g b mwa c.flash (id_to_bucket st id) id)) e
            (find_live_slot_lem g b mwa k crc c.flash (id_to_bucket st id) id known) in
        rw
          (
            delete_impl,
            read_bucket_hdr_lem g b mwa k crc c.flash (id_to_bucket st id) room,
            valid,
            none_found,
            on,
            whole,
            other,
          )
          refl
    found (some p) e valid =
        let other : (id == 0) ≡ false = ground arith in
        let (sc, run, w) =
          subst (λ o. Answers end o (find_live_slot g b mwa c.flash (id_to_bucket st id) id)) e
            (find_live_slot_lem g b mwa k crc c.flash (id_to_bucket st id) id known) in
        let untorn : Clean (find_live_slot g b mwa c.flash (id_to_bucket st id) id) = found-Clean in
        let (f, t) = rw (run) at untorn in
        let (done, only) =
          append_at_lem g b mwa k crc wide aligned (id_to_bucket st id) id f_tombstone [] end c
            (omega arith) fits clean in
        let all : delete_impl g b mwa st id c
            ≡ append_at g b mwa (id_to_bucket st id) id f_tombstone [] end c =
          rw
            (
              delete_impl,
              read_bucket_hdr_lem g b mwa k crc c.flash (id_to_bucket st id) room,
              valid,
              run,
              delete_in_lem sc f t w,
              on,
              whole,
              other,
            )
            refl in
        rw (all) (
          done,
          appended-bound g b mwa k crc wide aligned room st id small f_tombstone [] c _
              (omega arith) (omega arith) valid fits clean only,
        )

    -- On mounted and unwedged flash that does not fail, in a geometry that the build supports
    -- (sectors of 16 bytes at least, a payload cap of 16 bits, an alignment within the limit),
    -- with a CRC16 that composes over chunks and stays within 16 bits, for a 64-bit id other than
    -- 0 whose bucket's log has erased flash behind it, room for a tombstone and no foreign slot,
    -- delete_impl unbinds a bound id and no other, and refuses an unbound id with -ENOENT,
    -- changing nothing.
    pub delete_impl-bound : Deleted (bound g b k st c id)
    unfolding bound_in delete_impl
    delete_impl-bound = elim (Bool-cases (bucket_hdr_valid g buf (id_to_bucket st id))) [
      | inl e ↦
          let same : live (log g buf) id ≡ bound g b k st c id = rw (e) refl in
          subst Deleted same (found (live (log g buf) id) refl e)
      | inr e ↦
          let other : (id == 0) ≡ false = ground arith in
          let same : none ≡ bound g b k st c id = rw (e) refl in
          subst Deleted same (
            rw
              (
                delete_impl,
                read_bucket_hdr_lem g b mwa k crc c.flash (id_to_bucket st id) room,
                e,
                on,
                whole,
                other,
              )
              refl)
    ]
