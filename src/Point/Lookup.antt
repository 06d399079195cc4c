-- ===== src/Point/Lookup.antt =====
-- get_impl, size_impl and exists_impl on flash that does not fail.
use key_value_db.Base.{
  ℕ, ◌≤◌, ◌≡◌, refl, ap, ◌≢◌, inl, inr, Bool, true, false, Option, none, some, List, arith, ltb,
  ◌==◌, if◌then◌else◌, Bool-cases, length, enoent, enomem, Result, ok, err,
}
use key_value_db.BlobDb.{reply}
use key_value_db.BucketLog.{Geometry, bucket_image_ends_foreign, walk_end, bucket_data_off}
use key_value_db.BucketLog.Header.{bucket_hdr_valid}
use key_value_db.BucketLog.Walk.{live}
use key_value_db.BucketLog.Rebuild.{log}
use key_value_db.Scan.{BucketScan}
use key_value_db.Scan.Find.{Answers, walk_live_slot-live}
use key_value_db.Compaction.{Backend, Core, bucket}
use key_value_db.Point.{
  Mount, id_to_bucket, sector_read, read_bucket_hdr, find_live_slot, find_payload, get_impl,
  size_impl, exists_impl, into, size_of, is_ok,
}
use key_value_db.Point.Nor.{Nor, IsCrc, bound_in, bound, sector_of, bucket_hdr_valid-take}

-- the answer of a lookup
abbrev pub or_enoent : Option (List ℕ) → Result (List ℕ)
or_enoent none = err enoent
or_enoent (some p) = ok p

abbrev pub size_reply : Option (List ℕ) → Result ℕ
size_reply none = err enoent
size_reply (some p) = ok (length p)

abbrev pub is_some : Option (List ℕ) → Bool
is_some none = false
is_some (some p) = true

into-or_enoent :
    (o : Option (List ℕ)) (size : ℕ)
    → reply o size
      ≡ (elim o [ none ↦ err enoent | some p ↦ if ltb size (length p) then err enomem else ok p ])
into-or_enoent none size = refl
into-or_enoent (some p) size = ground arith

module _ (g : Geometry) (b : Backend) (mwa : ℕ) (k : Nor g b) (crc : IsCrc g) where
  pub read_bucket_hdr_lem :
      (f : b.Flash) (bid : ℕ)
      → bucket_data_off ≤ g.peb_size
      → read_bucket_hdr g b mwa f bid ≡ ok (bucket_hdr_valid g (k.view f (bucket bid)) bid)
  unfolding read_bucket_hdr
  read_bucket_hdr_lem f bid room =
      let buf = k.view f (bucket bid) in
      rw (read_bucket_hdr, k.read_ok f (bucket bid) 0 bucket_data_off room)
        (ap ok (bucket_hdr_valid-take g buf bid (omega (arith, k.full f (bucket bid)))))

  pub find_live_slot_lem :
      (f : b.Flash) (bid id : ℕ)
      → bucket_image_ends_foreign g (k.view f (bucket bid)) ≡ false
      → Answers
          (walk_end g g.peb_size (k.view f (bucket bid)) bucket_data_off)
          (live (log g (k.view f (bucket bid))) id)
          (find_live_slot g b mwa f bid id)
  unfolding find_live_slot
  find_live_slot_lem f bid id known =
      walk_live_slot-live g (sector_read g b mwa f bid) (k.view f (bucket bid))
        (k.full f (bucket bid)) (λ off n h. k.read_ok f (bucket bid) off n h) crc.crc_nil
        crc.crc_append id known

  payload_in : Bool → b.Flash → ℕ → ℕ → Result (List ℕ)
  payload_in false f bid id = err enoent
  payload_in true f bid id = elim (find_live_slot g b mwa f bid id) [
    | err e ↦ err e
    | ok (sc, dst) ↦ ok dst
  ]

  answered :
      (end : ℕ) (o : Option (List ℕ)) (r : Result (BucketScan × List ℕ))
      → Answers end o r
      → elim r as (λ _. Result (List ℕ)) [ err e ↦ err e | ok (sc, dst) ↦ ok dst ] ≡ or_enoent o
  answered end none r e = rw e refl
  answered end (some p) r (sc, e, w) = rw e refl

  find_payload_lem :
      (st : Mount) (c : Core b) (id : ℕ)
      → bucket_data_off ≤ g.peb_size
      → bucket_image_ends_foreign g (sector_of g b k c (id_to_bucket st id)) ≡ false
      → find_payload g b mwa st id c ≡ or_enoent (bound g b k st c id)
  unfolding find_payload bound_in
  find_payload_lem st c id room known =
      let bid = id_to_bucket st id in
      let buf = sector_of g b k c bid in
      elim (Bool-cases (bucket_hdr_valid g buf bid)) [
        | inr e ↦ rw (find_payload, read_bucket_hdr_lem c.flash bid room, e) refl
        | inl e ↦
            rw (find_payload, read_bucket_hdr_lem c.flash bid room, e)
              (answered _ _ _ (find_live_slot_lem c.flash bid id known))
      ]

  -- On mounted flash that does not fail, in sectors of 16 bytes at least, with a CRC16 that
  -- composes over chunks, for an id other than 0 whose bucket's log does not end at a foreign
  -- slot, get_impl answers with what the store binds the id to, or -ENOMEM where it does not fit,
  -- size_impl with its length, and exists_impl tells whether it is bound.
  pub get_impl-bound :
      (st : Mount) (c : Core b) (id out_sz : ℕ)
      → bucket_data_off ≤ g.peb_size
      → st.mounted ≡ true
      → id ≢ 0
      → bucket_image_ends_foreign g (sector_of g b k c (id_to_bucket st id)) ≡ false
      → (get_impl g b mwa st id (some out_sz) c ≡ reply (bound g b k st c id) out_sz)
        × (size_impl g b mwa st id true c ≡ size_reply (bound g b k st c id))
        × (exists_impl g b mwa st id c ≡ is_some (bound g b k st c id))
  unfolding get_impl size_impl exists_impl
  get_impl-bound st c id out_sz room on nz known =
      let found = find_payload_lem st c id room known in
      let other : (id == 0) ≡ false = ground arith in
      (
        rw (found, on, other) (got (bound g b k st c id)),
        rw (found, on, other) (sized (bound g b k st c id)),
        rw (found, on, other) (there (bound g b k st c id)),
      )
    where
      got : (o : Option (List ℕ)) → into g b mwa out_sz (or_enoent o) ≡ reply o out_sz
      got none = refl
      got (some p) = ground arith

      sized : (o : Option (List ℕ)) → size_of g b mwa (or_enoent o) ≡ size_reply o
      sized none = refl
      sized (some p) = refl

      there : (o : Option (List ℕ)) → is_ok (or_enoent o) ≡ is_some o
      there none = refl
      there (some p) = refl
