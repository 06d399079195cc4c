-- ===== src/Compaction/Restore.antt =====
-- What mount makes of a sealed scratch sector.
use key_value_db.Base.{
  ℕ, ◌^◌, ◌≤◌, ◌<◌, ◌≡◌, refl, ap, ◌∙◌, ◌⊎◌, inl, inr, true, false, some, List, arith, leb, ==_refl,
  length, take, drop, take_self, of_le, int_at, Errno, Result, ok, err, Exec, continue,
  Result-cases,
}
use key_value_db.BucketLog.{Geometry, bucket_data_off, erased}
use key_value_db.BucketLog.Header.{bucket_hdr_valid}
use key_value_db.Append.Live.{program}
use key_value_db.Compaction.{
  scratch, bucket, Backend, scratch_seal_len, scratch_seal_off, seal_head, scratch_sealed_bucket,
  restore, recover_compaction,
}
use key_value_db.Compaction.Window.{
  Keeps, new_bucket, sealed, seal_off-le, take-replicate, bucket-scratch, scratch-bucket,
}
use key_value_db.Compaction.Recover.{
  valid, seal_at, magic_taken, crc_taken, head_taken, image_read, same_front, same_header,
  length-full,
}

-- an operation in front of the rest, with the result
after :
    {S : Type 0} (P : Result (Unit {0}) × S → Type 0) (r : Result (Unit {0})) (f : S)
    (rest : Exec S (Unit {0}))
    → ((e : Errno) → P (err e, f))
    → (r ≡ ok tt → P (rest f))
    → P (continue r (λ _. rest) f)
after P (ok tt) f rest failed done = done refl
after P (err e) f rest failed done = failed e

module _ (g : Geometry) (b : Backend) (k : Keeps g b) (bid : ℕ) (image : List ℕ)
    (least : bucket_data_off ≤ length image) (fits : length image ≤ scratch_seal_off g)
    (room : scratch_seal_len g ≤ g.peb_size) (small : g.peb_size < 2 ^ 32)
    (wide : (bs : List ℕ) → g.crc32 bs < 2 ^ 32) where
  -- the bucket is restored, or an error is reported and it or scratch still holds its content
  abbrev pub Restored : Result (Unit {0}) × b.Flash → Type 0
  Restored r =
      (k.view r.1 (bucket bid) ≡ new_bucket g b k bid image)
      ⊎ (((e : Errno) × (r.0 ≡ err e)) × (k.view r.1 scratch ≡ sealed g b k bid image))

  restore-Restored :
      (f : b.Flash) → k.view f scratch ≡ sealed g b k bid image → Restored (restore g b bid image f)
  unfolding restore
  restore-Restored f s =
      let f1 = (b.erase (bucket bid) f).1 in
      let f2 = (b.write (bucket bid) 0 image f1).1 in
      let s1 = k.erase_elsewhere (bucket bid) scratch f (bucket-scratch g b k bid image) ∙ s in
      after Restored (b.erase (bucket bid) f).0 f1 _ (λ e. inr ((e, refl), s1))
        (λ h.
          after Restored (b.write (bucket bid) 0 image f1).0 f2 _
            (λ e. inr (
              (e, refl),
              k.write_elsewhere (bucket bid) scratch 0 image f1 (bucket-scratch g b k bid image)
                  ∙ s1,
            ))
            (λ h'.
              let erased_now = k.erase_ok (bucket bid) f h in
              let clean =
                ap (take (length image)) erased_now
                ∙ take-replicate (length image) g.peb_size erased
                    (omega (arith, seal_off-le g b k bid image)) in
              inl (
                k.erase_elsewhere scratch (bucket bid) f2 (scratch-bucket g b k bid image)
                ∙ k.write_ok (bucket bid) 0 image f1 h' clean
                ∙ ap (program 0 image) erased_now)))

  sector_is :
      (f : b.Flash)
      → k.view f scratch ≡ sealed g b k bid image
      → (buf : List ℕ) → b.read f scratch 0 g.peb_size ≡ ok buf
      → buf ≡ sealed g b k bid image
  sector_is f s buf q =
      k.reads f scratch 0 g.peb_size buf q
      ∙ ap (take g.peb_size) s
      ∙ take_self (sealed g b k bid image) g.peb_size
          (omega (arith, length-full g b k bid image least fits room small wide))

  -- the seal, where the reads succeed
  sealed_bucket :
      (n_buckets : ℕ) (f : b.Flash)
      → k.view f scratch ≡ sealed g b k bid image
      → bid < n_buckets
      → bucket_hdr_valid g (new_bucket g b k bid image) bid ≡ true
      → int_at 2 (new_bucket g b k bid image) 4 ≡ bid
      → (scratch_sealed_bucket g b n_buckets f ≡ ok (some (bid, image)))
        ⊎ ((e : Errno) × (scratch_sealed_bucket g b n_buckets f ≡ err e))
  unfolding scratch_sealed_bucket
  sealed_bucket n_buckets f s known hdr id =
      elim (Result-cases (b.read f scratch (scratch_seal_off g) 16)) [
        | inr (e, r) ↦ inr (e, rw (scratch_sealed_bucket, r) refl)
        | inl (sl, r) ↦
            let sl_is =
              k.reads f scratch (scratch_seal_off g) 16 sl r
              ∙ ap (λ v. take 16 (drop (scratch_seal_off g) v)) s
              ∙ seal_at g b k bid image least fits room small wide in
            let r' = r ∙ ap ok sl_is in
            let head = head_taken g b k bid image least fits room small wide in
            let crc = crc_taken g b k bid image least fits room small wide in
            let magic = magic_taken g b k bid image least fits room small wide in
            elim (Result-cases (b.read f scratch 0 g.peb_size)) [
              | inr (e, q) ↦ inr (
                e,
                rw
                    (
                      scratch_sealed_bucket,
                      r',
                      magic,
                      crc,
                      head,
                      ==_refl (g.crc32 (seal_head g image)),
                      q,
                    )
                    refl,
              )
              | inl (buf, q) ↦
                  let q' = q ∙ ap ok (sector_is f s buf q) in
                  let v = valid g b k bid image least fits room small wide in
                  let here : int_at 2 (sealed g b k bid image) 4 ≡ bid =
                    ap of_le
                      (same_front g b k bid image least fits room small wide 2 4 (omega arith))
                    ∙ id in
                  let header = same_header g b k bid image least fits room small wide ∙ hdr in
                  let low : leb n_buckets bid ≡ false = ground arith in
                  let im = image_read g b k bid image least fits room small wide in
                  inl (
                    rw
                      (
                        scratch_sealed_bucket,
                        r',
                        magic,
                        crc,
                        head,
                        ==_refl (g.crc32 (seal_head g image)),
                        q',
                        v,
                        here,
                        low,
                        header,
                        im,
                      )
                      refl)
            ]
      ]

  -- From a sealed scratch sector, the recovery at mount restores the bucket, or it reports an error
  -- and scratch still holds the bucket's content sealed.
  pub recover_compaction-Restored :
      (n_buckets : ℕ) (f : b.Flash)
      → k.view f scratch ≡ sealed g b k bid image
      → bid < n_buckets
      → bucket_hdr_valid g (new_bucket g b k bid image) bid ≡ true
      → int_at 2 (new_bucket g b k bid image) 4 ≡ bid
      → Restored (recover_compaction g b n_buckets f)
  unfolding recover_compaction
  recover_compaction-Restored n_buckets f s known hdr id =
      elim (sealed_bucket n_buckets f s known hdr id) [
        | inl e ↦ rw (recover_compaction, e) (restore-Restored f s)
        | inr (c, e) ↦ rw (recover_compaction, e) (inr ((c, refl), s))
      ]
