-- ===== src/Point/Compact.antt =====
-- compact_bucket as a whole: what a bucket binds its ids to, however the compaction ends.
use key_value_db.Base.{
  ℕ, ◌+◌, ◌-◌, ◌^◌, ◌≤◌, ◌<◌, ◌≡◌, refl, ap, ◌∙◌, ◌⊎◌, inl, inr, true, List, ◌++◌, arith,
  Bool-cases, length, take, replicate, take_self, ok, Result-cases,
}
use key_value_db.BucketLog.{Geometry, build_compacted_image, bucket_data_off, erased}
use key_value_db.BucketLog.Header.{bucket_hdr_valid, compaction_may_drop_tail}
use key_value_db.BucketLog.Rebuild.{
  programmed, compacted_sector-live, compacted_sector-bucket_hdr_valid,
}
use key_value_db.Append.Live.{program, drop-replicate}
use key_value_db.Compaction.{Backend, Core, scratch, bucket, compact_bucket, scratch_seal_len}
use key_value_db.Compaction.Window.{Keeps, Settled, sealed, new_bucket, compact_commit-Settled}
use key_value_db.Point.Nor.{bound_in}

-- the image that compaction makes of a sector
abbrev pub compacted : Geometry → ℕ → List ℕ → List ℕ
compacted g bid buf = let (out, new_len, stop) = build_compacted_image g buf bid in take new_len out

module _ (g : Geometry) (b : Backend) (k : Keeps g b) (wide32 : (bs : List ℕ) → g.crc32 bs < 2 ^ 32)
    (bid : ℕ) (few : bid < 2 ^ 16) (room : bucket_data_off ≤ g.peb_size) where
  programmed_lem : (bs : List ℕ) → program 0 bs (replicate g.peb_size erased) ≡ programmed g bs
  programmed_lem bs =
      ap (λ r. bs ++ r)
        (drop-replicate (0 + length bs) g.peb_size erased
          ∙ ap (λ (n : ℕ). replicate n erased) {x = g.peb_size - (0 + length bs)}
              {y = g.peb_size - length bs} (omega arith))

  -- The compacted bucket binds as the bucket did.
  compacted-bound :
      (buf : List ℕ) (j : ℕ)
      → length buf ≡ g.peb_size
      → bucket_hdr_valid g buf bid ≡ true
      → bound_in g bid (new_bucket g b k bid (compacted g bid buf)) j ≡ bound_in g bid buf j
  unfolding bound_in
  compacted-bound buf j full valid =
      rw
        (
          programmed_lem (compacted g bid buf),
          compacted_sector-bucket_hdr_valid g buf bid full room few wide32,
          valid,
        )
        (compacted_sector-live g buf bid full room j)

  -- The old bindings in the bucket, or sealed in scratch.
  abbrev pub Bound : List ℕ → b.Flash → Type 0
  Bound old f =
      ((j : ℕ) → bound_in g bid (k.view f (bucket bid)) j ≡ bound_in g bid old j)
      ⊎ ((k.view f scratch ≡ sealed g b k bid (compacted g bid old))
          × ((j : ℕ)
              → bound_in g bid (new_bucket g b k bid (compacted g bid old)) j
                ≡ bound_in g bid old j))

  committed-Bound :
      (old : List ℕ) (f : b.Flash)
      → length old ≡ g.peb_size
      → bucket_hdr_valid g old bid ≡ true
      → Settled g b k bid (compacted g bid old) old f
      → Bound old f
  committed-Bound old f full valid s = elim s [
    | inl e ↦ inl λ j. ap (λ bs. bound_in g bid bs j) e
    | inr (inl e) ↦ inr (e, λ j. compacted-bound old j full valid)
    | inr (inr e) ↦ inl λ j. ap (λ bs. bound_in g bid bs j) e ∙ compacted-bound old j full valid
  ]

  -- On flash where any operation may fail or be cut short, for a sector of the full size with room
  -- for the seal, a 16-bit bucket number and a 32-bit CRC32, however compact_bucket ends, the
  -- bucket binds every id as before, or scratch holds, sealed, the image of a sector that does.
  pub compact_bucket-Bound :
      (c : Core b)
      → scratch_seal_len g ≤ g.peb_size
      → length (k.view c.flash (bucket bid)) ≡ g.peb_size
      → Bound (k.view c.flash (bucket bid)) (compact_bucket g b bid c).1.flash
  unfolding compact_bucket
  compact_bucket-Bound c seal full =
      let old = k.view c.flash (bucket bid) in
      let (out, new_len, stop) = build_compacted_image g old bid in
      elim (Result-cases (b.read c.flash (bucket bid) 0 g.peb_size)) [
        | inr (e, failed) ↦ rw (compact_bucket, failed) (inl λ j. refl)
        | inl (bs, done) ↦
            let whole : bs ≡ old =
              k.reads c.flash (bucket bid) 0 g.peb_size bs done
              ∙ take_self old g.peb_size (omega arith) in
            let read = done ∙ ap ok whole in
            elim (Bool-cases (bucket_hdr_valid g old bid)) [
              | inr e ↦ rw (compact_bucket, read, e) (inl λ j. refl)
              | inl e ↦ elim (Result-cases (compaction_may_drop_tail g out stop)) [
                | inr (x, t) ↦ rw (compact_bucket, read, e, t) (inl λ j. refl)
                | inl (u, t) ↦
                    rw (compact_bucket, read, e, t)
                      (committed-Bound old _ full e
                        (compact_commit-Settled g b k bid (compacted g bid old) c seal))
              ]
            ]
      ]
