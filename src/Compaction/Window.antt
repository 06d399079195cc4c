-- ===== src/Compaction/Window.antt =====
-- What flash holds wherever the commit of a compaction stops.
use key_value_db.Base.{
  ℕ, zero, suc, ◌+◌, ◌-◌, ◌≤◌, ◌≡◌, refl, sym, ap, ◌∙◌, ◌≢◌, ◌⊎◌, inl, inr, Bool, true, false, List,
  ◌∷◌, arith, ltb, ◌==◌, if◌then◌else◌, Bool-cases, length, take, drop, replicate, length-replicate,
  drop-append_self, drop-drop, le_bytes, Errno, Result, ok, err, Exec, continue,
}
use key_value_db.BucketLog.{Geometry, erased}
use key_value_db.Append.Live.{program, drop-replicate}
use key_value_db.BucketLog.Parse.{round_up-ge}
use key_value_db.Compaction.{
  Sector, scratch, bucket, Backend, Core, io, scratch_seal_len, scratch_seal_off, seal_bytes,
  rewrite_bucket, commit_through_scratch, compact_commit,
}

-- What a store backend does to a sector: an operation that fails, or that power cuts short, may
-- leave any bytes in its own sector, and none elsewhere.
pub record Keeps (g : Geometry) (b : Backend) : Type 0 where
  pub view : b.Flash → Sector → List ℕ
  pub reads :
      (f : b.Flash) (s : Sector) (off n : ℕ) (bs : List ℕ)
      → b.read f s off n ≡ ok bs
      → bs ≡ take n (drop off (view f s))
  pub erase_ok :
      (s : Sector) (f : b.Flash)
      → (b.erase s f).0 ≡ ok tt
      → view (b.erase s f).1 s ≡ replicate g.peb_size erased
  pub write_ok :
      (s : Sector) (off : ℕ) (bs : List ℕ) (f : b.Flash)
      → (b.write s off bs f).0 ≡ ok tt
      → take (length bs) (drop off (view f s)) ≡ replicate (length bs) erased
      → view (b.write s off bs f).1 s ≡ program off bs (view f s)
  pub erase_elsewhere : (s t : Sector) (f : b.Flash) → s ≢ t → view (b.erase s f).1 t ≡ view f t
  pub write_elsewhere :
      (s t : Sector) (off : ℕ) (bs : List ℕ) (f : b.Flash)
      → s ≢ t
      → view (b.write s off bs f).1 t ≡ view f t
  -- a backend that replaces atomically leaves the old bytes or the new ones
  pub replace_atomic :
      (s : Sector) (bs : List ℕ) (f : b.Flash)
      → b.replace_is_atomic ≡ true
      → (view (b.replace s bs f).1 s ≡ view f s)
        ⊎ (view (b.replace s bs f).1 s ≡ program 0 bs (replicate g.peb_size erased))

pub take-replicate : (n m : ℕ) (a : ℕ) → n ≤ m → take n (replicate m a) ≡ replicate n a
take-replicate zero m a h = refl
take-replicate (suc n) zero a h = absurd (omega arith)
take-replicate (suc n) (suc m) a h = ap (λ l. a ∷ l) (take-replicate n m a (omega arith))

-- an operation in front of the rest: it fails and nothing follows, or the rest runs
pub step :
    {b : Backend} (P : b.Flash → Type 0) (r : Result (Unit {0})) (f : b.Flash) (w : Bool)
    (rest : Exec (Core b) (Unit {0}))
    → ((e : Errno) → r ≡ err e → P f)
    → (r ≡ ok tt → P (rest record { flash = f; wedged = w }).1.flash)
    → P (continue r (λ _. rest) record { flash = f; wedged = w }).1.flash
step P (ok tt) f w rest failed done = done refl
step P (err e) f w rest failed done = failed e refl

module _ (g : Geometry) (b : Backend) (k : Keeps g b) (bid : ℕ) (image : List ℕ) where
  -- an erased sector, with the image at its start
  abbrev pub new_bucket : List ℕ
  new_bucket = program 0 image (replicate g.peb_size erased)

  -- and with the seal at its end
  abbrev pub sealed : List ℕ
  sealed = program (scratch_seal_off g) (seal_bytes g image) new_bucket

  -- the old bucket, or its new content sealed in scratch, or in the bucket itself
  abbrev pub Settled : List ℕ → b.Flash → Type 0
  Settled old f =
      (k.view f (bucket bid) ≡ old)
      ⊎ ((k.view f scratch ≡ sealed) ⊎ (k.view f (bucket bid) ≡ new_bucket))

  pub scratch-bucket : scratch ≢ (bucket bid)
  scratch-bucket e = cc

  pub bucket-scratch : (bucket bid) ≢ scratch
  bucket-scratch e = cc

  pub rewrite_bucket-Settled :
      (old : List ℕ) (c : Core b)
      → length image ≤ g.peb_size
      → k.view c.flash scratch ≡ sealed
      → Settled old (rewrite_bucket g b bid image c).1.flash
  unfolding rewrite_bucket
  rewrite_bucket-Settled old c fits s =
      let f1 = (b.erase (bucket bid) c.flash).1 in
      let f2 = (b.write (bucket bid) 0 image f1).1 in
      let s1 : k.view f1 scratch ≡ sealed =
        k.erase_elsewhere (bucket bid) scratch c.flash bucket-scratch ∙ s in
      step (Settled old) (b.erase (bucket bid) c.flash).0 f1 _ _ (λ e h. inr (inl s1))
        (λ h.
          step (Settled old) (b.write (bucket bid) 0 image f1).0 f2 _ _
            (λ e h'.
              inr (inl (k.write_elsewhere (bucket bid) scratch 0 image f1 bucket-scratch ∙ s1)))
            (λ h'.
              let erased_now = k.erase_ok (bucket bid) c.flash h in
              let clean =
                ap (take (length image)) erased_now
                ∙ take-replicate (length image) g.peb_size erased fits in
              inr (
                inr (
                  k.erase_elsewhere scratch (bucket bid) f2 scratch-bucket
                  ∙ k.write_ok (bucket bid) 0 image f1 h' clean
                  ∙ ap (program 0 image) erased_now))))

  pub scratch_seal_len-ge : 16 ≤ scratch_seal_len g
  unfolding scratch_seal_len
  scratch_seal_len-ge = elim (Bool-cases (g.write_align == 0)) [
    | inl e ↦ rw e (round_up-ge 16 1 (omega arith))
    | inr e ↦ rw e (round_up-ge 16 g.write_align (ground arith))
  ]

  pub length-seal_bytes : length (seal_bytes g image) ≡ scratch_seal_len g
  unfolding seal_bytes le_bytes
  length-seal_bytes =
      omega (arith, scratch_seal_len-ge, length-replicate (scratch_seal_len g - 16) erased)

  -- behind the image, scratch is erased
  behind_image :
      (off m : ℕ)
      → length image ≤ off
      → drop off (program 0 image (replicate m erased))
        ≡ replicate (m - length image - (off - length image)) erased
  behind_image off m h =
      let split : off ≡ length image + (off - length image) = omega arith in
      ap (λ n. drop n (program 0 image (replicate m erased))) split
      ∙ sym (drop-drop (off - length image) (length image) (program 0 image (replicate m erased)))
      ∙ ap (drop (off - length image)) (
          drop-append_self image (drop (0 + length image) (replicate m erased)) (length image) refl
          ∙ drop-replicate (0 + length image) m erased
          ∙ ap (λ n. replicate n erased) {x = m - (0 + length image)} {y = m - length image}
              (omega arith))
      ∙ drop-replicate (off - length image) (m - length image) erased

  seal_room :
      length image ≤ scratch_seal_off g
      → scratch_seal_len g ≤ g.peb_size
      → take (length (seal_bytes g image)) (drop (scratch_seal_off g) new_bucket)
        ≡ replicate (length (seal_bytes g image)) erased
  unfolding scratch_seal_off
  seal_room fits room =
      ap (take (length (seal_bytes g image)))
        (behind_image (g.peb_size - scratch_seal_len g) g.peb_size fits)
      ∙ take-replicate (length (seal_bytes g image))
          (g.peb_size - length image - (g.peb_size - scratch_seal_len g - length image)) erased
          (omega (arith, length-seal_bytes))

  pub seal_off-le : scratch_seal_off g ≤ g.peb_size
  unfolding scratch_seal_off
  seal_off-le = omega arith

  sealed_scratch :
      (f : b.Flash)
      → length image ≤ scratch_seal_off g
      → scratch_seal_len g ≤ g.peb_size
      → (b.erase scratch f).0 ≡ ok tt
      → (b.write scratch 0 image (b.erase scratch f).1).0 ≡ ok tt
      → (b.write scratch
          (scratch_seal_off g)
          (seal_bytes g image)
          (b.write scratch 0 image (b.erase scratch f).1).1).0
        ≡ ok tt
      → k.view
          (b.write scratch
            (scratch_seal_off g)
            (seal_bytes g image)
            (b.write scratch 0 image (b.erase scratch f).1).1).1
          scratch
        ≡ sealed
  sealed_scratch f fits room h h' h'' =
      let f1 = (b.erase scratch f).1 in
      let f2 = (b.write scratch 0 image f1).1 in
      let off = scratch_seal_off g in
      let seal = seal_bytes g image in
      let erased_now = k.erase_ok scratch f h in
      let clean =
        ap (take (length image)) erased_now
        ∙ take-replicate (length image) g.peb_size erased (omega (arith, seal_off-le)) in
      let filled : k.view f2 scratch ≡ new_bucket =
        k.write_ok scratch 0 image f1 h' clean ∙ ap (program 0 image) erased_now in
      let room_left = ap (λ v. take (length seal) (drop off v)) filled ∙ seal_room fits room in
      k.write_ok scratch off seal f2 h'' room_left ∙ ap (program off seal) filled

  -- scratch holds nothing yet that the bucket needs
  commit_through_scratch-Settled :
      (c : Core b)
      → length image ≤ scratch_seal_off g
      → scratch_seal_len g ≤ g.peb_size
      → Settled (k.view c.flash (bucket bid)) (commit_through_scratch g b bid image c).1.flash
  unfolding commit_through_scratch
  commit_through_scratch-Settled c fits room =
      let old = k.view c.flash (bucket bid) in
      let off = scratch_seal_off g in
      let seal = seal_bytes g image in
      let f1 = (b.erase scratch c.flash).1 in
      let f2 = (b.write scratch 0 image f1).1 in
      let f3 = (b.write scratch off seal f2).1 in
      let b1 : k.view f1 (bucket bid) ≡ old =
        k.erase_elsewhere scratch (bucket bid) c.flash scratch-bucket in
      let b2 : k.view f2 (bucket bid) ≡ old =
        k.write_elsewhere scratch (bucket bid) 0 image f1 scratch-bucket ∙ b1 in
      let b3 : k.view f3 (bucket bid) ≡ old =
        k.write_elsewhere scratch (bucket bid) off seal f2 scratch-bucket ∙ b2 in
      step (Settled old) (b.erase scratch c.flash).0 f1 _ _ (λ e h. inl b1)
        (λ h.
          step (Settled old) (b.write scratch 0 image f1).0 f2 _ _ (λ e h'. inl b2)
            (λ h'.
              step (Settled old) (b.write scratch off seal f2).0 f3 _ _ (λ e h''. inl b3)
                (λ h''.
                  rewrite_bucket-Settled old record { flash = f3; wedged = c.wedged }
                    (omega (arith, seal_off-le)) (sealed_scratch c.flash fits room h h' h''))))

  -- Wherever the commit stops, the bucket holds its old bytes or the whole of its new content, or
  -- scratch holds that content sealed.
  pub compact_commit-Settled :
      (c : Core b)
      → scratch_seal_len g ≤ g.peb_size
      → Settled (k.view c.flash (bucket bid)) (compact_commit g b bid image c).1.flash
  unfolding compact_commit
  compact_commit-Settled c room = elim (Bool-cases (ltb (scratch_seal_off g) (length image))) [
    | inl e ↦ rw e (inl refl)
    | inr e ↦ rw e (branch b.replace_is_atomic refl (ground arith))
  ]
    where
      branch :
          (a : Bool)
          → b.replace_is_atomic ≡ a
          → length image ≤ scratch_seal_off g
          → Settled
              (k.view c.flash (bucket bid))
              (if a
                then io b (b.replace (bucket bid) image) c
                else commit_through_scratch g b bid image c).1.flash
      branch true a fits = elim (k.replace_atomic (bucket bid) image c.flash a) [
        | inl o ↦ inl o
        | inr n ↦ inr (inr n)
      ]
      branch false a fits = commit_through_scratch-Settled c fits room
