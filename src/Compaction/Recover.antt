-- ===== src/Compaction/Recover.antt =====
-- The recovery at mount, where the commit has left a sealed scratch sector.
use key_value_db.Base.{
  ℕ, zero, suc, ◌+◌, ◌-◌, ◌^◌, ◌≤◌, ◌<◌, ◌≡◌, refl, sym, ap, ◌∙◌, true, false, ◌&&◌, some, List, [],
  ◌∷◌, ◌++◌, arith, ltb, ◌==◌, ==_refl, length, take, drop, replicate, length-append, length-take,
  length-drop, length-replicate, take-append_self, drop-append_self, take_self, take-append_right,
  le_bytes, of_le, int_at, length-le_bytes, of_le-le_bytes, int_at-le_bytes, take-le_bytes,
  drop-le_bytes,
}
use mathlib.Core.List.{append_assoc}
use key_value_db.BucketLog.{Geometry, bucket_data_off, erased}
use key_value_db.BucketLog.Header.{bucket_hdr_valid, starts}
use key_value_db.BucketLog.Parse.{take-drop-take}
use key_value_db.Compaction.{
  Backend, scratch_seal_len, scratch_seal_off, seal_head, seal_bytes, scratch_seal_valid,
}
use key_value_db.Compaction.Window.{Keeps, new_bucket, sealed, seal_off-le, length-seal_bytes}

starts-take :
    (ms xs ys : List ℕ) (m : ℕ)
    → length ms ≤ m
    → m ≤ length xs
    → starts ms (take m xs ++ ys) ≡ starts ms xs
starts-take [] xs ys m h l = refl
starts-take (c ∷ ms) xs ys zero h l = absurd (omega arith)
starts-take (c ∷ ms) [] ys (suc m) h l = absurd (omega arith)
starts-take (c ∷ ms) (x ∷ xs) ys (suc m) h l =
    ap (λ b. c == x && b) (starts-take ms xs ys m (omega arith) (omega arith))

-- what the check of a seal reads
scratch_seal_valid-reads :
    (g : Geometry) (sector seal : List ℕ) (n : ℕ)
    → take 16 (drop (scratch_seal_off g) sector) ≡ seal
    → starts (b'B' ∷ b'D' ∷ b'S' ∷ b'L' ∷ []) seal ≡ true
    → int_at 4 seal 12 ≡ g.crc32 (take 12 seal)
    → int_at 4 seal 4 ≡ n
    → int_at 4 seal 8 ≡ g.crc32 (take n sector)
    → bucket_data_off ≤ n
    → n ≤ scratch_seal_off g
    → scratch_seal_valid g sector ≡ some n
unfolding scratch_seal_valid
scratch_seal_valid-reads g sector seal n r magic crc len image least fits =
    let low : ltb n bucket_data_off ≡ false = ground arith in
    let high : ltb (scratch_seal_off g) n ≡ false = ground arith in
    rw
      (
        r,
        magic,
        crc,
        ==_refl (g.crc32 (take 12 seal)),
        len,
        low,
        high,
        image,
        ==_refl (g.crc32 (take n sector)),
      )
      refl

module _ (g : Geometry) (b : Backend) (k : Keeps g b) (bid : ℕ) (image : List ℕ)
    (least : bucket_data_off ≤ length image) (fits : length image ≤ scratch_seal_off g)
    (room : scratch_seal_len g ≤ g.peb_size) (small : g.peb_size < 2 ^ 32)
    (wide : (bs : List ℕ) → g.crc32 bs < 2 ^ 32) where
  abbrev crc_bytes : List ℕ
  crc_bytes = le_bytes 4 (g.crc32 (seal_head g image))

  abbrev pub fresh : List ℕ
  fresh = new_bucket g b k bid image

  abbrev pub full : List ℕ
  full = sealed g b k bid image

  length-fresh : length fresh ≡ g.peb_size
  length-fresh =
      let r = replicate g.peb_size erased in
      let le = seal_off-le g b k bid image in
      omega (
        arith,
        length-append image (drop (0 + length image) r),
        length-drop (0 + length image) r,
        length-replicate g.peb_size erased,
      )

  pub length-full : length full ≡ g.peb_size
  unfolding scratch_seal_off
  length-full =
      let off = scratch_seal_off g in
      let bs = seal_bytes g image in
      omega (
        arith,
        length-append (take off fresh) (bs ++ drop (off + length bs) fresh),
        length-append bs (drop (off + length bs) fresh),
        length-take off fresh,
        length-drop (off + length bs) fresh,
        length-fresh,
        length-seal_bytes g b k bid image,
      )

  length-seal_head : length (seal_head g image) ≡ 12
  unfolding le_bytes
  length-seal_head = refl

  -- what the 16 bytes of the seal read
  seal_read : take 16 (drop (scratch_seal_off g) full) ≡ seal_head g image ++ crc_bytes
  unfolding seal_bytes
  seal_read =
      let head = seal_head g image in
      let pad = replicate (scratch_seal_len g - 16) erased in
      let off = scratch_seal_off g in
      let rest = drop (off + length (seal_bytes g image)) fresh in
      let le = seal_off-le g b k bid image in
      let front : off ≡ length (take off fresh) =
        omega (arith, length-take off fresh, length-fresh) in
      ap (take 16) (
        drop-append_self (take off fresh) (seal_bytes g image ++ rest) off front
        ∙ append_assoc head (crc_bytes ++ pad) rest
        ∙ ap (λ l. head ++ l) (append_assoc crc_bytes pad rest))
      ∙ ap (λ n. take n (head ++ (crc_bytes ++ (pad ++ rest)))) {x = 16} {y = length head + 4}
          (omega (arith, length-seal_head))
      ∙ take-append_right 4 head (crc_bytes ++ (pad ++ rest))
      ∙ ap (λ l. head ++ l) (take-le_bytes 4 (g.crc32 head) (pad ++ rest))

  pub image_read : take (length image) full ≡ image
  image_read =
      let le = seal_off-le g b k bid image in
      let rest =
        seal_bytes g image ++ drop (scratch_seal_off g + length (seal_bytes g image)) fresh in
      take-drop-take (length image) 0 (scratch_seal_off g) fresh rest (omega arith)
        (omega (arith, length-fresh))
      ∙ take-append_self image (drop (0 + length image) (replicate g.peb_size erased))
          (length image) refl

  pub seal : List ℕ
  seal = seal_head g image ++ crc_bytes

  pub head_taken : take 12 seal ≡ seal_head g image
  unfolding seal
  head_taken = take-append_self (seal_head g image) crc_bytes 12 (sym length-seal_head)

  pub crc_taken : int_at 4 seal 12 ≡ g.crc32 (seal_head g image)
  unfolding seal
  crc_taken =
      ap (λ l. of_le (take 4 l))
        (drop-append_self (seal_head g image) crc_bytes 12 (sym length-seal_head))
      ∙ ap of_le
          (take_self crc_bytes 4 (omega (arith, length-le_bytes 4 (g.crc32 (seal_head g image)))))
      ∙ of_le-le_bytes 4 (g.crc32 (seal_head g image)) (omega (arith, wide (seal_head g image)))

  len_taken : int_at 4 seal 4 ≡ length image
  unfolding seal
  len_taken =
      let le = seal_off-le g b k bid image in
      ap (λ l. of_le (take 4 l))
        (append_assoc (le_bytes 4 (length image)) (le_bytes 4 (g.crc32 image)) crc_bytes)
      ∙ int_at-le_bytes 4 (length image) (le_bytes 4 (g.crc32 image) ++ crc_bytes) (omega arith)

  image_crc_taken : int_at 4 seal 8 ≡ g.crc32 image
  unfolding seal
  image_crc_taken =
      ap (λ l. of_le (take 4 (drop 4 l)))
        (append_assoc (le_bytes 4 (length image)) (le_bytes 4 (g.crc32 image)) crc_bytes)
      ∙ ap (λ l. of_le (take 4 l))
          (drop-le_bytes 4 (length image) (le_bytes 4 (g.crc32 image) ++ crc_bytes))
      ∙ int_at-le_bytes 4 (g.crc32 image) crc_bytes (omega (arith, wide image))

  pub magic_taken : starts (b'B' ∷ b'D' ∷ b'S' ∷ b'L' ∷ []) seal ≡ true
  unfolding seal
  magic_taken = refl

  pub seal_at : take 16 (drop (scratch_seal_off g) full) ≡ seal
  unfolding seal
  seal_at = seal_read

  pub valid : scratch_seal_valid g full ≡ some (length image)
  valid =
      scratch_seal_valid-reads g full seal (length image) seal_at magic_taken
        (crc_taken ∙ ap g.crc32 (sym head_taken)) len_taken
        (image_crc_taken ∙ ap g.crc32 (sym image_read)) least fits

  -- the bytes in front of the seal are the bucket's
  pub same_front : (n j : ℕ) → j + n ≤ 16 → take n (drop j full) ≡ take n (drop j fresh)
  same_front n j h =
      let le = seal_off-le g b k bid image in
      take-drop-take n j (scratch_seal_off g) fresh
        (seal_bytes g image ++ drop (scratch_seal_off g + length (seal_bytes g image)) fresh)
        (omega arith) (omega (arith, length-fresh))

  pub same_header : bucket_hdr_valid g full bid ≡ bucket_hdr_valid g fresh bid
  unfolding bucket_hdr_valid
  same_header =
      let le = seal_off-le g b k bid image in
      rw
        (
          starts-take (b'B' ∷ b'D' ∷ b'B' ∷ b'H' ∷ []) fresh
              (seal_bytes g image ++ drop (scratch_seal_off g + length (seal_bytes g image)) fresh)
              (scratch_seal_off g) (omega arith) (omega (arith, length-fresh)),
          same_front 4 12 (omega arith),
          same_front 12 0 (omega arith),
          same_front 2 4 (omega arith),
        )
        refl
