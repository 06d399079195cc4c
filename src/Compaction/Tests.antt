-- ===== src/Compaction/Tests.antt =====
-- A flash in RAM on which the theorems about the commit and the recovery are applied.
use key_value_db.Base.{
  ℕ, ◌+◌, ◌≤◌, ◌≡◌, refl, sym, ap, ◌≢◌, inl, inr, Bool, true, false, List, [], arith, ◌==◌,
  if◌then◌else◌, ==_refl, Bool-cases, length, take, drop, replicate, le_bytes, of_le, int_at, ok,
}
use key_value_db.BucketLog.{erased, next_header}
use key_value_db.BucketLog.Header.{length-next_header, next_header-bucket_hdr_valid}
use key_value_db.Append.Live.{program}
use key_value_db.Samples.{flash, sum16-fits}
use key_value_db.Compaction.{
  Sector, scratch, bucket, Backend, Core, scratch_seal_len, scratch_seal_off, compact_commit,
  recover_compaction,
}
use key_value_db.Compaction.Window.{Keeps, Settled, new_bucket, sealed, compact_commit-Settled}
use key_value_db.Compaction.Restore.{Restored, recover_compaction-Restored}

abbrev pub same : Sector → Sector → Bool
same scratch scratch = true
same (bucket i) (bucket j) = i == j
same scratch (bucket j) = false
same (bucket i) scratch = false

pub same_refl : (s : Sector) → same s s ≡ true
same_refl scratch = refl
same_refl (bucket i) = ==_refl i

pub same_not : (s t : Sector) → s ≢ t → same t s ≡ false
same_not scratch scratch h = absurd (h refl)
same_not (bucket i) (bucket j) h = elim (Bool-cases (j == i)) [
  | inr e ↦ e
  | inl e ↦ let eq : j ≡ i = ground arith in absurd (h (ap bucket (sym eq)))
]
same_not scratch (bucket j) h = refl
same_not (bucket i) scratch h = refl

abbrev pub Ram : Type 0
Ram = Sector → List ℕ

abbrev pub store : Sector → List ℕ → Ram → Ram
store s bs f t = if same t s then bs else f t

abbrev pub ram : Backend
ram = record {
  Flash = Ram;
  read = λ f s off n. ok (take n (drop off (f s)));
  erase = λ s f. (ok tt, store s (replicate 80 erased) f);
  write = λ s off bs f. (ok tt, store s (program off bs (f s)) f);
  replace = λ s bs f. (ok tt, store s (program 0 bs (replicate 80 erased)) f);
  replace_is_atomic = false;
}

pub store-same : (s : Sector) (bs : List ℕ) (f : Ram) → store s bs f s ≡ bs
store-same s bs f = rw (same_refl s) refl

pub store-other : (s t : Sector) (bs : List ℕ) (f : Ram) → s ≢ t → store s bs f t ≡ f t
store-other s t bs f h = rw (same_not s t h) refl

pub ok_inj : (xs ys : List ℕ) → ok xs ≡ ok ys → ys ≡ xs
ok_inj xs ys h = ground arith

abbrev pub ram_keeps : Keeps flash ram
ram_keeps = record {
  view = λ f s. f s;
  reads = λ f s off n bs h. ok_inj (take n (drop off (f s))) bs h;
  erase_ok = λ s f h. store-same s (replicate 80 erased) f;
  write_ok = λ s off bs f h c. store-same s (program off bs (f s)) f;
  erase_elsewhere = λ s t f h. store-other s t (replicate 80 erased) f h;
  write_elsewhere = λ s t off bs f h. store-other s t (program off bs (f s)) f h;
  replace_atomic = λ s bs f h. inr (store-same s (program 0 bs (replicate 80 erased)) f);
}

pub seal_fits : scratch_seal_len flash ≤ 80
unfolding scratch_seal_len
seal_fits = omega arith

abbrev image : List ℕ
image = next_header flash [] 0

length-image : length image ≡ 16
length-image = length-next_header flash [] 0

image_fits : length image ≤ scratch_seal_off flash
unfolding scratch_seal_off scratch_seal_len
image_fits = rw length-image (omega arith)

abbrev before : Core ram
before = record { flash = λ s. replicate 80 7; wedged = false }

compact_commit-Settled_example :
    Settled flash ram ram_keeps 0 image
      (replicate 80 7)
      (compact_commit flash ram 0 image before).1.flash
compact_commit-Settled_example = compact_commit-Settled flash ram ram_keeps 0 image before seal_fits

-- scratch is sealed, and the bucket is lost
abbrev interrupted : Ram
interrupted s = if same s scratch then sealed flash ram ram_keeps 0 image else replicate 80 erased

image_id : int_at 2 (new_bucket flash ram ram_keeps 0 image) 4 ≡ 0
unfolding next_header le_bytes of_le
image_id = refl

recover_compaction-Restored_example :
    Restored flash ram ram_keeps 0 image
      (rw length-image (omega arith))
      image_fits
      seal_fits
      (omega arith)
      (λ bs. omega (arith, sum16-fits 0 bs (omega arith)))
      (recover_compaction flash ram 1 interrupted)
unfolding scratch_seal_off
recover_compaction-Restored_example =
    recover_compaction-Restored flash ram ram_keeps 0 image (rw length-image (omega arith))
      image_fits seal_fits (omega arith) (λ bs. omega (arith, sum16-fits 0 bs (omega arith))) 1
      interrupted refl (omega arith)
      (next_header-bucket_hdr_valid flash [] (drop (0 + length image) (replicate 80 erased)) 0
        (omega arith) (λ bs. omega (arith, sum16-fits 0 bs (omega arith))))
      image_id
