-- ===== src/Point/Tests.antt =====
-- A store of two buckets in RAM on which the theorems about the point operations are applied.
use key_value_db.Base.{
  ℕ, ◌+◌, ◌-◌, ◌^◌, ◌≤◌, ◌<◌, ◌≡◌, refl, sym, ◌≢◌, true, false, some, List, [], ◌∷◌, ◌++◌, arith,
  ◌==◌, if◌then◌else◌, length, take, drop, replicate, length-append, length-take, length-drop,
  length-replicate, take-append_self, le_bytes, of_le, ok,
}
use key_value_db.BlobDb.{reply}
use key_value_db.BucketLog.{
  slot_size_for, slot_crc16, slot_at, slot_walk_at, slot_foreign_at, slot_foreign_head,
  bucket_image_ends_foreign, walk_end, bucket_data_off, erased,
}
use key_value_db.BucketLog.Header.{bucket_hdr_valid}
use key_value_db.Append.{slot_image}
use key_value_db.Append.Live.{program}
use key_value_db.Samples.{flash, sum16-append, sum16-fits}
use key_value_db.Compaction.{Backend, Core, Sector, compact_bucket}
use key_value_db.Compaction.Tests.{ram, ram_keeps, same, same_refl, same_not, seal_fits}
use key_value_db.Point.{Mount, first_header, get_impl, size_impl, exists_impl, update_impl}
use key_value_db.Point.Nor.{Nor, IsCrc, bound}
use key_value_db.Point.Lookup.{get_impl-bound, size_reply, is_some}
use key_value_db.Point.Update.{Appendable, update_impl-bound}
use key_value_db.Point.Format.{update_impl-formatted}
use key_value_db.Point.Delete.{Deleted, delete_impl-bound}
use key_value_db.Point.Compact.{Bound, compact_bucket-Bound}

-- a sector's bytes, made up to its size with erased ones
padded : List ℕ → List ℕ
padded bs = take 80 (bs ++ replicate 80 erased)

length-padded : (bs : List ℕ) → length (padded bs) ≡ 80
unfolding padded
length-padded bs = omega (
  arith,
  length-take 80 (bs ++ replicate 80 erased),
  length-append bs (replicate 80 erased),
  length-replicate 80 erased,
)

padded_self : (bs : List ℕ) → length bs ≡ 80 → padded bs ≡ bs
unfolding padded
padded_self bs l = take-append_self bs (replicate 80 erased) 80 (sym l)

place : Sector → List ℕ → (Sector → List ℕ) → Sector → List ℕ
place s bs f t = if same t s then bs else f t

abbrev nor : Backend
nor = record {
  Flash = Sector → List ℕ;
  read = λ f s off n. ok (take n (drop off (padded (f s))));
  erase = λ s f. (ok tt, place s (replicate 80 erased) f);
  write = λ s off bs f. (ok tt, place s (program off bs (padded (f s))) f);
  replace = λ s bs f. (ok tt, place s (program 0 bs (replicate 80 erased)) f);
  replace_is_atomic = false;
}

place_same :
    (s : Sector) (bs : List ℕ) (f : Sector → List ℕ) → length bs ≡ 80 → padded (place s bs f s) ≡ bs
unfolding place
place_same s bs f l = rw (same_refl s) (padded_self bs l)

place_other :
    (s t : Sector) (bs : List ℕ) (f : Sector → List ℕ)
    → s ≢ t
    → padded (place s bs f t) ≡ padded (f t)
unfolding place
place_other s t bs f h = rw (same_not s t h) refl

length-program :
    (off : ℕ) (bs buf : List ℕ)
    → length buf ≡ 80
    → off + length bs ≤ 80
    → length (program off bs buf) ≡ 80
length-program off bs buf l fits = omega (
  arith,
  length-append (take off buf) (bs ++ drop (off + length bs) buf),
  length-append bs (drop (off + length bs) buf),
  length-take off buf,
  length-drop (off + length bs) buf,
)

abbrev nor_serves : Nor flash nor
nor_serves = record {
  view = λ f s. padded (f s);
  full = λ f s. length-padded (f s);
  read_ok = λ f s off n h. refl;
  erase_ok = λ s f. (refl, place_same s (replicate 80 erased) f (length-replicate 80 erased));
  write_ok = λ s off bs f h clean. (
    refl,
    place_same s (program off bs (padded (f s))) f
        (length-program off bs (padded (f s)) (length-padded (f s)) h),
  );
  replace_ok = λ s bs f h. (
    refl,
    place_same s (program 0 bs (replicate 80 erased)) f
        (length-program 0 bs (replicate 80 erased) (length-replicate 80 erased) (omega arith)),
  );
  erase_elsewhere = λ s t f h. place_other s t (replicate 80 erased) f h;
  write_elsewhere = λ s t off bs f h. place_other s t (program off bs (padded (f s))) f h;
  replace_elsewhere = λ s t bs f h. place_other s t (program 0 bs (replicate 80 erased)) f h;
}

flash-IsCrc : IsCrc flash
flash-IsCrc = record {
  crc_nil = λ c. refl;
  crc_append = λ c xs ys. sum16-append c xs ys;
  crc_fits = λ c bs h. sum16-fits c bs h;
}

wide32 : (bs : List ℕ) → flash.crc32 bs < 2 ^ 32
wide32 bs = omega (arith, sum16-fits 0 bs (omega arith))

abbrev mount : Mount
mount = record { mounted = true; n_buckets = 2; next_id = 10 }

-- nothing is formatted
abbrev blank : Core nor
blank = record { flash = λ s. []; wedged = false }

-- bucket 1 holds id 5
abbrev one_blob : Core nor
one_blob = record {
  flash = λ s. first_header flash 1 ++ slot_image flash 5 0 (1 ∷ 2 ∷ []);
  wedged = false;
}

abbrev sector : List ℕ
sector = padded (first_header flash 1 ++ slot_image flash 5 0 (1 ∷ 2 ∷ []))

sector_end : walk_end flash 80 sector bucket_data_off ≡ 32
unfolding walk_end slot_walk_at slot_at slot_size_for slot_crc16 le_bytes of_le slot_image
    first_header padded
sector_end = refl

sector_known : bucket_image_ends_foreign flash sector ≡ false
unfolding bucket_image_ends_foreign walk_end slot_walk_at slot_at slot_foreign_at slot_foreign_head
    slot_size_for slot_crc16 le_bytes of_le slot_image first_header padded
sector_known = refl

sector_valid : bucket_hdr_valid flash sector 1 ≡ true
unfolding bucket_hdr_valid slot_size_for slot_crc16 le_bytes of_le slot_image first_header padded
sector_valid = refl

blank_invalid : bucket_hdr_valid flash (padded []) 1 ≡ false
unfolding bucket_hdr_valid padded
blank_invalid = refl

sizes : (slot_size_for flash 1 ≡ 16) × (slot_size_for flash 0 ≡ 16)
unfolding slot_size_for
sizes = (refl, refl)

sector_tail : drop 32 sector ≡ replicate 48 erased
unfolding slot_size_for slot_crc16 le_bytes slot_image first_header padded
sector_tail = refl

sector_clean :
    drop (walk_end flash 80 sector bucket_data_off) sector
    ≡ replicate (80 - walk_end flash 80 sector bucket_data_off) erased
sector_clean = rw (sector_end) sector_tail

ready : Appendable flash nor 4 nor_serves flash-IsCrc (omega arith) (omega arith) one_blob.flash 1
ready = record { known = sector_known; clean = sector_clean }

get_impl-bound_example :
    (get_impl flash nor 4 mount 5 (some 8) one_blob
      ≡ reply (bound flash nor nor_serves mount one_blob 5) 8)
    × (size_impl flash nor 4 mount 5 true one_blob
        ≡ size_reply (bound flash nor nor_serves mount one_blob 5))
    × (exists_impl flash nor 4 mount 5 one_blob
        ≡ is_some (bound flash nor nor_serves mount one_blob 5))
get_impl-bound_example =
    get_impl-bound flash nor 4 nor_serves flash-IsCrc mount one_blob 5 8 (omega arith) refl
      (λ e. absurd (omega arith)) sector_known

update_impl-bound_example :
    ((update_impl flash nor 4 mount 5 (some (3 ∷ [])) one_blob).0 ≡ ok tt)
    × ((j : ℕ)
        → bound flash nor nor_serves mount
            (update_impl flash nor 4 mount 5 (some (3 ∷ [])) one_blob).1
            j
          ≡ (if 5 == j then some (3 ∷ []) else bound flash nor nor_serves mount one_blob j))
update_impl-bound_example =
    update_impl-bound flash nor 4 nor_serves flash-IsCrc (omega arith) (omega arith) (omega arith)
      mount 5 (omega arith) (3 ∷ []) (omega arith) one_blob sector_valid ready
      (omega (arith, sector_end, sizes.0)) refl refl (λ e. absurd (omega arith)) (omega arith)

update_impl-formatted_example :
    ((update_impl flash nor 4 mount 5 (some (3 ∷ [])) blank).0 ≡ ok tt)
    × ((j : ℕ)
        → bound flash nor nor_serves mount
            (update_impl flash nor 4 mount 5 (some (3 ∷ [])) blank).1
            j
          ≡ (if 5 == j then some (3 ∷ []) else bound flash nor nor_serves mount blank j))
update_impl-formatted_example =
    update_impl-formatted flash nor 4 nor_serves flash-IsCrc (omega arith) (omega arith) wide32
      (omega arith) mount 5 (omega arith) (omega arith) (3 ∷ []) (omega arith) blank blank_invalid
      (omega (arith, sizes.0)) refl refl (λ e. absurd (omega arith)) (omega arith)

delete_impl-bound_example :
    Deleted flash nor 4 nor_serves flash-IsCrc
      (omega arith)
      (omega arith)
      (omega arith)
      mount
      5
      (omega arith)
      one_blob
      (bound flash nor nor_serves mount one_blob 5)
delete_impl-bound_example =
    delete_impl-bound flash nor 4 nor_serves flash-IsCrc (omega arith) (omega arith) (omega arith)
      mount 5 (omega arith) one_blob refl refl (λ e. absurd (omega arith)) sector_known
      (omega (arith, sector_end, sizes.1)) sector_clean

-- the same sector in a RAM whose backend may fail
abbrev kept_blob : Core ram
kept_blob = record { flash = λ s. sector; wedged = false }

compact_bucket-Bound_example :
    Bound flash ram ram_keeps wide32 1
      (omega arith)
      (omega arith)
      sector
      (compact_bucket flash ram 1 kept_blob).1.flash
compact_bucket-Bound_example =
    compact_bucket-Bound flash ram ram_keeps wide32 1 (omega arith) (omega arith) kept_blob
      seal_fits (length-padded (first_header flash 1 ++ slot_image flash 5 0 (1 ∷ 2 ∷ [])))
