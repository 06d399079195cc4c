-- ===== src/Samples.antt =====
-- Concrete buckets on which the theorems about blob_db.c are applied.
use key_value_db.Base.{
  ℕ, ◌+◌, ◌-◌, ◌%◌, ◌^◌, ◌≤◌, ◌<◌, ◌≡◌, refl, sym, ap, ◌∙◌, inl, inr, true, false, none, some, List,
  [], ◌∷◌, ◌++◌, arith, leb, ◌==◌, if◌then◌else◌, Bool-cases, length, take, drop, replicate,
  le_bytes, of_le, eio, einval, enotsup, Result, ok, err,
}
use key_value_db.BucketLog.{
  Geometry, slot_at, slot_crc16, slot_size_for, slot_walk_at, walk_end, slot_foreign_at,
  slot_foreign_head, bucket_image_ends_foreign, build_compacted_image, erased,
}
use key_value_db.BucketLog.Walk.{live, parse}
use key_value_db.BucketLog.Rebuild.{
  log, compacted_sector, compacted_sector-live, build_compacted_image-tail,
}
use key_value_db.Scan.{walk_live_slot}
use key_value_db.Scan.Find.{Answers, walk_live_slot-live, walk_live_slot-foreign}
use key_value_db.Iterate.{Visitor, for_each_live_slot, count_impl, iterate_impl, count_visitor}
use key_value_db.Iterate.Visit.{
  find_blob, visit_all, blobs_from, for_each_live_slot-live, count_impl-blobs, iterate_impl-blobs,
}
use key_value_db.Append.{slot_image}
use key_value_db.Append.Live.{program, append-live}

-- a checksum with the laws of crc16_ccitt that the theorems ask for
abbrev pub sum16 : ℕ → List ℕ → ℕ
sum16 c [] = c
sum16 c (b ∷ bs) = sum16 ((c + b) % 65536) bs

pub sum16-append : (c : ℕ) (xs ys : List ℕ) → sum16 c (xs ++ ys) ≡ sum16 (sum16 c xs) ys
sum16-append c [] ys = refl
sum16-append c (x ∷ xs) ys = sum16-append ((c + x) % 65536) xs ys

pub sum16-fits : (c : ℕ) (bs : List ℕ) → c < 2 ^ 16 → sum16 c bs < 2 ^ 16
sum16-fits c [] h = h
sum16-fits c (b ∷ bs) h = sum16-fits ((c + b) % 65536) bs (omega arith)

abbrev pub flash : Geometry
flash = record { peb_size = 80; write_align = 4; max_payload = 8; crc16 = sum16; crc32 = sum16 0 }

abbrev header : List ℕ
header = replicate 16 7

-- id 5 bound to 1 and then to 2 3, and room for one slot more
abbrev bucket : List ℕ
bucket =
    header
    ++ (slot_image flash 5 0 (1 ∷ []) ++ (slot_image flash 5 0 (2 ∷ 3 ∷ []) ++ replicate 32 erased))

-- a slot with flag 4, which is not known, behind the first
abbrev closed_bucket : List ℕ
closed_bucket =
    header
    ++ (slot_image flash 5 0 (1 ∷ []) ++ (slot_image flash 5 4 (2 ∷ 3 ∷ []) ++ replicate 32 erased))

abbrev read_of : List ℕ → ℕ → ℕ → Result (List ℕ)
read_of buf off n = if leb (off + n) 80 then ok (take n (drop off buf)) else err einval

reads_of :
    (buf : List ℕ) (off n : ℕ) → off + n ≤ 80 → read_of buf off n ≡ ok (take n (drop off buf))
reads_of buf off n h = let e : leb (off + n) 80 ≡ true = ground arith in rw e refl

bucket_full : length bucket ≡ 80
unfolding slot_image le_bytes slot_crc16 slot_size_for
bucket_full = refl

closed_full : length closed_bucket ≡ 80
unfolding slot_image le_bytes slot_crc16 slot_size_for
closed_full = refl

bucket_open : bucket_image_ends_foreign flash bucket ≡ false
unfolding bucket_image_ends_foreign walk_end slot_walk_at slot_at slot_foreign_at slot_foreign_head
    slot_image le_bytes of_le slot_crc16 slot_size_for
bucket_open = refl

bucket_closed : bucket_image_ends_foreign flash closed_bucket ≡ true
unfolding bucket_image_ends_foreign walk_end slot_walk_at slot_at slot_foreign_at slot_foreign_head
    slot_image le_bytes of_le slot_crc16 slot_size_for
bucket_closed = refl

log_end : walk_end flash 80 bucket 16 ≡ 48
unfolding walk_end slot_walk_at slot_at slot_image le_bytes of_le slot_crc16 slot_size_for
log_end = refl

bucket-live : live (log flash bucket) 5 ≡ some (2 ∷ 3 ∷ [])
unfolding parse slot_at slot_image le_bytes of_le slot_crc16 slot_size_for
bucket-live = refl

walk_live_slot-live_example :
    Answers
      (walk_end flash 80 bucket 16)
      (live (log flash bucket) 5)
      (walk_live_slot flash (read_of bucket) 5)
walk_live_slot-live_example =
    walk_live_slot-live flash (read_of bucket) bucket bucket_full (reads_of bucket) (λ c. refl)
      sum16-append 5 bucket_open

walk_live_slot-foreign_example : walk_live_slot flash (read_of closed_bucket) 5 ≡ err enotsup
walk_live_slot-foreign_example =
    walk_live_slot-foreign flash (read_of closed_bucket) closed_bucket closed_full
      (reads_of closed_bucket) (λ c. refl) sum16-append 5 bucket_closed

compacted_sector-live_example :
    live (log flash (compacted_sector flash bucket 3)) 5 ≡ live (log flash bucket) 5
compacted_sector-live_example = compacted_sector-live flash bucket 3 bucket_full (omega arith) 5

build_compacted_image-tail_example :
    drop (build_compacted_image flash bucket 3).2 (build_compacted_image flash bucket 3).0
    ≡ drop (build_compacted_image flash bucket 3).2 bucket
build_compacted_image-tail_example =
    build_compacted_image-tail flash bucket 3 bucket_full (omega arith)

room_left : walk_end flash 80 bucket 16 + slot_size_for flash 1 ≤ 80
unfolding slot_size_for
room_left = rw log_end (omega arith)

room_erased :
    drop (walk_end flash 80 bucket 16) bucket ≡ replicate (80 - walk_end flash 80 bucket 16) erased
unfolding slot_image le_bytes slot_crc16 slot_size_for
room_erased = rw log_end refl

append-live_example :
    live
      (log flash (program (walk_end flash 80 bucket 16) (slot_image flash 9 0 (4 ∷ [])) bucket))
      9
    ≡ (if 9 == 9 then if false then none else some (4 ∷ []) else live (log flash bucket) 9)
append-live_example =
    append-live flash 9 0 (4 ∷ []) (omega arith) (omega arith) (omega arith) (omega arith)
      sum16-fits bucket bucket_full (omega arith) room_left room_erased 9

for_each_live_slot-live_example :
    (bs : List (ℕ × List ℕ)) × ((U : Type 0) (cb : Visitor U) (u : U)
      → for_each_live_slot flash cb bucket u ≡ visit_all cb bs u)
    × ((j : ℕ) → find_blob j bs ≡ live (log flash bucket) j)
for_each_live_slot-live_example = for_each_live_slot-live flash bucket bucket_full

-- bucket 0 holds the sample, and bucket 1 cannot be read
abbrev sectors : ℕ → Result (List ℕ)
sectors bid = if bid == 0 then ok bucket else err eio

sectors_full : (bid : ℕ) (buf : List ℕ) → sectors bid ≡ ok buf → length buf ≡ 80
sectors_full bid buf h = elim (Bool-cases (bid == 0)) [
  | inl e ↦ let same : bucket ≡ buf = ground arith in ap length (sym same) ∙ bucket_full
  | inr e ↦ ground arith
]

sectors_open :
    (bid : ℕ) (buf : List ℕ) → sectors bid ≡ ok buf → bucket_image_ends_foreign flash buf ≡ false
sectors_open bid buf h = elim (Bool-cases (bid == 0)) [
  | inl e ↦
      let same : bucket ≡ buf = ground arith in
      ap (bucket_image_ends_foreign flash) (sym same) ∙ bucket_open
  | inr e ↦ ground arith
]

count_impl-blobs_example : count_impl flash sectors true 2 ≡ length (blobs_from flash sectors 2 0)
count_impl-blobs_example = count_impl-blobs flash sectors sectors_full 2

iterate_impl-blobs_example :
    iterate_impl flash sectors true 2 (some count_visitor) 0
    ≡ visit_all count_visitor (blobs_from flash sectors 2 0) 0
iterate_impl-blobs_example =
    iterate_impl-blobs flash sectors sectors_full sectors_open count_visitor 2 0
