-- ===== src/Point/Nor.antt =====
-- Flash that does not fail, and what a bucket of it binds an id to.
use key_value_db.Base.{
  ℕ, zero, suc, ◌+◌, ◌^◌, ◌≤◌, ◌<◌, ◌≡◌, refl, sym, ap, ◌∙◌, ◌≢◌, ◌&&◌, Option, none, List, [], ◌∷◌,
  ◌++◌, arith, ◌==◌, if◌then◌else◌, length, take, drop, replicate, length-take, length-drop,
  drop-append, take-append, of_le, int_at, ok,
}
use key_value_db.BucketLog.{Geometry, erased, bucket_data_off}
use key_value_db.BucketLog.Header.{bucket_hdr_valid, starts}
use key_value_db.BucketLog.Walk.{live}
use key_value_db.BucketLog.Rebuild.{log}
use key_value_db.Append.Live.{program}
use key_value_db.Compaction.{Sector, bucket, Backend, Core}
use key_value_db.Point.{Mount, id_to_bucket}

-- A store backend whose operations succeed: reads within a sector return its bytes, and a write
-- over erased bytes programs them.
pub record Nor (g : Geometry) (b : Backend) : Type 0 where
  pub view : b.Flash → Sector → List ℕ
  pub full : (f : b.Flash) (s : Sector) → length (view f s) ≡ g.peb_size
  pub read_ok :
      (f : b.Flash) (s : Sector) (off n : ℕ)
      → off + n ≤ g.peb_size
      → b.read f s off n ≡ ok (take n (drop off (view f s)))
  pub erase_ok :
      (s : Sector) (f : b.Flash)
      → ((b.erase s f).0 ≡ ok tt) × (view (b.erase s f).1 s ≡ replicate g.peb_size erased)
  pub write_ok :
      (s : Sector) (off : ℕ) (bs : List ℕ) (f : b.Flash)
      → off + length bs ≤ g.peb_size
      → take (length bs) (drop off (view f s)) ≡ replicate (length bs) erased
      → ((b.write s off bs f).0 ≡ ok tt)
        × (view (b.write s off bs f).1 s ≡ program off bs (view f s))
  pub replace_ok :
      (s : Sector) (bs : List ℕ) (f : b.Flash)
      → length bs ≤ g.peb_size
      → ((b.replace s bs f).0 ≡ ok tt)
        × (view (b.replace s bs f).1 s ≡ program 0 bs (replicate g.peb_size erased))
  pub erase_elsewhere : (s t : Sector) (f : b.Flash) → s ≢ t → view (b.erase s f).1 t ≡ view f t
  pub write_elsewhere :
      (s t : Sector) (off : ℕ) (bs : List ℕ) (f : b.Flash)
      → s ≢ t
      → view (b.write s off bs f).1 t ≡ view f t
  pub replace_elsewhere :
      (s t : Sector) (bs : List ℕ) (f : b.Flash) → s ≢ t → view (b.replace s bs f).1 t ≡ view f t

-- The laws of crc16_ccitt that the lookup relies on.
pub record IsCrc (g : Geometry) : Type 0 where
  pub crc_nil : (c : ℕ) → g.crc16 c [] ≡ c
  pub crc_append : (c : ℕ) (xs ys : List ℕ) → g.crc16 c (xs ++ ys) ≡ g.crc16 (g.crc16 c xs) ys
  pub crc_fits : (c : ℕ) (bs : List ℕ) → c < 2 ^ 16 → g.crc16 c bs < 2 ^ 16

-- What a sector binds an id to: nothing while its header is not the bucket's.
unfoldable pub bound_in : Geometry → ℕ → List ℕ → ℕ → Option (List ℕ)
bound_in g bid buf id = if bucket_hdr_valid g buf bid then live (log g buf) id else none

module _ (g : Geometry) (b : Backend) (k : Nor g b) where
  abbrev pub sector_of : Core b → ℕ → List ℕ
  sector_of c bid = k.view c.flash (bucket bid)

  -- what the store binds an id to
  abbrev pub bound : Mount → Core b → ℕ → Option (List ℕ)
  bound st c id = bound_in g (id_to_bucket st id) (sector_of c (id_to_bucket st id)) id

-- The header is the first 16 bytes.
pub starts-append :
    (ms bs rest : List ℕ) → length ms ≤ length bs → starts ms (bs ++ rest) ≡ starts ms bs
starts-append [] bs rest h = refl
starts-append (m ∷ ms) [] rest h = absurd (omega arith)
starts-append (m ∷ ms) (b ∷ bs) rest h =
    ap (λ t. m == b && t) (starts-append ms bs rest (omega arith))

pub int_at-append :
    (n : ℕ) (bs rest : List ℕ) (off : ℕ)
    → off + n ≤ length bs
    → int_at n (bs ++ rest) off ≡ int_at n bs off
int_at-append n bs rest off h = ap of_le (
    ap (take n) (drop-append off bs rest (omega arith))
    ∙ take-append n (drop off bs) rest (omega (arith, length-drop off bs)))

pub take-drop_append : (n : ℕ) (bs : List ℕ) → take n bs ++ drop n bs ≡ bs
take-drop_append zero bs = refl
take-drop_append (suc n) [] = refl
take-drop_append (suc n) (b ∷ bs) = ap (λ l. b ∷ l) (take-drop_append n bs)

bucket_hdr_valid-append :
    (g : Geometry) (head rest : List ℕ) (bid : ℕ)
    → length head ≡ 16
    → bucket_hdr_valid g (head ++ rest) bid ≡ bucket_hdr_valid g head bid
unfolding bucket_hdr_valid
bucket_hdr_valid-append g head rest bid l =
    rw
      (
        starts-append (b'B' ∷ b'D' ∷ b'B' ∷ b'H' ∷ []) head rest (omega arith),
        int_at-append 4 head rest 12 (omega arith),
        take-append 12 head rest (omega arith),
        int_at-append 2 head rest 4 (omega arith),
      )
      refl

pub bucket_hdr_valid-take :
    (g : Geometry) (buf : List ℕ) (bid : ℕ)
    → bucket_data_off ≤ length buf
    → bucket_hdr_valid g (take bucket_data_off buf) bid ≡ bucket_hdr_valid g buf bid
bucket_hdr_valid-take g buf bid h =
    let head = take bucket_data_off buf in
    let rest = drop bucket_data_off buf in
    let l : length head ≡ 16 = omega (arith, length-take bucket_data_off buf) in
    sym (bucket_hdr_valid-append g head rest bid l)
    ∙ ap (λ bs. bucket_hdr_valid g bs bid) (take-drop_append bucket_data_off buf)
