-- ===== src/Scan/Reads.antt =====
-- One round of the walk over flash, where every read returns the bytes of the sector.
use key_value_db.Base.{
  ℕ, zero, suc, ◌+◌, ◌-◌, ◌≤◌, ◌<◌, min, ◌≡◌, refl, sym, ap, ◌∙◌, inl, inr, Bool, true, false, not,
  ◌&&◌, Option, none, some, List, [], ◌∷◌, ◌++◌, arith, ltb, ◌==◌, if◌then◌else◌, Bool-cases,
  length, take, drop, length-drop, drop-drop, int_at, ebadmsg, Result, ok, err,
}
use mathlib.Core.List.{append-nil}
use key_value_db.BucketLog.{
  Geometry, Slot, slot_overhead, slot_at, slot_crc16, slot_foreign_head, slot_foreign_at, erased,
}
use key_value_db.BucketLog.Parse.{slot_size-ge, slot_at-bounds, slot_at-intact, take-drop-take}
use key_value_db.BucketLog.Move.{take-add}
use key_value_db.Scan.{
  Head, halt, next, head_flags, crc_chunks, slot_crc_ok_on_flash, stop_at, round_at, scan_round,
  slot_verify, unsized,
}

-- the header that a walk reads at `off`
abbrev pub head_at : List ℕ → ℕ → Head
head_at buf off = record { off = off; bytes = take 12 (drop off buf) }

module _ (g : Geometry) (read : ℕ → ℕ → Result (List ℕ)) (buf : List ℕ)
    (full : length buf ≡ g.peb_size)
    (reads : (off n : ℕ) → off + n ≤ g.peb_size → read off n ≡ ok (take n (drop off buf)))
    (crc_nil : (c : ℕ) → g.crc16 c [] ≡ c)
    (crc_append : (c : ℕ) (xs ys : List ℕ) → g.crc16 c (xs ++ ys) ≡ g.crc16 (g.crc16 c xs) ys) where
  -- Streamed in chunks, a CRC is the CRC of all of the bytes.
  crc_chunks_lem :
      (k pos left c : ℕ)
      → left ≤ k
      → pos + left ≤ g.peb_size
      → crc_chunks g read k pos left c ≡ ok (g.crc16 c (take left (drop pos buf)))
  unfolding crc_chunks
  crc_chunks_lem zero pos left c h l =
      let e : left ≡ 0 = omega arith in rw e (ap ok (sym (crc_nil c)))
  crc_chunks_lem (suc k) pos left c h l = elim (Bool-cases (left == 0)) [
    | inl e ↦ let z : left ≡ 0 = ground arith in rw z (ap ok (sym (crc_nil c)))
    | inr e ↦
        let m = min left 64 in
        let split : left ≡ min left 64 + (left - min left 64) = omega arith in
        let pos_left : 0 < left = ground arith in
        rw (e, reads pos m (omega arith))
          (crc_chunks_lem k (pos + m) (left - m) (g.crc16 c (take m (drop pos buf))) (omega arith)
              (omega arith)
            ∙ ap ok (
                sym (
                  ap (λ n. g.crc16 c (take n (drop pos buf))) split
                  ∙ ap (g.crc16 c) (take-add m (left - m) (drop pos buf))
                  ∙ crc_append c (take m (drop pos buf)) (take (left - m) (drop m (drop pos buf)))
                  ∙ ap (λ b. g.crc16 (g.crc16 c (take m (drop pos buf))) (take (left - m) b))
                      (drop-drop m pos buf ∙ ap (λ n. drop n buf) {y = pos + m} (omega arith)))))
  ]

  crc_all :
      (hdr id payload : List ℕ)
      → slot_crc16 g hdr id payload ≡ g.crc16 (g.crc16 (g.crc16 0xffff hdr) id) payload
  unfolding slot_crc16
  crc_all hdr id [] = sym (crc_nil _)
  crc_all hdr id (b ∷ bs) = ground arith

  -- The header read at `off` has the fields that stand there.
  pub head_int :
      (n k off : ℕ)
      → k + n ≤ 12
      → off + 12 ≤ g.peb_size
      → take n (drop k (take 12 (drop off buf))) ≡ take n (drop k (drop off buf))
  head_int n k off h l =
      ap (λ b. take n (drop k b)) (sym (append-nil (take 12 (drop off buf))))
      ∙ take-drop-take n k 12 (drop off buf) [] h (omega (arith, length-drop off buf))

  -- The streamed check of a slot is the check of its bytes.
  crc_ok :
      (off : ℕ)
      → off + slot_overhead + int_at 2 (drop off buf) 2 ≤ g.peb_size
      → slot_crc_ok_on_flash g read (head_at buf off)
        ≡ ok (
            slot_crc16 g
              (take 4 (drop off buf))
              (take 8 (drop 4 (drop off buf)))
              (take (int_at 2 (drop off buf) 2) (drop 12 (drop off buf)))
            == int_at 2 (drop off buf) (12 + int_at 2 (drop off buf) 2))
  unfolding slot_crc_ok_on_flash
  crc_ok off l =
      let v = int_at 2 (drop off buf) 2 in
      let h2 = head_int 2 2 off (omega arith) (omega arith) in
      rw
        (
          slot_crc_ok_on_flash,
          h2,
          head_int 4 0 off (omega arith) (omega arith),
          head_int 8 4 off (omega arith) (omega arith),
          crc_chunks_lem v (off + 12) v
              (g.crc16 (g.crc16 0xffff (take 4 (drop off buf))) (take 8 (drop 4 (drop off buf))))
              (omega arith) (omega arith),
          h2,
          reads (off + 12 + v) 2 (omega arith),
          crc_all (take 4 (drop off buf)) (take 8 (drop 4 (drop off buf)))
              (take v (drop 12 (drop off buf))),
          drop-drop 12 off buf,
          drop-drop (12 + v) off buf ∙ ap (λ n. drop n buf) {y = off + 12 + v} (omega arith),
        )
        refl

  -- A slot that can be sized is stepped over, and is the target where it is the one sought.
  pub scan_round-some :
      (id limit off : ℕ) (t : Option Head) (sv : Slot) (intact : Bool)
      → slot_at g off (drop off buf) ≡ some (sv, intact)
      → scan_round g read id limit off t
        ≡ next
            (off + sv.total_size)
            (if sv.id == id && ltb off limit then some (head_at buf off) else t)
  unfolding scan_round round_at slot_at
  scan_round-some id limit off t sv intact h =
      let b = slot_at-bounds g off (drop off buf) sv intact h in
      rw
        (
          reads off 12 (omega arith),
          head_int 1 0 off (omega arith) (omega arith),
          head_int 2 2 off (omega arith) (omega arith),
          head_int 8 4 off (omega arith) (omega arith),
        )
        (ground arith)

  payload_ok :
      (off v : ℕ)
      → off + 12 + v ≤ g.peb_size
      → (if ltb 0 v then read (off + 12) v else ok []) ≡ ok (take v (drop (off + 12) buf))
  payload_ok off v l = elim (Bool-cases (ltb 0 v)) [
    | inl e ↦ rw e (reads (off + 12) v l)
    | inr e ↦ let z : v ≡ 0 = ground arith in rw (e, z) refl
  ]

  -- The payload is handed out where the CRC verifies.
  pub slot_verify_lem :
      (off : ℕ) (sv : Slot) (intact : Bool)
      → slot_at g off (drop off buf) ≡ some (sv, intact)
      → slot_verify g read (head_at buf off)
        ≡ (if intact then ok (take sv.val_len (drop 12 (drop off buf))) else err ebadmsg)
  unfolding slot_verify
  slot_verify_lem off sv intact h =
      let b = slot_at-bounds g off (drop off buf) sv intact h in
      let v = int_at 2 (drop off buf) 2 in
      let h2 = head_int 2 2 off (omega arith) (omega arith) in
      let vl : sv.val_len ≡ int_at 2 (drop off buf) 2 = b.3 in
      rw
        (
          slot_verify,
          vl,
          h2,
          payload_ok off v (omega arith),
          h2,
          reads (off + 12 + v) 2 (omega arith),
          head_int 4 0 off (omega arith) (omega arith),
          head_int 8 4 off (omega arith) (omega arith),
          drop-drop 12 off buf,
          slot_at-intact g off (drop off buf) sv intact h,
          drop-drop 12 off buf,
          drop-drop (12 + v) off buf ∙ ap (λ n. drop n buf) {y = off + 12 + v} (omega arith),
        )
        refl

  head_foreign :
      (off : ℕ)
      → off + 12 ≤ g.peb_size
      → slot_foreign_head g (take 12 (drop off buf)) off ≡ slot_foreign_head g (drop off buf) off
  unfolding slot_foreign_head
  head_foreign off l = rw (head_int 1 0 off (omega arith) l, head_int 2 2 off (omega arith) l) refl

  foreign_size :
      (off : ℕ)
      → slot_foreign_head g (drop off buf) off ≡ true
      → off + slot_overhead + int_at 2 (drop off buf) 2 ≤ g.peb_size
  unfolding slot_foreign_head
  foreign_size off h = let size = slot_size-ge g (int_at 2 (drop off buf) 2) in ground arith

  -- whether the slot where a walk stops is foreign
  foreign_ok :
      (off : ℕ) (t : Option Head)
      → off + slot_overhead ≤ g.peb_size
      → (torn : Bool) × (stop_at g read (head_at buf off) t
          ≡ ok record {
            write_cursor = off;
            target = t;
            tail_torn = torn;
            foreign = slot_foreign_at g buf off;
          })
  unfolding stop_at slot_foreign_at
  foreign_ok off t l = elim (Bool-cases (slot_foreign_head g (drop off buf) off)) [
    | inl e ↦
        let full_slot = foreign_size off e in
        let inside : ltb g.peb_size (off + slot_overhead) ≡ false = ground arith in
        (
          not (slot_foreign_at g buf off) && not (head_flags (head_at buf off) == erased),
          rw (stop_at, head_foreign off (omega arith), e, crc_ok off full_slot, inside) refl,
        )
    | inr e ↦
        let inside : ltb g.peb_size (off + slot_overhead) ≡ false = ground arith in
        (
          not (slot_foreign_at g buf off) && not (head_flags (head_at buf off) == erased),
          rw (stop_at, head_foreign off (omega arith), e, inside) refl,
        )
  ]

  round_stop :
      (id limit off : ℕ) (t : Option Head)
      → off + slot_overhead ≤ g.peb_size
      → unsized g read (head_at buf off) ≡ true
      → scan_round g read id limit off t ≡ halt (stop_at g read (head_at buf off) t)
  unfolding scan_round round_at
  round_stop id limit off t l u =
      let e : ltb g.peb_size (off + slot_overhead) ≡ false = ground arith in
      rw (e, reads off 12 (omega arith), u) refl

  -- a header of known flags whose slot is cut off by the end of the sector
  round_cut :
      (id limit off : ℕ) (t : Option Head)
      → off + slot_overhead ≤ g.peb_size
      → unsized g read (head_at buf off) ≡ false
      → slot_at g off (drop off buf) ≡ none
      → (scan_round g read id limit off t
          ≡ halt (ok record { write_cursor = off; target = t; tail_torn = true; foreign = false }))
        × (slot_foreign_at g buf off ≡ false)
  unfolding scan_round round_at slot_at slot_foreign_at slot_foreign_head
  round_cut id limit off t l u h =
      let e : ltb g.peb_size (off + slot_overhead) ≡ false = ground arith in
      let h1 = head_int 1 0 off (omega arith) (omega arith) in
      let h2 = head_int 2 2 off (omega arith) (omega arith) in
      (rw (e, reads off 12 (omega arith), u, h2) (ground (arith, h1, h2)), ground (arith, h1, h2))

  past_end :
      (id limit off : ℕ) (t : Option Head)
      → ltb g.peb_size (off + slot_overhead) ≡ true
      → (torn : Bool) × (scan_round g read id limit off t
          ≡ halt (
              ok record {
                write_cursor = off;
                target = t;
                tail_torn = torn;
                foreign = slot_foreign_at g buf off;
              }))
  unfolding scan_round slot_foreign_at
  past_end id limit off t e = (false, rw e refl)

  -- Where no slot can be sized the walk stops, with what it has found.
  pub scan_round-none :
      (id limit off : ℕ) (t : Option Head)
      → slot_at g off (drop off buf) ≡ none
      → (torn : Bool) × (scan_round g read id limit off t
          ≡ halt (
              ok record {
                write_cursor = off;
                target = t;
                tail_torn = torn;
                foreign = slot_foreign_at g buf off;
              }))
  scan_round-none id limit off t h = elim (Bool-cases (ltb g.peb_size (off + slot_overhead))) [
    | inl e ↦ past_end id limit off t e
    | inr e ↦
        let l : off + slot_overhead ≤ g.peb_size = ground arith in
        elim (Bool-cases (unsized g read (head_at buf off))) [
          | inl u ↦
              let (torn, s) = foreign_ok off t l in
              (torn, round_stop id limit off t l u ∙ ap halt s)
          | inr u ↦ let (s, f) = round_cut id limit off t l u h in (true, rw f s)
        ]
  ]
