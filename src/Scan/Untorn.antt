-- ===== src/Scan/Untorn.antt =====
-- The walk over flash of a log that ends where erased flash begins: it reports no torn slot.
use key_value_db.Base.{
  ℕ, zero, suc, ◌+◌, ◌-◌, ◌≤◌, ◌≡◌, refl, ap, ◌∙◌, inl, inr, Bool, true, false, not, ◌&&◌, Option,
  none, some, List, [], ◌++◌, arith, ltb, ◌==◌, if◌then◌else◌, Bool-cases, Option-cases, length,
  take, drop, replicate, of_le, is_ebadmsg, Result, ok, err, Result-cases,
}
use key_value_db.BucketLog.{
  Geometry, slot_overhead, slot_walk_at, slot_foreign_head, walk_end, erased, bucket_data_off,
  is_tombstone,
}
use key_value_db.BucketLog.Walk.{Slot-cases}
use key_value_db.BucketLog.Parse.{slot_at-bounds}
use key_value_db.Compaction.Window.{take-replicate}
use key_value_db.Scan.{
  BucketScan, Head, halt, head_flags, stop_at, slot_crc_ok_on_flash, round_at, scan_round,
  scan_from, scan_bucket_for, slot_verify, walk_below, walk_live_slot,
}
use key_value_db.Scan.Reads.{head_at, scan_round-some}

-- what a walk reports is not a torn slot
abbrev pub Untorn : Result BucketScan → Type 0
Untorn (err e) = Unit {0}
Untorn (ok sc) = sc.tail_torn ≡ false

-- what a lookup has found: a log with no torn slot at its end, in which it passed by no foreign slot
abbrev pub Clean : Result (BucketScan × List ℕ) → Type 0
Clean (err e) = Unit {0}
Clean (ok (sc, dst)) = (sc.foreign ≡ false) × (sc.tail_torn ≡ false)

module _ (g : Geometry) (read : ℕ → ℕ → Result (List ℕ)) (buf : List ℕ)
    (full : length buf ≡ g.peb_size)
    (reads : (off n : ℕ) → off + n ≤ g.peb_size → read off n ≡ ok (take n (drop off buf)))
    (crc_nil : (c : ℕ) → g.crc16 c [] ≡ c)
    (crc_append : (c : ℕ) (xs ys : List ℕ) → g.crc16 c (xs ++ ys) ≡ g.crc16 (g.crc16 c xs) ys) where
  stop_at-Untorn :
      (sh : Head) (t : Option Head)
      → (head_flags sh == erased) ≡ true
      → Untorn (stop_at g read sh t)
  unfolding stop_at
  stop_at-Untorn sh t e =
      go (if slot_foreign_head g sh.bytes sh.off then slot_crc_ok_on_flash g read sh else ok false)
    where
      go :
          (r : Result Bool)
          → Untorn (elim r as (λ _. Result BucketScan) [
            | err e ↦ err e
            | ok foreign ↦ ok record {
              write_cursor = sh.off;
              target = t;
              tail_torn = not foreign && not (head_flags sh == erased);
              foreign = foreign;
            }
          ])
      go (err x) = tt
      go (ok true) = refl
      go (ok false) = rw (e) refl

  scan_round-Untorn :
      (id limit cur : ℕ) (t : Option Head)
      → drop cur buf ≡ replicate (g.peb_size - cur) erased
      → (r : Result BucketScan) × (scan_round g read id limit cur t ≡ halt r) × Untorn r
  unfolding scan_round round_at of_le
  scan_round-Untorn id limit cur t clean =
      elim (Bool-cases (ltb g.peb_size (cur + slot_overhead))) [
        | inl e ↦
            let r : Result BucketScan =
              ok record { write_cursor = cur; target = t; tail_torn = false; foreign = false } in
            (r, rw (scan_round, e) refl, refl)
        | inr e ↦
            let there : take 12 (drop cur buf) ≡ replicate 12 erased =
              ap (take 12) clean ∙ take-replicate 12 (g.peb_size - cur) erased (ground arith) in
            (
              stop_at g read record { off = cur; bytes = replicate 12 erased } t,
              rw (scan_round, e, reads cur 12 (ground arith), there, round_at) refl,
              stop_at-Untorn _ t refl,
            )
      ]

  scan_from-Untorn :
      (k id limit cur : ℕ) (t : Option Head)
      → g.peb_size ≤ cur + k
      → drop (walk_end g k buf cur) buf ≡ replicate (g.peb_size - walk_end g k buf cur) erased
      → Untorn (scan_from g read k id limit cur t)
  unfolding scan_from walk_end slot_walk_at
  scan_from-Untorn zero id limit cur t h clean = refl
  scan_from-Untorn (suc k) id limit cur t h clean = elim (Slot-cases g cur (drop cur buf)) [
    | inl e ↦
        let here : walk_end g (suc k) buf cur ≡ cur = rw (walk_end, slot_walk_at, e) refl in
        let (r, s, u) = scan_round-Untorn id limit cur t (rw (here) at clean) in rw (scan_from, s) u
    | inr (sv, intact, e) ↦
        let s =
          scan_round-some g read buf full reads crc_nil crc_append id limit cur t sv intact e in
        let on : walk_end g (suc k) buf cur ≡ walk_end g k buf (cur + sv.total_size) =
          rw (walk_end, slot_walk_at, e) refl in
        let b = slot_at-bounds g cur (drop cur buf) sv intact e in
        let t' = if sv.id == id && ltb cur limit then some (head_at buf cur) else t in
        rw (scan_from, s)
          (scan_from-Untorn k id limit (cur + sv.total_size) t' (omega arith) (rw (on) at clean))
  ]

  -- A log whose end is followed by erased flash only is not torn.
  pub scan_bucket_for-Untorn :
      (id limit : ℕ)
      → drop (walk_end g g.peb_size buf bucket_data_off) buf
        ≡ replicate (g.peb_size - walk_end g g.peb_size buf bucket_data_off) erased
      → Untorn (scan_bucket_for g read id limit)
  unfolding scan_bucket_for
  scan_bucket_for-Untorn id limit clean =
      scan_from-Untorn g.peb_size id limit bucket_data_off none (omega arith) clean

  walk_below-Clean :
      (k id limit : ℕ)
      → drop (walk_end g g.peb_size buf bucket_data_off) buf
        ≡ replicate (g.peb_size - walk_end g g.peb_size buf bucket_data_off) erased
      → Clean (walk_below g read k id limit)
  unfolding walk_below
  walk_below-Clean zero id limit clean = tt
  walk_below-Clean (suc k) id limit clean = elim (Result-cases (scan_bucket_for g read id limit)) [
    | inr (e, s) ↦ rw (walk_below, s) tt
    | inl (sc, s) ↦ elim (Bool-cases sc.foreign) [
      | inl f ↦ rw (walk_below, s, f) tt
      | inr f ↦ elim (Option-cases sc.target) [
        | inl t ↦ rw (walk_below, s, f, t) tt
        | inr (sh, t) ↦ elim (Result-cases (slot_verify g read sh)) [
          | inr (e, v) ↦ elim (Bool-cases (is_ebadmsg e)) [
            | inl x ↦ rw (walk_below, s, f, t, v, x) (walk_below-Clean k id sh.off clean)
            | inr x ↦ rw (walk_below, s, f, t, v, x) tt
          ]
          | inl (dst, v) ↦ elim (Bool-cases (is_tombstone (head_flags sh))) [
            | inl x ↦ rw (walk_below, s, f, t, v, x) tt
            | inr x ↦
                let untorn : Untorn (scan_bucket_for g read id limit) =
                  scan_bucket_for-Untorn id limit clean in
                rw (walk_below, s, f, t, v, x) (f, rw (s) at untorn)
          ]
        ]
      ]
    ]
  ]

  pub walk_live_slot-Clean :
      (id : ℕ)
      → drop (walk_end g g.peb_size buf bucket_data_off) buf
        ≡ replicate (g.peb_size - walk_end g g.peb_size buf bucket_data_off) erased
      → Clean (walk_live_slot g read id)
  unfolding walk_live_slot
  walk_live_slot-Clean id clean = walk_below-Clean (suc g.peb_size) id g.peb_size clean
