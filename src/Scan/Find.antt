-- ===== src/Scan/Find.antt =====
-- The lookup over flash against the log of the bucket.
use key_value_db.Base.{
  ℕ, zero, suc, ◌+◌, ◌≤◌, ◌<◌, ◌≡◌, refl, sym, ap, ◌∙◌, inl, inr, Bool, true, false, ◌&&◌, Option,
  none, some, List, [], ◌∷◌, ◌++◌, arith, ltb, ◌==◌, if◌then◌else◌, Bool-cases, Option-cases,
  length, take, drop, length-drop, drop-drop, of_le, enoent, enotsup, Result, ok, err,
}
use key_value_db.BucketLog.{
  Geometry, slot_overhead, slot_at, slot_walk_at, walk_end, slot_foreign_at, bucket_data_off,
  is_tombstone, bucket_image_ends_foreign,
}
use key_value_db.BucketLog.Parse.{slot_at-bounds, slot_at-flags, slot_at-payload}
use key_value_db.BucketLog.Walk.{At, Log, payload_of, live, parse, Slot-cases}
use key_value_db.BucketLog.Below.{
  last_below, newest_below, below-none, below-intact, below-rotten, below-all, last_below-Placed,
  parse-Placed,
}
use key_value_db.BucketLog.Rebuild.{log}
use key_value_db.Scan.{
  Head, BucketScan, head_flags, scan_from, scan_bucket_for, walk_below, walk_live_slot,
}
use key_value_db.Scan.Reads.{head_at, scan_round-some, scan_round-none, slot_verify_lem, head_int}

-- the header of the slot that the walk has found, or of the one found before
abbrev or_before : List ℕ → Option At → Option Head → Option Head
or_before buf none t = t
or_before buf (some a) t = some (head_at buf a.off)

-- what the lookup answers where this is the payload that the log holds for the id
abbrev pub Answers : ℕ → Option (List ℕ) → Result (BucketScan × List ℕ) → Type 0
Answers end none r = r ≡ err enoent
Answers end (some p) r = (sc : BucketScan) × (r ≡ ok (sc, p)) × (sc.write_cursor ≡ end)

or_before-cons :
    (buf : List ℕ) (id limit : ℕ) (a : At) (xs : Log) (t : Option Head)
    → or_before buf (last_below id limit (a ∷ xs)) t
      ≡ or_before buf
          (last_below id limit xs)
          (if a.sv.id == id && ltb a.off limit then some (head_at buf a.off) else t)
or_before-cons buf id limit a xs t = ground arith

module _ (g : Geometry) (read : ℕ → ℕ → Result (List ℕ)) (buf : List ℕ)
    (full : length buf ≡ g.peb_size)
    (reads : (off n : ℕ) → off + n ≤ g.peb_size → read off n ≡ ok (take n (drop off buf)))
    (crc_nil : (c : ℕ) → g.crc16 c [] ≡ c)
    (crc_append : (c : ℕ) (xs ys : List ℕ) → g.crc16 c (xs ++ ys) ≡ g.crc16 (g.crc16 c xs) ys) where
  past_end : (off : ℕ) → g.peb_size ≤ off → slot_foreign_at g buf off ≡ false
  unfolding slot_foreign_at
  past_end off h = let e : ltb g.peb_size (off + slot_overhead) ≡ true = ground arith in rw e refl

  -- The walk finds the last slot of the id below the limit, and the end of the log.
  scan_from-last_below :
      (k id limit cur : ℕ) (t : Option Head)
      → g.peb_size ≤ cur + k
      → (torn : Bool) × (scan_from g read k id limit cur t
          ≡ ok record {
            write_cursor = walk_end g k buf cur;
            target = or_before buf (last_below id limit (parse g k cur (drop cur buf))) t;
            tail_torn = torn;
            foreign = slot_foreign_at g buf (walk_end g k buf cur);
          })
  unfolding scan_from parse walk_end slot_walk_at
  scan_from-last_below zero id limit cur t h = (false, rw (past_end cur (omega arith)) refl)
  scan_from-last_below (suc k) id limit cur t h = elim (Slot-cases g cur (drop cur buf)) [
    | inl e ↦
        let (torn, s) = scan_round-none g read buf full reads crc_nil crc_append id limit cur t e in
        (torn, rw (scan_from, s, e, parse, walk_end) refl)
    | inr (sv, intact, e) ↦
        let b = slot_at-bounds g cur (drop cur buf) sv intact e in
        let s =
          scan_round-some g read buf full reads crc_nil crc_append id limit cur t sv intact e in
        let t' = if sv.id == id && ltb cur limit then some (head_at buf cur) else t in
        let (torn, r) = scan_from-last_below k id limit (cur + sv.total_size) t' (omega arith) in
        let a : At = record {
          off = cur;
          sv = sv;
          intact = intact;
          bytes = take sv.total_size (drop cur buf);
        } in
        let xs = parse g k (cur + sv.total_size) (drop (cur + sv.total_size) buf) in
        (
          torn,
          rw
              (
                scan_from,
                s,
                e,
                parse,
                walk_end,
                drop-drop sv.total_size cur buf,
                or_before-cons buf id limit a xs t,
              )
              r,
        )
  ]

  abbrev log_end : ℕ
  log_end = walk_end g g.peb_size buf bucket_data_off

  -- an intact slot that the walk has found
  served :
      (k id limit : ℕ) (a : At) (sc : BucketScan)
      → scan_bucket_for g read id limit ≡ ok sc
      → sc.foreign ≡ false
      → sc.target ≡ some (head_at buf a.off)
      → sc.write_cursor ≡ log_end
      → slot_at g a.off (drop a.off buf) ≡ some (a.sv, a.intact)
      → a.bytes ≡ take a.sv.total_size (drop a.off buf)
      → a.intact ≡ true
      → Answers log_end (payload_of (some a)) (walk_below g read (suc k) id limit)
  unfolding walk_below
  served k id limit a sc s f t w e by i =
      let b = slot_at-bounds g a.off (drop a.off buf) a.sv a.intact e in
      let v = slot_verify_lem g read buf full reads crc_nil crc_append a.off a.sv a.intact e in
      let flags : head_flags (head_at buf a.off) ≡ a.sv.flags =
        ap of_le
          (head_int g read buf full reads crc_nil crc_append 1 0 a.off (omega arith) (omega arith))
        ∙ sym (slot_at-flags g a.off (drop a.off buf) a.sv a.intact e) in
      elim (Bool-cases (is_tombstone a.sv.flags)) [
        | inl d ↦ rw (d, walk_below, s, f, t, v, i, flags, d) refl
        | inr d ↦
            rw
              (
                d,
                walk_below,
                s,
                f,
                t,
                v,
                i,
                flags,
                d,
                by,
                slot_at-payload g a.off (drop a.off buf) a.sv a.intact e
                    (omega (arith, length-drop a.off buf)),
              )
              (sc, refl, w)
      ]

  -- a rotten one
  retried :
      (k id limit : ℕ) (a : At) (sc : BucketScan)
      → scan_bucket_for g read id limit ≡ ok sc
      → sc.foreign ≡ false
      → sc.target ≡ some (head_at buf a.off)
      → slot_at g a.off (drop a.off buf) ≡ some (a.sv, a.intact)
      → a.intact ≡ false
      → walk_below g read (suc k) id limit ≡ walk_below g read k id a.off
  unfolding walk_below
  retried k id limit a sc s f t e i =
      let v = slot_verify_lem g read buf full reads crc_nil crc_append a.off a.sv a.intact e in
      rw (walk_below, s, f, t, v, i) refl

  -- the walk of the whole bucket
  pub scanned :
      (id limit : ℕ)
      → (torn : Bool) × (scan_bucket_for g read id limit
          ≡ ok record {
            write_cursor = log_end;
            target = or_before buf (last_below id limit (log g buf)) none;
            tail_torn = torn;
            foreign = slot_foreign_at g buf log_end;
          })
  unfolding scan_bucket_for
  scanned id limit = scan_from-last_below g.peb_size id limit bucket_data_off none (omega arith)

  answered :
      (k id limit : ℕ)
      → limit < k
      → slot_foreign_at g buf log_end ≡ false
      → Answers log_end
          (payload_of (newest_below id limit (log g buf)))
          (walk_below g read k id limit)
  unfolding walk_below
  answered zero id limit h f = absurd (omega arith)
  answered (suc k) id limit h f =
      let (torn, s) = scanned id limit in
      elim (Option-cases (last_below id limit (log g buf))) [
        | inl e ↦ rw (walk_below, s, f, e, below-none id limit (log g buf) e) refl
        | inr (a, e) ↦
            let p =
              last_below-Placed g buf id limit bucket_data_off (log g buf) a
                (parse-Placed g buf g.peb_size bucket_data_off) e in
            let t : or_before buf (last_below id limit (log g buf)) none
                ≡ some (head_at buf a.off) =
              ap (λ o. or_before buf o none) e in
            elim (Bool-cases a.intact) [
              | inl i ↦
                  rw (below-intact id limit (log g buf) a e i)
                    (served k id limit a _ s f t refl p.2 p.3 i)
              | inr i ↦
                  rw
                    (
                      below-rotten g buf id limit bucket_data_off (log g buf) a
                          (parse-Placed g buf g.peb_size bucket_data_off) e i,
                      retried k id limit a _ s f t p.2 i,
                    )
                    (answered k id a.off (omega (arith, p.1)) f)
            ]
      ]

  -- Over a bucket whose log does not end at a foreign slot, the lookup answers with the payload
  -- that the log holds for the id and the end of the log, or with -ENOENT where it holds none.
  pub walk_live_slot-live :
      (id : ℕ)
      → bucket_image_ends_foreign g buf ≡ false
      → Answers
          (walk_end g g.peb_size buf bucket_data_off)
          (live (log g buf) id)
          (walk_live_slot g read id)
  unfolding walk_live_slot bucket_image_ends_foreign
  walk_live_slot-live id f =
      rw
        (← below-all g buf id bucket_data_off (log g buf)
          (parse-Placed g buf g.peb_size bucket_data_off))
        (answered (suc g.peb_size) id g.peb_size (omega arith) f)

  -- Over a bucket whose log ends at a foreign slot, no lookup is answered.
  pub walk_live_slot-foreign :
      (id : ℕ) → bucket_image_ends_foreign g buf ≡ true → walk_live_slot g read id ≡ err enotsup
  unfolding walk_live_slot walk_below bucket_image_ends_foreign
  walk_live_slot-foreign id f =
      let (torn, s) = scanned id g.peb_size in rw (walk_live_slot, walk_below, s, f) refl
