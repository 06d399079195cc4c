-- ===== src/BucketLog/Compact.antt =====
-- The in-place rewrite of build_compacted_image: what it leaves in the buffer.
use key_value_db.Base.{
  ℕ, zero, suc, ◌+◌, ◌-◌, ◌≤◌, ◌≡◌, refl, sym, ap, ◌∙◌, inl, inr, Bool, true, false, not, ◌&&◌,
  List, [], ◌∷◌, ◌++◌, arith, ◌==◌, Bool-cases, length, take, drop, length-append, length-take,
  length-drop, drop-drop,
}
use mathlib.Core.List.{append_assoc, append-nil}
use key_value_db.BucketLog.{
  Geometry, Slot, is_tombstone, memmove, slot_superseded, kept, compact_from,
}
use key_value_db.BucketLog.Parse.{slot_at-bounds}
use key_value_db.BucketLog.Walk.{
  At, Log, later, keep, bytes_of, parse, parse-fuel, Slot-cases, superseded-later,
}
use key_value_db.BucketLog.Move.{take-add, take-memmove, drop-memmove, length-memmove}

module _ (g : Geometry) where
  -- What the loop leaves, started at `buf` with these cursors, on a log `xs` from there on.
  pub record Compacted (buf : List ℕ) (new cur : ℕ) (xs : Log) (r : List ℕ × ℕ × ℕ) : Type 0 where
    pub front : take r.1 r.0 ≡ take new buf ++ bytes_of (keep xs)
    pub len : r.1 ≡ new + length (bytes_of (keep xs))
    pub behind : drop r.2 r.0 ≡ drop r.2 buf
    pub below : r.1 ≤ r.2
    pub past : cur ≤ r.2
    pub within : cur ≤ length buf → r.2 ≤ length buf
    pub whole : length r.0 ≡ length buf

  pub kept-keep :
      (k : ℕ) (buf : List ℕ) (cur : ℕ) (sv : Slot) (intact : Bool)
      → g.peb_size ≤ cur + sv.total_size + k
      → kept g buf cur sv intact ≡ (
          intact
          && not (is_tombstone sv.flags)
          && not (later (parse g k (cur + sv.total_size) (drop (cur + sv.total_size) buf)) sv.id))
  unfolding kept slot_superseded
  kept-keep k buf cur sv intact h =
      ap (λ b. intact && not (is_tombstone sv.flags) && not b)
        (superseded-later g g.peb_size buf (cur + sv.total_size) sv.id
          ∙ ap (λ l. later l sv.id)
              (parse-fuel g g.peb_size k (cur + sv.total_size) (drop (cur + sv.total_size) buf)
                (omega arith) h))

  -- one round of the loop in front of the rest
  step :
      (buf buf' : List ℕ) (new new' cur : ℕ) (sv : Slot) (xs : Log) (front : List ℕ)
      (r : List ℕ × ℕ × ℕ)
      → take new' buf' ≡ take new buf ++ front
      → new' ≡ new + length front
      → drop (cur + sv.total_size) buf' ≡ drop (cur + sv.total_size) buf
      → length buf' ≡ length buf
      → Compacted buf' new' (cur + sv.total_size) xs r
      → (take r.1 r.0 ≡ take new buf ++ (front ++ bytes_of (keep xs)))
        × (r.1 ≡ new + length (front ++ bytes_of (keep xs)))
        × (drop r.2 r.0 ≡ drop r.2 buf)
        × (length r.0 ≡ length buf)
  step buf buf' new new' cur sv xs front r f n d l c = (
    c.front ∙ (rw f (append_assoc (take new buf) front (bytes_of (keep xs)))),
    omega (arith, c.len, length-append front (bytes_of (keep xs))),
    c.behind ∙ past,
    c.whole ∙ l,
  )
    where
      past : drop r.2 buf' ≡ drop r.2 buf
      past =
          let gap = r.2 - (cur + sv.total_size) in
          let e : r.2 ≡ cur + sv.total_size + (r.2 - (cur + sv.total_size)) =
            omega (arith, c.past) in
          rw (
            e,
            ← drop-drop gap (cur + sv.total_size) buf',
            d,
            drop-drop gap (cur + sv.total_size) buf,
          )

  done : (buf : List ℕ) (new cur : ℕ) → new ≤ cur → Compacted buf new cur [] (buf, new, cur)
  done buf new cur le = record {
    front = sym (append-nil (take new buf));
    len = omega arith;
    behind = refl;
    below = le;
    past = omega arith;
    within = λ h. h;
    whole = refl;
  }

  abbrev at : ℕ → List ℕ → Slot → Bool → At
  at cur buf sv intact = record {
    off = cur;
    sv = sv;
    intact = intact;
    bytes = take sv.total_size (drop cur buf);
  }

  kept_round :
      (buf buf' : List ℕ) (new cur : ℕ) (sv : Slot) (intact : Bool) (xs : Log) (r : List ℕ × ℕ × ℕ)
      → (intact && not (is_tombstone sv.flags) && not (later xs sv.id)) ≡ true
      → cur + sv.total_size ≤ length buf
      → take (new + sv.total_size) buf' ≡ take new buf ++ take sv.total_size (drop cur buf)
      → drop (cur + sv.total_size) buf' ≡ drop (cur + sv.total_size) buf
      → length buf' ≡ length buf
      → Compacted buf' (new + sv.total_size) (cur + sv.total_size) xs r
      → Compacted buf new cur (at cur buf sv intact ∷ xs) r
  kept_round buf buf' new cur sv intact xs r c fits f d l ih =
      let size : length (take sv.total_size (drop cur buf)) ≡ sv.total_size =
        omega (arith, length-take sv.total_size (drop cur buf), length-drop cur buf) in
      let s =
        step buf buf' new (new + sv.total_size) cur sv xs (take sv.total_size (drop cur buf)) r f
          (omega arith) d l ih in
      record {
        front = rw c s.0;
        len = rw c s.1;
        behind = s.2;
        below = ih.below;
        past = omega (arith, ih.past);
        within = λ h. omega (arith, ih.within (omega arith));
        whole = s.3;
      }

  dropped_round :
      (buf : List ℕ) (new cur : ℕ) (sv : Slot) (intact : Bool) (xs : Log) (r : List ℕ × ℕ × ℕ)
      → (intact && not (is_tombstone sv.flags) && not (later xs sv.id)) ≡ false
      → cur + sv.total_size ≤ length buf
      → Compacted buf new (cur + sv.total_size) xs r
      → Compacted buf new cur (at cur buf sv intact ∷ xs) r
  dropped_round buf new cur sv intact xs r c fits ih = record {
    front = rw c ih.front;
    len = rw c ih.len;
    behind = ih.behind;
    below = ih.below;
    past = omega (arith, ih.past);
    within = λ h. ih.within fits;
    whole = ih.whole;
  }

  -- The loop packs the bytes of the slots to keep behind what was there, in order, and leaves
  -- everything from where it stops untouched.
  pub compact_from-Compacted :
      (k : ℕ) (buf : List ℕ) (new cur : ℕ)
      → length buf ≡ g.peb_size
      → new ≤ cur
      → g.peb_size ≤ cur + k
      → Compacted buf new cur (parse g k cur (drop cur buf)) (compact_from g k buf new cur)
  unfolding compact_from parse
  compact_from-Compacted zero buf new cur l le h = done buf new cur le
  compact_from-Compacted (suc k) buf new cur l le h = elim (Slot-cases g cur (drop cur buf)) [
    | inl e ↦ rw (e, compact_from, parse) (done buf new cur le)
    | inr (sv, intact, e) ↦
        let b = slot_at-bounds g cur (drop cur buf) sv intact e in
        let c = kept-keep k buf cur sv intact (omega arith) in
        elim (Bool-cases (kept g buf cur sv intact)) [
          | inr drops ↦
              rw (e, compact_from, parse, drops, drop-drop sv.total_size cur buf)
                (dropped_round buf new cur sv intact
                  (parse g k (cur + sv.total_size) (drop (cur + sv.total_size) buf))
                  (compact_from g k buf new (cur + sv.total_size)) (sym c ∙ drops) (omega arith)
                  (compact_from-Compacted k buf new (cur + sv.total_size) l (omega arith)
                    (omega arith)))
          | inl keeps ↦ elim (Bool-cases (new == cur)) [
            | inl still ↦
                let same : new ≡ cur = ground arith in
                rw (e, compact_from, parse, keeps, still, drop-drop sv.total_size cur buf)
                  (kept_round buf buf new cur sv intact
                    (parse g k (cur + sv.total_size) (drop (cur + sv.total_size) buf))
                    (compact_from g k buf (new + sv.total_size) (cur + sv.total_size))
                    (sym c ∙ keeps) (omega arith)
                    (take-add new sv.total_size buf
                      ∙ ap (λ m. take new buf ++ take sv.total_size (drop m buf)) same)
                    refl refl
                    (compact_from-Compacted k buf (new + sv.total_size) (cur + sv.total_size) l
                      (omega arith) (omega arith)))
            | inr moves ↦
                let buf' = memmove buf new cur sv.total_size in
                let d = drop-memmove buf new cur sv.total_size le (omega arith) in
                let w = length-memmove buf new cur sv.total_size le (omega arith) in
                rw (e, compact_from, parse, keeps, moves, drop-drop sv.total_size cur buf)
                  (kept_round buf buf' new cur sv intact
                    (parse g k (cur + sv.total_size) (drop (cur + sv.total_size) buf))
                    (compact_from g k buf' (new + sv.total_size) (cur + sv.total_size))
                    (sym c ∙ keeps) (omega arith)
                    (take-memmove buf new cur sv.total_size le (omega arith)) d w
                    (rw (← d) (
                      compact_from-Compacted k buf' (new + sv.total_size) (cur + sv.total_size)
                        (w ∙ l) (omega arith) (omega arith))))
          ]
        ]
  ]
