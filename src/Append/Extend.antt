-- ===== src/Append/Extend.antt =====
-- The log of a bucket after an append at its end.
use key_value_db.Base.{
  ℕ, zero, suc, ◌+◌, ◌≤◌, ◌≡◌, refl, sym, ap, ◌∙◌, inl, inr, Bool, some, List, [], ◌∷◌, ◌++◌, arith,
  length, take, drop, length-drop, drop-drop,
}
use key_value_db.BucketLog.{Geometry, Slot, slot_at, slot_walk_at, walk_end}
use key_value_db.BucketLog.Parse.{slot_at-bounds, slot_at-moved, take-drop-take}
use key_value_db.BucketLog.Walk.{parse, parse-fuel, Slot-cases}

take-and-drop : (n : ℕ) (xs : List ℕ) → take n xs ++ drop n xs ≡ xs
take-and-drop zero xs = refl
take-and-drop (suc n) [] = refl
take-and-drop (suc n) (x ∷ xs) = ap (λ l. x ∷ l) (take-and-drop n xs)

-- equal fronts have equal parts
same-part :
    (n k m : ℕ) (xs ys : List ℕ)
    → take m xs ≡ take m ys
    → k + n ≤ m
    → m ≤ length xs
    → m ≤ length ys
    → take n (drop k xs) ≡ take n (drop k ys)
same-part n k m xs ys e h lx ly =
    sym (take-drop-take n k m xs [] h lx)
    ∙ ap (λ l. take n (drop k (l ++ []))) e
    ∙ take-drop-take n k m ys [] h ly

module _ (g : Geometry) where
  pub walk_end-le :
      (k cur : ℕ) (buf : List ℕ) → cur ≤ g.peb_size → walk_end g k buf cur ≤ g.peb_size
  unfolding walk_end slot_walk_at
  walk_end-le zero cur buf h = h
  walk_end-le (suc k) cur buf h = elim (Slot-cases g cur (drop cur buf)) [
    | inl e ↦ rw (e, walk_end) h
    | inr (sv, intact, e) ↦
        let b = slot_at-bounds g cur (drop cur buf) sv intact e in
        rw (e, walk_end) (walk_end-le k (cur + sv.total_size) buf (omega arith))
  ]

  pub walk_end-ge : (k cur : ℕ) (buf : List ℕ) → cur ≤ walk_end g k buf cur
  unfolding walk_end slot_walk_at
  walk_end-ge zero cur buf = omega arith
  walk_end-ge (suc k) cur buf = elim (Slot-cases g cur (drop cur buf)) [
    | inl e ↦ rw (e, walk_end) (omega arith)
    | inr (sv, intact, e) ↦
        rw (e, walk_end) (omega (arith, walk_end-ge k (cur + sv.total_size) buf))
  ]

  moved_slot :
      (cur : ℕ) (buf buf' : List ℕ) (sv : Slot) (intact : Bool)
      → slot_at g cur (drop cur buf) ≡ some (sv, intact)
      → sv.total_size ≤ length (drop cur buf)
      → take sv.total_size (drop cur buf') ≡ take sv.total_size (drop cur buf)
      → slot_at g cur (drop cur buf') ≡ some (sv, intact)
  moved_slot cur buf buf' sv intact s l same =
      let rest = drop sv.total_size (drop cur buf') in
      ap (slot_at g cur)
        (sym (take-and-drop sv.total_size (drop cur buf')) ∙ ap (λ t. t ++ rest) same)
      ∙ slot_at-moved g cur cur (drop cur buf) rest sv intact s l (omega arith)

  -- A sector that agrees with another up to the end of its log has that log, and more behind it.
  pub parse-extend :
      (k cur : ℕ) (buf buf' : List ℕ)
      → g.peb_size ≤ cur + k
      → length buf ≡ g.peb_size
      → length buf' ≡ g.peb_size
      → cur ≤ g.peb_size
      → take (walk_end g k buf cur) buf' ≡ take (walk_end g k buf cur) buf
      → parse g k cur (drop cur buf')
        ≡ parse g k cur (drop cur buf)
          ++ parse g g.peb_size (walk_end g k buf cur) (drop (walk_end g k buf cur) buf')
  unfolding parse walk_end slot_walk_at
  parse-extend zero cur buf buf' h l l' c e =
      sym (parse-fuel g g.peb_size 0 cur (drop cur buf') (omega arith) (omega arith))
  parse-extend (suc k) cur buf buf' h l l' c e = elim (Slot-cases g cur (drop cur buf)) [
    | inl s ↦
        rw (parse, s, walk_end)
          (parse-fuel g (suc k) g.peb_size cur (drop cur buf') (omega arith) (omega arith))
    | inr (sv, intact, s) ↦
        let b = slot_at-bounds g cur (drop cur buf) sv intact s in
        let next_off = cur + sv.total_size in
        let w : walk_end g (suc k) buf cur ≡ walk_end g k buf (cur + sv.total_size) =
          rw (walk_end, s) refl in
        let e' : take (walk_end g k buf next_off) buf' ≡ take (walk_end g k buf next_off) buf =
          ap (λ n. take n buf') (sym w) ∙ e ∙ ap (λ n. take n buf) w in
        let ge = walk_end-ge k next_off buf in
        let le = walk_end-le k next_off buf (omega arith) in
        let same =
          same-part sv.total_size cur (walk_end g k buf next_off) buf' buf e' (omega arith)
            (omega arith) (omega arith) in
        let s' = moved_slot cur buf buf' sv intact s (omega (arith, length-drop cur buf)) same in
        rw
          (
            parse,
            s',
            s,
            walk_end,
            same,
            drop-drop sv.total_size cur buf',
            drop-drop sv.total_size cur buf,
          )
          (ap
            (λ l.
              record {
                off = cur;
                sv = sv;
                intact = intact;
                bytes = take sv.total_size (drop cur buf);
              }
              ∷ l)
            (parse-extend k next_off buf buf' (omega arith) l l' (omega arith) e'))
  ]
