-- ===== src/BucketLog/Parse.antt =====
-- What the slot parser reads: the size that it finds, and that it reads no byte outside the slot.
use key_value_db.Base.{
  ℕ, zero, suc, ◌+◌, ◌-◌, ◌*◌, ◌/◌, ◌≤◌, ◌<◌, ◌≡◌, refl, sym, ap, ◌∙◌, inl, inr, Bool, some, List,
  [], ◌∷◌, ◌++◌, arith, ◌==◌, Bool-cases, length, take, drop, int_at,
}
use mathlib.Core.List.{append-nil}
use native.Mathlib.Nat.{lt-div-mul-add}
use key_value_db.BucketLog.{Geometry, Slot, slot_overhead, slot_size_for, slot_crc16, slot_at}

pub round_up-ge : (x a : ℕ) → 0 < a → x ≤ (x + a - 1) / a * a
round_up-ge x a h = omega (arith, lt-div-mul-add {a = x + a - 1} h)

pub take-drop-take {ℓ} :
    {A : Type ℓ} (n k m : ℕ) (xs ys : List A)
    → k + n ≤ m
    → m ≤ length xs
    → take n (drop k (take m xs ++ ys)) ≡ take n (drop k xs)
take-drop-take zero zero zero xs ys h l = refl
take-drop-take (suc n) zero zero xs ys h l = absurd (omega arith)
take-drop-take n (suc k) zero xs ys h l = absurd (omega arith)
take-drop-take n k (suc m) [] ys h l = absurd (omega arith)
take-drop-take zero zero (suc m) (x ∷ xs) ys h l = refl
take-drop-take (suc n) zero (suc m) (x ∷ xs) ys h l =
    ap (λ r. x ∷ r) (take-drop-take n zero m xs ys (omega arith) (omega arith))
take-drop-take n (suc k) (suc m) (x ∷ xs) ys h l =
    take-drop-take n k m xs ys (omega arith) (omega arith)

module _ (g : Geometry) where
  pub slot_size-ge : (n : ℕ) → slot_overhead + n ≤ slot_size_for g n
  unfolding slot_size_for
  slot_size-ge n = elim (Bool-cases (g.write_align == 0)) [
    | inl e ↦ rw e (round_up-ge (slot_overhead + n) 1 (omega arith))
    | inr e ↦ rw e (round_up-ge (slot_overhead + n) g.write_align (ground arith))
  ]

  -- A slot that the walk sizes lies inside the erase block and holds its head, payload and CRC.
  pub slot_at-bounds :
      (off : ℕ) (bs : List ℕ) (sv : Slot) (intact : Bool)
      → slot_at g off bs ≡ some (sv, intact)
      → (off + sv.total_size ≤ g.peb_size)
        × (slot_overhead + sv.val_len ≤ sv.total_size)
        × (sv.val_len ≤ g.max_payload)
        × (sv.val_len ≡ int_at 2 bs 2)
        × (sv.total_size ≡ slot_size_for g sv.val_len)
  unfolding slot_at
  slot_at-bounds off bs sv intact h =
      let size : slot_overhead + int_at 2 bs 2 ≤ slot_size_for g (int_at 2 bs 2) =
        slot_size-ge (int_at 2 bs 2) in
      (ground arith, ground arith, ground arith, ground arith, ground arith)

  -- A slot is intact where its CRC verifies.
  pub slot_at-intact :
      (off : ℕ) (bs : List ℕ) (sv : Slot) (intact : Bool)
      → slot_at g off bs ≡ some (sv, intact)
      → intact ≡ (
          slot_crc16 g (take 4 bs) (take 8 (drop 4 bs)) (take (int_at 2 bs 2) (drop 12 bs))
          == int_at 2 bs (12 + int_at 2 bs 2))
  unfolding slot_at
  slot_at-intact off bs sv intact h = ground arith

  pub slot_at-flags :
      (off : ℕ) (bs : List ℕ) (sv : Slot) (intact : Bool)
      → slot_at g off bs ≡ some (sv, intact)
      → sv.flags ≡ int_at 1 bs 0
  unfolding slot_at
  slot_at-flags off bs sv intact h = ground arith

  -- The payload within the bytes of a slot is the one that is read where the slot stands.
  pub slot_at-payload :
      (off : ℕ) (bs : List ℕ) (sv : Slot) (intact : Bool)
      → slot_at g off bs ≡ some (sv, intact)
      → sv.total_size ≤ length bs
      → take sv.val_len (drop 12 (take sv.total_size bs)) ≡ take sv.val_len (drop 12 bs)
  slot_at-payload off bs sv intact e l =
      let b = slot_at-bounds off bs sv intact e in
      ap (λ t. take sv.val_len (drop 12 t)) (sym (append-nil (take sv.total_size bs)))
      ∙ take-drop-take sv.val_len 12 sv.total_size bs [] (omega arith) l

  -- Moved to an offset that is no greater, whatever follows it, a slot reads as it did.
  pub slot_at-moved :
      (off off' : ℕ) (bs tail : List ℕ) (sv : Slot) (intact : Bool)
      → slot_at g off bs ≡ some (sv, intact)
      → sv.total_size ≤ length bs
      → off' ≤ off
      → slot_at g off' (take sv.total_size bs ++ tail) ≡ some (sv, intact)
  unfolding slot_at
  slot_at-moved off off' bs tail sv intact h l le =
      let b = slot_at-bounds off bs sv intact h in
      let at =
        λ (n k : ℕ) (p : k + n ≤ sv.total_size). take-drop-take n k sv.total_size bs tail p l in
      rw
        (
          at 1 0 (omega arith),
          at 2 2 (omega arith),
          at 8 4 (omega arith),
          at 4 0 (omega arith),
          at (int_at 2 bs 2) 12 (omega arith),
          at 2 (12 + int_at 2 bs 2) (omega arith),
        )
        (ground arith)
