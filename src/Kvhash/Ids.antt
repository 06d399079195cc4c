-- ===== src/Kvhash/Ids.antt =====
-- The ids that an entry of kvhash.c names, and which of them a set leaves alone. `c` is the ceiling
-- at its start, and `bid` the bucket.
use key_value_db.Base.{ℕ, ◌≤◌, ◌<◌, ◌≡◌, ◌≢◌, ◌⊎◌, inl, inr, false, List, arith, Bool-cases}
use key_value_db.Kvhash.Hit.{key_eq, key_eq-≡}
use key_value_db.Kvhash.Apart.{Distinct, key_eq_refl}

-- an id that the bucket's bindings may own
abbrev pub OwnId : ℕ → ℕ → ℕ → Type 0
OwnId c bid id = (id ≡ 0) ⊎ ((id < c) × (id ≢ bid))

-- an id that the new binding names: none, the old key's, or one from the ceiling on
abbrev pub NewId : ℕ → ℕ → ℕ → Type 0
NewId c kept id = (id ≡ 0) ⊎ (((id ≡ kept) × (id ≢ 0)) ⊎ ((c ≤ id) × (id ≢ 0)))

pub NewId-Distinct :
    (c bid kept id i : ℕ) → NewId c kept id → OwnId c bid i → Distinct kept i → Distinct id i
NewId-Distinct c bid kept id i new own apart = ground arith

-- and one that only a fresh blob has
pub Fresh-Distinct :
    (c bid id i : ℕ) → (id ≡ 0) ⊎ ((c ≤ id) × (id ≢ 0)) → OwnId c bid i → Distinct id i
Fresh-Distinct c bid id i new own = ground arith

-- an id that neither the commit nor the release touches
abbrev pub Untouched : ℕ → ℕ → ℕ → ℕ → ℕ → Type 0
Untouched bid kid vid new id = (id ≢ bid) × (id ≢ vid) × ((kid ≡ new) ⊎ (id ≢ kid))

pub new-Untouched :
    (c bid kid vid id : ℕ)
    → NewId c kid id
    → id ≢ 0
    → bid < c
    → OwnId c bid kid
    → OwnId c bid vid
    → Distinct kid vid
    → Untouched bid kid vid id id
new-Untouched c bid kid vid id new real low own_kid own_vid apart = ground arith

pub fresh-Untouched :
    (c bid kid vid new id : ℕ)
    → c ≤ id
    → id ≢ 0
    → bid < c
    → OwnId c bid kid
    → OwnId c bid vid
    → Untouched bid kid vid new id
fresh-Untouched c bid kid vid new id high real low own_kid own_vid = ground arith

pub own-Untouched :
    (c bid kid vid new id : ℕ)
    → OwnId c bid id
    → id ≢ 0
    → Distinct kid id
    → Distinct vid id
    → Untouched bid kid vid new id
own-Untouched c bid kid vid new id own real kid_id vid_id = ground arith

pub Misses-both : (xs ys : List ℕ) → key_eq xs ys ≡ false → key_eq ys xs ≡ false
Misses-both xs ys m = elim (Bool-cases (key_eq ys xs)) [
  | inr other ↦ other
  | inl same ↦
      let e = key_eq-≡ ys xs same in
      let clash : key_eq xs xs ≡ false = rw e at m in absurd (let self = key_eq_refl xs in cc)
]
