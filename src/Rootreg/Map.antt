-- ===== src/Rootreg/Map.antt =====
-- The registry as a map from keys to root ids, and what each change of the entries does to it.
use key_value_db.Base.{
  ℕ, zero, suc, ◌-◌, ◌≡◌, refl, ap, ◌≢◌, Option, none, some, [], ◌∷◌, ◌++◌, arith, ◌==◌,
  if◌then◌else◌, length, get_or, set, take, All,
}
use key_value_db.Rootreg.Image.{Entry, IsEntry}
use key_value_db.Rootreg.{Slots, rr_find}

abbrev pub lookup : Slots → ℕ → Option ℕ
lookup [] key = none
lookup (x ∷ xs) key = if x.key == key then some x.root_id else lookup xs key

abbrev pub NoDup : Slots → Type 0
NoDup [] = Unit
NoDup (x ∷ xs) = (lookup xs x.key ≡ none) × NoDup xs

module _ (d : Entry) where
  abbrev pub last : Slots → Entry
  last [] = d
  last (x ∷ []) = x
  last (x ∷ y ∷ ys) = last (y ∷ ys)

  pub get_or-last : (es : Slots) → get_or es (length es - 1) d ≡ last es
  get_or-last [] = refl
  get_or-last (x ∷ []) = refl
  get_or-last (x ∷ y ∷ ys) =
      let e : suc (suc (length ys)) - 1 ≡ suc (suc (length ys) - 1) = omega arith in
      rw e (get_or-last (y ∷ ys))

abbrev pub init : Slots → Slots
init [] = []
init (x ∷ []) = []
init (x ∷ y ∷ ys) = x ∷ init (y ∷ ys)

pub take-init : (es : Slots) (n : ℕ) → n ≡ length es - 1 → take n es ≡ init es
take-init [] zero h = refl
take-init [] (suc n) h = refl
take-init (x ∷ []) zero h = refl
take-init (x ∷ []) (suc n) h = absurd (omega arith)
take-init (x ∷ y ∷ ys) zero h = absurd (omega arith)
take-init (x ∷ y ∷ ys) (suc n) h = ap (λ l. x ∷ l) (take-init (y ∷ ys) n (omega arith))

init-cons-set :
    (x y : Entry) (ys : Slots) (i : ℕ) (v : Entry)
    → init (x ∷ set (y ∷ ys) i v) ≡ x ∷ init (set (y ∷ ys) i v)
init-cons-set x y ys zero v = refl
init-cons-set x y ys (suc i) v = refl

lookup-init : (es : Slots) (j : ℕ) → lookup es j ≡ none → lookup (init es) j ≡ none
lookup-init [] j h = h
lookup-init (x ∷ []) j h = refl
lookup-init (x ∷ y ∷ ys) j h = ground (arith, lookup-init (y ∷ ys) j)

last-ne :
    (d : Entry) (y : Entry) (ys : Slots) (j : ℕ)
    → lookup (y ∷ ys) j ≡ none
    → (last d (y ∷ ys)).key ≢ j
last-ne d y [] j h = ground arith
last-ne d y (z ∷ zs) j h = last-ne d z zs j (ground arith)

NoDup-init : (es : Slots) → NoDup es → NoDup (init es)
NoDup-init [] h = h
NoDup-init (x ∷ []) h = tt
NoDup-init (x ∷ y ∷ ys) h = (lookup-init (y ∷ ys) x.key h.0, NoDup-init (y ∷ ys) h.1)

lookup-init-last :
    (d y : Entry) (ys : Slots)
    → NoDup (y ∷ ys)
    → lookup (init (y ∷ ys)) (last d (y ∷ ys)).key ≡ none
lookup-init-last d y [] h = refl
lookup-init-last d y (z ∷ zs) h = ground (arith, lookup-init-last d z zs, last-ne d z zs y.key)

-- The last entry put in front of the others: the same map.
lookup-last-init :
    (d y : Entry) (ys : Slots) (j : ℕ)
    → NoDup (y ∷ ys)
    → lookup (last d (y ∷ ys) ∷ init (y ∷ ys)) j ≡ lookup (y ∷ ys) j
lookup-last-init d y [] j h = refl
lookup-last-init d y (z ∷ zs) j h = ground (arith, lookup-last-init d z zs j, last-ne d z zs y.key)

-- Overwriting the entry of `key` with the last one, and dropping the last, takes `key` out and
-- changes no other key.
pub lookup-swap :
    (d : Entry) (es : Slots) (i key j : ℕ)
    → NoDup es
    → rr_find es key ≡ some i
    → lookup (init (set es i (last d es))) j ≡ (if j == key then none else lookup es j)
unfolding rr_find
lookup-swap d [] i key j h f = cc
lookup-swap d (x ∷ []) zero key j h f = ground arith
lookup-swap d (x ∷ []) (suc i) key j h f = ground arith
lookup-swap d (x ∷ y ∷ ys) zero key j h f = ground (arith, lookup-last-init d y ys j h.1)
lookup-swap d (x ∷ y ∷ ys) (suc i) key j h f =
    rw (init-cons-set x y ys i (last d (y ∷ ys)))
      (ground (arith, lookup-swap d (y ∷ ys) i key j h.1))

pub NoDup-swap :
    (d : Entry) (es : Slots) (i key : ℕ)
    → NoDup es
    → rr_find es key ≡ some i
    → NoDup (init (set es i (last d es)))
unfolding rr_find
NoDup-swap d [] i key h f = tt
NoDup-swap d (x ∷ []) zero key h f = tt
NoDup-swap d (x ∷ []) (suc i) key h f = tt
NoDup-swap d (x ∷ y ∷ ys) zero key h f = (lookup-init-last d y ys h.1, NoDup-init (y ∷ ys) h.1)
NoDup-swap d (x ∷ y ∷ ys) (suc i) key h f = rw (init-cons-set x y ys i (last d (y ∷ ys))) (
  ground (arith, lookup-swap d (y ∷ ys) i key x.key h.1, h.0),
  NoDup-swap d (y ∷ ys) i key h.1 (ground arith),
)

-- An entry put behind the others.
pub lookup-push :
    (es : Slots) (x : Entry) (j : ℕ)
    → lookup es x.key ≡ none
    → lookup (es ++ x ∷ []) j ≡ (if x.key == j then some x.root_id else lookup es j)
lookup-push [] x j h = refl
lookup-push (y ∷ ys) x j h = ground (arith, lookup-push ys x j)

pub NoDup-push : (es : Slots) (x : Entry) → NoDup es → lookup es x.key ≡ none → NoDup (es ++ x ∷ [])
NoDup-push [] x h a = (refl, tt)
NoDup-push (y ∷ ys) x h a =
    (ground (arith, lookup-push ys x y.key, h.0), NoDup-push ys x h.1 (ground arith))

-- rr_find finds the entry of the key, or that there is none.
pub find-lookup :
    (d : Entry) (es : Slots) (key : ℕ)
    → elim (rr_find es key) [ none ↦ none | some i ↦ some (get_or es i d).root_id ] ≡ lookup es key
unfolding rr_find
find-lookup d [] key = refl
find-lookup d (x ∷ xs) key = ground (arith, find-lookup d xs key)

pub length-init : (es : Slots) → length (init es) ≡ length es - 1
length-init [] = refl
length-init (x ∷ []) = refl
length-init (x ∷ y ∷ ys) = omega (arith, length-init (y ∷ ys))

pub All-push : (es : Slots) (x : Entry) → All IsEntry es → IsEntry x → All IsEntry (es ++ x ∷ [])
All-push [] x h p = (p, tt)
All-push (y ∷ ys) x h p = (h.0, All-push ys x h.1 p)

All-init : (es : Slots) → All IsEntry es → All IsEntry (init es)
All-init [] h = h
All-init (x ∷ []) h = tt
All-init (x ∷ y ∷ ys) h = (h.0, All-init (y ∷ ys) h.1)

IsEntry-last : (d y : Entry) (ys : Slots) → All IsEntry (y ∷ ys) → IsEntry (last d (y ∷ ys))
IsEntry-last d y [] h = h.0
IsEntry-last d y (z ∷ zs) h = IsEntry-last d z zs h.1

All-set : (es : Slots) (i : ℕ) (v : Entry) → All IsEntry es → IsEntry v → All IsEntry (set es i v)
All-set [] i v h p = h
All-set (x ∷ xs) zero v h p = (p, h.1)
All-set (x ∷ xs) (suc i) v h p = (h.0, All-set xs i v h.1 p)

pub All-swap :
    (d : Entry) (es : Slots) (i : ℕ) → All IsEntry es → All IsEntry (init (set es i (last d es)))
All-swap d [] i h = h
All-swap d (y ∷ ys) i h =
    All-init (set (y ∷ ys) i (last d (y ∷ ys)))
      (All-set (y ∷ ys) i (last d (y ∷ ys)) h (IsEntry-last d y ys h))
