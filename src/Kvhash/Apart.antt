-- ===== src/Kvhash/Apart.antt =====
-- The bindings of one bucket have different keys and blobs of their own.
use key_value_db.Base.{
  ℕ, ◌≡◌, refl, sym, ap, ◌∙◌, ◌≢◌, ◌⊎◌, inl, inr, true, false, none, some, List, [], ◌∷◌, ◌++◌,
  arith, if◌then◌else◌, ==_refl, Bool-cases, length, All,
}
use mathlib.Core.Path.{subst}
use mathlib.Core.List.{append-nil}
use key_value_db.Kvhash.Find.{memcmp, is_eq}
use key_value_db.Kvhash.Hit.{Binding, key_eq, key_eq-≡}
use key_value_db.Kvhash.Lookup.{lookup}

memcmp_refl : (xs : List ℕ) → is_eq (memcmp xs xs) ≡ true
unfolding memcmp
memcmp_refl [] = refl
memcmp_refl (x ∷ xs) = ground (arith, memcmp_refl xs)

pub key_eq_refl : (xs : List ℕ) → key_eq xs xs ≡ true
key_eq_refl xs = rw (==_refl (length xs)) (memcmp_refl xs)

-- two ids that are not of one blob
abbrev pub Distinct : ℕ → ℕ → Type 0
Distinct i j = (i ≡ 0) ⊎ ((j ≡ 0) ⊎ (i ≢ j))

Distinct-sym : (i j : ℕ) → Distinct i j → Distinct j i
Distinct-sym i j (inl e) = inr (inl e)
Distinct-sym i j (inr (inl e)) = inl e
Distinct-sym i j (inr (inr ne)) = inr (inr (λ e. ne (sym e)))

pub record Foreign (a b : Binding) : Type 0 where
  pub keys : (key_eq a.key b.key ≡ false) × (key_eq b.key a.key ≡ false)
  pub kids : Distinct a.kid b.kid
  pub vids : Distinct a.vid b.vid
  pub kid_vid : Distinct a.kid b.vid
  pub vid_kid : Distinct a.vid b.kid

pub Foreign-sym : (a b : Binding) → Foreign a b → Foreign b a
Foreign-sym a b f =
    let (ab, ba) = f.keys in
    record {
      keys = (ba, ab);
      kids = Distinct-sym a.kid b.kid f.kids;
      vids = Distinct-sym a.vid b.vid f.vids;
      kid_vid = Distinct-sym a.vid b.kid f.vid_kid;
      vid_kid = Distinct-sym a.kid b.vid f.kid_vid;
    }

abbrev pub Separate : List Binding → Type 0
Separate [] = Unit {0}
Separate (b ∷ bs) = All (Foreign b) bs × Separate bs

pub All-append :
    {A : Type 0} (P : A → Type 0) (xs ys : List A) → All P xs → All P ys → All P (xs ++ ys)
All-append P [] ys px py = py
All-append P (x ∷ xs) ys (p, px) py = (p, All-append P xs ys px py)

pub All-split :
    {A : Type 0} (P : A → Type 0) (xs ys : List A) → All P (xs ++ ys) → All P xs × All P ys
All-split P [] ys all = (tt, all)
All-split P (x ∷ xs) ys (p, all) = let (px, py) = All-split P xs ys all in ((p, px), py)

pub All-without :
    {A : Type 0} (P : A → Type 0) (xs ys : List A) (a : A)
    → All P (xs ++ a ∷ ys)
    → P a × All P (xs ++ ys)
All-without P xs ys a all =
    let (px, pay) = All-split P xs (a ∷ ys) all in
    let (pa, py) = pay in (pa, All-append P xs ys px py)

pub All-map :
    {A : Type 0} (P Q : A → Type 0) (xs : List A) → ((a : A) → P a → Q a) → All P xs → All Q xs
All-map P Q [] f all = tt
All-map P Q (x ∷ xs) f (p, all) = (f x p, All-map P Q xs f all)

-- one binding taken out of the others
pub Separate-without :
    (xs ys : List Binding) (b : Binding)
    → Separate (xs ++ b ∷ ys)
    → Separate (xs ++ ys) × All (Foreign b) (xs ++ ys)
Separate-without [] ys b (foreign, rest) = (rest, foreign)
Separate-without (x ∷ xs) ys b (foreign, rest) =
    let (fx, fby) = All-split (Foreign x) xs (b ∷ ys) foreign in
    let (fb, fy) = fby in
    let (sep, all) = Separate-without xs ys b rest in
    ((All-append (Foreign x) xs ys fx fy, sep), (Foreign-sym x b fb, all))

pub All-insert :
    {A : Type 0} (P : A → Type 0) (xs ys : List A) (a : A)
    → P a
    → All P (xs ++ ys)
    → All P (xs ++ a ∷ ys)
All-insert P [] ys a p all = (p, all)
All-insert P (x ∷ xs) ys a p (px, all) = (px, All-insert P xs ys a p all)

pub Separate-insert :
    (xs ys : List Binding) (b : Binding)
    → Separate (xs ++ ys)
    → All (Foreign b) (xs ++ ys)
    → Separate (xs ++ b ∷ ys)
Separate-insert [] ys b sep foreign = (foreign, sep)
Separate-insert (x ∷ xs) ys b (fx, sep) (f, foreign) =
    (All-insert (Foreign x) xs ys b (Foreign-sym b x f) fx, Separate-insert xs ys b sep foreign)

pub Separate-snoc :
    (xs : List Binding) (b : Binding) → Separate xs → All (Foreign b) xs → Separate (xs ++ b ∷ [])
Separate-snoc xs b sep all =
    Separate-insert xs [] b (subst Separate (sym (append-nil xs)) sep)
      (subst (All (Foreign b)) (sym (append-nil xs)) all)

abbrev pub Misses : List ℕ → Binding → Type 0
Misses key b = key_eq b.key key ≡ false

pub lookup-Misses : (bs : List Binding) (key : List ℕ) → All (Misses key) bs → lookup bs key ≡ none
lookup-Misses [] key misses = refl
lookup-Misses (b ∷ bs) key (m, misses) = rw m (lookup-Misses bs key misses)

pub Misses-lookup : (bs : List Binding) (key : List ℕ) → lookup bs key ≡ none → All (Misses key) bs
Misses-lookup [] key h = tt
Misses-lookup (b ∷ bs) key h = elim (Bool-cases (key_eq b.key key)) [
  | inl same ↦ absurd (let h' = rw same at h in cc)
  | inr other ↦ (other, Misses-lookup bs key (rw other at h))
]

pub lookup-without :
    (xs ys : List Binding) (b : Binding) (key : List ℕ)
    → Misses key b
    → lookup (xs ++ b ∷ ys) key ≡ lookup (xs ++ ys) key
lookup-without [] ys b key m = rw m refl
lookup-without (x ∷ xs) ys b key m =
    ap (λ o. if key_eq x.key key then some x.val else o) (lookup-without xs ys b key m)

-- a binding of a key that the ones before it do not have
pub lookup-insert :
    (xs ys : List Binding) (b : Binding) (key : List ℕ)
    → All (Misses b.key) xs
    → lookup (xs ++ b ∷ ys) key ≡ (if key_eq b.key key then some b.val else lookup (xs ++ ys) key)
lookup-insert [] ys b key misses = refl
lookup-insert (x ∷ xs) ys b key (m, misses) = elim (Bool-cases (key_eq x.key key)) [
  | inr other ↦ rw other (lookup-insert xs ys b key misses)
  | inl hit ↦ elim (Bool-cases (key_eq b.key key)) [
    | inr other ↦ rw (hit, other) refl
    | inl same ↦
        let x_key = key_eq-≡ x.key key hit in
        let b_key = key_eq-≡ b.key key same in
        let clash : key_eq key key ≡ false = rw (x_key, b_key) at m in
        absurd (let self = key_eq_refl key in cc)
  ]
]

pub lookup-snoc :
    (zs : List Binding) (b : Binding) (key : List ℕ)
    → All (Misses b.key) zs
    → lookup (zs ++ b ∷ []) key ≡ (if key_eq b.key key then some b.val else lookup zs key)
lookup-snoc zs b key misses =
    lookup-insert zs [] b key misses
    ∙ ap (λ l. if key_eq b.key key then some b.val else lookup l key) (append-nil zs)
