-- ===== src/BucketLog/Move.antt =====
-- memmove within a buffer, to an offset that is no greater.
use key_value_db.Base.{
  ℕ, zero, suc, ◌+◌, ◌-◌, ◌≤◌, ◌≡◌, refl, sym, ap, ◌∙◌, List, [], ◌∷◌, ◌++◌, arith, length, take,
  drop, length-append, length-take, length-drop, take-append_self, drop-append_self, drop-drop,
  take-append_right,
}
use mathlib.Core.List.{append_assoc}
use key_value_db.BucketLog.{memmove}

pub take-add {ℓ} :
    {A : Type ℓ} (m n : ℕ) (xs : List A) → take (m + n) xs ≡ take m xs ++ take n (drop m xs)
take-add zero n xs = ap (λ (k : ℕ). take k xs) (omega arith)
take-add {A = A} (suc m) n [] =
    ap (λ (k : ℕ). take {A = A} k []) {x = suc m + n} {y = suc (m + n)} (omega arith) ∙ sym (nil n)
  where
    nil : (k : ℕ) → take {A = A} k [] ≡ []
    nil zero = refl
    nil (suc k) = refl
take-add (suc m) n (x ∷ xs) =
    ap (λ (k : ℕ). take k (x ∷ xs)) {x = suc m + n} {y = suc (m + n)} (omega arith)
    ∙ ap (λ l. x ∷ l) (take-add m n xs)

module _ (buf : List ℕ) (dst src n : ℕ) (le : dst ≤ src) (fits : src + n ≤ length buf) where
  long : length (take dst buf) ≡ dst
  long = omega (arith, length-take dst buf)

  moved : length (take n (drop src buf)) ≡ n
  moved = omega (arith, length-take n (drop src buf), length-drop src buf)

  pub take-memmove : take (dst + n) (memmove buf dst src n) ≡ take dst buf ++ take n (drop src buf)
  unfolding memmove
  take-memmove =
      ap (λ (k : ℕ). take (k + n) (take dst buf ++ (take n (drop src buf) ++ drop (dst + n) buf)))
        (sym long)
      ∙ take-append_right n (take dst buf) (take n (drop src buf) ++ drop (dst + n) buf)
      ∙ ap (λ l. take dst buf ++ l)
          (take-append_self (take n (drop src buf)) (drop (dst + n) buf) n (sym moved))

  rest : drop (dst + n) (memmove buf dst src n) ≡ drop (dst + n) buf
  unfolding memmove
  rest = rw (← append_assoc (take dst buf) (take n (drop src buf)) (drop (dst + n) buf)) (
      drop-append_self (take dst buf ++ take n (drop src buf)) (drop (dst + n) buf) (dst + n)
        (omega (arith, length-append (take dst buf) (take n (drop src buf)), long, moved)))

  pub drop-memmove : drop (src + n) (memmove buf dst src n) ≡ drop (src + n) buf
  drop-memmove =
      let e : src + n ≡ dst + n + (src - dst) = omega arith in
      rw (
        e,
        ← drop-drop (src - dst) (dst + n) (memmove buf dst src n),
        rest,
        drop-drop (src - dst) (dst + n) buf,
      )

  pub length-memmove : length (memmove buf dst src n) ≡ length buf
  unfolding memmove
  length-memmove = omega (
    arith,
    length-append (take dst buf) (take n (drop src buf) ++ drop (dst + n) buf),
    length-append (take n (drop src buf)) (drop (dst + n) buf),
    length-drop (dst + n) buf,
    long,
    moved,
  )
