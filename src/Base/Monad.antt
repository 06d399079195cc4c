-- ===== src/Base/Monad.antt =====
-- Return codes: 0 with what the call hands out is `ok`, a negative errno is `err`.
use Prim.Native.Nat.{ℕ}
use mathlib.Core.Path.{◌≡◌, refl}
use mathlib.Core.Logic.{◌⊎◌, inl, inr}
use mathlib.Core.Bool.{Bool, true, false}
use mathlib.Core.Option.{Option, some}

pub data Errno : Type 0 where
  enoent eio enomem eexist einval enospc enotsup enodev emsgsize estale enodata ebadmsg : Errno
  -- a code that the program passes through without a name, such as a callback's
  code : ℕ → Errno

pub data Result {ℓ} (A : Type ℓ) : Type ℓ where
  ok : A → Result A
  err : Errno → Result A

abbrev pub is_enoent : Errno → Bool
is_enoent enoent = true
is_enoent _ = false

abbrev pub is_enospc : Errno → Bool
is_enospc enospc = true
is_enospc _ = false

abbrev pub is_ebadmsg : Errno → Bool
is_ebadmsg ebadmsg = true
is_ebadmsg _ = false

-- A call that changes a store: the store comes back beside an error too.
abbrev pub Exec {ℓ κ} : Type ℓ → Type κ → Type (ℓ ⊔ κ)
Exec S A = S → Result A × S

abbrev pub continue {ℓ κ μ} :
    {S : Type ℓ} {A : Type κ} {B : Type μ} → Result A → (A → Exec S B) → Exec S B
continue (ok a) f s = f a s
continue (err e) f s = (err e, s)

infixl 5 ◌>>=◌ ◌>>◌
abbrev pub ◌>>=◌ {ℓ κ μ} :
    {S : Type ℓ} {A : Type κ} {B : Type μ} → Exec S A → (A → Exec S B) → Exec S B
◌>>=◌ m f s = let (r, s') = m s in continue r f s'

abbrev pub ◌>>◌ {ℓ κ μ} : {S : Type ℓ} {A : Type κ} {B : Type μ} → Exec S A → Exec S B → Exec S B
m >> k = m >>= λ _. k

abbrev pub return {ℓ κ} : {S : Type ℓ} {A : Type κ} → A → Exec S A
return a s = (ok a, s)

abbrev pub fail {ℓ κ} : {S : Type ℓ} {A : Type κ} → Errno → Exec S A
fail e s = (err e, s)

abbrev pub lift {ℓ κ} : {S : Type ℓ} {A : Type κ} → Result A → Exec S A
lift r s = (r, s)

-- A computation that may run out hands something out, and what it hands out has a property.
abbrev pub Gives {ℓ κ} : {A : Type ℓ} → Option A → (A → Type κ) → Type (ℓ ⊔ κ)
Gives {A} r P = (a : A) × (r ≡ some a) × P a

pub Result-cases {ℓ} :
    {A : Type ℓ} (r : Result A) → ((a : A) × (r ≡ ok a)) ⊎ ((e : Errno) × (r ≡ err e))
Result-cases (ok a) = inl (a, refl)
Result-cases (err e) = inr (e, refl)

-- A call in front of the rest: it fails and nothing follows, or the rest runs.
pub continue_cases :
    {S A B : Type 0} (P : Result B × S → Type 0) (r : Result A) (s : S) (f : A → Exec S B)
    → ((e : Errno) → P (err e, s))
    → ((a : A) → r ≡ ok a → P (f a s))
    → P (continue r f s)
continue_cases P (ok a) s f failed done = done a refl
continue_cases P (err e) s f failed done = failed e
