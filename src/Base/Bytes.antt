-- ===== src/Base/Bytes.antt =====
-- Fixed-width integers as the bytes that `memcpy` reads and writes, low byte first: the order of
-- every target that the program is built for.
use Prim.Native.Nat.{ℕ, zero, suc, ◌+◌, ◌*◌, ◌/◌, ◌%◌, ◌<◌}
use mathlib.Core.Path.{◌≡◌, refl, sym, ap}
use mathlib.Core.List.{List, [], ◌∷◌, ◌++◌}
use native.Mathlib.Omega.{arith}
use key_value_db.Base.Lists.{length, take, drop, take-append_self, drop-append_self}

-- the number of values of an `n`-byte integer
abbrev pub values : ℕ → ℕ
values zero = 1
values (suc n) = 256 * values n

unfoldable pub le_bytes : ℕ → ℕ → List ℕ
le_bytes zero v = []
le_bytes (suc n) v = (v % 256) ∷ le_bytes n (v / 256)

unfoldable pub of_le : List ℕ → ℕ
of_le [] = 0
of_le (b ∷ bs) = b + 256 * of_le bs

-- an `n`-byte integer at offset `off`
abbrev pub int_at : ℕ → List ℕ → ℕ → ℕ
int_at n bs off = of_le (take n (drop off bs))

pub length-le_bytes : (n v : ℕ) → length (le_bytes n v) ≡ n
unfolding le_bytes
length-le_bytes zero v = refl
length-le_bytes (suc n) v = ap suc (length-le_bytes n (v / 256))

pub of_le-le_bytes : (n v : ℕ) → v < values n → of_le (le_bytes n v) ≡ v
unfolding of_le le_bytes
of_le-le_bytes zero v h = omega arith
of_le-le_bytes (suc n) v h = omega (arith, of_le-le_bytes n (v / 256) (omega arith))

pub int_at-le_bytes :
    (n v : ℕ) (rest : List ℕ) → v < values n → int_at n (le_bytes n v ++ rest) 0 ≡ v
int_at-le_bytes n v rest h =
    rw (take-append_self (le_bytes n v) rest n (sym (length-le_bytes n v))) (of_le-le_bytes n v h)

pub take-le_bytes : (n v : ℕ) (rest : List ℕ) → take n (le_bytes n v ++ rest) ≡ le_bytes n v
take-le_bytes n v rest = take-append_self (le_bytes n v) rest n (sym (length-le_bytes n v))

pub drop-le_bytes : (n v : ℕ) (rest : List ℕ) → drop n (le_bytes n v ++ rest) ≡ rest
drop-le_bytes n v rest = drop-append_self (le_bytes n v) rest n (sym (length-le_bytes n v))
