-- ===== src/Prelude/Integers.antt =====
-- The integers of Python over the native numbers, as far as the program counts with them. Models no
-- file of the repository by itself.
use Prim.Native.Nat.{ℕ, zero, suc, ◌<◌, ◌+◌}
use mathlib.Core.Path.{◌≡◌, ◌∙◌, refl, ap, sym}
use mathlib.Core.Bool.{Bool, false}
use native.Mathlib.Omega.{arith}
use family_inventory.Prelude.Tests.{ltb}

-- `negsuc n` is -(n + 1)
pub data ℤ : Type 0 where
  pos : ℕ → ℤ
  negsuc : ℕ → ℤ

-- `z + 1`
abbrev pub succ : ℤ → ℤ
succ (pos n) = pos (suc n)
succ (negsuc zero) = pos 0
succ (negsuc (suc n)) = negsuc n

-- `z > n`
abbrev pub is_above : ℕ → ℤ → Bool
is_above n (pos k) = ltb n k
is_above n (negsuc k) = false

-- z < n
abbrev pub IsBelow : ℕ → ℤ → Type 0
IsBelow n (pos k) = k < n
IsBelow n (negsuc k) = Unit

-- `z + k`
abbrev pub plus : ℤ → ℕ → ℤ
plus z zero = z
plus z (suc k) = plus (succ z) k

pub is_above-succ : (n : ℕ) (z : ℤ) → IsBelow n z → is_above n (succ z) ≡ false
is_above-succ n (pos k) h = ground (arith, h)
is_above-succ n (negsuc zero) h = ground arith
is_above-succ n (negsuc (suc k)) h = refl

plus-pos : (n k : ℕ) → plus (pos n) k ≡ pos (n + k)
plus-pos n zero = let e : n + 0 ≡ n = omega arith in rw e refl
plus-pos n (suc k) = let e : suc n + k ≡ n + suc k = omega arith in plus-pos (suc n) k ∙ rw e refl

-- the natural part
abbrev part : ℤ → ℕ
part (pos n) = n
part (negsuc n) = 0

pub IsBelow-plus : (n : ℕ) (z : ℤ) (k : ℕ) → plus z (suc k) ≡ pos n → IsBelow n z
IsBelow-plus n (pos m) k e = let q = ap part (sym (plus-pos m (suc k)) ∙ e) in omega (arith, q)
IsBelow-plus n (negsuc m) k e = tt
