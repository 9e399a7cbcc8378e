-- ===== src/Tests/Ids.antt =====
-- Ids as texts, for the tests: a tally and its inverse.
use Prim.Native.String.{String, [], ◌∷◌}
use family_inventory.Prelude.{
  ℕ, zero, suc, ◌≡◌, refl, false, Option, none, some, Bool-cases, inl, inr, str_eq, eq_iff,
}

-- An id as a tally, and its inverse.
unfoldable pub tally : ℕ → String
tally zero = []
tally (suc n) = "|" ∷ tally n

unfoldable pub count : String → ℕ
count [] = 0
count (c ∷ s) = suc (count s)

unfoldable pub parse : String → Option ℕ
unfolding count
parse [] = none
parse (c ∷ s) = some (count s)

pub count-tally : (n : ℕ) → count (tally n) ≡ n
unfolding count tally
count-tally zero = refl
count-tally (suc n) = rw (count-tally n)

pub tally_full : (i : ℕ) → str_eq ("|" ∷ tally i) "" ≡ false
tally_full i = elim (Bool-cases (str_eq ("|" ∷ tally i) "")) [
  | inl e ↦ cc ((eq_iff ("|" ∷ tally i) "").0 e)
  | inr e ↦ e
]
