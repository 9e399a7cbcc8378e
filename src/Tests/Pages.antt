-- ===== src/Tests/Pages.antt =====
-- Pages at concrete rows.
use family_inventory.Prelude.{ℕ, Option, none, some, List, [], ◌∷◌}

abbrev rows : List ℕ
rows = 11 ∷ 12 ∷ 13 ∷ 14 ∷ 15 ∷ []

abbrev third : Option ℕ
third = some 3

abbrev twenty : Option ℕ
twenty = some 20

abbrev absent : Option ℕ
absent = none
