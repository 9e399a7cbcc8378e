-- ===== src/Notifications/Headers.antt =====
-- Message headers and payloads: Python dicts of JSON values with text keys, in insertion order.
-- The program reads a value by its truth and its text, so that is what a value keeps.

use family_inventory.Prelude.{
  ◌≡◌, arith, eq_iff, eq_refl, zero, suc, String, Bool, true, false, not, List, [], ◌∷◌, str_eq,
  if◌then◌else◌,
}
use family_inventory.Prelude.Integers.{ℤ, pos, negsuc}

-- `other` is any other value, such as a list or an object, by its truth value and its text.
pub data Value : Type 0 where
  null : Value
  bool : Bool → Value
  int : ℤ → Value
  text : String → Value
  other : Bool → String → Value

abbrev pub Headers : Type 0
Headers = List (String × Value)

-- `bool(v)`
abbrev pub is_truthy : Value → Bool
is_truthy null = false
is_truthy (bool b) = b
is_truthy (int (pos zero)) = false
is_truthy (int (pos (suc n))) = true
is_truthy (int (negsuc n)) = true
is_truthy (text s) = not (str_eq s "")
is_truthy (other b s) = b

-- `h.get(k)`
abbrev pub get : String → Headers → Value
get k [] = null
get k ((j, v) ∷ h) = if str_eq j k then v else get k h

-- `k in h`
abbrev pub contains : String → Headers → Bool
contains k [] = false
contains k ((j, v) ∷ h) = if str_eq j k then true else contains k h

-- `h[k] = v`
abbrev pub put : String → Value → Headers → Headers
put k v [] = (k, v) ∷ []
put k v ((j, w) ∷ h) = if str_eq j k then (j, v) ∷ h else (j, w) ∷ put k v h

-- `h.setdefault(k, v)`
abbrev pub setdefault : String → Value → Headers → Headers
setdefault k v h = if contains k h then h else put k v h

-- `h.update(g)`, and `{**h, **g}`
abbrev pub merge : Headers → Headers → Headers
merge h [] = h
merge h ((k, v) ∷ g) = merge (put k v h) g

-- `a or b`
abbrev pub or_else : Value → Value → Value
or_else a b = if is_truthy a then a else b

pub get-put : (k : String) (v : Value) (h : Headers) → get k (put k v h) ≡ v
get-put k v [] = ground (arith, eq_refl k)
get-put k v ((j, w) ∷ h) = ground (arith, get-put k v h)

pub contains-put : (k : String) (v : Value) (h : Headers) → contains k (put k v h) ≡ true
contains-put k v [] = ground (arith, eq_refl k)
contains-put k v ((j, w) ∷ h) = ground (arith, contains-put k v h)

pub get-put_ne :
    (i k : String) (v : Value) (h : Headers) → str_eq k i ≡ false → get i (put k v h) ≡ get i h
get-put_ne i k v [] e = ground (arith, e)
get-put_ne i k v ((j, w) ∷ h) e = ground (arith, get-put_ne i k v h e, eq_iff j k, e)

pub contains-setdefault :
    (k : String) (v : Value) (h : Headers) → contains k (setdefault k v h) ≡ true
contains-setdefault k v h = ground (arith, contains-put k v h)
