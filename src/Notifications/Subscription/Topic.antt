-- ===== src/Notifications/Subscription/Topic.antt =====
-- The wildcard of a topic, in `list_enabled_for_topic` of
-- app/apis/notifications/repository/subscription_repository.py.
use Prim.Native.Char.{Char, code}
use Prim.Native.String.{String, [], ◌∷◌, ◌++◌}
use Prim.Native.String.append
use family_inventory.Prelude.{
  Bool, true, false, ◌||◌, ◌≡◌, refl, arith, ◌==◌, if◌then◌else◌, ap, ◌∙◌,
}

abbrev is_dot : Char → Bool
is_dot c = code c == b'.'

-- `"." in topic`
unfoldable pub has_dot : String → Bool
has_dot [] = false
has_dot (c ∷ s) = is_dot c || has_dot s

-- `topic.rsplit(".", 1)[0]`, for a topic with a dot: what stands before the last one.
unfoldable pub before_last_dot : String → String
unfolding has_dot
before_last_dot [] = []
before_last_dot (c ∷ s) = let rest = before_last_dot s in if has_dot s then c ∷ rest else []

unfoldable pub wildcard : String → String
unfolding has_dot before_last_dot
wildcard topic = if has_dot topic then before_last_dot topic ++ ".*" else "*"

wildcard_item : wildcard "inventory.item.expired" ≡ "inventory.item.*"
unfolding wildcard
wildcard_item = refl

wildcard_plain : wildcard "ping" ≡ "*"
unfolding wildcard
wildcard_plain = refl

module _ (l : String) (plain : has_dot l ≡ false) where
  has_dot-append : (p : String) → has_dot (p ++ ("." ++ l)) ≡ true
  unfolding has_dot
  has_dot-append [] = rw (append.nil, append.cons) refl
  has_dot-append (c ∷ p) = rw append.cons (ground (arith, has_dot-append p))

  before_last_dot-append : (p : String) → before_last_dot (p ++ ("." ++ l)) ≡ p
  unfolding before_last_dot has_dot
  before_last_dot-append [] =
      let e : has_dot ([] ++ l) ≡ false = ap has_dot (append.nil l) ∙ plain in
      rw (append.nil, append.cons) (rw e)
  before_last_dot-append (c ∷ p) = rw append.cons (rw (has_dot-append p, before_last_dot-append p))

  -- The wildcard of a topic whose last segment has no dot is the rest of the topic with a star.
  pub wildcard-append : (p : String) → wildcard (p ++ ("." ++ l)) ≡ p ++ ".*"
  unfolding wildcard
  wildcard-append p = rw (has_dot-append p, before_last_dot-append p)
