-- ===== src/Users/Quiet.antt =====
-- Requests that change nothing: throttled, or for an unknown email. app/apis/users/user_service.py
-- (resend_activation) and auth_service.py (request_password_reset).
use family_inventory.Prelude.{
  ℕ, ◌+◌, ◌≡◌, refl, ◌∙◌, String, Bool, true, false, some, none, Bool-cases, Option-cases, inl, inr,
  if◌then◌else◌, ◌<◌, ap,
}
use family_inventory.Users.{Settings, Platform, Fresh, Accounts, get_by_email}
use family_inventory.Users.Activation.{resend_activation, resend_allowed, resend_key}
use family_inventory.Users.Auth.{issue_reset, request_password_reset, request_allowed, reset_key}

module _ (p : Platform) (c : Settings) where
  -- the state after the throttle has let a request pass
  abbrev pub throttled : String → ℕ → Accounts p → Accounts p
  throttled k now s = record {
    users = s.users;
    outbox = s.outbox;
    cache = p.cache_set k p.one c.password_reset_cooldown_seconds now s.cache;
  }

  pub request-first :
      (email : String) (f : Fresh) (now : ℕ) (s : Accounts p)
      → p.cache_get (reset_key p c email) now s.cache ≡ none
      → request_password_reset p c email f now s
        ≡ request_allowed p c email f now (throttled (reset_key p c email) now s)
  unfolding request_password_reset
  request-first email f now s free =
      rw
        (
          request_password_reset,
          p.nx_free (reset_key p c email) p.one c.password_reset_cooldown_seconds now s.cache free,
        )
        refl

  -- the state after the throttle has let a resend pass
  abbrev pub resend_throttled : String → ℕ → Accounts p → Accounts p
  resend_throttled email now s = record {
    users = s.users;
    outbox = s.outbox;
    cache =
        p.cache_set (resend_key p c email) p.one c.activation_resend_cooldown_seconds now s.cache;
  }

  pub resend-first :
      (email : String) (f : Fresh) (now : ℕ) (s : Accounts p)
      → p.cache_get (resend_key p c email) now s.cache ≡ none
      → resend_activation p c email f now s
        ≡ resend_allowed p c email f now (resend_throttled email now s)
  unfolding resend_activation
  resend-first email f now s free =
      rw
        (
          resend_activation,
          p.nx_free (resend_key p c email) p.one c.activation_resend_cooldown_seconds now s.cache
              free,
        )
        refl

  request-taken :
      (email : String) (f : Fresh) (now : ℕ) (s : Accounts p) (w : p.Text)
      → p.cache_get (reset_key p c email) now s.cache ≡ some w
      → request_password_reset p c email f now s ≡ s
  unfolding request_password_reset
  request-taken email f now s w taken =
      rw
        (
          request_password_reset,
          p.nx_taken (reset_key p c email) p.one w c.password_reset_cooldown_seconds now s.cache
              taken,
        )
        refl

  request_allowed-cache :
      (email : String) (f : Fresh) (now : ℕ) (s : Accounts p)
      → (request_allowed p c email f now s).cache ≡ s.cache
  unfolding request_allowed issue_reset
  request_allowed-cache email f now s = elim (Option-cases (get_by_email email s.users)) [
    | inl e ↦ rw (request_allowed, e) refl
    | inr (u, e) ↦ elim (Bool-cases u.is_active) [
      | inl a ↦ rw (request_allowed, e, a) refl
      | inr a ↦ rw (request_allowed, e, a) refl
    ]
  ]

  -- A password reset that is asked for again within the cooldown after one that was let pass changes
  -- nothing: no new link, no message and no longer cooldown.
  pub reset_throttled :
      (email : String) (f f' : Fresh) (now later : ℕ) (s : Accounts p)
      → p.cache_get (reset_key p c email) now s.cache ≡ none
      → later < now + c.password_reset_cooldown_seconds
      → request_password_reset p c email f' later (request_password_reset p c email f now s)
        ≡ request_password_reset p c email f now s
  reset_throttled email f f' now later s free soon =
      let k = reset_key p c email in
      let s1 = request_password_reset p c email f now s in
      let kept =
        ap (λ (x : Accounts p). p.cache_get k later x.cache) (request-first email f now s free)
        ∙ ap (p.cache_get k later) (request_allowed-cache email f now (throttled k now s))
        ∙ p.get-set k p.one c.password_reset_cooldown_seconds now later s.cache soon in
      request-taken email f' later s1 p.one kept

  resend-unknown :
      (email : String) (f : Fresh) (now : ℕ) (s : Accounts p)
      → get_by_email email s.users ≡ none
      → resend_allowed p c email f now s ≡ s
  unfolding resend_allowed
  resend-unknown email f now s e = rw (resend_allowed, e) refl

  request-unknown :
      (email : String) (f : Fresh) (now : ℕ) (s : Accounts p)
      → get_by_email email s.users ≡ none
      → request_allowed p c email f now s ≡ s
  unfolding request_allowed
  request-unknown email f now s e = rw (request_allowed, e) refl

  -- The users and the outbox are the same.
  abbrev pub IsUntouched : Accounts p → Accounts p → Type 0
  IsUntouched s s' = (s'.users ≡ s.users) × (s'.outbox ≡ s.outbox)

  if-IsUntouched :
      (s x y : Accounts p) (b : Bool)
      → IsUntouched s x
      → IsUntouched s y
      → IsUntouched s (if b then x else y)
  if-IsUntouched s x y true g h = g
  if-IsUntouched s x y false g h = h

  -- A new activation link or a password reset that is asked for an email without an account changes
  -- neither the users nor the outbox, throttled or not.
  pub unknown_email_ignored :
      (email : String) (f : Fresh) (now : ℕ) (s : Accounts p)
      → get_by_email email s.users ≡ none
      → IsUntouched s (resend_activation p c email f now s)
        × IsUntouched s (request_password_reset p c email f now s)
  unfolding resend_activation request_password_reset
  unknown_email_ignored email f now s e =
      let sent =
        p.cache_set_nx (resend_key p c email) p.one c.activation_resend_cooldown_seconds now
          s.cache in
      let asked =
        p.cache_set_nx (reset_key p c email) p.one c.password_reset_cooldown_seconds now s.cache in
      let s1 : Accounts p = record { users = s.users; outbox = s.outbox; cache = sent.0 } in
      let s2 : Accounts p = record { users = s.users; outbox = s.outbox; cache = asked.0 } in
      (
        if-IsUntouched s (resend_allowed p c email f now s1) s1 sent.1
            (simp (resend-unknown email f now s1 e) (refl, refl)) (refl, refl),
        if-IsUntouched s (request_allowed p c email f now s2) s2 asked.1
            (simp (request-unknown email f now s2 e) (refl, refl)) (refl, refl),
      )
