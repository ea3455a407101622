-- ===== src/Jobs/Webhook/Replays.antt =====
-- How long a signature of Stripe can be replayed, by `verify_stripe` of src/jobs/webhook.py.
use app_launcher_lite.Prelude.{
  ℕ, ◌+◌, ◌*◌, ◌<◌, String, ◌==◌, ◌≡◌, refl, true, false, inl, inr, Bool-cases, Option, none, some,
  arith,
}
use app_launcher_lite.Prelude.Int.{ℤ, pos, negsuc}
use app_launcher_lite.Jobs.History.{second}
use app_launcher_lite.Jobs.Schtasks.Fires.{Readers}
use app_launcher_lite.Jobs.Webhook.{
  Bytes, Signing, too_far, stripe_signed, stripe_parsed, parse_stripe_header, verify_stripe,
}

too_far_later :
    (tolerance now later : ℕ) (t : ℤ)
    → too_far now t tolerance ≡ false
    → now + 2 * (tolerance * second) < later
    → too_far later t tolerance ≡ true
unfolding too_far
too_far_later tolerance now later (pos t) e h = ground arith
too_far_later tolerance now later (negsuc t) e h = ground arith

module _ (r : Readers) (g : Signing) (secret : String) (body : Bytes) (tolerance now later : ℕ)
    (gap : now + 2 * (tolerance * second) < later) where
  signed-later :
      (v1 : String) (o : Option ℤ)
      → stripe_signed g secret body v1 tolerance now o ≡ true
      → stripe_signed g secret body v1 tolerance later o ≡ false
  signed-later v1 none e = cc
  signed-later v1 (some t) e = elim (Bool-cases (too_far now t tolerance)) [
    | inl over ↦ absurd (cc (rw over at e))
    | inr fresh ↦ rw (too_far_later tolerance now later t fresh gap) refl
  ]

  parsed-later :
      (o : Option (String × String))
      → stripe_parsed r g secret body tolerance now o ≡ true
      → stripe_parsed r g secret body tolerance later o ≡ false
  parsed-later none e = cc
  parsed-later (some (t, v1)) e = signed-later v1 (r.int_of t) e

-- A Stripe header that is accepted for a body at one instant is refused for it at every instant
-- more than twice the tolerance later.
pub verify_stripe-later :
    (r : Readers) (g : Signing) (secret : String) (body : Bytes) (header : Option String)
    (tolerance now later : ℕ)
    → verify_stripe r g secret body header tolerance now ≡ true
    → now + 2 * (tolerance * second) < later
    → verify_stripe r g secret body header tolerance later ≡ false
unfolding verify_stripe
verify_stripe-later r g secret body none tolerance now later e gap = cc
verify_stripe-later r g secret body (some header) tolerance now later e gap =
    elim (Bool-cases (header == "")) [
      | inl empty ↦ absurd (cc (rw empty at e))
      | inr full ↦ rw full (
          parsed-later r g secret body tolerance now later gap (parse_stripe_header header)
            (rw full at e))
    ]
