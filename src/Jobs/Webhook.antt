-- ===== src/Jobs/Webhook.antt =====
-- src/jobs/webhook.py: the signatures of webhooks, and the events that they take; the
-- webhook block of a job's row is in Registry/Params.
pub mod Mapping
pub mod Hook
pub mod Verified
pub mod Replays
use Prim.Native.Char.{Char, code}
use Prim.Native.String.{◌++◌ as append}
use app_launcher_lite.Prelude.{
  ℕ, zero, suc, ◌+◌, ◌*◌, ltb, eqb, String, ◌==◌, Bool, true, false, not, ◌&&◌, ◌||◌, Option, none,
  some, List, [], ◌∷◌, ◌++◌, if◌then◌else◌,
}
use app_launcher_lite.Prelude.Int.{ℤ, pos, negsuc}
use app_launcher_lite.Prelude.Dict
use app_launcher_lite.Prelude.Dict.{Dict}
use app_launcher_lite.Prelude.Member.{member}
use app_launcher_lite.Prelude.Json.{Json, Items, Members, nil, cons, lookup}
use app_launcher_lite.Prelude.Texts.{partition, split}
use app_launcher_lite.Jobs.Job.{WebhookConfig}
use app_launcher_lite.Jobs.History.{second}
use app_launcher_lite.Jobs.Trigger.{after_prefix}
use app_launcher_lite.Jobs.Registry.Python.{
  Python, strip, show_int, str_of, is_char, is_letter, is_ascii_digit,
}
use app_launcher_lite.Jobs.Schtasks.Fires.{Readers}

-- The bytes of a request's body.
abbrev pub Bytes : Type 0
Bytes = List ℕ

-- UTF-8, and the hexadecimal digest of HMAC-SHA256 under a key.
pub record Signing : Type 0 where
  pub utf8 : String → Bytes
  pub hmac_sha256 : Bytes → Bytes → String

-- `verify_github`
abbrev pub github_signed : Signing → String → Bytes → Option String → Bool
github_signed g secret body none = false
github_signed g secret body (some hex) = hex == g.hmac_sha256 (g.utf8 secret) body

unfoldable pub verify_github : Signing → String → Bytes → Option String → Bool
unfolding after_prefix
verify_github g secret body none = false
verify_github g secret body (some header) =
    github_signed g secret body (after_prefix "sha256=" header)

-- One item of the header.
unfoldable pub stripe_item : Dict String → String → Dict String
unfolding partition strip Dict.put
stripe_item parts item = elim (partition "=" item) [
  | none ↦ parts
  | some (k, v) ↦ Dict.put (strip k) (strip v) parts
]

unfoldable pub stripe_items : Dict String → List String → Dict String
unfolding stripe_item
stripe_items parts [] = parts
stripe_items parts (item ∷ items) = stripe_items (stripe_item parts item) items

-- `_parse_stripe_header`: the texts of `t` and of `v1`.
unfoldable pub parse_stripe_header : String → Option (String × String)
unfolding stripe_items split Dict.get
parse_stripe_header header =
    let parts = stripe_items [] (split "," header) in
    elim (Dict.get "t" parts) [
      | none ↦ none
      | some t ↦ elim (Dict.get "v1" parts) [ none ↦ none | some v1 ↦ some (t, v1) ]
    ]

-- abs(current - timestamp) > tolerance_seconds
unfoldable pub too_far : ℕ → ℤ → ℕ → Bool
too_far current (pos t) tolerance =
    ltb (t * second + tolerance * second) current || ltb (current + tolerance * second) (t * second)
too_far current (negsuc t) tolerance = ltb (tolerance * second) (current + suc t * second)

abbrev pub stripe_signed : Signing → String → Bytes → String → ℕ → ℕ → Option ℤ → Bool
stripe_signed g secret body v1 tolerance now none = false
stripe_signed g secret body v1 tolerance now (some t) =
    if too_far now t tolerance
    then false
    else v1 == g.hmac_sha256 (g.utf8 secret) (g.utf8 (append (show_int t) ".") ++ body)

abbrev pub stripe_parsed :
    Readers → Signing → String → Bytes → ℕ → ℕ → Option (String × String) → Bool
stripe_parsed r g secret body tolerance now none = false
stripe_parsed r g secret body tolerance now (some (t, v1)) =
    stripe_signed g secret body v1 tolerance now (r.int_of t)

-- `verify_stripe`
unfoldable pub verify_stripe : Readers → Signing → String → Bytes → Option String → ℕ → ℕ → Bool
unfolding parse_stripe_header too_far show_int
verify_stripe r g secret body none tolerance now = false
verify_stripe r g secret body (some header) tolerance now =
    if header == ""
    then false
    else stripe_parsed r g secret body tolerance now (parse_stripe_header header)

-- `verify_generic`
unfoldable pub verify_generic : String → Option String → Bool
verify_generic secret none = false
verify_generic secret (some header) = not (header == "") && (header == secret)

-- `DEFAULT_STRIPE_TOLERANCE_SECONDS`
abbrev pub default_stripe_tolerance : ℕ
default_stripe_tolerance = 300

-- `verify_webhook`, at the instant `now`.
unfoldable pub verify_webhook :
    Readers → Signing → WebhookConfig → String → Bytes → Dict String → ℕ → Bool
unfolding verify_github verify_stripe verify_generic Dict.get
verify_webhook r g webhook secret body headers now =
    if webhook.provider == "github"
    then verify_github g secret body (Dict.get "x-hub-signature-256" headers)
    else if webhook.provider == "stripe"
    then verify_stripe r g secret body (Dict.get "stripe-signature" headers)
        default_stripe_tolerance now
    else if webhook.provider == "generic"
    then verify_generic secret (Dict.get "x-webhook-token" headers)
    else false

abbrev pub listed_event : List String → Option String → Bool
listed_event events none = false
listed_event events (some e) = not (e == "") && member e events

-- `event_allowed`
unfoldable pub event_allowed : WebhookConfig → Option String → Bool
unfolding member
event_allowed webhook event = elim webhook.events [
  | [] ↦ true
  | e ∷ es ↦ listed_event (e ∷ es) event
]
