-- ===== src/Jobs/Trigger.antt =====
-- src/jobs/trigger.py: the vocabulary of the `--trigger` argument.
pub mod Laws
use Prim.Native.String.{◌++◌ as append}
use app_launcher_lite.Prelude.{String, ◌==◌, Bool, ◌||◌, Option, none, some, is_some, if◌then◌else◌}

-- The rest of a text behind a prefix: `startswith` and the slice after it.
unfoldable pub after_prefix : String → String → Option String
after_prefix String.[] s = some s
after_prefix (String.◌∷◌ c p) String.[] = none
after_prefix (String.◌∷◌ c p) (String.◌∷◌ d s) =
    if String.◌∷◌ c String.[] == String.◌∷◌ d String.[] then after_prefix p s else none

-- `CHAIN_TRIGGER_PREFIX`
abbrev pub chain_trigger_prefix : String
chain_trigger_prefix = "chain:"

-- `chain_trigger`
unfoldable pub chain_trigger : String → String
chain_trigger upstream_id = append chain_trigger_prefix upstream_id

-- `chain_upstream_id`
unfoldable pub chain_upstream_id : String → Option String
unfolding after_prefix
chain_upstream_id trigger = elim (after_prefix chain_trigger_prefix trigger) [
  | none ↦ none
  | some rest ↦ if rest == "" then none else some rest
]

-- `trigger in SIMPLE_TRIGGERS`
unfoldable pub is_simple : String → Bool
is_simple trigger = trigger == "scheduled" || trigger == "manual" || trigger == "webhook"

-- `is_valid_trigger`
unfoldable pub is_valid_trigger : String → Bool
unfolding is_simple chain_upstream_id
is_valid_trigger trigger = is_simple trigger || is_some (chain_upstream_id trigger)
