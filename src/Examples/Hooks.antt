-- ===== src/Examples/Hooks.antt =====
-- The theorems on webhooks and on the search path at concrete requests and paths.
use app_launcher_lite.Prelude.{
  ◌*◌, arith, String, ◌≡◌, refl, Bool, true, false, some, none, List, [], ◌∷◌, ◌++◌, map,
}
use app_launcher_lite.Prelude.Int.{pos}
use app_launcher_lite.Prelude.Member.{member}
use app_launcher_lite.Prelude.Texts.{split}
use app_launcher_lite.Jobs.World.{World, Host}
use app_launcher_lite.Jobs.Job.{Job}
use app_launcher_lite.Jobs.Schtasks.Fires.{Readers}
use app_launcher_lite.Jobs.History.{second}
use app_launcher_lite.Jobs.Webhook.{Signing, verify_stripe}
use app_launcher_lite.Jobs.Webhook.Replays.{verify_stripe-later}
use app_launcher_lite.Jobs.Webhook.Hook.{
  Codec, HookRequest, HookReply, not_json, admitted, run_job_webhook,
}
use app_launcher_lite.Jobs.Webhook.Verified.{Outcome, run_job_webhook_lem}
use app_launcher_lite.Environment.{merge_entries, chunk_entries}
use app_launcher_lite.Environment.Entries.{Distinct, keys_of, merge_entries_lem}
use app_launcher_lite.Examples.Common.{python}
use app_launcher_lite.Examples.Scheduled.{backup}

-- Every number is 1000, and every digest is `ab`.
abbrev numbers : Readers
numbers = record { int_of = λ s. some (pos 1_000); from_iso = λ s. none }

abbrev signing : Signing
signing = record { utf8 = λ s. []; hmac_sha256 = λ key body. "ab" }

signed_at : verify_stripe numbers signing "key" [] (some "t=1000,v1=ab") 300 (1_000 * second) ≡ true
unfolding verify_stripe
signed_at = refl

verify_stripe-later_example :
    verify_stripe numbers signing "key" [] (some "t=1000,v1=ab") 300 (1_601 * second) ≡ false
verify_stripe-later_example =
    verify_stripe-later numbers signing "key" [] (some "t=1000,v1=ab") 300 (1_000 * second)
      (1_601 * second) signed_at (omega arith)

abbrev host : Host
host = record {
  is_pid_alive = λ _ _. true;
  can_spawn = λ _. true;
  spawn_error = "";
  can_remove = λ _ _. true;
  now = 1_000 * second;
}

abbrev codec : Codec
codec = record { to_int = λ s. pos 0; loads = λ b. not_json; dumps = λ d. "{}" }

abbrev idle : World
idle = record { runs = []; queue = []; stats_cache = []; spawned = [] }

abbrev hooked : Job
hooked = record backup {
  webhook =
      some (record { provider = "generic"; secret = "$secret:hook"; mapping = []; events = [] });
}

abbrev request : HookRequest
request = record { body = []; headers = ("x-webhook-token", "s3") ∷ []; received = 1_000 * second }

run_job_webhook_lem_example :
    Outcome host numbers signing python codec idle
      (hooked ∷ [])
      (("hook", "s3") ∷ [])
      request
      "backup"
      "r1"
      (run_job_webhook host numbers signing python codec idle
        (hooked ∷ [])
        (("hook", "s3") ∷ [])
        "backup"
        request
        "r1")
run_job_webhook_lem_example =
    run_job_webhook_lem host numbers signing python codec idle (hooked ∷ []) (("hook", "s3") ∷ [])
      request "backup" "r1"

abbrev is_admitted : HookReply → Bool
is_admitted (admitted a) = true
is_admitted _ = false

-- The request is let in.
let_in :
    is_admitted
      (run_job_webhook host numbers signing python codec idle
        (hooked ∷ [])
        (("hook", "s3") ∷ [])
        "backup"
        request
        "r1").0
    ≡ true
unfolding run_job_webhook
let_in = refl

abbrev inherited : String
inherited = "C:\\bin;C:\\Windows\\"

abbrev others : List String
others = "C:\\Windows;D:\\tools" ∷ []

merge_entries_lem_example :
    let merged = merge_entries python [] (chunk_entries (inherited ∷ others)) in
    (added : List String) × (merged ≡ merge_entries python [] (split ";" inherited) ++ added)
    × Distinct (map python.lower merged)
    × (member "D:\\tools" (map python.lower merged)
        ≡ member "D:\\tools" (keys_of python (chunk_entries (inherited ∷ others))))
merge_entries_lem_example = merge_entries_lem python inherited others "D:\\tools"

merged_entries :
    merge_entries python [] (chunk_entries (inherited ∷ others))
    ≡ "C:\\bin" ∷ "C:\\Windows" ∷ "D:\\tools" ∷ []
unfolding merge_entries chunk_entries
merged_entries = refl
