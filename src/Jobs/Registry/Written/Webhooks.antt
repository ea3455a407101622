-- ===== src/Jobs/Registry/Written/Webhooks.antt =====
-- `WebhookConfig.to_dict` and `webhook_from_dict` of src/jobs/webhook.py, one after the other.
use app_launcher_lite.Prelude.{
  String, ◌==◌, ◌≡◌, refl, sym, ◌∙◌, ap, true, false, Option, none, some, List, [], ◌∷◌, ◌++◌, ◌⊎◌,
  arith, eq_refl, inr,
}
use app_launcher_lite.Prelude.Lists.{append_nil, append_assoc}
use app_launcher_lite.Prelude.Dict.{Dict, get, NodupKeys}
use app_launcher_lite.Prelude.Member.{member}
use app_launcher_lite.Prelude.Json.{Json, lookup}
use app_launcher_lite.Jobs.Job.{WebhookConfig}
use app_launcher_lite.Jobs.Registry.Checked.{ok}
use app_launcher_lite.Jobs.Registry.Python.{Python, strip}
use app_launcher_lite.Jobs.Registry.Params.{
  providers, mapping_rows, mapping_of, event_rows, events_of, webhook_from_dict,
}
use app_launcher_lite.Jobs.Registry.Written.{
  text_items, text_members, texts_json, dict_json, webhook_fields, webhook_to_dict, webhook_json,
}
use app_launcher_lite.Jobs.Registry.Written.Parts.{
  value_or_null, lookup-row_of, text_back, put_absent, moved,
}

-- No text is empty.
abbrev pub AllFull : List String → Type 0
AllFull [] = Unit
AllFull (x ∷ xs) = ((x == "") ≡ false) × AllFull xs

-- No key and no path is empty.
abbrev pub AllPaths : Dict String → Type 0
AllPaths [] = Unit
AllPaths ((k, p) ∷ d) = ((k == "") ≡ false) × ((p == "") ≡ false) × AllPaths d

event_rows_back :
    (out xs : List String) → AllFull xs → event_rows out (text_items xs) ≡ ok (out ++ xs)
unfolding event_rows text_items
event_rows_back out [] h = ap (λ l. ok l) (sym (append_nil out))
event_rows_back out (x ∷ xs) (full, rest) =
    rw full
      (event_rows_back (out ++ x ∷ []) xs rest ∙ ap (λ l. ok l) (append_assoc out (x ∷ []) xs))

events_back : (xs : List String) → AllFull xs → events_of (texts_json xs) ≡ ok xs
unfolding events_of texts_json
events_back [] h = refl
events_back (x ∷ xs) h = event_rows_back [] (x ∷ xs) h

mapping_rows_back :
    (out d : Dict String)
    → NodupKeys d
    → AllPaths d
    → ((k : String) → get k d ≡ none ⊎ (get k out ≡ none))
    → mapping_rows out (text_members d) ≡ ok (out ++ d)
unfolding mapping_rows text_members get
mapping_rows_back out [] h paths apart = ap (λ l. ok l) (sym (append_nil out))
mapping_rows_back out ((k, v) ∷ d) (new, later) (key, path, rest) apart =
    let here : get k out ≡ none = ground (arith, apart k, eq_refl k) in
    rw key (
      rw path (
        rw (put_absent k v out here) (
          mapping_rows_back (out ++ (k, v) ∷ []) d later rest (λ i. moved i k v out d new (apart i))
          ∙ ap (λ l. ok l) (append_assoc out ((k, v) ∷ []) d))))

mapping_back : (d : Dict String) → NodupKeys d → AllPaths d → mapping_of (dict_json d) ≡ ok d
unfolding mapping_of dict_json get
mapping_back [] h paths = refl
mapping_back (e ∷ d) h paths = mapping_rows_back [] (e ∷ d) h paths (λ k. inr refl)

-- What a webhook must have to be read back.
pub record IsHook (w : WebhookConfig) : Type 0 where
  pub provided : member w.provider providers ≡ true
  pub provider_stripped : strip w.provider ≡ w.provider
  pub secret_full : (w.secret == "") ≡ false
  pub secret_stripped : strip w.secret ≡ w.secret
  pub mapping_distinct : NodupKeys w.mapping
  pub mapping_full : AllPaths w.mapping
  pub events_full : AllFull w.events

webhook_fields-NodupKeys : (w : WebhookConfig) → NodupKeys (webhook_fields w)
unfolding webhook_fields get
webhook_fields-NodupKeys w = (refl, (refl, (refl, (refl, tt))))

hook_found :
    (w : WebhookConfig) (k : String)
    → lookup k (webhook_to_dict w) ≡ value_or_null (get k (webhook_fields w))
unfolding webhook_to_dict
hook_found w k = lookup-row_of k (webhook_fields w) (webhook_fields-NodupKeys w)

hook_read :
    (py : Python) (w : WebhookConfig)
    → IsHook w
    → webhook_from_dict py (Json.object (webhook_to_dict w)) ≡ ok (some w)
unfolding webhook_from_dict webhook_fields value_or_null get
hook_read py w h =
    rw
      (
        hook_found w "provider",
        hook_found w "secret",
        hook_found w "mapping",
        hook_found w "events",
        text_back py w.provider,
        text_back py w.secret,
        h.provider_stripped,
        h.secret_stripped,
        h.provided,
        h.secret_full,
        mapping_back w.mapping h.mapping_distinct h.mapping_full,
        events_back w.events h.events_full,
      )
      refl

abbrev pub HookOrNone : Option WebhookConfig → Type 0
HookOrNone none = Unit
HookOrNone (some w) = IsHook w

pub webhook_back :
    (py : Python) (o : Option WebhookConfig)
    → HookOrNone o
    → webhook_from_dict py (webhook_json o) ≡ ok o
unfolding webhook_from_dict webhook_json
webhook_back py none h = refl
webhook_back py (some w) h = hook_read py w h
