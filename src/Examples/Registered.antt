-- ===== src/Examples/Registered.antt =====
-- The theorems on the registry of jobs at concrete registries.
use app_launcher_lite.Prelude.{
  String, ◌==◌, ◌≡◌, ◌↔◌, refl, true, not, ◌&&◌, some, none, List, [], ◌∷◌,
}
use app_launcher_lite.Prelude.Dict.{get, put}
use app_launcher_lite.Prelude.Member.{member, dedup_after}
use app_launcher_lite.Prelude.Json.{Json, end, field}
use app_launcher_lite.Jobs.Job.{Job, new_job}
use app_launcher_lite.Jobs.Registry.{ids, UniqueIds, follows, duplicate_id, malformed, get_by_id}
use app_launcher_lite.Jobs.Registry.Chain.{detect_chain_cycle, validate_chain_consistency}
use app_launcher_lite.Jobs.Registry.Chain.Walks.{Walk, IsCycle}
use app_launcher_lite.Jobs.Registry.Chain.Cycles.{detect_chain_cycle_lem}
use app_launcher_lite.Jobs.Registry.Chain.References.{Consistent, validate_chain_consistency_lem}
use app_launcher_lite.Jobs.Registry.Checked.{err}
use app_launcher_lite.Jobs.Registry.Edits.{
  Registry, Reply, answered, put_job, pause_job, resume_job, remove_by_id, stamp_schedule_change,
}
use app_launcher_lite.Jobs.Registry.Edits.Keeps.{Good}
use app_launcher_lite.Jobs.Registry.Edits.Effects.{remove_by_id_lem, resume_job-pause_job}
use app_launcher_lite.Jobs.Registry.Requests.{
  Edit, add, change, edit, all_or_nothing, edit-Good, refused_edit,
}
use app_launcher_lite.Jobs.Registry.Updates.{update_job}
use app_launcher_lite.Jobs.Registry.Rows.{job_from_dict}
use app_launcher_lite.Examples.Common.{python, daily}

abbrev fetch : Job
fetch = record (new_job "fetch" "Fetch" "fetch.py") { on_success = "report" ∷ []; schedule = daily }

abbrev report : Job
report = record (new_job "report" "Report" "report.py") { on_failure = "alarm" ∷ [] }

abbrev alarm : Job
alarm = new_job "alarm" "Alarm" "alarm.py"

abbrev line : List Job
line = alarm ∷ fetch ∷ report ∷ []

-- The alarm starts the fetch again.
abbrev ring : List Job
ring = record alarm { on_success = "fetch" ∷ [] } ∷ fetch ∷ report ∷ []

unique_line : UniqueIds line
unfolding member ids
unique_line = (refl, (refl, (refl, tt)))

unique_ring : UniqueIds ring
unfolding member ids
unique_ring = (refl, (refl, (refl, tt)))

ring_found : detect_chain_cycle ring ≡ some ("alarm" ∷ "fetch" ∷ "report" ∷ "alarm" ∷ [])
unfolding detect_chain_cycle put get dedup_after
ring_found = refl

line_passes : validate_chain_consistency line ≡ none
unfolding validate_chain_consistency member put get dedup_after
line_passes = refl

line-Good : Good line
line-Good = (unique_line, (validate_chain_consistency_lem line unique_line).0 line_passes)

detect_chain_cycle_lem_example :
    ((detect_chain_cycle ring ≡ none) ↔ ((u : String) → Walk (follows ring) u u → ⊥))
    × ((p : List String) → detect_chain_cycle ring ≡ some p → IsCycle (follows ring) p)
detect_chain_cycle_lem_example = detect_chain_cycle_lem ring unique_ring

validate_chain_consistency_lem_example : (validate_chain_consistency line ≡ none) ↔ Consistent line
validate_chain_consistency_lem_example = validate_chain_consistency_lem line unique_line

-- A registry as it stands after a write.
abbrev opened : List Job → Registry
opened jobs = record { jobs = jobs; file = jobs }

abbrev closing : Edit
closing = change "alarm" (field "on_success" (Json.str "fetch") end)

edit-Good_example :
    let r' = (edit python "t1" (opened line) closing).0 in
    Good r'.file × (all_or_nothing closing ≡ true → Good r'.jobs)
edit-Good_example = edit-Good python "t1" (opened line) closing line-Good line-Good

refused_twice : (edit python "t" (opened line) (add fetch)).1 ≡ Reply.refused (duplicate_id "fetch")
unfolding edit
refused_twice = refl

refused_edit_example :
    let out = edit python "t" (opened line) (add fetch) in
    (out.0.file ≡ line) × (all_or_nothing (add fetch) ≡ true → out.0.jobs ≡ line)
refused_edit_example =
    refused_edit python "t" (opened line) (add fetch) (duplicate_id "fetch") refused_twice

report_there : get_by_id line "report" ≡ some report
unfolding get_by_id
report_there = refl

remove_by_id_lem_example :
    let out = remove_by_id (opened line) "report" in
    (out.1 ≡ answered report)
    × (out.0.file ≡ out.0.jobs)
    × ((k : String) → member k (ids out.0.jobs) ≡ (member k (ids line) && not (k == "report")))
    × ((u v : String)
        → follows out.0.jobs u v ≡ (follows line u v && not (u == "report") && not (v == "report")))
remove_by_id_lem_example = remove_by_id_lem (opened line) "report" report unique_line report_there

fetch_there : get_by_id line "fetch" ≡ some fetch
unfolding get_by_id
fetch_there = refl

resume_job-pause_job_example :
    let out = resume_job "t" (pause_job (opened line) "fetch").0 "fetch" in
    (out.0.jobs ≡ put_job "fetch" (stamp_schedule_change "t" fetch) line)
    × (out.0.file ≡ out.0.jobs)
resume_job-pause_job_example =
    resume_job-pause_job "t" (opened line) "fetch" fetch fetch_there refl refl

-- A name of spaces is stored as the empty name, with which a row is not read back.
blank_name :
    (let out =
        update_job python "t" (opened (alarm ∷ [])) "alarm" (field "name" (Json.str "  ") end) in
      out.0.file ≡ record alarm { name = "" } ∷ [])
    × (job_from_dict python
          (field "id" (Json.str "alarm") (field "script_path" (Json.str "alarm.py") end))
        ≡ err (malformed "job name is required"))
unfolding update_job job_from_dict
blank_name = (refl, refl)
