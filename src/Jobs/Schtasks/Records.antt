-- ===== src/Jobs/Schtasks/Records.antt =====
-- src/jobs/schtasks.py: the bulk query of the tasks, its cache, and what is read from it.
use Prim.Native.Char.{Char, code}
use app_launcher_lite.Prelude.{
  ℕ, ◌-◌, ◌*◌, ltb, String, ◌==◌, Bool, true, false, not, ◌&&◌, ◌||◌, Option, none, some, is_some,
  List, [], ◌∷◌, eqb, if◌then◌else◌,
}
use app_launcher_lite.Prelude.Dict
use app_launcher_lite.Prelude.Dict.{Dict}
use app_launcher_lite.Prelude.Member.{member}
use app_launcher_lite.Prelude.Texts.{partition, splitlines, drop_right, sort_texts}
use app_launcher_lite.Jobs.Trigger.{after_prefix}
use app_launcher_lite.Jobs.History.{second, head_of}
use app_launcher_lite.Jobs.Registry.Python.{Python, strip, is_space}
use app_launcher_lite.Jobs.Schtasks.State.{Proc, TaskRecord, Tasks}
use app_launcher_lite.Jobs.Schtasks.Tasks.{Install, task_folder_prefix, owns_task}
use app_launcher_lite.Jobs.Schtasks.Sync.{execute}

-- A letter of a pattern under IGNORECASE: the two ASCII cases, and what folds to one of them.
abbrev pub folds_to : ℕ → ℕ → Char → Bool
folds_to low special c = eqb (code c) low || eqb (code c) (low - 32) || eqb (code c) special

-- The letters of `TaskName`, each with the character outside ASCII that folds to it, if any.
abbrev pub task_name_key : List (ℕ × ℕ)
task_name_key =
    (116, 116)
    ∷ (97, 97)
    ∷ (115, 383)
    ∷ (107, 8490)
    ∷ (110, 110)
    ∷ (97, 97)
    ∷ (109, 109)
    ∷ (101, 101)
    ∷ []

-- _TASK_NAME_RE.match(line) of a line with no space at its end: a value stands behind the colon.
unfoldable pub starts_task : List (ℕ × ℕ) → String → Bool
starts_task [] String.[] = false
starts_task [] (String.◌∷◌ c s) = eqb (code c) 58 && not (s == "")
starts_task ((low, special) ∷ key) String.[] = false
starts_task ((low, special) ∷ key) (String.◌∷◌ c s) =
    let rest = starts_task key s in folds_to low special c && rest

abbrev pub or_empty : Option String → String
or_empty none = ""
or_empty (some s) = s

-- `_STATE_KEYS`, `_DISABLED_WORDS` and `_ENABLED_WORDS`
abbrev pub state_of_word : String → Option Bool
state_of_word word =
    if word == "DISABLED"
    then some false
    else if member word ("ENABLED" ∷ "READY" ∷ "RUNNING" ∷ "QUEUED" ∷ [])
    then some true
    else none

abbrev pub state_word : Python → Dict String → String → Option Bool
state_word py b key = state_of_word (py.upper (strip (or_empty (Dict.get key b))))

-- The first of the two keys that states it.
unfoldable pub enabled_of : Python → Dict String → Option Bool
unfolding strip member Dict.get
enabled_of py b = elim (state_word py b "Scheduled Task State") [
  | none ↦ state_word py b "Status"
  | some e ↦ some e
]

unfoldable pub next_run_of : Python → Dict String → Option String
unfolding strip Dict.get
next_run_of py b =
    let next_run = strip (or_empty (Dict.get "Next Run Time" b)) in
    if (next_run == "") || (py.upper next_run == "N/A") || (py.upper next_run == "DISABLED")
    then none
    else some next_run

-- `commit`
unfoldable pub commit : Python → String → Dict String → Dict TaskRecord → Dict TaskRecord
unfolding enabled_of next_run_of strip Dict.get after_prefix Dict.put
commit py prefix b out =
    let name = strip (or_empty (Dict.get "TaskName" b)) in
    if is_some (after_prefix prefix name)
    then Dict.put name (record { next_run = next_run_of py b; enabled = enabled_of py b }) out
    else out

-- block[key.strip()] = value.strip()
unfoldable pub add_line : String → Dict String → Dict String
unfolding partition strip Dict.put
add_line line block = elim (partition ":" line) [
  | none ↦ block
  | some (key, value) ↦ Dict.put (strip key) (strip value) block
]

abbrev pub is_open : Dict String → Bool
is_open [] = false
is_open (_ ∷ _) = true

-- block.get("TaskName")
abbrev pub has_name : Dict String → Bool
has_name block = not (or_empty (Dict.get "TaskName" block) == "")

-- The loop of `_parse_bulk_records` over the lines.
unfoldable pub parse_lines :
    Python → String → List String → Dict String → Dict TaskRecord → Dict TaskRecord
unfolding commit starts_task add_line drop_right is_space Dict.get
parse_lines py prefix [] block out = if is_open block then commit py prefix block out else out
parse_lines py prefix (raw ∷ lines) block out =
    let line = drop_right is_space raw in
    let ends = (starts_task task_name_key line && has_name block) in
    let close = if line == "" then is_open block else ends in
    parse_lines py prefix lines
      (if line == "" then [] else add_line line (if ends then [] else block))
      (if close then commit py prefix block out else out)

-- `_parse_bulk_records`
unfoldable pub parse_bulk_records : Python → String → String → Dict TaskRecord
unfolding parse_lines splitlines
parse_bulk_records py prefix stdout = parse_lines py prefix (splitlines stdout) [] []

abbrev pub bulk_argv : List String
bulk_argv = "schtasks" ∷ "/Query" ∷ "/FO" ∷ "LIST" ∷ "/V" ∷ []

unfoldable pub records_of : Python → String → Proc → Option (Dict TaskRecord)
unfolding parse_bulk_records
records_of py prefix p =
    if not p.succeeded || (p.stdout == "")
    then none
    else some (parse_bulk_records py prefix p.stdout)

-- `_NEXT_RUN_TTL_SECONDS`
abbrev pub next_run_ttl : ℕ
next_run_ttl = 30 * second

-- [record["enabled"] for ...], and of `next_run`
unfoldable pub states_of : Dict TaskRecord → Dict (Option Bool)
states_of [] = []
states_of ((name, r) ∷ d) = (name, r.enabled) ∷ states_of d

module _ {S : Type 0} (i : Install) (py : Python) (run : S → List String → Proc × S) where
  -- `_bulk_records`
  unfoldable pub bulk_records : Tasks S → Option (Dict TaskRecord) × Tasks S
  unfolding execute records_of task_folder_prefix
  bulk_records t =
      let (p, t') = execute i py run t bulk_argv in (records_of py (task_folder_prefix i) p, t')

  unfoldable pub refreshed : ℕ → Tasks S → Option (Dict TaskRecord) × Tasks S
  unfolding bulk_records
  refreshed now t =
      let (fresh, t') = bulk_records t in (fresh, record t' { next_run_cache = some (now, fresh) })

  abbrev pub from_cache :
      Option (ℕ × Option (Dict TaskRecord)) → ℕ → Tasks S → Option (Dict TaskRecord) × Tasks S
  from_cache none now t = refreshed now t
  from_cache (some (ts, snapshot)) now t =
      if ltb (now - ts) next_run_ttl then (snapshot, t) else refreshed now t

  -- `_cached_bulk_records`, at the monotonic instant `now`.
  unfoldable pub cached_bulk_records : ℕ → Tasks S → Option (Dict TaskRecord) × Tasks S
  unfolding refreshed
  cached_bulk_records now t = from_cache t.next_run_cache now t

  -- `registered_task_states`
  unfoldable pub registered_task_states : ℕ → Tasks S → Option (Dict (Option Bool)) × Tasks S
  unfolding cached_bulk_records states_of
  registered_task_states now t =
      let (snapshot, t') = cached_bulk_records now t in
      (elim snapshot [ none ↦ none | some d ↦ some (states_of d) ], t')

  -- The loop of `query_next_run`.
  unfoldable pub next_runs : String → List String → Dict TaskRecord → List String
  unfolding owns_task
  next_runs job_id others [] = []
  next_runs job_id others ((name, r) ∷ d) =
      let rest = next_runs job_id others d in
      if owns_task i py.is_digit name job_id others && not (or_empty r.next_run == "")
      then or_empty r.next_run ∷ rest
      else rest

  -- `_cached_bulk_next_runs` and `query_next_run`
  unfoldable pub query_next_run : ℕ → Tasks S → String → List String → Option String × Tasks S
  unfolding cached_bulk_records next_runs sort_texts
  query_next_run now t job_id others =
      let (snapshot, t') = cached_bulk_records now t in
      (
        elim snapshot [ none ↦ none | some d ↦ head_of (sort_texts (next_runs job_id others d)) ],
        t',
      )
