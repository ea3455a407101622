-- ===== src/Tokens.antt =====
-- src/api_tokens.py: scoped bearer tokens. The salted SHA-256, the test of `bytes.fromhex` and
-- `str.upper` are the standard library's, so they are parameters.
pub mod Matching
pub mod Scopes
use Prim.Native.String.{◌++◌ as append}
use app_launcher_lite.Prelude.{
  String, ◌==◌, Bool, true, false, not, ◌&&◌, ◌||◌, Option, none, some, List, [], ◌∷◌,
  if◌then◌else◌,
}
use app_launcher_lite.Jobs.Trigger.{after_prefix}

pub record Library : Type 0 where
  pub sha256 : String → String → String
  pub is_hex : String → Bool
  pub upper : String → String

-- The scope of a row: `"*"`, a dict with a list of jobs, or anything else.
pub data Scope : Type 0 where
  everything : Scope
  jobs : List String → Scope
  malformed : Scope

-- A row of the config's list: a dict, with the texts of `str(row.get(…) or "")`, or anything else.
pub record Fields : Type 0 where
  pub id : String
  pub label : String
  pub salt : String
  pub hash : String
  pub scope : Scope
  pub created_at : String
  pub last_used_at : String

pub data Row : Type 0 where
  dict : Fields → Row
  not_a_dict : Row

-- `_hash_token`
abbrev pub hash_token : Library → String → String → String
hash_token lib raw salt = lib.sha256 salt raw

-- `mint_token`, from the random texts it draws and the instant's text: the record's fields.
unfoldable pub mint_token : Library → String → Scope → String → String → String → String → Fields
mint_token lib label scope raw salt suffix now = record {
  id = append "tok-" suffix;
  label = label;
  salt = salt;
  hash = hash_token lib raw salt;
  scope = scope;
  created_at = now;
  last_used_at = "";
}

abbrev pub well_scoped : Scope → Bool
well_scoped malformed = false
well_scoped _ = true

-- The rows that `parse_tokens` keeps.
unfoldable pub is_token : Library → Fields → Bool
is_token lib f =
    not (f.id == "" || f.salt == "" || f.hash == "") && well_scoped f.scope && lib.is_hex f.salt

-- `parse_tokens`; a kept row is its token.
unfoldable pub parse_tokens : Library → List Row → List Fields
parse_tokens lib [] = []
parse_tokens lib (not_a_dict ∷ rows) = parse_tokens lib rows
parse_tokens lib (dict f ∷ rows) =
    let rest = parse_tokens lib rows in if is_token lib f then f ∷ rest else rest

-- `constant_time_equals` of the presented token's hash and the stored one
abbrev pub matches : Library → String → Fields → Bool
matches lib presented t = hash_token lib presented t.salt == t.hash

-- The loop of `find_match`.
unfoldable pub first_match : Library → String → List Fields → Option Fields
first_match lib presented [] = none
first_match lib presented (t ∷ tokens) =
    if matches lib presented t then some t else first_match lib presented tokens

-- `find_match`
unfoldable pub find_match : Library → String → List Row → Option Fields
unfolding first_match parse_tokens
find_match lib presented rows =
    if presented == "" then none else first_match lib presented (parse_tokens lib rows)

-- `scoped_job_ids`
abbrev pub scoped_job_ids : Fields → Option (List String)
scoped_job_ids t = elim t.scope [ everything ↦ none | jobs ids ↦ some ids | malformed ↦ some [] ]

-- A text up to its first slash, and the rest from the slash on.
unfoldable pub split_slash : String → String × String
split_slash String.[] = ("", "")
split_slash (String.◌∷◌ c s) =
    let (segment, rest) = split_slash s in
    if String.◌∷◌ c String.[] == "/" then ("", String.◌∷◌ c s) else (String.◌∷◌ c segment, rest)

-- What `_RUN_PATH_RE` asks behind the prefix. `$` also matches before a last line feed.
unfoldable pub job_segment : Option String → Option String
unfolding split_slash
job_segment none = none
job_segment (some s) =
    let (job_id, rest) = split_slash s in
    if not (job_id == "") && (rest == "/run" || rest == "/run\n") then some job_id else none

-- `_RUN_PATH_RE.match`: the job id.
unfoldable pub run_path : String → Option String
unfolding job_segment
run_path path = job_segment (after_prefix "/api/jobs/" path)

unfoldable pub is_in : String → List String → Bool
is_in x [] = false
is_in x (y ∷ ys) = y == x || is_in x ys

-- Why a request is rejected: the messages of `scope_rejection`.
pub data Rejection : Type 0 where
  wrong_endpoint : Rejection
  wrong_job : String → Rejection

-- The verdict on the job of a path, for the allowed jobs and whether the method is POST.
unfoldable pub verdict : Option (List String) → Option String → Bool → Option Rejection
unfolding is_in
verdict none job post = none
verdict (some allowed) none post = some wrong_endpoint
verdict (some allowed) (some job_id) post =
    if not post
    then some wrong_endpoint
    else if is_in job_id allowed
    then none
    else some (wrong_job job_id)

-- `scope_rejection`
unfoldable pub scope_rejection : Library → Fields → String → String → Option Rejection
unfolding run_path verdict
scope_rejection lib t method path =
    verdict (scoped_job_ids t) (run_path path) (lib.upper method == "POST")

-- `touch_last_used`: whether a row was updated, and the rows.
unfoldable pub touch_last_used : String → String → List Row → Bool × List Row
touch_last_used now token_id [] = (false, [])
touch_last_used now token_id (not_a_dict ∷ rows) =
    let (found, rest) = touch_last_used now token_id rows in (found, not_a_dict ∷ rest)
touch_last_used now token_id (dict f ∷ rows) =
    let (found, rest) = touch_last_used now token_id rows in
    if f.id == token_id
    then (true, dict (record f { last_used_at = now }) ∷ rows)
    else (found, dict f ∷ rest)
