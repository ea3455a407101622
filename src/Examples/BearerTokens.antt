-- ===== src/Examples/BearerTokens.antt =====
-- The theorems on src/api_tokens.py with a toy hash in place of SHA-256.
use Prim.Native.String.{◌++◌ as append}
use mathlib.Core.List.{Memᴰ}
use app_launcher_lite.Prelude.{
  ◌≢◌, String, ◌==◌, ◌≡◌, ◌↔◌, refl, true, some, none, List, [], ◌∷◌, ◌++◌,
}
use app_launcher_lite.Tokens.{
  Library, Fields, Row, dict, not_a_dict, everything, jobs, mint_token, parse_tokens, find_match,
  first_match, is_token, is_in, scope_rejection,
}
use app_launcher_lite.Tokens.Matching.{IsUsable, find_match_lem, find_match-mint_token}
use app_launcher_lite.Tokens.Scopes.{RunPath, scope_rejection_lem}

abbrev toy : Library
toy = record { sha256 = λ salt raw. append salt raw; is_hex = λ s. s == "ab"; upper = λ s. s }

abbrev button : Fields
button = record {
  id = "tok-1";
  label = "deck";
  salt = "ab";
  hash = "absecret";
  scope = jobs ("backup" ∷ []);
  created_at = "";
  last_used_at = "";
}

abbrev rows : List Row
rows = not_a_dict ∷ dict button ∷ []

find_match_lem_example :
    ((t : Fields)
      → find_match toy "secret" rows ≡ some t
      → Memᴰ (dict t) rows × IsUsable toy t × (append t.salt "secret" ≡ t.hash))
    × (find_match toy "secret" rows ≡ none
        → (t : Fields) → Memᴰ (dict t) rows
        → IsUsable toy t
        → append t.salt "secret" ≢ t.hash)
find_match_lem_example = find_match_lem toy "secret" rows refl

unknown : find_match toy "fresh" rows ≡ none
unfolding find_match first_match parse_tokens is_token
unknown = refl

find_match-mint_token_example :
    let t = mint_token toy "phone" everything "fresh" "ab" "2" "now" in
    find_match toy "fresh" (rows ++ dict t ∷ []) ≡ some t
find_match-mint_token_example =
    find_match-mint_token toy rows "phone" everything "fresh" "ab" "2" "now" refl refl refl refl
      refl unknown

scope_rejection_lem_example : (scope_rejection toy button "POST" "/api/jobs/backup/run" ≡ none) ↔ (
    (i : String) × RunPath "/api/jobs/backup/run" i
    × ((toy.upper "POST" == "POST") ≡ true)
    × (is_in i ("backup" ∷ []) ≡ true))
scope_rejection_lem_example =
    scope_rejection_lem toy button "POST" "/api/jobs/backup/run" ("backup" ∷ []) refl
