-- ===== src/Tokens/Scopes.antt =====
-- What a job-scoped token of src/api_tokens.py may call.
use Prim.Native.String.{◌++◌ as append}
use Prim.Native.Char.{Char}
use mathlib.Core.Bool.{true≢false}
use mathlib.Core.Option.{some-injective}
use text.Mathlib.TextLemmas.{nil-append, cons-append}
use app_launcher_lite.Prelude.{
  String, ◌==◌, ◌≡◌, ◌≢◌, ◌⊎◌, eq_iff, ◌↔◌, refl, ◌∙◌, ap, sym, subst, Bool, true, false, not, ◌&&◌,
  some, none, Option, List, Bool-cases, inl, inr, if◌then◌else◌, arith,
}
use app_launcher_lite.Jobs.Trigger.Laws.{after_prefix-append}
use app_launcher_lite.Jobs.Trigger.{after_prefix}
use app_launcher_lite.Jobs.Schtasks.Ownership.{append-after_prefix}
use app_launcher_lite.Tokens.{
  Library, Fields, scoped_job_ids, split_slash, job_segment, verdict, run_path, is_in,
  scope_rejection, wrong_job,
}

-- No slash stands in the text.
unfoldable pub no_slash : String → Bool
no_slash String.[] = true
no_slash (String.◌∷◌ c s) = not (String.◌∷◌ c String.[] == "/") && no_slash s

and_left : (a b : Bool) → (a && b) ≡ true → a ≡ true
and_left true b h = refl
and_left false b h = h

and_right : (a b : Bool) → (a && b) ≡ true → b ≡ true
and_right true b h = h
and_right false b h = cc

behind :
    (c : Char) (s tail : String) (r : String × String)
    → not (String.◌∷◌ c String.[] == "/") ≡ true
    → r ≡ (s, append "/" tail)
    → let split : String × String =
        if String.◌∷◌ c String.[] == "/"
        then ("", String.◌∷◌ c (append s (append "/" tail)))
        else (String.◌∷◌ c r.0, r.1) in
      split ≡ (String.◌∷◌ c s, append "/" tail)
behind c s tail r n e = elim (Bool-cases (String.◌∷◌ c String.[] == "/")) [
  | inl on ↦ absurd (true≢false (sym n ∙ ap not on))
  | inr off ↦ rw off (ap (λ (x : String × String). (String.◌∷◌ c x.0, x.1)) e)
]

split_here : (tail : String) → split_slash (append "/" tail) ≡ ("", append "/" tail)
unfolding split_slash
split_here tail =
    ap split_slash (cons-append "/" "" tail) ∙ ap (λ x. ("", x)) (sym (cons-append "/" "" tail))

split_slash-append :
    (i tail : String)
    → no_slash i ≡ true
    → split_slash (append i (append "/" tail)) ≡ (i, append "/" tail)
unfolding no_slash split_slash
split_slash-append String.[] tail h =
    ap split_slash (nil-append (append "/" tail)) ∙ split_here tail
split_slash-append (String.◌∷◌ c s) tail h =
    ap split_slash (cons-append c s (append "/" tail))
    ∙ behind c s tail (split_slash (append s (append "/" tail))) (and_left _ _ h)
        (split_slash-append s tail (and_right _ _ h))

-- The run path of a job, whose id is not empty and has no slash, names that job.
pub run_path-job :
    (i : String)
    → (i == "") ≡ false
    → no_slash i ≡ true
    → run_path (append "/api/jobs/" (append i "/run")) ≡ some i
unfolding run_path job_segment
run_path-job i ne h =
    ap job_segment (after_prefix-append "/api/jobs/" (append i "/run"))
    ∙ rw (split_slash-append i "run" h, ne) refl

decided :
    (allowed : List String) (job : Option String) (post : Bool)
    → (verdict (some allowed) job post ≡ none)
      ↔ ((i : String) × (job ≡ some i) × (post ≡ true) × (is_in i allowed ≡ true))
unfolding verdict
decided allowed none post = (λ e. cc, λ x. cc)
decided allowed (some i) false = (λ e. cc, λ x. cc)
decided allowed (some i) true = (
  λ e. (i, refl, refl, let_through e),
  λ x.
      let (j, same, on, there) = x in
      passes (subst (λ k. is_in k allowed ≡ true) (sym (some-injective i j same)) there),
)
  where
    let_through :
        (if is_in i allowed then none else some (wrong_job i)) ≡ none → is_in i allowed ≡ true
    let_through e = ground arith

    passes : is_in i allowed ≡ true → (if is_in i allowed then none else some (wrong_job i)) ≡ none
    passes h = rw h refl

joined : (c : Char) (s a b : String) → append a b ≡ s → append (String.◌∷◌ c a) b ≡ String.◌∷◌ c s
joined c s a b e = cons-append c a b ∙ ap (String.◌∷◌ c) e

-- The two parts of a split make up the text, and no slash stands in the first.
split_slash-parts :
    (s : String)
    → (append (split_slash s).0 (split_slash s).1 ≡ s) × (no_slash (split_slash s).0 ≡ true)
unfolding split_slash no_slash
split_slash-parts String.[] = (nil-append "", refl)
split_slash-parts (String.◌∷◌ c s) = elim (Bool-cases (String.◌∷◌ c String.[] == "/")) [
  | inl on ↦ rw on (nil-append (String.◌∷◌ c s), refl)
  | inr off ↦ rw off (
    joined c s (split_slash s).0 (split_slash s).1 (split_slash-parts s).0,
    rw off (split_slash-parts s).1,
  )
]

-- The path is `/api/jobs/<i>/run`, with or without a last line feed, of an id that is not empty
-- and has no slash.
abbrev pub RunPath : String → String → Type 0
RunPath path i =
    ((path ≡ append "/api/jobs/" (append i "/run"))
      ⊎ (path ≡ append "/api/jobs/" (append i "/run\n")))
    × (i ≢ "")
    × (no_slash i ≡ true)

job_segment-some :
    (s i : String)
    → job_segment (some s) ≡ some i
    → ((s ≡ append i "/run") ⊎ (s ≡ append i "/run\n")) × (i ≢ "") × (no_slash i ≡ true)
unfolding job_segment
job_segment-some s i e =
    let (whole, bare) = split_slash-parts s in
    let same : (split_slash s).0 ≡ i = ground (arith, e) in
    (
      elim (Bool-cases ((split_slash s).1 == "/run")) [
        | inl plain ↦ inl (
            sym whole
            ∙ ap (λ x. append x (split_slash s).1) same
            ∙ ap (append i) ((eq_iff _ "/run").0 plain))
        | inr other ↦
            let fed : ((split_slash s).1 == "/run\n") ≡ true = ground (arith, e, other) in
            inr (
              sym whole
              ∙ ap (λ x. append x (split_slash s).1) same
              ∙ ap (append i) ((eq_iff _ "/run\n").0 fed))
      ],
      λ empty. true≢false (sym ((eq_iff i "").1 empty) ∙ ground (arith, e, ap (λ x. x == "") same)),
      subst (λ x. no_slash x ≡ true) same bare,
    )

behind_prefix-RunPath :
    (path i : String) (o : Option String)
    → after_prefix "/api/jobs/" path ≡ o
    → job_segment o ≡ some i
    → RunPath path i
unfolding job_segment
behind_prefix-RunPath path i none f g = cc
behind_prefix-RunPath path i (some s) f g =
    let (shape, named, bare) = job_segment-some s i g in
    let front = append-after_prefix "/api/jobs/" path s f in
    (
      elim shape [
        | inl plain ↦ inl (front ∙ ap (append "/api/jobs/") plain)
        | inr fed ↦ inr (front ∙ ap (append "/api/jobs/") fed)
      ],
      named,
      bare,
    )

run_path-RunPath : (path i : String) → run_path path ≡ some i → RunPath path i
unfolding run_path
run_path-RunPath path i e = behind_prefix-RunPath path i (after_prefix "/api/jobs/" path) refl e

not_empty : (i : String) → i ≢ "" → (i == "") ≡ false
not_empty i ne = elim (Bool-cases (i == "")) [ inl e ↦ absurd (ne ((eq_iff i "").0 e)) | inr e ↦ e ]

RunPath-run_path : (path i : String) → RunPath path i → run_path path ≡ some i
unfolding run_path job_segment
RunPath-run_path path i (shape, named, bare) = elim shape [
  | inl plain ↦ ap run_path plain ∙ run_path-job i (not_empty i named) bare
  | inr fed ↦
      ap run_path fed
      ∙ ap job_segment (after_prefix-append "/api/jobs/" (append i "/run\n"))
      ∙ rw (split_slash-append i "run\n" bare, not_empty i named) refl
]

-- A token scoped to jobs is let through exactly if the method is POST and the path is /api/jobs/,
-- the id of a job in its scope, which is not empty and has no slash, and /run, with or without a
-- last line feed.
pub scope_rejection_lem :
    (lib : Library) (t : Fields) (method path : String) (allowed : List String)
    → scoped_job_ids t ≡ some allowed
    → (scope_rejection lib t method path ≡ none) ↔ (
        (i : String) × RunPath path i
        × ((lib.upper method == "POST") ≡ true)
        × (is_in i allowed ≡ true))
unfolding scope_rejection
scope_rejection_lem lib t method path allowed e =
    subst
      (λ (o : Option (List String)).
        (verdict o (run_path path) (lib.upper method == "POST") ≡ none) ↔ (
          (i : String) × RunPath path i
          × ((lib.upper method == "POST") ≡ true)
          × (is_in i allowed ≡ true)))
      (sym e)
      (
        λ h.
            (let (i, found, post, there) = (decided allowed (run_path path) _).0 h in
              (i, run_path-RunPath path i found, post, there)),
        λ (i, shape, post, there).
            (decided allowed (run_path path) _).1 (i, RunPath-run_path path i shape, post, there),
      )
