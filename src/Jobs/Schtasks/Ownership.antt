-- ===== src/Jobs/Schtasks/Ownership.antt =====
-- No task of the scheduler belongs to two jobs, by `owns_task` of src/jobs/schtasks.py.
use Prim.Native.Char.{Char, code}
use Prim.Native.String.{◌++◌ as append}
use text.Mathlib.TextEquality.{Char-path}
use text.Mathlib.TextLemmas.{
  nil-append, cons-append, append_cancel_left, append_assoc, head-eq_of_cons-eq, tail-eq_of_cons-eq,
}
use app_launcher_lite.Prelude.{
  String, ◌==◌, ◌≡◌, refl, sym, ap, ◌∙◌, Bool, true, false, not, Option, none, some, is_some, List,
  [], ◌∷◌, map, eq_iff, inl, inr, Bool-cases, if◌then◌else◌, arith,
}
use app_launcher_lite.Prelude.Member.{member}
use app_launcher_lite.Jobs.Trigger.{after_prefix}
use app_launcher_lite.Jobs.Trigger.Laws.{after_prefix-append}
use app_launcher_lite.Jobs.Job.{Job}
use app_launcher_lite.Jobs.Registry.{ids}
use app_launcher_lite.Jobs.Registry.Python.{is_char}
use app_launcher_lite.Jobs.Schtasks.Tasks.{
  Install, base_name, task_folder_prefix, digits_only, is_slot_suffix, is_slot, owns_task,
  other_ids, other_job_ids,
}

-- `after_prefix` answers what stands behind the prefix.
pub append-after_prefix : (p s rest : String) → after_prefix p s ≡ some rest → s ≡ append p rest
unfolding after_prefix
append-after_prefix String.[] s rest e = let h : s ≡ rest = cc in h ∙ sym (nil-append rest)
append-after_prefix (String.◌∷◌ c p) String.[] rest e = cc
append-after_prefix (String.◌∷◌ c p) (String.◌∷◌ d s) rest e =
    elim (Bool-cases (String.◌∷◌ c String.[] == String.◌∷◌ d String.[])) [
      | inl same ↦
          let cd : c ≡ d = head-eq_of_cons-eq ((eq_iff _ _).0 same) in
          let tail : s ≡ append p rest = append-after_prefix p s rest (rw same at e) in
          rw (cd, tail) (sym (cons-append d p rest))
      | inr differs ↦ absurd (cc (rw differs at e))
    ]

module _ (digit : Char → Bool) (no_dash : digit "-" ≡ false) where
  dash : (c : Char) → is_char "-" c ≡ true → digit c ≡ false
  dash c e = let h : code c ≡ code "-" = ground arith in ap digit (Char-path c "-" h) ∙ no_dash

  dash_first : (rest : String) → is_slot_suffix digit rest ≡ true → digits_only digit rest ≡ false
  unfolding is_slot_suffix digits_only
  dash_first String.[] e = cc
  dash_first (String.◌∷◌ c String.[]) e = cc
  dash_first (String.◌∷◌ c (String.◌∷◌ d s)) e = ground (arith, dash c)

  dash_inside :
      (b rest : String)
      → is_slot_suffix digit rest ≡ true
      → digits_only digit (append b rest) ≡ false
  unfolding digits_only
  dash_inside String.[] rest e = ap (digits_only digit) (nil-append rest) ∙ dash_first rest e
  dash_inside (String.◌∷◌ c b) rest e =
      ap (digits_only digit) (cons-append c b rest) ∙ ground (arith, dash_inside b rest e)

  -- A slot does not begin before another slot.
  not_longer :
      (c : Char) (b ra rb : String)
      → ra ≡ String.◌∷◌ c (append b rb)
      → is_slot_suffix digit ra ≡ true
      → is_slot_suffix digit rb ≡ true
      → ⊥
  unfolding is_slot_suffix
  not_longer c b String.[] rb e p q = cc
  not_longer c b (String.◌∷◌ d String.[]) rb e p q = cc
  not_longer c b (String.◌∷◌ d (String.◌∷◌ x s)) rb e p q =
      let tail : String.◌∷◌ x s ≡ append b rb = tail-eq_of_cons-eq e in
      ground (arith, ap (digits_only digit) tail, dash_inside b rb q)

  pub same_base :
      (a b ra rb : String)
      → append a ra ≡ append b rb
      → is_slot_suffix digit ra ≡ true
      → is_slot_suffix digit rb ≡ true
      → a ≡ b
  same_base String.[] String.[] ra rb e p q = refl
  same_base String.[] (String.◌∷◌ c b) ra rb e p q =
      absurd (not_longer c b ra rb (sym (nil-append ra) ∙ e ∙ cons-append c b rb) p q)
  same_base (String.◌∷◌ c a) String.[] ra rb e p q =
      absurd (not_longer c a rb ra (sym (nil-append rb) ∙ sym e ∙ cons-append c a ra) q p)
  same_base (String.◌∷◌ c a) (String.◌∷◌ d b) ra rb e p q =
      let f : String.◌∷◌ c (append a ra) ≡ String.◌∷◌ d (append b rb) =
        sym (cons-append c a ra) ∙ e ∙ cons-append d b rb in
      rw (head-eq_of_cons-eq f, same_base a b ra rb (tail-eq_of_cons-eq f) p q) refl

-- What `owns_task` says of a name: it is the bare task, or a slot that is no other job's bare task.
pub data Owned (i : Install) (digit : Char → Bool) (name id : String) (others : List String)
    : Type 0 where
  bare : name ≡ base_name i id → Owned i digit name id others
  slot :
      (rest : String)
      → name ≡ append (base_name i id) rest
      → is_slot_suffix digit rest ≡ true
      → member name (map (base_name i) others) ≡ false
      → Owned i digit name id others

pub owns_task-Owned :
    (i : Install) (digit : Char → Bool) (name id : String) (others : List String)
    → owns_task i digit name id others ≡ true
    → Owned i digit name id others
unfolding owns_task
owns_task-Owned i digit name id others e = elim (Bool-cases (name == base_name i id)) [
  | inl same ↦ bare ((eq_iff _ _).0 same)
  | inr differs ↦ go (after_prefix (base_name i id) name) refl (rw differs at e)
]
  where
    go :
        (o : Option String)
        → after_prefix (base_name i id) name ≡ o
        → (if not (is_slot digit o) then false else not (member name (map (base_name i) others)))
          ≡ true
        → Owned i digit name id others
    go none f h = absurd (cc h)
    go (some rest) f h =
        slot rest (append-after_prefix (base_name i id) name rest f) (ground arith) (ground arith)

-- An owned task stands in the folder of the tasks.
pub Owned-prefixed :
    (i : Install) (digit : Char → Bool) (name id : String) (others : List String)
    → Owned i digit name id others
    → is_some (after_prefix (task_folder_prefix i) name) ≡ true
unfolding base_name
Owned-prefixed i digit name id others (bare e) =
    ap (λ s. is_some (after_prefix (task_folder_prefix i) s)) e
    ∙ ap is_some (after_prefix-append (task_folder_prefix i) id)
Owned-prefixed i digit name id others (slot rest e p free) =
    ap (λ s. is_some (after_prefix (task_folder_prefix i) s))
      (e ∙ append_assoc (task_folder_prefix i) id rest)
    ∙ ap is_some (after_prefix-append (task_folder_prefix i) (append id rest))

member-map :
    (i : Install) (k : String) (xs : List String)
    → member k xs ≡ true
    → member (base_name i k) (map (base_name i) xs) ≡ true
unfolding member
member-map i k [] e = cc
member-map i k (x ∷ xs) e = elim (Bool-cases (x == k)) [
  | inl same ↦
      let p : base_name i x ≡ base_name i k = ap (base_name i) ((eq_iff x k).0 same) in
      rw ((eq_iff (base_name i x) (base_name i k)).1 p) refl
  | inr differs ↦ ground (arith, member-map i k xs)
]

pub member-other_ids :
    (a b : String) (xs : List String)
    → member a xs ≡ true
    → (a == b) ≡ false
    → member a (other_ids b xs) ≡ true
unfolding member other_ids
member-other_ids a b [] e ne = cc
member-other_ids a b (x ∷ xs) e ne =
    ground (arith, member-other_ids a b xs, eq_iff x a, eq_iff x b, eq_iff a b)

module _ (i : Install) (digit : Char → Bool) (no_dash : digit "-" ≡ false) where
  base_name-injective : (a b : String) → base_name i a ≡ base_name i b → a ≡ b
  unfolding base_name
  base_name-injective a b e = append_cancel_left (task_folder_prefix i) a b e

  -- A registered job's bare task is no slot of another.
  bare_slot :
      (jobs : List Job) (a b name : String)
      → member a (ids jobs) ≡ true
      → name ≡ base_name i a
      → member name (map (base_name i) (other_job_ids (some jobs) b)) ≡ false
      → a ≡ b
  unfolding other_job_ids
  bare_slot jobs a b name known e free = elim (Bool-cases (a == b)) [
    | inl same ↦ (eq_iff a b).0 same
    | inr differs ↦
        let in_map : member (base_name i a) (map (base_name i) (other_ids b (ids jobs))) ≡ true =
          member-map i a (other_ids b (ids jobs)) (member-other_ids a b (ids jobs) known differs) in
        absurd (cc (in_map, rw e at free))
  ]

  Owned-unique :
      (jobs : List Job) (a b name : String)
      → member a (ids jobs) ≡ true
      → member b (ids jobs) ≡ true
      → Owned i digit name a (other_job_ids (some jobs) a)
      → Owned i digit name b (other_job_ids (some jobs) b)
      → a ≡ b
  unfolding base_name
  Owned-unique jobs a b name ka kb (bare e) (bare f) = base_name-injective a b (sym e ∙ f)
  Owned-unique jobs a b name ka kb (bare e) (slot r f q free) = bare_slot jobs a b name ka e free
  Owned-unique jobs a b name ka kb (slot r f q free) (bare e) =
      sym (bare_slot jobs b a name kb e free)
  Owned-unique jobs a b name ka kb (slot r e p free) (slot s f q free') =
      let prefix = task_folder_prefix i in
      same_base digit no_dash a b r s
        (append_cancel_left prefix (append a r) (append b s)
          (sym (append_assoc prefix a r) ∙ sym e ∙ f ∙ append_assoc prefix b s))
        p q

-- If the dash is no digit, no task of the scheduler is owned by two registered jobs, when each is
-- asked with the ids of all the others.
pub owns_task_unique :
    (i : Install) (digit : Char → Bool) (jobs : List Job) (a b name : String)
    → digit "-" ≡ false
    → member a (ids jobs) ≡ true
    → member b (ids jobs) ≡ true
    → owns_task i digit name a (other_job_ids (some jobs) a) ≡ true
    → owns_task i digit name b (other_job_ids (some jobs) b) ≡ true
    → a ≡ b
owns_task_unique i digit jobs a b name no_dash ka kb p q =
    Owned-unique i digit no_dash jobs a b name ka kb
      (owns_task-Owned i digit name a (other_job_ids (some jobs) a) p)
      (owns_task-Owned i digit name b (other_job_ids (some jobs) b) q)
