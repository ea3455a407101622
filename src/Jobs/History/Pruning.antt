-- ===== src/Jobs/History/Pruning.antt =====
-- `prune_runs` of src/jobs/history.py: which runs survive, and how many.
use mathlib.Core.Option.{some-injective}
use app_launcher_lite.Prelude.{
  Option-cases, inl, inr, subst, sym, ◌⊎◌, ℕ, suc, ◌+◌, ◌-◌, String, ◌≡◌, refl, ap, ◌∙◌, true,
  false, none, some, [], ◌∷◌, if◌then◌else◌, arith, eq_iff, eq_refl, length, is_some,
}
use app_launcher_lite.Prelude.Dict.{
  Dict, get, del, NodupKeys, get-del_ne, get-del_self, del-NodupKeys,
}
use app_launcher_lite.Jobs.Record.{Run, truthy}
use app_launcher_lite.Jobs.World.{World, Host, runs_of, set_runs}
use app_launcher_lite.Jobs.History.{
  name_le, insert_desc, sort_desc, unpinned, drop, remove_all, prune_runs,
}
use app_launcher_lite.Jobs.History.Writes.{runs_of-set_runs}
use app_launcher_lite.Jobs.History.Sorting.{
  get-sort_desc, sort_desc-NodupKeys, get-unpinned, unpinned-NodupKeys, absent-drop, present-drop,
  drop-NodupKeys, length-drop, sort_desc-Descending, unpinned-Descending, drop-oldest,
}

-- A directory that is not among those to remove stays.
get-remove_all_ne :
    (h : Host) (j k : String) (old d : Dict Run)
    → get k old ≡ none
    → get k (remove_all h j old d).1 ≡ get k d
unfolding remove_all get
get-remove_all_ne h j k [] d e = refl
get-remove_all_ne h j k ((n, r) ∷ old) d e =
    ground (
      arith,
      get-remove_all_ne h j k old d,
      get-remove_all_ne h j k old (del n d),
      get-del_ne n k d,
    )

length-unpinned-insert_desc :
    (n : String) (r : Run) (d : Dict Run)
    → length (unpinned (insert_desc (n, r) d)) ≡ length (unpinned ((n, r) ∷ d))
unfolding insert_desc unpinned
length-unpinned-insert_desc n r [] = refl
length-unpinned-insert_desc n r ((m, q) ∷ d) = ground (arith, length-unpinned-insert_desc n r d)

length-unpinned-sort_desc : (d : Dict Run) → length (unpinned (sort_desc d)) ≡ length (unpinned d)
unfolding sort_desc unpinned
length-unpinned-sort_desc [] = refl
length-unpinned-sort_desc ((n, r) ∷ d) =
    length-unpinned-insert_desc n r (sort_desc d) ∙ ground (arith, length-unpinned-sort_desc d)

length-unpinned-del :
    (k : String) (r : Run) (d : Dict Run)
    → get k d ≡ some r
    → truthy r.pinned ≡ false
    → length (unpinned (del k d)) + 1 ≡ length (unpinned d)
unfolding del get unpinned
length-unpinned-del k r [] h e = cc
length-unpinned-del k r ((n, q) ∷ d) h e = ground (arith, length-unpinned-del k r d)

-- The records to remove are in the directory, and none is pinned.
Removable : Dict Run → Dict Run → Type 0
Removable old d =
    (k : String) (r : Run) → get k old ≡ some r → (get k d ≡ some r) × (truthy r.pinned ≡ false)

next-Removable :
    (n : String) (q : Run) (old d : Dict Run)
    → get n old ≡ none
    → Removable ((n, q) ∷ old) d
    → (k : String) (r : Run) → get k old ≡ some r
    → (get k (del n d) ≡ some r) × (truthy r.pinned ≡ false)
unfolding get Removable
next-Removable n q old d absent all k r e =
    let there = all k r in ground (arith, there, get-del_ne n k d, eq_iff n k, absent, e)

remove_all-removes :
    (h : Host) (j : String) (old d : Dict Run)
    → ((k : String) → h.can_remove j k ≡ true)
    → NodupKeys old
    → NodupKeys d
    → Removable old d
    → ((remove_all h j old d).0 ≡ length old)
      × (length (unpinned (remove_all h j old d).1) + length old ≡ length (unpinned d))
      × ((k : String) → is_some (get k old) ≡ true → get k (remove_all h j old d).1 ≡ none)
unfolding remove_all get Removable
remove_all-removes h j [] d can nk nd all = (refl, omega arith, λ k e. cc)
remove_all-removes h j ((n, q) ∷ old) d can nk nd all =
    let mine = all n q (rw (eq_refl n) refl) in
    let (count, left, gone) =
      remove_all-removes h j old (del n d) can nk.1 (del-NodupKeys n d nd)
        (next-Removable n q old d nk.0 all) in
    rw (can n) (
      ap suc count,
      omega (arith, left, length-unpinned-del n q d mine.0 mine.1),
      λ k e. ground (
        arith,
        gone k,
        e,
        eq_iff n k,
        get-remove_all_ne h j n old (del n d) nk.0,
        get-del_self n d nd,
      ),
    )

doomed : (w : World) (j : String) (keep : ℕ) → Dict Run
doomed w j keep = drop keep (unpinned (sort_desc (runs_of w j)))

doomed-NodupKeys :
    (w : World) (j : String) (keep : ℕ) → NodupKeys (runs_of w j) → NodupKeys (doomed w j keep)
unfolding doomed
doomed-NodupKeys w j keep nd =
    drop-NodupKeys keep (unpinned (sort_desc (runs_of w j)))
      (unpinned-NodupKeys (sort_desc (runs_of w j)) (sort_desc-NodupKeys (runs_of w j) nd))

doomed-Removable :
    (w : World) (j : String) (keep : ℕ)
    → NodupKeys (runs_of w j)
    → Removable (doomed w j keep) (runs_of w j)
unfolding doomed Removable
doomed-Removable w j keep nd k r e =
    let d = sort_desc (runs_of w j) in
    let sorted = sort_desc-NodupKeys (runs_of w j) nd in
    let there = present-drop k keep (unpinned d) r (unpinned-NodupKeys d sorted) e in
    ground (arith, there, get-unpinned k d sorted, get-sort_desc k (runs_of w j) nd)

set_here : (w : World) (j : String) (d : Dict Run) → runs_of (set_runs w j d) j ≡ d
set_here w j d = rw (runs_of-set_runs w j j d, eq_refl j) refl

pinned-doomed :
    (w : World) (j : String) (keep : ℕ) (k : String) (r : Run)
    → NodupKeys (runs_of w j)
    → get k (runs_of w j) ≡ some r
    → truthy r.pinned ≡ true
    → get k (doomed w j keep) ≡ none
unfolding doomed
pinned-doomed w j keep k r nd e p =
    let d = sort_desc (runs_of w j) in
    absent-drop k keep (unpinned d) (
      ground (
        arith,
        get-unpinned k d (sort_desc-NodupKeys (runs_of w j) nd),
        get-sort_desc k (runs_of w j) nd,
        e,
        p,
      ))

-- When the directory names are distinct, and whatever removals fail, a pinned run survives pruning
-- with its record.
pub pinned-prune_runs :
    (h : Host) (w : World) (j : String) (keep : ℕ) (k : String) (r : Run)
    → NodupKeys (runs_of w j)
    → get k (runs_of w j) ≡ some r
    → truthy r.pinned ≡ true
    → get k (runs_of (prune_runs h w j keep).1 j) ≡ some r
unfolding prune_runs doomed
pinned-prune_runs h w j keep k r nd e p =
    ap (get k) (set_here w j _)
    ∙ get-remove_all_ne h j k (doomed w j keep) (runs_of w j) (pinned-doomed w j keep k r nd e p)
    ∙ e

-- What pruning did to a run: it is kept with its record, or it is gone, was not pinned, and is no
-- newer by name than any unpinned run that is left.
abbrev pub KeptOrOld : Dict Run → String → Run → Type 0
KeptOrOld d' k r =
    (get k d' ≡ some r)
    ⊎ ((get k d' ≡ none)
        × (truthy r.pinned ≡ false)
        × ((m : String) (q : Run)
            → get m d' ≡ some q
            → truthy q.pinned ≡ false
            → name_le k m ≡ true))

older :
    (w : World) (j : String) (keep : ℕ) (k m : String) (r q : Run)
    → NodupKeys (runs_of w j)
    → get k (doomed w j keep) ≡ some r
    → get m (runs_of w j) ≡ some q
    → truthy q.pinned ≡ false
    → get m (doomed w j keep) ≡ none
    → name_le k m ≡ true
unfolding doomed
older w j keep k m r q nd old there loose stays =
    let d = sort_desc (runs_of w j) in
    let sorted = sort_desc-NodupKeys (runs_of w j) nd in
    drop-oldest keep (unpinned d) k m r q (unpinned-NodupKeys d sorted)
      (unpinned-Descending d sorted (sort_desc-Descending (runs_of w j) nd)) old
      (ground (arith, get-unpinned m d sorted, get-sort_desc m (runs_of w j) nd, there, loose))
      stays

no_run : {q : Run} → none ≡ some q → ⊥
no_run e = cc

kept_or_old :
    (w : World) (j : String) (keep : ℕ) (d' : Dict Run)
    → NodupKeys (runs_of w j)
    → ((k : String)
        → get k d' ≡ (if is_some (get k (doomed w j keep)) then none else get k (runs_of w j)))
    → (k : String) (r : Run) → get k (runs_of w j) ≡ some r
    → KeptOrOld d' k r
unfolding Removable
kept_or_old w j keep d' nd after k r e = elim (Option-cases (get k (doomed w j keep))) [
  | inl stays ↦ inl (after k ∙ rw stays e)
  | inr (p, old) ↦
      let (there, loose) = doomed-Removable w j keep nd k p old in
      inr (
        after k ∙ rw old refl,
        subst (λ x. truthy x.pinned ≡ false) (some-injective p r (sym there ∙ e)) loose,
        λ m q left free. elim (Option-cases (get m (doomed w j keep))) [
          | inl stays ↦
              older w j keep k m p q nd old (sym (after m ∙ rw stays refl) ∙ left) free stays
          | inr (x, gone) ↦ absurd (no_run (sym (after m ∙ rw gone refl) ∙ left))
        ],
      )
]

-- When the directory names are distinct and every removal succeeds, pruning answers how many
-- unpinned runs there are beyond keep, and exactly so many unpinned runs are gone. Each run either
-- keeps its record, or is gone, was not pinned, and has a name no later in the order of texts than
-- that of any unpinned run that is left; and no run appears.
pub prune_runs-removes :
    (h : Host) (w : World) (j : String) (keep : ℕ)
    → NodupKeys (runs_of w j)
    → ((k : String) → h.can_remove j k ≡ true)
    → let d = runs_of w j in
      let d' = runs_of (prune_runs h w j keep).1 j in
      ((prune_runs h w j keep).0 ≡ length (unpinned d) - keep)
      × (length (unpinned d') + (prune_runs h w j keep).0 ≡ length (unpinned d))
      × ((k : String) (r : Run) → get k d ≡ some r → KeptOrOld d' k r)
      × ((k : String) → get k d ≡ none → get k d' ≡ none)
unfolding prune_runs doomed
prune_runs-removes h w j keep nd can =
    let d = runs_of w j in
    let old = doomed w j keep in
    let d' = (remove_all h j old d).1 in
    let (count, left, gone) =
      remove_all-removes h j old d can (doomed-NodupKeys w j keep nd) nd
        (doomed-Removable w j keep nd) in
    let size : length old ≡ length (unpinned d) - keep =
      length-drop keep (unpinned (sort_desc d)) ∙ omega (arith, length-unpinned-sort_desc d) in
    let after : (k : String) → get k d' ≡ (if is_some (get k old) then none else get k d) =
      λ k. ground (arith, gone k, get-remove_all_ne h j k old d) in
    rw (set_here w j d') (
      count ∙ size,
      omega (arith, left, count),
      λ k r e. kept_or_old w j keep d' nd after k r e,
      λ k e. after k ∙ ground (arith, e),
    )
