-- ===== src/Jobs/Registry/Edits/Sorted.antt =====
-- The sort, the append and the pop in the edits of src/jobs/config.py: which ids and chain edges
-- the list has afterwards.
use app_launcher_lite.Prelude.{
  String, ◌==◌, ◌≡◌, refl, sym, ◌∙◌, ap, List, [], ◌∷◌, ◌++◌, if◌then◌else◌, arith, eq_iff, true,
  false, ◌&&◌, ◌||◌,
}
use app_launcher_lite.Prelude.Member.{member}
use app_launcher_lite.Jobs.Job.{Job}
use app_launcher_lite.Jobs.Registry.{ids, UniqueIds, follows}
use app_launcher_lite.Jobs.Registry.Chain.Walks.{same-Walk}
use app_launcher_lite.Jobs.Registry.Chain.References.{Consistent}
use app_launcher_lite.Jobs.Registry.Edits.{insert_by_name, sort_by_name, pop_last}

module _ (lower : String → String) where
  ids-insert_by_name :
      (k : String) (j : Job) (jobs : List Job)
      → member k (ids (insert_by_name lower j jobs)) ≡ member k (ids (j ∷ jobs))
  unfolding insert_by_name ids member
  ids-insert_by_name k j [] = refl
  ids-insert_by_name k j (i ∷ jobs) = ground (arith, ids-insert_by_name k j jobs)

  pub ids-sort_by_name :
      (k : String) (jobs : List Job)
      → member k (ids (sort_by_name lower jobs)) ≡ member k (ids jobs)
  unfolding sort_by_name ids member
  ids-sort_by_name k [] = refl
  ids-sort_by_name k (j ∷ jobs) =
      ids-insert_by_name k j (sort_by_name lower jobs)
      ∙ ap (λ b. if j.id == k then true else b) (ids-sort_by_name k jobs)

  follows-insert_by_name :
      (u v : String) (j : Job) (jobs : List Job)
      → follows (insert_by_name lower j jobs) u v ≡ follows (j ∷ jobs) u v
  unfolding insert_by_name follows
  follows-insert_by_name u v j [] = refl
  follows-insert_by_name u v j (i ∷ jobs) = ground (arith, follows-insert_by_name u v j jobs)

  pub follows-sort_by_name :
      (u v : String) (jobs : List Job) → follows (sort_by_name lower jobs) u v ≡ follows jobs u v
  unfolding sort_by_name follows
  follows-sort_by_name u v [] = refl
  follows-sort_by_name u v (j ∷ jobs) =
      follows-insert_by_name u v j (sort_by_name lower jobs)
      ∙ ap (λ b. (j.id == u) && member v (j.on_success ++ j.on_failure) || b)
          (follows-sort_by_name u v jobs)

  insert_by_name-UniqueIds :
      (j : Job) (jobs : List Job) → UniqueIds (j ∷ jobs) → UniqueIds (insert_by_name lower j jobs)
  unfolding insert_by_name ids member
  insert_by_name-UniqueIds j [] h = h
  insert_by_name-UniqueIds j (i ∷ jobs) h = ground (
    arith,
    insert_by_name-UniqueIds j jobs,
    ids-insert_by_name i.id j jobs,
    eq_iff i.id j.id,
    eq_iff j.id i.id,
  )

  pub sort_by_name-UniqueIds :
      (jobs : List Job) → UniqueIds jobs → UniqueIds (sort_by_name lower jobs)
  unfolding sort_by_name
  sort_by_name-UniqueIds [] h = tt
  sort_by_name-UniqueIds (j ∷ jobs) h =
      insert_by_name-UniqueIds j (sort_by_name lower jobs)
        (ids-sort_by_name j.id jobs ∙ h.0, sort_by_name-UniqueIds jobs h.1)

pub ids-append :
    (k : String) (jobs : List Job) (j : Job)
    → member k (ids (jobs ++ j ∷ [])) ≡ (member k (ids jobs) || (j.id == k))
unfolding ids member
ids-append k [] j = ground arith
ids-append k (i ∷ jobs) j = ground (arith, ids-append k jobs j)

pub append-UniqueIds :
    (jobs : List Job) (j : Job)
    → UniqueIds jobs
    → member j.id (ids jobs) ≡ false
    → UniqueIds (jobs ++ j ∷ [])
unfolding ids member
append-UniqueIds [] j h new = (refl, tt)
append-UniqueIds (i ∷ jobs) j h new =
    ground (
      arith,
      append-UniqueIds jobs j h.1,
      ids-append i.id jobs j,
      eq_iff i.id j.id,
      eq_iff j.id i.id,
    )

pub pop_last-append : (jobs : List Job) (j : Job) → pop_last (jobs ++ j ∷ []) ≡ jobs
unfolding pop_last
pop_last-append [] j = refl
pop_last-append (i ∷ []) j = refl
pop_last-append (i ∷ k ∷ jobs) j = ap (λ l. i ∷ l) (pop_last-append (k ∷ jobs) j)

-- The chain checks see only the ids and the edges.
pub same-Consistent :
    (old new : List Job)
    → ((u v : String) → follows old u v ≡ follows new u v)
    → ((k : String) → member k (ids old) ≡ member k (ids new))
    → Consistent old
    → Consistent new
same-Consistent old new edges known h = (
  λ u v e. (let named = h.0 u v (edges u v ∙ e) in (named.0, sym (known v) ∙ named.1)),
  λ u walk. h.1 u (same-Walk (follows new) (follows old) (λ x y. sym (edges x y)) u u walk),
)
