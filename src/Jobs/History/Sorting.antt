-- ===== src/Jobs/History/Sorting.antt =====
-- The sorting and the selection that `list_runs` and `prune_runs` of src/jobs/history.py start from.
use app_launcher_lite.Prelude.{
  subst, sym, Bool-cases, inl, inr, true, ℕ, zero, suc, ◌-◌, String, ◌==◌, ◌≡◌, refl, ap, ◌∙◌, none,
  some, [], ◌∷◌, if◌then◌else◌, arith, eq_iff, length,
}
use app_launcher_lite.Prelude.Dict.{Dict, get, NodupKeys}
use app_launcher_lite.Jobs.Record.{Run, truthy}
use app_launcher_lite.Jobs.History.{name_le, insert_desc, sort_desc, unpinned, drop}
use app_launcher_lite.Jobs.History.Names.{name_le_total, name_le_trans}

get-insert_desc :
    (k n : String) (r : Run) (d : Dict Run)
    → get n d ≡ none
    → get k (insert_desc (n, r) d) ≡ (if n == k then some r else get k d)
unfolding insert_desc get
get-insert_desc k n r [] h = refl
get-insert_desc k n r ((m, q) ∷ d) h =
    ground (arith, get-insert_desc k n r d, eq_iff m n, eq_iff m k, eq_iff n k)

pub get-sort_desc : (k : String) (d : Dict Run) → NodupKeys d → get k (sort_desc d) ≡ get k d
unfolding sort_desc get
get-sort_desc k [] h = refl
get-sort_desc k ((n, r) ∷ d) h =
    get-insert_desc k n r (sort_desc d) (get-sort_desc n d h.1 ∙ h.0)
    ∙ ap (λ o. if n == k then some r else o) (get-sort_desc k d h.1)

insert_desc-NodupKeys :
    (n : String) (r : Run) (d : Dict Run)
    → NodupKeys d
    → get n d ≡ none
    → NodupKeys (insert_desc (n, r) d)
unfolding insert_desc get
insert_desc-NodupKeys n r [] h e = (refl, tt)
insert_desc-NodupKeys n r ((m, q) ∷ d) h e =
    ground (arith, insert_desc-NodupKeys n r d h.1, get-insert_desc m n r d, eq_iff m n, eq_iff n m)

pub sort_desc-NodupKeys : (d : Dict Run) → NodupKeys d → NodupKeys (sort_desc d)
unfolding sort_desc
sort_desc-NodupKeys [] h = tt
sort_desc-NodupKeys ((n, r) ∷ d) h =
    insert_desc-NodupKeys n r (sort_desc d) (sort_desc-NodupKeys d h.1)
      (get-sort_desc n d h.1 ∙ h.0)

-- A record that is there is unpinned in the list of the unpinned ones.
pub get-unpinned :
    (k : String) (d : Dict Run)
    → NodupKeys d
    → get k (unpinned d)
      ≡ elim (get k d) [ none ↦ none | some r ↦ if truthy r.pinned then none else some r ]
unfolding unpinned get
get-unpinned k [] h = refl
get-unpinned k ((n, r) ∷ d) h = ground (arith, get-unpinned k d h.1, eq_iff n k)

pub unpinned-NodupKeys : (d : Dict Run) → NodupKeys d → NodupKeys (unpinned d)
unfolding unpinned
unpinned-NodupKeys [] h = tt
unpinned-NodupKeys ((n, r) ∷ d) h = ground (arith, unpinned-NodupKeys d h.1, get-unpinned n d h.1)

pub absent-drop : (k : String) (n : ℕ) (d : Dict Run) → get k d ≡ none → get k (drop n d) ≡ none
unfolding get
absent-drop k zero d h = h
absent-drop k (suc n) [] h = refl
absent-drop k (suc n) ((m, r) ∷ d) h = ground (arith, absent-drop k n d)

pub present-drop :
    (k : String) (n : ℕ) (d : Dict Run) (r : Run)
    → NodupKeys d
    → get k (drop n d) ≡ some r
    → get k d ≡ some r
unfolding get
present-drop k zero d r h e = e
present-drop k (suc n) [] r h e = e
present-drop k (suc n) ((m, q) ∷ d) r h e = ground (arith, present-drop k n d r h.1 e, eq_iff m k)

pub drop-NodupKeys : (n : ℕ) (d : Dict Run) → NodupKeys d → NodupKeys (drop n d)
drop-NodupKeys zero d h = h
drop-NodupKeys (suc n) [] h = h
drop-NodupKeys (suc n) (e ∷ d) h = drop-NodupKeys n d h.1

pub length-drop : (n : ℕ) (d : Dict Run) → length (drop n d) ≡ length d - n
length-drop zero d = omega arith
length-drop (suc n) [] = omega arith
length-drop (suc n) (e ∷ d) = omega (arith, length-drop n d)

-- No name of the directory comes after `n`.
abbrev pub AtMost : String → Dict Run → Type 0
AtMost n d = (k : String) (r : Run) → get k d ≡ some r → name_le k n ≡ true

-- The names descend.
abbrev pub Descending : Dict Run → Type 0
Descending [] = Unit
Descending ((n, r) ∷ d) = AtMost n d × Descending d

AtMost-insert_desc :
    (m n : String) (r : Run) (d : Dict Run)
    → get n d ≡ none
    → name_le n m ≡ true
    → AtMost m d
    → AtMost m (insert_desc (n, r) d)
AtMost-insert_desc m n r d absent le all k q e = elim (Bool-cases (n == k)) [
  | inl same ↦ subst (λ x. name_le x m ≡ true) ((eq_iff n k).0 same) le
  | inr other ↦ all k q (sym (get-insert_desc k n r d absent ∙ rw other refl) ∙ e)
]

AtMost-cons :
    (n m : String) (q : Run) (d : Dict Run)
    → name_le m n ≡ true
    → AtMost m d
    → AtMost n ((m, q) ∷ d)
unfolding get
AtMost-cons n m q d le all k r e = elim (Bool-cases (m == k)) [
  | inl same ↦ subst (λ x. name_le x n ≡ true) ((eq_iff m k).0 same) le
  | inr other ↦ name_le_trans k m n (all k r (rw other at e)) le
]

insert_desc-Descending :
    (n : String) (r : Run) (d : Dict Run)
    → get n d ≡ none
    → Descending d
    → Descending (insert_desc (n, r) d)
unfolding insert_desc get
insert_desc-Descending n r [] absent h = ((λ k q e. cc), tt)
insert_desc-Descending n r ((m, q) ∷ d) absent h = elim (Bool-cases (name_le m n)) [
  | inl le ↦ rw le (AtMost-cons n m q d le h.0, h)
  | inr gt ↦
      let rest : get n d ≡ none = ground (arith, absent) in
      rw gt (
        AtMost-insert_desc m n r d rest (name_le_total m n gt) h.0,
        insert_desc-Descending n r d rest h.1,
      )
]

pub sort_desc-Descending : (d : Dict Run) → NodupKeys d → Descending (sort_desc d)
unfolding sort_desc
sort_desc-Descending [] h = tt
sort_desc-Descending ((n, r) ∷ d) h =
    insert_desc-Descending n r (sort_desc d) (get-sort_desc n d h.1 ∙ h.0)
      (sort_desc-Descending d h.1)

pub unpinned-Descending : (d : Dict Run) → NodupKeys d → Descending d → Descending (unpinned d)
unfolding unpinned
unpinned-Descending [] h s = tt
unpinned-Descending ((n, r) ∷ d) h s = elim (Bool-cases (truthy r.pinned)) [
  | inl pin ↦ rw pin (unpinned-Descending d h.1 s.1)
  | inr loose ↦
      rw loose
        (λ k q e. s.0 k q (ground (arith, e, get-unpinned k d h.1)), unpinned-Descending d h.1 s.1)
]

-- What is left of a descending directory without its first entries is no newer than these.
pub drop-oldest :
    (n : ℕ) (d : Dict Run) (k m : String) (r q : Run)
    → NodupKeys d
    → Descending d
    → get k (drop n d) ≡ some r
    → get m d ≡ some q
    → get m (drop n d) ≡ none
    → name_le k m ≡ true
unfolding get
drop-oldest zero d k m r q h s e there gone = cc
drop-oldest (suc n) [] k m r q h s e there gone = cc
drop-oldest (suc n) ((x, p) ∷ d) k m r q h s e there gone = elim (Bool-cases (x == m)) [
  | inl same ↦
      subst (λ y. name_le k y ≡ true) ((eq_iff x m).0 same) (s.0 k r (present-drop k n d r h.1 e))
  | inr other ↦ drop-oldest n d k m r q h.1 s.1 e (rw other at there) gone
]
