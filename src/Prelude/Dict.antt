-- ===== src/Prelude/Dict.antt =====
-- Python's `dict` with text keys: an association list in insertion order.
use Prim.Native.Nat.{◌+◌}
use Prim.Native.String.{String}
use mathlib.Core.Path.{◌≡◌, refl}
use mathlib.Core.Bool.{false}
use mathlib.Core.Option.{Option, none, some}
use mathlib.Core.List.{List, [], ◌∷◌, ◌++◌}
use native.Mathlib.Omega.{arith}
use text.Mathlib.Text.{◌==◌}
use text.Mathlib.TextEquality.{eq_iff}
use app_launcher_lite.Prelude.Tests.{if◌then◌else◌, length}

abbrev pub Dict {ℓ} : Type ℓ → Type ℓ
Dict V = List (String × V)

module _ {ℓ} {V : Type ℓ} where
  -- d.get(k)
  unfoldable pub get : String → Dict V → Option V
  get k [] = none
  get k ((j, v) ∷ d) = if j == k then some v else get k d

  -- d[k] = v: a present key keeps its place, a new one goes to the end
  unfoldable pub put : String → V → Dict V → Dict V
  put k v [] = (k, v) ∷ []
  put k v ((j, w) ∷ d) = if j == k then (j, v) ∷ d else (j, w) ∷ put k v d

  -- d.pop(k, None)
  unfoldable pub del : String → Dict V → Dict V
  del k [] = []
  del k ((j, v) ∷ d) = if j == k then d else (j, v) ∷ del k d

  -- No key stands twice, which a real dict has for nothing.
  abbrev pub NodupKeys : Dict V → Type ℓ
  NodupKeys [] = Unit
  NodupKeys ((k, _) ∷ d) = (get k d ≡ none) × NodupKeys d

  pub get-put :
      (k j : String) (v : V) (d : Dict V) → get j (put k v d) ≡ (if k == j then some v else get j d)
  unfolding get put
  get-put k j v [] = ground arith
  get-put k j v ((i, w) ∷ d) = ground (arith, get-put k j v d, eq_iff i k, eq_iff i j, eq_iff k j)

  pub get-del_ne : (k j : String) (d : Dict V) → (k == j) ≡ false → get j (del k d) ≡ get j d
  unfolding get del
  get-del_ne k j [] h = refl
  get-del_ne k j ((i, w) ∷ d) h =
      ground (arith, get-del_ne k j d h, eq_iff i k, eq_iff i j, eq_iff k j)

  pub get-del_self : (k : String) (d : Dict V) → NodupKeys d → get k (del k d) ≡ none
  unfolding get del
  get-del_self k [] h = refl
  get-del_self k ((i, w) ∷ d) h = ground (arith, get-del_self k d h.1, eq_iff i k)

  pub absent-del : (k j : String) (d : Dict V) → get j d ≡ none → get j (del k d) ≡ none
  unfolding get del
  absent-del k j [] h = refl
  absent-del k j ((i, w) ∷ d) h = ground (arith, absent-del k j d)

  pub del-NodupKeys : (k : String) (d : Dict V) → NodupKeys d → NodupKeys (del k d)
  unfolding del
  del-NodupKeys k [] h = tt
  del-NodupKeys k ((i, w) ∷ d) h = ground (arith, del-NodupKeys k d h.1, absent-del k i d h.0)

  pub del_absent : (k : String) (d : Dict V) → get k d ≡ none → del k d ≡ d
  unfolding get del
  del_absent k [] h = refl
  del_absent k ((i, w) ∷ d) h = ground (arith, del_absent k d)

  pub length-del :
      (k : String) (v : V) (d : Dict V) → get k d ≡ some v → length (del k d) + 1 ≡ length d
  unfolding get del
  length-del k v [] h = cc
  length-del k v ((i, w) ∷ d) h = ground (arith, length-del k v d)

  pub get-append :
      (k : String) (d e : Dict V)
      → get k (d ++ e) ≡ elim (get k d) [ none ↦ get k e | some v ↦ some v ]
  unfolding get
  get-append k [] e = refl
  get-append k ((i, w) ∷ d) e = ground (arith, get-append k d e)

  pub snoc-NodupKeys :
      (k : String) (v : V) (d : Dict V)
      → NodupKeys d
      → get k d ≡ none
      → NodupKeys (d ++ (k, v) ∷ [])
  unfolding get
  snoc-NodupKeys k v [] h e = (refl, tt)
  snoc-NodupKeys k v ((i, w) ∷ d) h e =
      ground (arith, snoc-NodupKeys k v d h.1, get-append i d ((k, v) ∷ []), eq_iff i k, eq_iff k i)

  pub put-NodupKeys : (k : String) (v : V) (d : Dict V) → NodupKeys d → NodupKeys (put k v d)
  unfolding get put
  put-NodupKeys k v [] h = (refl, tt)
  put-NodupKeys k v ((i, w) ∷ d) h =
      ground (arith, put-NodupKeys k v d h.1, get-put k i v d, eq_iff i k, eq_iff k i)
