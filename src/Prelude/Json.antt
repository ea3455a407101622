-- ===== src/Prelude/Json.antt =====
-- What `json.loads` answers, and the tests that Python makes on such a value.
use Prim.Native.Nat.{zero, suc}
use Prim.Native.String.{String}
use mathlib.Core.Bool.{Bool, true, false, not, ◌||◌}
use text.Mathlib.Text.{◌==◌}
use app_launcher_lite.Prelude.Tests.{if◌then◌else◌}
use app_launcher_lite.Prelude.Int.{ℤ, pos}

-- `real` holds the `repr` of a float; the objects hold each key once.
mutual
  pub data Json : Type 0 where
    null : Json
    bool : Bool → Json
    int : ℤ → Json
    real : String → Json
    str : String → Json
    array : Items → Json
    object : Members → Json

  pub data Items : Type 0 where
    nil : Items
    cons : Json → Items → Items

  pub data Members : Type 0 where
    end : Members
    field : String → Json → Members → Members

-- d.get(k), where a missing key and `null` are both `None`
unfoldable pub lookup : String → Members → Json
lookup k end = Json.null
lookup k (field j v d) = if j == k then v else lookup k d

-- k in d
unfoldable pub has_key : String → Members → Bool
has_key k end = false
has_key k (field j v d) = if j == k then true else has_key k d

-- x == 0 of a number
unfoldable pub equals_zero : Json → Bool
equals_zero (int (pos n)) = elim n [ zero ↦ true | suc _ ↦ false ]
equals_zero (bool b) = not b
equals_zero (real r) = r == "0.0" || r == "-0.0"
equals_zero _ = false

-- bool(x)
unfoldable pub truth : Json → Bool
unfolding equals_zero
truth Json.null = false
truth (bool b) = b
truth (int i) = not (equals_zero (int i))
truth (real r) = not (equals_zero (real r))
truth (str s) = not (s == "")
truth (array nil) = false
truth (array (cons _ _)) = true
truth (object end) = false
truth (object (field _ _ _)) = true
