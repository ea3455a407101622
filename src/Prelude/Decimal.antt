-- ===== src/Prelude/Decimal.antt =====
-- Numbers in decimal, as `str(n)` prints them.
use Prim.Native.Nat.{ℕ, zero, suc, ◌+◌, ◌-◌, ◌*◌, ◌/◌, ◌%◌, ◌<◌}
use Prim.Native.Char.{Char, code}
use Prim.Native.String.{String}
use mathlib.Core.Path.{◌≡◌, refl, sym, ap, ◌∙◌}
use native.Mathlib.Omega.{arith}
use app_launcher_lite.Prelude.Tests.{eqb, if◌then◌else◌, Bool-cases}
use mathlib.Core.Logic.{inl, inr}
use mathlib.Core.Bool.{true, false}

digit : ℕ → Char
digit zero = "0"
digit (suc zero) = "1"
digit (suc (suc zero)) = "2"
digit (suc (suc (suc zero))) = "3"
digit (suc (suc (suc (suc zero)))) = "4"
digit (suc (suc (suc (suc (suc zero))))) = "5"
digit (suc (suc (suc (suc (suc (suc zero)))))) = "6"
digit (suc (suc (suc (suc (suc (suc (suc zero))))))) = "7"
digit (suc (suc (suc (suc (suc (suc (suc (suc zero)))))))) = "8"
digit _ = "9"

show_from : ℕ → ℕ → String → String
unfolding digit
show_from zero n rest = rest
show_from (suc fuel) n rest =
    let more = show_from fuel (n / 10) (String.◌∷◌ (digit (n % 10)) rest) in
    if eqb (n / 10) 0 then String.◌∷◌ (digit (n % 10)) rest else more

-- `str(n)`
unfoldable pub show : ℕ → String
unfolding show_from
show n = show_from (suc n) n String.[]

value : ℕ → String → ℕ
value acc String.[] = acc
value acc (String.◌∷◌ c s) = value (acc * 10 + (code c - 48)) s

code-digit : (n : ℕ) → n < 10 → code (digit n) ≡ 48 + n
unfolding digit
code-digit zero h = refl
code-digit (suc zero) h = refl
code-digit (suc (suc zero)) h = refl
code-digit (suc (suc (suc zero))) h = refl
code-digit (suc (suc (suc (suc zero)))) h = refl
code-digit (suc (suc (suc (suc (suc zero))))) h = refl
code-digit (suc (suc (suc (suc (suc (suc zero)))))) h = refl
code-digit (suc (suc (suc (suc (suc (suc (suc zero))))))) h = refl
code-digit (suc (suc (suc (suc (suc (suc (suc (suc zero)))))))) h = refl
code-digit (suc (suc (suc (suc (suc (suc (suc (suc (suc n))))))))) h = omega arith

eqb→eq : (a b : ℕ) → eqb a b ≡ true → a ≡ b
eqb→eq a b h = ground arith

smaller : (n fuel : ℕ) → n < suc fuel → eqb (n / 10) 0 ≡ false → n / 10 < fuel
smaller n fuel h more = ground arith

value-show_from :
    (fuel n : ℕ) (rest : String) → n < fuel → value 0 (show_from fuel n rest) ≡ value n rest
unfolding show_from value
value-show_from zero n rest h = absurd (omega arith)
value-show_from (suc fuel) n rest h =
    let d : code (digit (n % 10)) ≡ 48 + n % 10 = code-digit (n % 10) (omega arith) in
    elim (Bool-cases (eqb (n / 10) 0)) [
      | inl last ↦ rw last (ap (λ m. value m rest) (omega (arith, d, eqb→eq (n / 10) 0 last)))
      | inr more ↦ rw more (
          value-show_from fuel (n / 10) (String.◌∷◌ (digit (n % 10)) rest) (smaller n fuel h more)
          ∙ ap (λ m. value m rest) (omega (arith, d)))
    ]

-- Different numbers have different texts.
pub show_injective : (m n : ℕ) → show m ≡ show n → m ≡ n
unfolding show value
show_injective m n e =
    sym (value-show_from (suc m) m String.[] (omega arith))
    ∙ ap (value 0) e
    ∙ value-show_from (suc n) n String.[] (omega arith)

show_runs : show 1024 ≡ "1024"
unfolding show
show_runs = refl
