-- ===== src/Jobs/Registry/Python.antt =====
-- What src/jobs/config_models.py uses of Python's texts: `str`, `strip` and the regular expressions.
use Prim.Native.Char.{Char, code}
use app_launcher_lite.Prelude.{
  ℕ, zero, suc, leb, eqb, String, ◌==◌, Bool, true, false, ◌&&◌, ◌||◌, if◌then◌else◌,
}
use app_launcher_lite.Prelude.Int.{ℤ, pos, negsuc}
use app_launcher_lite.Prelude.Decimal.{show}
use app_launcher_lite.Prelude.Json.{Json, truth}

-- What rests on the tables of Unicode or on the platform: `str.lower`, `str.upper`, the digits of
-- `\d`, the text of a list or an object, `==` of two decoded values, and `Path(p).suffix`.
pub record Python : Type 0 where
  pub lower : String → String
  pub upper : String → String
  pub is_digit : Char → Bool
  pub repr : Json → String
  pub equal : Json → Json → Bool
  pub suffix : String → String

abbrev pub between : ℕ → ℕ → Char → Bool
between lo hi c = leb lo (code c) && leb (code c) hi

-- `str.isspace` of one character
unfoldable pub is_space : Char → Bool
is_space c =
    between 9 13 c
    || between 28 32 c
    || eqb (code c) 133
    || eqb (code c) 160
    || eqb (code c) 5760
    || between 8192 8202 c
    || between 8232 8233 c
    || eqb (code c) 8239
    || eqb (code c) 8287
    || eqb (code c) 12288

unfoldable pub strip_left : String → String
unfolding is_space
strip_left String.[] = String.[]
strip_left (String.◌∷◌ c s) = let rest = strip_left s in if is_space c then rest else String.◌∷◌ c s

-- A character before a stripped text: a space before nothing goes too.
unfoldable pub keep_left : Char → String → String
unfolding is_space
keep_left c String.[] = if is_space c then String.[] else String.◌∷◌ c String.[]
keep_left c (String.◌∷◌ d s) = String.◌∷◌ c (String.◌∷◌ d s)

unfoldable pub strip_right : String → String
unfolding keep_left
strip_right String.[] = String.[]
strip_right (String.◌∷◌ c s) = keep_left c (strip_right s)

-- `s.strip()`
unfoldable pub strip : String → String
unfolding strip_left strip_right
strip s = strip_right (strip_left s)

-- str(n)
unfoldable pub show_int : ℤ → String
show_int (pos n) = show n
show_int (negsuc n) = String.◌∷◌ "-" (show (suc n))

-- str(x)
unfoldable pub str_of : Python → Json → String
unfolding show_int
str_of py Json.null = "None"
str_of py (Json.bool true) = "True"
str_of py (Json.bool false) = "False"
str_of py (Json.int n) = show_int n
str_of py (Json.real r) = r
str_of py (Json.str s) = s
str_of py (Json.array xs) = py.repr (Json.array xs)
str_of py (Json.object d) = py.repr (Json.object d)

abbrev pub is_lower : Char → Bool
is_lower c = between 97 122 c

abbrev pub is_upper : Char → Bool
is_upper c = between 65 90 c

abbrev pub is_ascii_digit : Char → Bool
is_ascii_digit c = between 48 57 c

abbrev pub is_char : Char → Char → Bool
is_char d c = eqb (code c) (code d)

-- `[...]{0,n}$`; `$` matches at the end and before a final line feed.
unfoldable pub class_to_end : ℕ → (Char → Bool) → String → Bool
class_to_end n cls String.[] = true
class_to_end zero cls (String.◌∷◌ c s) = eqb (code c) 10 && (s == "")
class_to_end (suc n) cls (String.◌∷◌ c s) =
    let rest = class_to_end n cls s in (eqb (code c) 10 && (s == "")) || (cls c && rest)

-- `[...]*$`
unfoldable pub classes_to_end : (Char → Bool) → String → Bool
classes_to_end cls String.[] = true
classes_to_end cls (String.◌∷◌ c s) =
    let rest = classes_to_end cls s in (eqb (code c) 10 && (s == "")) || (cls c && rest)

-- `$`
unfoldable pub at_end : String → Bool
at_end s = (s == "") || (s == "\n")

-- `_MUTEX_GROUP_RE`
unfoldable pub is_mutex_group : String → Bool
unfolding class_to_end
is_mutex_group String.[] = false
is_mutex_group (String.◌∷◌ c s) =
    is_lower c
    && class_to_end 31 (λ d. is_lower d || is_ascii_digit d || is_char "_" d || is_char "-" d) s

-- `_PARAM_ENV_RE`
unfoldable pub is_env_name : String → Bool
unfolding classes_to_end
is_env_name String.[] = false
is_env_name (String.◌∷◌ c s) =
    is_upper c && classes_to_end (λ d. is_upper d || is_ascii_digit d || is_char "_" d) s

-- `_PARAM_NAME_RE`
unfoldable pub is_param_name : String → Bool
unfolding classes_to_end
is_param_name String.[] = false
is_param_name (String.◌∷◌ c s) =
    is_lower c && classes_to_end (λ d. is_lower d || is_ascii_digit d || is_char "_" d) s

abbrev pub is_letter : Char → Bool
is_letter c = is_lower c || is_upper c

-- `_PARAM_FLAG_RE`
unfoldable pub is_param_flag : String → Bool
unfolding classes_to_end
is_param_flag (String.◌∷◌ a (String.◌∷◌ b (String.◌∷◌ c s))) =
    is_char "-" a
    && is_char "-" b
    && is_letter c
    && classes_to_end (λ d. is_letter d || is_ascii_digit d || is_char "_" d || is_char "-" d) s
is_param_flag _ = false

-- `([01]\d|2[0-3]):([0-5]\d)$`
unfoldable pub hours_minutes : (Char → Bool) → String → Bool
unfolding at_end
hours_minutes digit
      (String.◌∷◌ a (String.◌∷◌ b (String.◌∷◌ colon (String.◌∷◌ c (String.◌∷◌ d rest))))) =
    ((between 48 49 a && digit b) || (is_char "2" a && between 48 51 b))
    && is_char ":" colon
    && between 48 53 c
    && digit d
    && at_end rest
hours_minutes digit _ = false

-- `_HHMM_RE`
unfoldable pub is_hhmm : Python → String → Bool
unfolding hours_minutes
is_hhmm py s = hours_minutes py.is_digit s

-- `\d{n}` and what is left
unfoldable pub digits_then : (Char → Bool) → ℕ → (String → Bool) → String → Bool
digits_then digit zero k s = k s
digits_then digit (suc n) k String.[] = false
digits_then digit (suc n) k (String.◌∷◌ c s) = let rest = digits_then digit n k s in digit c && rest

unfoldable pub char_then : Char → (String → Bool) → String → Bool
char_then d k String.[] = false
char_then d k (String.◌∷◌ c s) = is_char d c && k s

-- `_ONCE_AT_RE`
unfoldable pub is_once_at : Python → String → Bool
unfolding digits_then char_then hours_minutes
is_once_at py =
    let d = py.is_digit in
    digits_then d 4 (
      char_then "-"
        (digits_then d 2 (char_then "-" (digits_then d 2 (char_then "T" (hours_minutes d))))))

-- `_PARAM_DATE_RE`
unfoldable pub is_date : Python → String → Bool
unfolding digits_then char_then at_end
is_date py =
    let d = py.is_digit in
    digits_then d 4 (char_then "-" (digits_then d 2 (char_then "-" (digits_then d 2 at_end))))

-- str(x or "")
unfoldable pub text_of : Python → Json → String
unfolding str_of truth
text_of py x = if truth x then str_of py x else ""
