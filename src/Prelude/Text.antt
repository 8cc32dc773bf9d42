-- ===== src/Prelude/Text.antt =====
-- Texts: the truth value of a string, decimal numbers, and zero padding.
use Prim.Native.Char.{Char, code}
use Prim.Native.Nat.{ℕ, zero, suc, ◌+◌, ◌-◌, ◌*◌, ◌/◌, ◌%◌, ◌<◌}
use Prim.Native.String.{String, [], ◌∷◌, ◌++◌}
use mathlib.Core.Bool.{Bool, true, false, not, ◌&&◌, ◌||◌}
use mathlib.Core.Logic.{inl, inr}
use mathlib.Core.Option.{Option, none, some}
use mathlib.Core.Path.{◌≡◌, refl, sym, ap, ◌∙◌}
use native.Mathlib.Omega.{arith}
use photon_kernel_sil.Prelude.Tests.{
  ltb, ◌==◌, nat_eq, string_eq, Bool-cases, ltb→lt, if◌then◌else◌,
}

-- `bool(s)` of a string: the empty text is false.
abbrev pub truthy : String → Bool
truthy s = not (s == "")

-- An optional string as a condition: `None` and the empty text are false.
abbrev pub given : Option String → Option String
given none = none
given (some s) = if truthy s then some s else none

-- `s or default`
abbrev pub or_else : String → String → String
or_else s default = if truthy s then s else default

-- `s + t`
abbrev pub text_append : String → String → String
text_append s t = s ++ t

-- `s.startswith(prefix)`
abbrev pub starts_with : String → String → Bool
starts_with s [] = true
starts_with [] (c ∷ prefix) = false
starts_with (d ∷ s) (c ∷ prefix) = (code d == code c) && starts_with s prefix

-- `part in s`
abbrev pub contains : String → String → Bool
contains part [] = part == ""
contains part (c ∷ s) = starts_with (c ∷ s) part || contains part s

abbrev digit : ℕ → Char
digit n =
    if n == 0
    then "0"
    else if n == 1
    then "1"
    else if n == 2
    then "2"
    else if n == 3
    then "3"
    else if n == 4
    then "4"
    else if n == 5
    then "5"
    else if n == 6
    then "6"
    else if n == 7
    then "7"
    else if n == 8
    then "8"
    else "9"

-- The digits of `n`, put before `rest`. One round of fuel for each digit; `n + 1` rounds do.
digits_before : ℕ → ℕ → String → String
digits_before zero n rest = rest
digits_before (suc fuel) n rest =
    let more = digits_before fuel (n / 10) (digit (n % 10) ∷ rest) in
    if ltb n 10 then digit n ∷ rest else more

-- `str(n)` of a number that is not negative
unfoldable pub decimal : ℕ → String
unfolding digits_before
decimal n = digits_before (suc n) n ""

length : String → ℕ
length [] = 0
length (c ∷ s) = suc (length s)

zeros_before : ℕ → String → String
zeros_before zero s = s
zeros_before (suc n) s = "0" ∷ zeros_before n s

-- `f"{n:0{width}d}"`
unfoldable pub padded : ℕ → ℕ → String
unfolding decimal zeros_before length
padded width n = zeros_before (width - length (decimal n)) (decimal n)

-- `int(s)` of a text of digits, read after the digits of `n`
value_after : ℕ → String → ℕ
value_after n [] = n
value_after n (c ∷ s) = value_after (n * 10 + (code c - 48)) s

unfoldable pub value : String → ℕ
unfolding value_after
value s = value_after 0 s

code-digit : (n : ℕ) → n < 10 → code (digit n) - 48 ≡ n
code-digit zero h = refl
code-digit (suc zero) h = refl
code-digit (suc (suc zero)) h = refl
code-digit (suc (suc (suc zero))) h = refl
code-digit (suc (suc (suc (suc zero)))) h = refl
code-digit (suc (suc (suc (suc (suc zero))))) h = refl
code-digit (suc (suc (suc (suc (suc (suc zero)))))) h = refl
code-digit (suc (suc (suc (suc (suc (suc (suc zero))))))) h = refl
code-digit (suc (suc (suc (suc (suc (suc (suc (suc zero)))))))) h = refl
code-digit (suc (suc (suc (suc (suc (suc (suc (suc (suc zero))))))))) h = refl
code-digit (suc (suc (suc (suc (suc (suc (suc (suc (suc (suc n)))))))))) h = absurd (omega arith)

value_after-digits_before :
    (fuel n : ℕ) (rest : String)
    → n < fuel
    → value_after 0 (digits_before fuel n rest) ≡ value_after n rest
unfolding digits_before value_after
value_after-digits_before zero n rest h = absurd (omega arith)
value_after-digits_before (suc fuel) n rest h = elim (Bool-cases (ltb n 10)) [
  | inl small ↦
      rw small (ap (λ m. value_after m rest) (omega (arith, code-digit n (ltb→lt n 10 small))))
  | inr large ↦ rw large (
      value_after-digits_before fuel (n / 10) (digit (n % 10) ∷ rest) (ground arith)
      ∙ ap (λ m. value_after m rest) (omega (arith, code-digit (n % 10) (omega arith))))
]

value_after-zeros_before : (k : ℕ) (s : String) → value_after 0 (zeros_before k s) ≡ value_after 0 s
unfolding zeros_before value_after
value_after-zeros_before zero s = refl
value_after-zeros_before (suc k) s = value_after-zeros_before k s

-- Reading back what was printed.
pub value-decimal : (n : ℕ) → value (decimal n) ≡ n
unfolding value decimal
value-decimal n = value_after-digits_before (suc n) n "" (omega arith)

pub value-padded : (width n : ℕ) → value (padded width n) ≡ n
unfolding padded value
value-padded width n =
    value_after-zeros_before (width - length (decimal n)) (decimal n)
    ∙ value_after-digits_before (suc n) n "" (omega arith)

pub padded_injective : (width m n : ℕ) → padded width m ≡ padded width n → m ≡ n
padded_injective width m n e = sym (value-padded width m) ∙ ap value e ∙ value-padded width n

padded_zero : padded 6 42 ≡ "000042"
unfolding padded digits_before length zeros_before
padded_zero = refl

-- The text before a closing brace at the end
before_brace : String → Option String
before_brace [] = none
before_brace (c ∷ s) =
    let rest = before_brace s in
    if s == ""
    then if code c == 125 then some "" else none
    else elim rest [ none ↦ none | some t ↦ some (c ∷ t) ]

-- `s[1:-1]` of a text that starts with an opening brace and ends with a closing one
unfoldable pub braced : String → Option String
unfolding before_brace
braced [] = none
braced (c ∷ s) = if code c == 123 then before_brace s else none

braced-key : braced "{tenant}" ≡ some "tenant"
unfolding braced before_brace
braced-key = refl
