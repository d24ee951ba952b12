-- ===== src/Base/Decimal.antt =====
-- `fmt.Sprintf` with `%d` and `%s`: decimal print of a number and the joining of texts.
use Prim.Native.Nat.{ℕ, zero, suc, ◌+◌, ◌-◌, ◌*◌, ◌/◌, ◌%◌, ◌<◌}
use Prim.Native.Char.{Char, code}
use Prim.Native.String.{String}
use Prim.Native.String
use mathlib.Core.Path.{◌≡◌, refl, sym, ap, ◌∙◌}
use mathlib.Core.List.{List, [], ◌∷◌}
use native.Mathlib.Omega.{arith}
use text.Mathlib.TextLemmas.{append_cancel_left}
use hermet.Base.Tests.{ltb, if◌then◌else◌}

abbrev nth_char : List Char → ℕ → Char
nth_char [] i = "0"
nth_char (c ∷ cs) zero = c
nth_char (c ∷ cs) (suc i) = nth_char cs i

digit : ℕ → Char
digit = nth_char ("0" ∷ "1" ∷ "2" ∷ "3" ∷ "4" ∷ "5" ∷ "6" ∷ "7" ∷ "8" ∷ "9" ∷ [])

-- The digits of `n` in front of `out`; `n + 1` rounds are always enough.
decimal_from : ℕ → ℕ → String → String
decimal_from zero n out = out
decimal_from (suc f) n out =
    let rest = decimal_from f (n / 10) (String.◌∷◌ (digit (n % 10)) out) in
    if ltb n 10 then String.◌∷◌ (digit n) out else rest

unfoldable pub decimal : ℕ → String
unfolding decimal_from digit
decimal n = decimal_from (suc n) n ""

-- `fmt.Sprintf("%s_%d", prefix, suffix)`
unfoldable pub suffixed : String → ℕ → String
unfolding decimal
suffixed prefix suffix = String.◌++◌ prefix (String.◌++◌ "_" (decimal suffix))

read : String → ℕ → ℕ
read String.[] n = n
read (String.◌∷◌ c s) n = read s (n * 10 + (code c - 48))

code-digit : (d : ℕ) → d < 10 → code (digit d) - 48 ≡ d
unfolding digit
code-digit zero h = refl
code-digit (suc zero) h = refl
code-digit (suc (suc zero)) h = refl
code-digit (suc (suc (suc zero))) h = refl
code-digit (suc (suc (suc (suc zero)))) h = refl
code-digit (suc (suc (suc (suc (suc zero))))) h = refl
code-digit (suc (suc (suc (suc (suc (suc zero)))))) h = refl
code-digit (suc (suc (suc (suc (suc (suc (suc zero))))))) h = refl
code-digit (suc (suc (suc (suc (suc (suc (suc (suc zero)))))))) h = refl
code-digit (suc (suc (suc (suc (suc (suc (suc (suc (suc zero))))))))) h = refl
code-digit (suc (suc (suc (suc (suc (suc (suc (suc (suc (suc d)))))))))) h = absurd (omega arith)

read-decimal_from : (f n : ℕ) (out : String) → n < f → read (decimal_from f n out) 0 ≡ read out n
unfolding decimal_from read
read-decimal_from zero n out h = elim h [ ]
read-decimal_from (suc f) n out h = ground (
  arith,
  code-digit n,
  code-digit (n % 10),
  read-decimal_from f (n / 10) (String.◌∷◌ (digit (n % 10)) out),
)

read-decimal : (n : ℕ) → read (decimal n) 0 ≡ n
unfolding decimal read
read-decimal n = read-decimal_from (suc n) n "" (omega arith)

pub decimal_injective : (m n : ℕ) → decimal m ≡ decimal n → m ≡ n
decimal_injective m n h = sym (read-decimal m) ∙ ap (λ s. read s 0) h ∙ read-decimal n

-- Two suffixes under one prefix never share a name.
pub suffixed_injective : (p : String) (m n : ℕ) → suffixed p m ≡ suffixed p n → m ≡ n
unfolding suffixed
suffixed_injective p m n h =
    decimal_injective m n (append_cancel_left "_" _ _ (append_cancel_left p _ _ h))

suffixed_large : suffixed "hermet" 1024 ≡ "hermet_1024"
unfolding suffixed
suffixed_large = refl
