-- ===== src/Prelude/Text.antt =====
-- Python's `str` as the program uses it: comparison, truth, `str(int)` and joined f-strings.
use Prim.Native.Nat.{ℕ, zero, suc, ◌/◌, ◌%◌}
use Prim.Native.String.{String}
use Prim.Native.String
use mathlib.Core.Bool.{Bool, false, not, ◌||◌}
use mathlib.Core.List.{List, [], ◌∷◌}
use text.Mathlib.Text.{◌==◌ as text_eq}
use first_agent_dev.Prelude.Tests.{ltb, if◌then◌else◌}

-- `s == t`
abbrev pub str_eq : String → String → Bool
str_eq s t = text_eq s t

-- `bool(s)`
abbrev pub truthy : String → Bool
truthy s = not (str_eq s "")

-- An f-string, as the list of its pieces.
unfoldable pub concat : List String → String
concat [] = ""
concat (s ∷ r) = String.◌++◌ s (concat r)

-- `x in xs` on texts
unfoldable pub contains : String → List String → Bool
contains x [] = false
contains x (y ∷ ys) = str_eq x y || contains x ys

digit : ℕ → String
digit zero = "0"
digit (suc zero) = "1"
digit (suc (suc zero)) = "2"
digit (suc (suc (suc zero))) = "3"
digit (suc (suc (suc (suc zero)))) = "4"
digit (suc (suc (suc (suc (suc zero))))) = "5"
digit (suc (suc (suc (suc (suc (suc zero)))))) = "6"
digit (suc (suc (suc (suc (suc (suc (suc zero))))))) = "7"
digit (suc (suc (suc (suc (suc (suc (suc (suc zero)))))))) = "8"
digit _ = "9"

-- Each round divides by ten, so a number is fuel enough for its own digits.
digits_of : ℕ → ℕ → String
digits_of zero n = ""
digits_of (suc f) n =
    let rest = digits_of f (n / 10) in
    let d = digit (n % 10) in if ltb n 10 then d else String.◌++◌ rest d

-- `str(n)`
pub show : ℕ → String
unfolding digit digits_of
show n = digits_of (suc n) n
