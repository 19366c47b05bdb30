-- ===== src/Base/Text.antt =====
-- Digits in a text: the first run of them (the regular expression `\d+`), and its value.
use Prim.Native.Nat.{ℕ, ◌+◌, ◌*◌, ◌-◌}
use Prim.Native.Char.{code}
use Prim.Native.String.{String}
use mathlib.Core.Bool.{Bool, ◌&&◌}
use mathlib.Core.List.{List, [], ◌∷◌}
use edp_gerrit_operator.Base.Equality.{leb, if◌then◌else◌}

abbrev pub codes : String → List ℕ
codes String.[] = []
codes (String.◌∷◌ c s) = code c ∷ codes s

abbrev pub is_digit : ℕ → Bool
is_digit c = leb b'0' c && leb c b'9'

-- The digits at the beginning of a text.
unfoldable pub leading_digits : String → String
leading_digits String.[] = String.[]
leading_digits (String.◌∷◌ c s) =
    let rest = leading_digits s in if is_digit (code c) then String.◌∷◌ c rest else String.[]

-- `regexp.MustCompile(`\d+`).FindStringSubmatch`; the empty text stands for no match.
unfoldable pub first_digits : String → String
unfolding leading_digits
first_digits String.[] = String.[]
first_digits (String.◌∷◌ c s) =
    let here = leading_digits (String.◌∷◌ c s) in
    let later = first_digits s in if is_digit (code c) then here else later

-- The number that digits stand for, after a number read before.
unfoldable pub decimal_from : ℕ → List ℕ → ℕ
decimal_from n [] = n
decimal_from n (c ∷ s) = decimal_from (n * 10 + (c - b'0')) s
