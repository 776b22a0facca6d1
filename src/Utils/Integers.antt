-- ===== src/Utils/Integers.antt =====
-- Go's int, which has 64 bits, and strconv.Atoi.
use Prim.Native.Char.{code}
use Prim.Native.String.{String, [], ◌∷◌}
use krane_event_management_p.Common.{
  ℕ, zero, suc, ◌+◌, ◌-◌, ◌*◌, ◌^◌, Bool, true, false, ◌==◌, ◌&&◌, leb, if◌then◌else◌, Option, none,
  some,
}

-- negsuc n is -(n + 1).
pub data ℤ : Type 0 where
  pos negsuc : ℕ → ℤ

abbrev pub is_positive : ℤ → Bool
is_positive (pos (suc n)) = true
is_positive _ = false

-- The value where it is not negative.
abbrev pub to_ℕ : ℤ → ℕ
to_ℕ (pos n) = n
to_ℕ (negsuc n) = 0

abbrev neg : ℕ → ℤ
neg zero = pos 0
neg (suc n) = negsuc n

pub digits : String → ℕ → Option ℕ
digits [] n = some n
digits (c ∷ s) n =
    if leb 48 (code c) && leb (code c) 57 then digits s (n * 10 + (code c - 48)) else none

pub magnitude : String → Option ℕ
unfolding digits
magnitude [] = none
magnitude (c ∷ s) = digits (c ∷ s) 0

pub signed : (ℕ → ℤ) → ℕ → Option ℕ → Option ℤ
signed sign most none = none
signed sign most (some n) = if leb n most then some (sign n) else none

unfoldable pub atoi : String → Option ℤ
unfolding magnitude signed
atoi [] = none
atoi (c ∷ s) =
    if code c == 45
    then signed neg (2 ^ 63) (magnitude s)
    else if code c == 43
    then signed pos (2 ^ 63 - 1) (magnitude s)
    else signed pos (2 ^ 63 - 1) (magnitude (c ∷ s))
