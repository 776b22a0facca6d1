-- ===== src/Utils/Text.antt =====
-- strings.TrimSpace and the test for a blank text.
use Prim.Native.Char.{Char, code}
use Prim.Native.String.{String, [], ◌∷◌}
use text.Mathlib.Text.{◌==◌ as str_eq}
use krane_event_management_p.Common.{ℕ, Bool, true, ◌≡◌, refl, ◌==◌, ◌&&◌, ◌||◌, leb, if◌then◌else◌}

-- unicode.IsSpace
pub is_space : ℕ → Bool
is_space c =
    leb 9 c && leb c 13
    || (c == 32
        || (c == 133
            || (c == 160
                || (c == 5760
                    || (leb 8192 c && leb c 8202
                        || (c == 8232
                            || (c == 8233 || (c == 8239 || (c == 8287 || c == 12288)))))))))

pub trim_left : String → String
trim_left [] = []
trim_left (c ∷ s) = if is_space (code c) then trim_left s else c ∷ s

abbrev drop_space : Char → String → String
drop_space c [] = if is_space (code c) then [] else c ∷ []
drop_space c (d ∷ s) = c ∷ d ∷ s

pub trim_right : String → String
trim_right [] = []
trim_right (c ∷ s) = drop_space c (trim_right s)

unfoldable pub trim_space : String → String
unfolding trim_left trim_right is_space
trim_space s = trim_right (trim_left s)

-- strings.TrimSpace(s) == ""
unfoldable pub is_blank : String → Bool
unfolding trim_space
is_blank s = str_eq (trim_space s) ""

blank_text : is_blank " \t " ≡ true
unfolding is_blank
blank_text = refl

trimmed_text : trim_space "  a b " ≡ "a b"
unfolding trim_space
trimmed_text = refl
