-- ===== src/Prelude/Text.antt =====
-- JavaScript's strings: length in UTF-16 units, `trim`, and the parts of a text.
use Prim.Native.Nat.{ℕ, ◌+◌, ◌-◌, ◌≤◌}
use Prim.Native.Char.{Char, code}
use Prim.Native.String.{String, [], ◌∷◌}
use mathlib.Core.Logic.{inl, inr}
use mathlib.Core.Bool.{Bool, true, false, ◌&&◌, ◌||◌}
use native.Mathlib.Omega.{arith}
use backend_emd.Prelude.Tests.{leb, ltb, nat_beq, if◌then◌else◌, Bool-cases}

abbrev char_units : Char → ℕ
char_units c = if ltb (code c) 0x10000 then 1 else 2

-- `s.length`: a code point beyond the basic plane counts two units.
unfoldable pub text_length : String → ℕ
text_length [] = 0
text_length (c ∷ s) = char_units c + text_length s

-- `s.slice(0, units)`. A character of two units that is cut in the middle is left out whole, where
-- JavaScript keeps its first half.
unfoldable pub take_units : ℕ → String → String
take_units units [] = []
take_units units (c ∷ s) =
    let width = char_units c in
    let rest = take_units (units - width) s in if leb width units then c ∷ rest else []

pub text_length-take_units : (units : ℕ) (s : String) → text_length (take_units units s) ≤ units
unfolding text_length take_units
text_length-take_units units [] = omega arith
text_length-take_units units (c ∷ s) = elim (Bool-cases (leb (char_units c) units)) [
  | inl fits ↦ rw fits (ground (arith, text_length-take_units (units - char_units c) s))
  | inr cut ↦ rw cut (ground arith)
]

-- WhiteSpace and LineTerminator of ECMAScript.
unfoldable pub is_white_space : ℕ → Bool
is_white_space c =
    (leb 9 c && leb c 13)
    || (c_is 0x20
        || (c_is 0xa0
            || (c_is 0x1680
                || ((leb 0x2000 c && leb c 0x200a)
                    || (c_is 0x2028
                        || (c_is 0x2029
                            || (c_is 0x202f || (c_is 0x205f || (c_is 0x3000 || c_is 0xfeff)))))))))
  where
    c_is : ℕ → Bool
    c_is d = nat_beq c d

abbrev pub is_empty_text : String → Bool
is_empty_text [] = true
is_empty_text (c ∷ s) = false

unfoldable pub trim_start : String → String
unfolding is_white_space
trim_start [] = []
trim_start (c ∷ s) = let rest = trim_start s in if is_white_space (code c) then rest else c ∷ s

unfoldable pub trim_end : String → String
unfolding is_white_space
trim_end [] = []
trim_end (c ∷ s) =
    let rest = trim_end s in if is_white_space (code c) && is_empty_text rest then [] else c ∷ rest

-- `s.trim()`
unfoldable pub trim : String → String
unfolding trim_start trim_end
trim s = trim_end (trim_start s)
