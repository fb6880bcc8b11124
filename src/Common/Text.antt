-- ===== src/Common/Text.antt =====
-- Python's `str` methods that the program calls.
use Prim.Native.Char.{Char, code}
use Prim.Native.Nat.{ℕ, zero, suc, ◌/◌, ◌%◌}
use Prim.Native.String.{String, ◌++◌ as ◌<>◌, compare}
use Prim.Native.Nat.{Ordering}
use mathlib.Core.Bool.{Bool, true, false, ◌||◌, ◌&&◌}
use mathlib.Core.List.{List, [], ◌∷◌}
use text.Mathlib.Text.{starts_with}
use redfish_ctl.Common.Tests.{ltb, leb, ◌=?◌, if◌then◌else◌}

abbrev pub is_empty : String → Bool
is_empty String.[] = true
is_empty (String.◌∷◌ c s) = false

abbrev singleton : Char → String
singleton c = String.◌∷◌ c String.[]

abbrev cons_head : Char → List String → List String
cons_head c [] = singleton c ∷ []
cons_head c (w ∷ ws) = (String.◌∷◌ c w) ∷ ws

-- s.split(sep) at a separator of one character: never empty
unfoldable pub split : ℕ → String → List String
split sep String.[] = "" ∷ []
split sep (String.◌∷◌ c s) =
    let rest = split sep s in if code c =? sep then "" ∷ rest else cons_head c rest

-- words[-1]
unfoldable pub last_of : String → List String → String
last_of d [] = d
last_of d (w ∷ ws) = last_of w ws

-- words[0]
abbrev pub first_of : String → List String → String
first_of d [] = d
first_of d (w ∷ ws) = w

-- sep.join(words)
unfoldable pub join : String → List String → String
join sep [] = ""
join sep (w ∷ []) = w
join sep (w ∷ v ∷ ws) = w <> (sep <> join sep (v ∷ ws))

-- needle in s
unfoldable pub occurs : String → String → Bool
occurs needle String.[] = is_empty needle
occurs needle (String.◌∷◌ c s) = starts_with (String.◌∷◌ c s) needle || occurs needle s

-- s.lstrip("#")
unfoldable pub lstrip : ℕ → String → String
lstrip drop String.[] = ""
lstrip drop (String.◌∷◌ c s) =
    let rest = lstrip drop s in if code c =? drop then rest else String.◌∷◌ c s

-- str.isspace for one character
unfoldable pub is_space : ℕ → Bool
is_space c =
    (leb 9 c && leb c 13)
    || ((leb 28 c && leb c 32)
        || (c =? 133
            || (c =? 160
                || (c =? 5760
                    || ((leb 8192 c && leb c 8202)
                        || (c =? 8232
                            || (c =? 8233 || (c =? 8239 || (c =? 8287 || c =? 12288)))))))))

unfoldable pub lstrip_space : String → String
unfolding is_space
lstrip_space String.[] = ""
lstrip_space (String.◌∷◌ c s) =
    let rest = lstrip_space s in if is_space (code c) then rest else String.◌∷◌ c s

-- A character in front of a text that is stripped on the right.
abbrev pub keep_char : Char → String → String
keep_char c s = if is_empty s && is_space (code c) then "" else String.◌∷◌ c s

unfoldable pub rstrip_space : String → String
unfolding is_space
rstrip_space String.[] = ""
rstrip_space (String.◌∷◌ c s) = keep_char c (rstrip_space s)

-- s.strip()
unfoldable pub strip : String → String
unfolding lstrip_space rstrip_space
strip s = lstrip_space (rstrip_space s)

abbrev pub digit : ℕ → Char
digit zero = "0"
digit (suc zero) = "1"
digit (suc (suc zero)) = "2"
digit (suc (suc (suc zero))) = "3"
digit (suc (suc (suc (suc zero)))) = "4"
digit (suc (suc (suc (suc (suc zero))))) = "5"
digit (suc (suc (suc (suc (suc (suc zero)))))) = "6"
digit (suc (suc (suc (suc (suc (suc (suc zero))))))) = "7"
digit (suc (suc (suc (suc (suc (suc (suc (suc zero)))))))) = "8"
digit n = "9"

-- The digits of `n` in front of a text; the fuel `n` is more than their number.
unfoldable pub show_digits : ℕ → ℕ → String → String
show_digits zero n out = String.◌∷◌ (digit n) out
show_digits (suc f) n out =
    let more = show_digits f (n / 10) (String.◌∷◌ (digit (n % 10)) out) in
    if ltb n 10 then String.◌∷◌ (digit n) out else more

-- str(n)
unfoldable pub show : ℕ → String
unfolding show_digits
show n = show_digits n n ""

-- s < t, by code points
abbrev pub text_lt : String → String → Bool
text_lt s t = elim (compare s t) [ Ordering.lt ↦ true | _ ↦ false ]

insert_sorted : String → List String → List String
insert_sorted t [] = t ∷ []
insert_sorted t (u ∷ us) =
    let rest = insert_sorted t us in if text_lt u t then u ∷ rest else t ∷ u ∷ us

-- sorted(texts)
unfoldable pub sorted : List String → List String
unfolding insert_sorted
sorted [] = []
sorted (t ∷ ts) = insert_sorted t (sorted ts)
