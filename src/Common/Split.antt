-- ===== src/Common/Split.antt =====
-- Splitting a text at a character.
use Prim.Native.Char.{Char, code}
use Prim.Native.Nat.{ℕ}
use Prim.Native.String.{String, ◌++◌ as ◌<>◌}
use mathlib.Core.Path.{◌≡◌, refl, sym, ap, ◌∙◌}
use mathlib.Core.Logic.{inl, inr}
use mathlib.Core.Bool.{Bool, true, false, not, ◌&&◌}
use mathlib.Core.List.{List, [], ◌∷◌}
use native.Mathlib.Omega.{arith}
use text.Mathlib.TextLemmas.{nil-append, cons-append}
use redfish_ctl.Common.Tests.{◌=?◌, Bool-cases}
use redfish_ctl.Common.Text.{split, last_of, first_of}

-- The character stands nowhere in the text.
abbrev pub lacks : ℕ → String → Bool
lacks sep String.[] = true
lacks sep (String.◌∷◌ c s) = not (code c =? sep) && lacks sep s

pub split_lacking : (sep : ℕ) (s : String) → lacks sep s ≡ true → split sep s ≡ s ∷ []
unfolding split
split_lacking sep String.[] h = refl
split_lacking sep (String.◌∷◌ c s) h = ground (arith, split_lacking sep s)

split_cons : (sep : ℕ) (s : String) → (v : String) × (ws : List String) × (split sep s ≡ v ∷ ws)
unfolding split
split_cons sep String.[] = ("", [], refl)
split_cons sep (String.◌∷◌ c s) =
    let (v, ws, e) = split_cons sep s in
    elim (Bool-cases (code c =? sep)) [
      | inl here ↦ ("", v ∷ ws, rw (here, e) refl)
      | inr away ↦ (String.◌∷◌ c v, ws, rw (away, e) refl)
    ]

-- Behind a separator the last word is that of the rest, whatever stands in front.
pub split_behind :
    (sep : ℕ) (c : Char) (a s : String)
    → (code c =? sep) ≡ true
    → (w v : String) × (ws : List String) × (split sep (a <> String.◌∷◌ c s) ≡ w ∷ v ∷ ws)
      × (last_of v ws ≡ last_of "" (split sep s))
unfolding split last_of
split_behind sep c String.[] s h =
    let (v, ws, e) = split_cons sep s in ("", v, ws, rw (nil-append, h, e) refl, rw e refl)
split_behind sep c (String.◌∷◌ d a) s h =
    let (w, v, ws, e, last) = split_behind sep c a s h in
    elim (Bool-cases (code d =? sep)) [
      | inl here ↦ ("", w, v ∷ ws, rw (cons-append, here, e) refl, last)
      | inr away ↦ (String.◌∷◌ d w, v, ws, rw (cons-append, away, e) refl, last)
    ]

pub lacks-append :
    (sep : ℕ) (a s : String) → lacks sep a ≡ true → lacks sep s ≡ true → lacks sep (a <> s) ≡ true
lacks-append sep String.[] s h k = rw nil-append k
lacks-append sep (String.◌∷◌ d a) s h k =
    rw cons-append (ground (arith, lacks-append sep a s (ground arith) k))

-- Behind a text without the separator, which a separator follows, the other words stand.
pub split_word :
    (sep : ℕ) (c : Char) (a s : String)
    → (code c =? sep) ≡ true
    → lacks sep a ≡ true
    → split sep (a <> String.◌∷◌ c s) ≡ a ∷ split sep s
unfolding split
split_word sep c String.[] s h k = rw (nil-append, h) refl
split_word sep c (String.◌∷◌ d a) s h k = elim (Bool-cases (code d =? sep)) [
  | inl here ↦ absurd (ground arith)
  | inr away ↦ rw (cons-append, away, split_word sep c a s h (ground arith)) refl
]

-- The first word of a text that has the separator is not changed by what follows.
pub first_word :
    (sep : ℕ) (a s : String)
    → lacks sep a ≡ false
    → first_of "" (split sep (a <> s)) ≡ first_of "" (split sep a)
unfolding split
first_word sep String.[] s h = absurd cc
first_word sep (String.◌∷◌ d a) s h = elim (Bool-cases (code d =? sep)) [
  | inl here ↦ rw (cons-append, here) refl
  | inr away ↦
      let (v, vs, e) = split_cons sep (a <> s) in
      let (w, ws, k) = split_cons sep a in
      let same = first_word sep a s (ground arith) in
      rw (cons-append, away, e, k)
        (ap (String.◌∷◌ d) (ap (first_of "") (sym e) ∙ same ∙ ap (first_of "") k))
]
