-- ===== src/Query/Quoted.antt =====
-- redfish_ctl/redfish_query.py: no value that is written into the query string ends its parameter.
use Prim.Native.Char.{code}
use redfish_ctl.Common.{
  ℕ, zero, suc, ◌/◌, ◌%◌, String, ◌≡◌, inl, inr, refl, Bool, true, false, if◌then◌else◌, List, [],
  ◌∷◌, ltb, ◌=?◌, arith, Bool-cases,
}
use redfish_ctl.Common.Split.{lacks}
use redfish_ctl.Common.Text.{digit, show_digits}
use redfish_ctl.Query.{is_safe, among, hex_digit, escape, utf8, quote}

digit_plain : (n : ℕ) → (code (digit n) =? 38) ≡ false
digit_plain zero = refl
digit_plain (suc zero) = refl
digit_plain (suc (suc zero)) = refl
digit_plain (suc (suc (suc zero))) = refl
digit_plain (suc (suc (suc (suc zero)))) = refl
digit_plain (suc (suc (suc (suc (suc zero))))) = refl
digit_plain (suc (suc (suc (suc (suc (suc zero)))))) = refl
digit_plain (suc (suc (suc (suc (suc (suc (suc zero))))))) = refl
digit_plain (suc (suc (suc (suc (suc (suc (suc (suc zero)))))))) = refl
digit_plain (suc (suc (suc (suc (suc (suc (suc (suc (suc n))))))))) = refl

hex_digit_plain : (n : ℕ) → (code (hex_digit n) =? 38) ≡ false
hex_digit_plain n = elim (Bool-cases (ltb n 10)) [
  | inl small ↦ rw small (digit_plain n)
  | inr large ↦ rw large (letter (n =? 10) (n =? 11) (n =? 12) (n =? 13) (n =? 14))
]
  where
    letter :
        (a b c d e : Bool)
        → (code (
              if a
              then "A"
              else if b
              then "B"
              else if c
              then "C"
              else if d
              then "D"
              else if e
              then "E"
              else "F")
            =? 38)
          ≡ false
    letter true b c d e = refl
    letter false true c d e = refl
    letter false false true d e = refl
    letter false false false true e = refl
    letter false false false false true = refl
    letter false false false false false = refl

lacks-escape : (bs : List ℕ) (s : String) → lacks b'&' s ≡ true → lacks b'&' (escape bs s) ≡ true
unfolding escape
lacks-escape [] s h = h
lacks-escape (b ∷ bs) s h =
    rw (hex_digit_plain (b / 16), hex_digit_plain (b % 16)) (lacks-escape bs s h)

safe_plain : (c : ℕ) → is_safe c ≡ true → (c =? b'&') ≡ false
unfolding is_safe among
safe_plain c h = ground arith

-- No text that is quoted has the separator of parameters.
pub lacks-quote : (t : String) → lacks b'&' (quote t) ≡ true
unfolding quote
lacks-quote String.[] = refl
lacks-quote (String.◌∷◌ c s) = elim (Bool-cases (is_safe (code c))) [
  | inl safe ↦ rw (safe, safe_plain (code c) safe) (lacks-quote s)
  | inr unsafe ↦ rw unsafe (lacks-escape (utf8 (code c)) (quote s) (lacks-quote s))
]

pub lacks-show_digits :
    (f n : ℕ) (out : String) → lacks b'&' out ≡ true → lacks b'&' (show_digits f n out) ≡ true
unfolding show_digits
lacks-show_digits zero n out h = rw (digit_plain n) h
lacks-show_digits (suc f) n out h = elim (Bool-cases (ltb n 10)) [
  | inl small ↦ rw (small, digit_plain n) h
  | inr large ↦
      rw large (
        lacks-show_digits f (n / 10) (String.◌∷◌ (digit (n % 10)) out)
          (rw (digit_plain (n % 10)) h))
]
