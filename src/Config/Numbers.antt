-- ===== src/Config/Numbers.antt =====
-- redfish_ctl/config.py: whole numbers read from the environment.
use Prim.Native.Char.{code}
use redfish_ctl.Common.{
  ℕ, zero, suc, ◌+◌, ◌*◌, ◌/◌, ◌%◌, ◌≤◌, ◌<◌, String, ◌≡◌, inl, inr, refl, sym, ap, ◌∙◌, Bool, true,
  false, ◌&&◌, Option, some, List, [], ◌∷◌, ltb, leb, if◌then◌else◌, arith, Bool-cases,
  Option-cases, contains, eq_iff, eq_refl,
}
use redfish_ctl.Common.Dict.{lookup}
use redfish_ctl.Common.Effect.{ok}
use redfish_ctl.Common.Int.{
  pos, read_digits, read_digit, digit_value, digit_count, max_digits, whole, as_ℤ, read_signed,
  int_of_text,
}
use redfish_ctl.Common.Text.{
  digit, show_digits, show, is_space, lstrip_space, rstrip_space, strip, is_empty,
}
use redfish_ctl.Config.{Env, env_first}
use redfish_ctl.Config.Settings.{env_int}
use redfish_ctl.Config.Laws.{first_value, env_first_resolves}

-- A text of one or more ASCII digits.
abbrev Digital : String → Type 0
Digital String.[] = Unit
Digital (String.◌∷◌ c s) = (48 ≤ code c) × (code c ≤ 57) × Digital s

digit_code : (d : ℕ) → d < 10 → code (digit d) ≡ 48 + d
digit_code zero h = refl
digit_code (suc zero) h = refl
digit_code (suc (suc zero)) h = refl
digit_code (suc (suc (suc zero))) h = refl
digit_code (suc (suc (suc (suc zero)))) h = refl
digit_code (suc (suc (suc (suc (suc zero))))) h = refl
digit_code (suc (suc (suc (suc (suc (suc zero)))))) h = refl
digit_code (suc (suc (suc (suc (suc (suc (suc zero))))))) h = refl
digit_code (suc (suc (suc (suc (suc (suc (suc (suc zero)))))))) h = refl
digit_code (suc (suc (suc (suc (suc (suc (suc (suc (suc zero))))))))) h = refl
digit_code (suc (suc (suc (suc (suc (suc (suc (suc (suc (suc n)))))))))) h = absurd (omega arith)

read_digit_lem :
    (m d c : ℕ) (b : Bool)
    → d < 10
    → c ≡ 48 + d
    → read_digit c (some (m, b)) ≡ some (m * 10 + d, true)
unfolding read_digit digit_value
read_digit_lem m d c b h e = ground arith

-- The digits of a number, read after a number of which nothing is known, as its last digits.
read_digits-show_digits :
    (f n : ℕ) (b : Bool) (out : String)
    → n ≤ f
    → read_digits (some (0, b)) (show_digits f n out) ≡ read_digits (some (n, true)) out
unfolding read_digits show_digits
read_digits-show_digits zero n b out h =
    ap (λ d. read_digits d out)
      (read_digit_lem 0 n (code (digit n)) b (omega arith) (digit_code n (omega arith))
        ∙ ap (λ k. some (k, true)) (omega arith))
read_digits-show_digits (suc f) n b out h = elim (Bool-cases (ltb n 10)) [
  | inl small ↦ rw small (
      ap (λ d. read_digits d out)
        (read_digit_lem 0 n (code (digit n)) b (ground arith) (digit_code n (ground arith))
          ∙ ap (λ k. some (k, true)) (omega arith)))
  | inr large ↦ rw large (
      read_digits-show_digits f (n / 10) b (String.◌∷◌ (digit (n % 10)) out) (ground arith)
      ∙ ap (λ d. read_digits d out)
          (read_digit_lem (n / 10) (n % 10) (code (digit (n % 10))) true (omega arith)
              (digit_code (n % 10) (omega arith))
            ∙ ap (λ k. some (k, true)) (omega arith)))
]

show_digits-Digital : (f n : ℕ) (out : String) → n ≤ f → Digital out → Digital (show_digits f n out)
unfolding show_digits
show_digits-Digital zero n out h rest =
    let e = digit_code n (omega arith) in (omega arith, omega arith, rest)
show_digits-Digital (suc f) n out h rest = elim (Bool-cases (ltb n 10)) [
  | inl small ↦ rw small (
      let lt : n < 10 = ground arith in let e = digit_code n lt in (omega arith, omega arith, rest))
  | inr large ↦
      let e = digit_code (n % 10) (omega arith) in
      rw large (
        show_digits-Digital f (n / 10) (String.◌∷◌ (digit (n % 10)) out) (ground arith)
          (omega arith, omega arith, rest))
]

show_digits_ne : (f n : ℕ) (out : String) → is_empty (show_digits f n out) ≡ false
unfolding show_digits
show_digits_ne zero n out = refl
show_digits_ne (suc f) n out = elim (Bool-cases (ltb n 10)) [
  | inl small ↦ rw small refl
  | inr large ↦ rw large (show_digits_ne f (n / 10) (String.◌∷◌ (digit (n % 10)) out))
]

digit_not_space : (c : ℕ) → 48 ≤ c → c ≤ 57 → is_space c ≡ false
unfolding is_space
digit_not_space c lo hi = ground arith

rstrip_space-Digital : (s : String) → Digital s → rstrip_space s ≡ s
unfolding rstrip_space
rstrip_space-Digital String.[] h = refl
rstrip_space-Digital (String.◌∷◌ c s) (lo, hi, h) =
    rw (rstrip_space-Digital s h, digit_not_space (code c) lo hi) (kept (is_empty s))
  where
    kept : (b : Bool) → (if b && false then "" else String.◌∷◌ c s) ≡ String.◌∷◌ c s
    kept b = ground arith

lstrip_space-Digital : (s : String) → Digital s → lstrip_space s ≡ s
unfolding lstrip_space
lstrip_space-Digital String.[] h = refl
lstrip_space-Digital (String.◌∷◌ c s) (lo, hi, h) = rw (digit_not_space (code c) lo hi) refl

read_signed-Digital :
    (s : String)
    → Digital s
    → is_empty s ≡ false
    → read_signed s ≡ as_ℤ pos (whole (read_digits (some (0, false)) s))
unfolding read_signed
read_signed-Digital String.[] h ne = cc
read_signed-Digital (String.◌∷◌ c s) (lo, hi, h) ne = ground arith

int_of_text-show : (n : ℕ) → digit_count (show n) ≤ max_digits → int_of_text (show n) ≡ some (pos n)
unfolding int_of_text strip show read_digits
int_of_text-show n short =
    let within : leb (digit_count (show_digits n n "")) max_digits ≡ true = ground (arith, short) in
    let digital = show_digits-Digital n n "" (omega arith) tt in
    rw
      (
        within,
        rstrip_space-Digital (show_digits n n "") digital,
        lstrip_space-Digital (show_digits n n "") digital,
        read_signed-Digital (show_digits n n "") digital (show_digits_ne n n ""),
        read_digits-show_digits n n false "" (omega arith),
      )
      refl

first_value-show :
    (env : Env) (t k : String) (names : List String) (default : Option String)
    → contains k names ≡ true
    → lookup k env ≡ some t
    → ((m v : String) → contains m names ≡ true → lookup m env ≡ some v → v ≡ t)
    → first_value env names default ≡ some t
first_value-show env t k [] default known set only = cc
first_value-show env t k (n ∷ names) default known set only = elim (Option-cases (lookup n env)) [
  | inr (v, found) ↦ rw found (ap some (only n v (ground (arith, eq_refl n)) found))
  | inl unset ↦ rw unset (
      first_value-show env t k names default (ground (arith, eq_iff n k)) set
        (λ m v later. only m v (ground arith)))
]

module _ (env : Env) (names : List String) (default k : String) (n : ℕ) where
  env_first-show :
      (strict : Bool) (warned : List String)
      → contains k names ≡ true
      → lookup k env ≡ some (show n)
      → ((m v : String) → contains m names ≡ true → lookup m env ≡ some v → v ≡ show n)
      → (env_first env names (some default) strict warned).0 ≡ ok (some (show n))
  env_first-show false warned known set only =
      (env_first_resolves env names (some default) warned).0
      ∙ ap ok (first_value-show env (show n) k names (some default) known set only)
  env_first-show true warned known set only =
      elim (env_first_resolves env names (some default) warned).1 [
        | inl (agree, e) ↦
            e ∙ ap ok (first_value-show env (show n) k names (some default) known set only)
        | inr (clash, e) ↦
            absurd (clash (λ i j v w hi hj ev ew. ap strip (only i v hi ev ∙ sym (only j w hj ew))))
      ]

-- A natural number of at most 4300 digits, written in decimal into the environment under one of a setting's names is the
-- number that the setting has, strict or not, as long as no other of its names is set to another text.
pub env_int-show :
    (env : Env) (names : List String) (default k : String) (strict : Bool) (n : ℕ)
    (warned : List String)
    → digit_count (show n) ≤ max_digits
    → contains k names ≡ true
    → lookup k env ≡ some (show n)
    → ((m v : String) → contains m names ≡ true → lookup m env ≡ some v → v ≡ show n)
    → (env_int env names default strict warned).0 ≡ ok (pos n)
unfolding env_int
env_int-show env names default k strict n warned short known set only =
    rw (env_first-show env names default k n strict warned known set only, int_of_text-show n short)
      refl
