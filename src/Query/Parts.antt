-- ===== src/Query/Parts.antt =====
-- redfish_ctl/redfish_query.py: what the query string of a read says to a service that reads it.
use Prim.Native.Char.{Char, char}
use text.Mathlib.TextLemmas.{nil-append, cons-append}
use redfish_ctl.Common.{
  ℕ, String, ◌<>◌, ◌≡◌, ◌⊎◌, inl, inr, refl, sym, ap, ◌∙◌, Bool, true, false, List, [], ◌∷◌, map,
  All,
}
use redfish_ctl.Common.Effect.{ok, raised}
use redfish_ctl.Common.Split.{lacks, lacks-append, split_lacking, split_word, first_word}
use redfish_ctl.Common.Text.{split, first_of, join, show}
use redfish_ctl.Json.{Json, null, bool, int, neg, str, list, dict, to_text}
use redfish_ctl.Query.{
  quote, ValueError, Expansion, unexpanded, flag, mode, RedfishQuery, selects, select_text, filters,
  filter_text, expands, mode_of, has_value, added, active_names, expansion, pairs, rendered,
  to_query_string,
}
use redfish_ctl.Query.Valid.{Fits, IsValid, validate_lem}
use redfish_ctl.Query.Quoted.{lacks-quote, lacks-show_digits}

-- The mode of an expansion does not end its parameter.
abbrev pub IsPlain : Expansion → Type 0
IsPlain (mode t) = lacks b'&' t ≡ true
IsPlain _ = Unit

-- The name of a parameter, as a service reads it.
abbrev pub parameter : String → String
unfolding split
parameter p = first_of "" (split b'=' p)

-- The fragments, of which none has a separator, and the names that a service reads from them.
abbrev IsRead : List String → List String → Type 0
IsRead ps ns = All (λ p. lacks b'&' p ≡ true) ps × (map parameter ps ≡ ns)

added-IsRead :
    (b : Bool) (p n : String) (ps ns : List String)
    → (b ≡ true → (lacks b'&' p ≡ true) × (parameter p ≡ n))
    → IsRead ps ns
    → IsRead (added b p ps) (added b n ns)
added-IsRead false p n ps ns h k = k
added-IsRead true p n ps ns h k =
    let (whole, named) = h refl in ((whole, k.0), rw (named, k.1) refl)

-- A fragment that starts with its key and a sign of equality.
keyed-IsRead :
    (b : Bool) (key x n : String) (ps ns : List String)
    → lacks b'&' key ≡ true
    → lacks b'=' key ≡ false
    → parameter key ≡ n
    → (b ≡ true → lacks b'&' x ≡ true)
    → IsRead ps ns
    → IsRead (added b (key <> x) ps) (added b n ns)
unfolding parameter
keyed-IsRead b key x n ps ns whole ends named plain =
    added-IsRead b (key <> x) n ps ns
      (λ on. (lacks-append b'&' key x whole (plain on), first_word b'=' key x ends ∙ named))

abbrev ampersand : Char
ampersand = char b'&' tt

ampersand_append : (s : String) → "&" <> s ≡ String.◌∷◌ ampersand s
ampersand_append s = cons-append ampersand "" s ∙ ap (String.◌∷◌ ampersand) (nil-append s)

split-join :
    (p : String) (ps : List String)
    → All (λ p. lacks b'&' p ≡ true) (p ∷ ps)
    → split b'&' (join "&" (p ∷ ps)) ≡ p ∷ ps
unfolding join
split-join p [] h = split_lacking b'&' p h.0
split-join p (r ∷ ps) h =
    rw ampersand_append
      (split_word b'&' ampersand p (join "&" (r ∷ ps)) refl h.0 ∙ ap (◌∷◌ p) (split-join r ps h.1))

-- What a service reads from a query string: nothing from an empty one, else the parameters behind
-- the question mark.
abbrev pub ReadsAs : String → List String → Type 0
ReadsAs s names =
    ((names ≡ []) × (s ≡ ""))
    ⊎ ((t : String) × (s ≡ "?" <> t) × (map parameter (split b'&' t) ≡ names))

rendered-ReadsAs : (ps ns : List String) → IsRead ps ns → ReadsAs (rendered ps) ns
unfolding rendered
rendered-ReadsAs [] ns h = inl (sym h.1, refl)
rendered-ReadsAs (p ∷ ps) ns h =
    inr (join "&" (p ∷ ps), refl, ap (map parameter) (split-join p ps h.0) ∙ h.1)

module _ (repr : String → String) where
  lacks-to_text : (k : ℕ) (v : Json) → Fits k v → lacks b'&' (to_text repr v) ≡ true
  unfolding to_text show
  lacks-to_text k null h = refl
  lacks-to_text k (bool true) h = refl
  lacks-to_text k (bool false) h = refl
  lacks-to_text k (int n) h = lacks-show_digits n n "" refl
  lacks-to_text k (neg n) h = absurd h
  lacks-to_text k (str s) h = absurd h
  lacks-to_text k (list vs) h = absurd h
  lacks-to_text k (dict fs) h = absurd h

  mode_plain : (e : Expansion) → IsPlain e → lacks b'&' (mode_of e) ≡ true
  mode_plain unexpanded h = refl
  mode_plain (flag b) h = refl
  mode_plain (mode t) h = h

  lacks-expansion :
      (e : Expansion) (levels : Json)
      → IsPlain e
      → Fits 1 levels
      → lacks b'&' (mode_of e <> ("($levels=" <> (to_text repr levels <> ")"))) ≡ true
  lacks-expansion e levels plain fits =
      lacks-append b'&' (mode_of e) ("($levels=" <> (to_text repr levels <> ")"))
        (mode_plain e plain)
        (lacks-append b'&' "($levels=" (to_text repr levels <> ")") refl
          (lacks-append b'&' (to_text repr levels) ")" (lacks-to_text 1 levels fits) refl))

  pairs-IsRead :
      (q : RedfishQuery) (one : Bool)
      → IsPlain q.expand
      → IsValid q one
      → IsRead (pairs repr q) (active_names q)
  unfolding pairs active_names expansion parameter
  pairs-IsRead q one plain valid =
      keyed-IsRead (selects q.select) "$select=" (quote (select_text q.select)) "$select" _ _ refl
        refl refl (λ on. lacks-quote (select_text q.select))
        (keyed-IsRead (filters q.filter) "$filter=" (quote (filter_text q.filter)) "$filter" _ _
          refl refl refl (λ on. lacks-quote (filter_text q.filter))
          (keyed-IsRead (expands q.expand) "$expand="
            (mode_of q.expand <> ("($levels=" <> (to_text repr q.expand_levels <> ")"))) "$expand" _
            _ refl refl refl (λ on. lacks-expansion q.expand q.expand_levels plain valid.1)
            (keyed-IsRead (has_value q.top) "$top=" (to_text repr q.top) "$top" _ _ refl refl refl
              (λ on. lacks-to_text 0 q.top valid.0)
              (added-IsRead q.only "only" "only" [] [] (λ on. (refl, refl)) (tt, refl)))))

  -- A query whose numbers are in range, and which has one parameter at most where the service takes no
  -- more, gives a query string from which a service reads exactly the parameters that are set, in order,
  -- whatever their values are, as long as the mode of the expansion has no ampersand. Any other query
  -- raises.
  pub to_query_string_reads :
      (q : RedfishQuery) (one_param_per_uri : Bool)
      → IsPlain q.expand
      → (IsValid q one_param_per_uri
          × (s : String) × (to_query_string repr q one_param_per_uri ≡ ok s)
          × ReadsAs s (active_names q))
        ⊎ (¬ IsValid q one_param_per_uri
            × (e : ValueError) × (to_query_string repr q one_param_per_uri ≡ raised e))
  unfolding to_query_string
  to_query_string_reads q one plain = elim (validate_lem q one) [
    | inl (valid, passes) ↦ inl (
      valid,
      rendered (pairs repr q),
      rw passes refl,
      rendered-ReadsAs (pairs repr q) (active_names q) (pairs-IsRead q one plain valid),
    )
    | inr (wrong, e, fails) ↦ inr (wrong, e, rw fails refl)
  ]
