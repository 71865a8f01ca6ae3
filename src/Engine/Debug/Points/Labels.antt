-- ===== src/Engine/Debug/Points/Labels.antt =====
-- A label `workflow.step` against the prefix that the shorthand cuts off.
use Prim.Native.String.{◌++◌}
use text.Mathlib.TextLemmas.{append-nil, append_assoc}
use markov.Prelude.{
  String, Bool, true, false, none, some, [], ◌∷◌, ◌≡◌, refl, sym, ap, ◌∙◌, concat, strip_prefix,
  Bool-cases, inl, inr, ◌==◌, eq_iff,
}
use markov.Prelude.Prefixes.{strip_prefix-append, strip_prefix-eq}

Bool-eq : (a b : Bool) → (a ≡ true → b ≡ true) → (b ≡ true → a ≡ true) → a ≡ b
Bool-eq true true f g = refl
Bool-eq true false f g = sym (f refl)
Bool-eq false true f g = g refl
Bool-eq false false f g = refl

label_parts : (w n : String) → concat (w ∷ "." ∷ n ∷ []) ≡ concat (w ∷ "." ∷ []) ++ n
label_parts w n = ap (λ t. w ++ ("." ++ t)) (append-nil n) ∙ sym (append_assoc w "." n)

some_eq : {a b : String} → some a ≡ some b → a ≡ b
some_eq h = cc

pub label_some :
    (w n s rest : String)
    → strip_prefix (concat (w ∷ "." ∷ [])) s ≡ some rest
    → (concat (w ∷ "." ∷ n ∷ []) == s) ≡ (n == rest)
label_some w n s rest e = Bool-eq _ _ there back
  where
    start : String
    start = concat (w ∷ "." ∷ [])

    there : (concat (w ∷ "." ∷ n ∷ []) == s) ≡ true → (n == rest) ≡ true
    there h =
        let same = sym (label_parts w n) ∙ (eq_iff (concat (w ∷ "." ∷ n ∷ [])) s).0 h in
        (eq_iff n rest).1
          (some_eq (sym (strip_prefix-append start n) ∙ ap (strip_prefix start) same ∙ e))

    back : (n == rest) ≡ true → (concat (w ∷ "." ∷ n ∷ []) == s) ≡ true
    back h = (eq_iff (concat (w ∷ "." ∷ n ∷ [])) s).1 (
        label_parts w n
        ∙ ap (λ t. start ++ t) ((eq_iff n rest).0 h)
        ∙ sym (strip_prefix-eq start s rest e))

pub label_none :
    (w n s : String)
    → strip_prefix (concat (w ∷ "." ∷ [])) s ≡ none
    → (concat (w ∷ "." ∷ n ∷ []) == s) ≡ false
label_none w n s e = elim (Bool-cases (concat (w ∷ "." ∷ n ∷ []) == s)) [
  | inr h ↦ h
  | inl h ↦
      let start = concat (w ∷ "." ∷ []) in
      let same = sym (label_parts w n) ∙ (eq_iff (concat (w ∷ "." ∷ n ∷ [])) s).0 h in
      let found = sym (strip_prefix-append start n) ∙ ap (strip_prefix start) same ∙ e in cc found
]
