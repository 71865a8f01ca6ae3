-- ===== src/Prelude/Prefixes.antt =====
-- Prefixes and suffixes of texts.
use Prim.Native.Char.{Char, code}
use Prim.Native.String.append
use Prim.Native.String.{String, ◌++◌}
use Prim.Native.Nat.{ℕ}
use mathlib.Core.Path.{◌≡◌, refl, sym, ap, ◌∙◌}
use mathlib.Core.Logic.{inl, inr}
use mathlib.Core.Bool.{Bool, true, false}
use mathlib.Core.Option.{none, some}
use native.Mathlib.Omega.{arith}
use text.Mathlib.TextPositions.{eq_refl}
use text.Mathlib.TextEquality.{Char-path}
use markov.Prelude.Tests.{nat_eq, if◌then◌else◌, Bool-cases}
use markov.Prelude.Texts.{strip_prefix, has_suffix}

nat_eq_refl : (n : ℕ) → nat_eq n n ≡ true
nat_eq_refl n = ground arith

pub strip_prefix-append : (p s : String) → strip_prefix p (p ++ s) ≡ some s
strip_prefix-append String.[] s = ap some (append.nil s)
strip_prefix-append (String.◌∷◌ c p) s =
    ap (strip_prefix (String.◌∷◌ c p)) (append.cons c p s)
    ∙ rw (nat_eq_refl (code c)) (strip_prefix-append p s)

has_suffix_self : (t : String) → has_suffix t t ≡ true
has_suffix_self String.[] = eq_refl ""
has_suffix_self (String.◌∷◌ c t) = rw (eq_refl (String.◌∷◌ c t)) refl

pub has_suffix-append : (s t : String) → has_suffix (s ++ t) t ≡ true
has_suffix-append String.[] t = ap (λ u. has_suffix u t) (append.nil t) ∙ has_suffix_self t
has_suffix-append (String.◌∷◌ c s) t =
    ap (λ u. has_suffix u t) (append.cons c s t) ∙ rw (has_suffix-append s t) (ground arith)

-- No character of the text has this number.
abbrev pub avoids : ℕ → String → Bool
avoids n String.[] = true
avoids n (String.◌∷◌ c s) = if nat_eq (code c) n then false else avoids n s

-- A prefix that a text has not, and that avoids the next character, is not there with it either.
pub strip_prefix-append_none :
    (p s : String) (d : Char) (u : String)
    → avoids (code d) p ≡ true
    → strip_prefix p s ≡ none
    → strip_prefix p (s ++ String.◌∷◌ d u) ≡ none
strip_prefix-append_none String.[] s d u h k = cc
strip_prefix-append_none (String.◌∷◌ c p) String.[] d u h k =
    ap (strip_prefix (String.◌∷◌ c p)) (append.nil (String.◌∷◌ d u)) ∙ ground arith
strip_prefix-append_none (String.◌∷◌ c p) (String.◌∷◌ e s) d u h k =
    ap (strip_prefix (String.◌∷◌ c p)) (append.cons e s (String.◌∷◌ d u))
    ∙ ground (arith, strip_prefix-append_none p s d u)

some_eq : {a b : String} → some a ≡ some b → a ≡ b
some_eq h = cc

eq_of-nat_eq : (m n : ℕ) → nat_eq m n ≡ true → m ≡ n
eq_of-nat_eq m n h = ground arith

-- What is left after a prefix, with the prefix before it, is the text.
pub strip_prefix-eq : (p s r : String) → strip_prefix p s ≡ some r → s ≡ p ++ r
strip_prefix-eq String.[] s r h = some_eq h ∙ sym (append.nil r)
strip_prefix-eq (String.◌∷◌ c p) String.[] r h = cc
strip_prefix-eq (String.◌∷◌ c p) (String.◌∷◌ d s) r h =
    elim (Bool-cases (nat_eq (code c) (code d))) [
      | inl same ↦
          let tail = strip_prefix-eq p s r (rw same at h) in
          let first = Char-path c d (eq_of-nat_eq (code c) (code d) same) in
          (λ i. String.◌∷◌ (sym first i) (tail i)) ∙ sym (append.cons c p r)
      | inr differs ↦ ground arith
    ]
