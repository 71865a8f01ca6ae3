-- ===== src/Grl/Lexer/Fuel.antt =====
-- The lexer ends: every round takes a byte, so the text's length is fuel enough.
use markov.Prelude.{
  ℕ, zero, suc, ◌≡◌, refl, ap, ◌≤◌, Bool, true, false, [], ◌∷◌, arith, length, if◌then◌else◌,
  nat_eq,
}
use markov.Grl.Bytes.{Bytes, is_numeric, is_word, is_digit}
use markov.Grl.Lexer.{
  span, drop_one, quoted, number_from, word_from, lexeme, emit, tokenize_from, tokenize,
}

span-shrinks : (p : ℕ → Bool) (s : Bytes) → length (span p s).1 ≤ length s
unfolding span
span-shrinks p [] = omega arith
span-shrinks p (c ∷ s) = ground (arith, span-shrinks p s)

drop_one-shrinks : (s : Bytes) → length (drop_one s) ≤ length s
drop_one-shrinks [] = omega arith
drop_one-shrinks (c ∷ s) = omega arith

quoted-shrinks : (q : ℕ) (s : Bytes) → length (quoted q s).1 ≤ length s
unfolding quoted
quoted-shrinks q s =
    let p = λ (c : ℕ). if nat_eq c q then false else true in
    omega (arith, drop_one-shrinks (span p s).1, span-shrinks p s)

number_from-shrinks : (sign s : Bytes) → length (number_from sign s).1 ≤ length s
unfolding number_from
number_from-shrinks sign s = span-shrinks is_numeric s

-- A digit starts a number, and a letter or `_` starts a word.
digits-shrinks :
    (c : ℕ) (s : Bytes) → is_digit c ≡ true → length (number_from [] (c ∷ s)).1 ≤ length s
unfolding number_from span
digits-shrinks c s h = ground (arith, h, span-shrinks is_numeric s)

word_from-shrinks : (c : ℕ) (s : Bytes) → is_word c ≡ true → length (word_from (c ∷ s)).1 ≤ length s
unfolding word_from span
word_from-shrinks c s h = rw h (span-shrinks is_word s)

lexeme-shrinks : (c : ℕ) (s : Bytes) → length (lexeme c s).1 ≤ length s
unfolding lexeme
lexeme-shrinks c s = grind (
  arith,
  quoted-shrinks 0x27 s,
  quoted-shrinks 0x22 s,
  drop_one-shrinks s,
  number_from-shrinks (c ∷ []) s,
  digits-shrinks c s,
  word_from-shrinks c s,
)

rounds-enough :
    (m n : ℕ) (s : Bytes) → length s ≤ m → length s ≤ n → tokenize_from m s ≡ tokenize_from n s
unfolding tokenize_from
rounds-enough zero zero s h k = refl
rounds-enough zero (suc n) [] h k = refl
rounds-enough zero (suc n) (c ∷ s) h k = ground arith
rounds-enough (suc m) zero [] h k = refl
rounds-enough (suc m) zero (c ∷ s) h k = ground arith
rounds-enough (suc m) (suc n) [] h k = refl
rounds-enough (suc m) (suc n) (c ∷ s) h k = ap (emit (lexeme c s).0) (
    rounds-enough m n (lexeme c s).1 (omega (arith, h, lexeme-shrinks c s))
      (omega (arith, k, lexeme-shrinks c s)))

-- The lexer goes on until the text is used up, whatever the text: the tokens are those of the
-- lexeme at its first byte, and then those of what that lexeme leaves, which is shorter.
pub tokenize-loop :
    (c : ℕ) (s : Bytes)
    → (tokenize (c ∷ s) ≡ emit (lexeme c s).0 (tokenize (lexeme c s).1))
      × (length (lexeme c s).1 ≤ length s)
unfolding tokenize tokenize_from
tokenize-loop c s = (
  ap (emit (lexeme c s).0) (
      rounds-enough (length s) (length (lexeme c s).1) (lexeme c s).1 (lexeme-shrinks c s)
        (omega arith)),
  lexeme-shrinks c s,
)
