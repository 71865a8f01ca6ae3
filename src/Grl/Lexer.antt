-- ===== src/Grl/Lexer.antt =====
-- `tokenize` of grltranslate.go: one lexeme at a time, over the rest of the condition.
pub mod Fuel
use markov.Prelude.{
  ℕ, zero, suc, Bool, true, false, ◌||◌, ◌&&◌, Option, none, some, List, [], ◌∷◌, nat_eq,
  if◌then◌else◌, length,
}
use markov.Grl.Bytes.{Bytes, bytes, bytes_eq, is_space, is_digit, is_letter, is_word, is_numeric}

pub data TokenKind : Type 0 where
  ident number string op and or not none_token true_token false_token lparen rparen : TokenKind

pub record Token : Type 0 where
  pub kind : TokenKind
  pub val : Bytes

abbrev pub token : TokenKind → Bytes → Token
token k v = record { kind = k; val = v }

-- The longest prefix of bytes that pass a test, and what follows it.
unfoldable pub span : (ℕ → Bool) → Bytes → Bytes × Bytes
span p [] = ([], [])
span p (c ∷ s) = let (taken, rest) = span p s in if p c then (c ∷ taken, rest) else ([], c ∷ s)

abbrev pub drop_one : Bytes → Bytes
drop_one [] = []
drop_one (c ∷ s) = s

abbrev pub next_is : (ℕ → Bool) → Bytes → Bool
next_is p [] = false
next_is p (c ∷ s) = p c

-- the `switch word`
unfoldable pub word_token : Bytes → Token
word_token w =
    if bytes_eq w (bytes "and")
    then token and (bytes "and")
    else if bytes_eq w (bytes "or")
    then token or (bytes "or")
    else if bytes_eq w (bytes "not")
    then token not (bytes "not")
    else if bytes_eq w (bytes "None")
    then token none_token (bytes "None")
    else if bytes_eq w (bytes "true") || bytes_eq w (bytes "True")
    then token true_token (bytes "true")
    else if bytes_eq w (bytes "false") || bytes_eq w (bytes "False")
    then token false_token (bytes "false")
    else token ident w

-- a quoted string ends at the next such quote or at the end of the text
unfoldable pub quoted : ℕ → Bytes → Option Token × Bytes
unfolding span
quoted q s =
    let (body, rest) = span (λ c. if nat_eq c q then false else true) s in
    (some (token string body), drop_one rest)

unfoldable pub number_from : Bytes → Bytes → Option Token × Bytes
unfolding span
number_from sign s =
    let (digits, rest) = span is_numeric s in
    (some (token number (elim sign [ [] ↦ digits | c ∷ _ ↦ c ∷ digits ])), rest)

unfoldable pub word_from : Bytes → Option Token × Bytes
unfolding span word_token
word_from s = let (word, rest) = span is_word s in (some (word_token word), rest)

-- One round of the loop at the byte `c`: the token it appends, if any, and what is left.
unfoldable pub lexeme : ℕ → Bytes → Option Token × Bytes
unfolding quoted number_from word_from
lexeme c s =
    if is_space c
    then (none, s)
    else if nat_eq c 0x27
    then quoted 0x27 s
    else if nat_eq c 0x22
    then quoted 0x22 s
    else if nat_eq c 0x3d && next_is (λ d. nat_eq d 0x3d) s
    then (some (token op (bytes "==")), drop_one s)
    else if nat_eq c 0x21 && next_is (λ d. nat_eq d 0x3d) s
    then (some (token op (bytes "!=")), drop_one s)
    else if nat_eq c 0x3c && next_is (λ d. nat_eq d 0x3d) s
    then (some (token op (bytes "<=")), drop_one s)
    else if nat_eq c 0x3e && next_is (λ d. nat_eq d 0x3d) s
    then (some (token op (bytes ">=")), drop_one s)
    else if nat_eq c 0x3c
    then (some (token op (bytes "<")), s)
    else if nat_eq c 0x3e
    then (some (token op (bytes ">")), s)
    else if nat_eq c 0x28
    then (some (token lparen (bytes "(")), s)
    else if nat_eq c 0x29
    then (some (token rparen (bytes ")")), s)
    else if is_digit c
    then number_from [] (c ∷ s)
    else if nat_eq c 0x2d && next_is is_digit s
    then number_from (c ∷ []) s
    else if is_letter c || nat_eq c 0x5f
    then word_from (c ∷ s)
    else (none, s)

abbrev pub emit : Option Token → List Token → List Token
emit none ts = ts
emit (some t) ts = t ∷ ts

-- The loop, with the number of rounds it may take.
unfoldable pub tokenize_from : ℕ → Bytes → List Token
unfolding lexeme
tokenize_from zero s = []
tokenize_from (suc fuel) [] = []
tokenize_from (suc fuel) (c ∷ s) =
    let found = lexeme c s in emit found.0 (tokenize_from fuel found.1)

-- Every round takes a byte at least, so the length is fuel enough.
unfoldable pub tokenize : Bytes → List Token
unfolding tokenize_from
tokenize s = tokenize_from (length s) s
