-- ===== src/Grl/Translate.antt =====
-- `translateTokens` of grltranslate.go: a condition's tokens as text of the rule language.
use markov.Prelude.{
  ℕ, zero, suc, ◌+◌, ◌-◌, ◌++◌, String, Bool, true, false, ◌||◌, List, [], ◌∷◌, if◌then◌else◌,
  length,
}
use markov.Grl.Bytes.{Bytes, bytes, bytes_eq, concat, join}
use markov.Grl.Lexer.{
  TokenKind, ident, number, string, op, and, or, not, none_token, true_token, false_token, lparen,
  rparen, Token, tokenize,
}

pub data TranslateError : Type 0 where
  unexpected_token : ℕ → Token → TranslateError
  unexpected_end : ℕ → TranslateError
  unexpected_after_op : Token → TranslateError

pub data Translated (A : Type 0) : Type 0 where
  done : A → Translated A
  failed : TranslateError → Translated A

infixl 5 ◌>>=◌
abbrev pub ◌>>=◌ : {A B : Type 0} → Translated A → (A → Translated B) → Translated B
done a >>= f = f a
failed e >>= f = failed e

-- `Facts.IsTrue("x")` and the like
abbrev pub call : String → Bytes → Bytes
call method arg = concat (bytes "Facts." ∷ bytes method ∷ bytes "(\"" ∷ arg ∷ bytes "\")" ∷ [])

abbrev pub negated : Bytes → Bytes
negated s = bytes "!" ++ s

abbrev is_op : List Token → Bool
is_op [] = false
is_op (t ∷ ts) = elim t.kind [ op ↦ true | _ ↦ false ]

-- `isFollowedByOp`, of the tokens after the identifier
abbrev pub is_followed_by_op : List Token → Bool
is_followed_by_op ts = is_op ts

abbrev is_order : Bytes → Bool
is_order o =
    bytes_eq o (bytes "<")
    || (bytes_eq o (bytes ">") || (bytes_eq o (bytes "<=") || bytes_eq o (bytes ">=")))

abbrev is_eq_op : Bytes → Bool
is_eq_op o = bytes_eq o (bytes "==")

-- a method call, an operator and an operand, with spaces between
abbrev pub compared : String → Bytes → Bytes → Bytes → Bytes
compared method arg o rhs = concat (call method arg ∷ bytes " " ∷ o ∷ bytes " " ∷ rhs ∷ [])

-- the `switch rhs.kind`
unfoldable pub translate_comparison : Bytes → Bytes → TokenKind → Bytes → Translated Bytes
translate_comparison x o none_token v =
    done (if is_eq_op o then call "IsNil" x else negated (call "IsNil" x))
translate_comparison x o true_token v =
    done (if is_eq_op o then call "IsTrue" x else negated (call "IsTrue" x))
translate_comparison x o false_token v =
    done (if is_eq_op o then negated (call "IsTrue" x) else call "IsTrue" x)
translate_comparison x o string v =
    done (compared "GetStr" x o (concat (bytes "\"" ∷ v ∷ bytes "\"" ∷ [])))
translate_comparison x o number v = done (compared "GetNum" x o v)
translate_comparison x o ident v = done (
    if is_order o
    then compared "GetNum" x o (call "GetNum" v)
    else compared "GetStr" x o (call "GetStr" v))
translate_comparison x o k v = failed (unexpected_after_op (record { kind = k; val = v }))

-- `translateIdentExpr`, at position `pos`, of the identifier and the tokens after it: the text and
-- the tokens that are left.
unfoldable pub translate_ident : ℕ → Bytes → List Token → Translated (Bytes × List Token)
unfolding translate_comparison
translate_ident pos x [] = done (call "IsTrue" x, [])
translate_ident pos x (o ∷ []) =
    if is_op (o ∷ []) then failed (unexpected_end (pos + 1)) else done (call "IsTrue" x, o ∷ [])
translate_ident pos x (o ∷ rhs ∷ ts) =
    if is_op (o ∷ [])
    then translate_comparison x o.val rhs.kind rhs.val >>= (λ text. done (text, ts))
    else done (call "IsTrue" x, o ∷ rhs ∷ ts)

-- the case `tokNot`, of the tokens after it
unfoldable pub translate_not : List Token → Bytes × List Token
translate_not [] = (bytes "!", [])
translate_not (t ∷ ts) = elim t.kind [
  | ident ↦
      if is_followed_by_op ts then (bytes "!", t ∷ ts) else (negated (call "IsTrue" t.val), ts)
  | _ ↦ (bytes "!", t ∷ ts)
]

-- one round of the loop, by the kind of the token at `pos`
unfoldable pub translate_step : ℕ → TokenKind → Bytes → List Token → Translated (Bytes × List Token)
unfolding translate_ident translate_not
translate_step pos and v ts = done (bytes "&&", ts)
translate_step pos or v ts = done (bytes "||", ts)
translate_step pos lparen v ts = done (bytes "(", ts)
translate_step pos rparen v ts = done (bytes ")", ts)
translate_step pos not v ts = done (translate_not ts)
translate_step pos ident v ts = translate_ident pos v ts
translate_step pos k v ts = failed (unexpected_token pos (record { kind = k; val = v }))

-- The loop over the tokens, `total` of them in all, with the number of rounds it may take.
unfoldable pub translate_parts : ℕ → ℕ → List Token → Translated (List Bytes)
unfolding translate_step
translate_parts zero total ts = done []
translate_parts (suc fuel) total [] = done []
translate_parts (suc fuel) total (t ∷ ts) =
    translate_step (total - length (t ∷ ts)) t.kind t.val ts
    >>= (λ found. translate_parts fuel total found.1 >>= (λ parts. done (found.0 ∷ parts)))

unfoldable pub translate_tokens : List Token → Translated Bytes
unfolding translate_parts
translate_tokens ts =
    translate_parts (length ts) (length ts) ts >>= (λ parts. done (join (bytes " ") parts))

-- `translateCondition`
unfoldable pub translate_condition : Bytes → Translated Bytes
unfolding translate_tokens tokenize
translate_condition expr = translate_tokens (tokenize expr)
