-- ===== src/Grl/Bytes.antt =====
-- Go strings as byte sequences, which the tokenizer indexes.
use Prim.Native.Nat.{◌/◌, ◌%◌}
use Prim.Native.Char.{code}
use markov.Prelude.{
  ℕ, ◌+◌, String, Bool, ◌||◌, ◌&&◌, not, List, [], ◌∷◌, ◌++◌, ltb, leb, nat_eq, if◌then◌else◌,
}

abbrev pub Bytes : Type 0
Bytes = List ℕ

-- The UTF-8 encoding of a code point.
abbrev utf8 : ℕ → Bytes
utf8 c =
    if ltb c 0x80
    then c ∷ []
    else if ltb c 0x800
    then (0xc0 + c / 64) ∷ (0x80 + c % 64) ∷ []
    else if ltb c 0x10000
    then (0xe0 + c / 4096) ∷ (0x80 + c / 64 % 64) ∷ (0x80 + c % 64) ∷ []
    else (0xf0 + c / 262144) ∷ (0x80 + c / 4096 % 64) ∷ (0x80 + c / 64 % 64) ∷ (0x80 + c % 64) ∷ []

abbrev pub bytes : String → Bytes
bytes String.[] = []
bytes (String.◌∷◌ c s) = utf8 (code c) ++ bytes s

abbrev pub bytes_eq : Bytes → Bytes → Bool
bytes_eq [] [] = Bool.true
bytes_eq (a ∷ as') (b ∷ bs) = nat_eq a b && bytes_eq as' bs
bytes_eq _ _ = Bool.false

abbrev pub is_space : ℕ → Bool
is_space c = nat_eq c 0x20 || (nat_eq c 0x09 || (nat_eq c 0x0a || nat_eq c 0x0d))

-- `unicode.IsDigit` and `unicode.IsLetter` of a byte taken as a code point below 256.
abbrev pub is_digit : ℕ → Bool
is_digit c = leb 0x30 c && leb c 0x39

abbrev pub is_letter : ℕ → Bool
is_letter c =
    (leb 0x41 c && leb c 0x5a)
    || ((leb 0x61 c && leb c 0x7a)
        || (nat_eq c 0xaa
            || (nat_eq c 0xb5
                || (nat_eq c 0xba
                    || ((leb 0xc0 c && leb c 0xff)
                        && (not (nat_eq c 0xd7) && not (nat_eq c 0xf7)))))))

abbrev pub is_word : ℕ → Bool
is_word c = is_letter c || (is_digit c || nat_eq c 0x5f)

abbrev pub is_numeric : ℕ → Bool
is_numeric c = is_digit c || nat_eq c 0x2e

-- The parts of a formatted byte string, one after another.
abbrev pub concat : List Bytes → Bytes
concat [] = []
concat (b ∷ bs) = b ++ concat bs

-- `strings.Join`
abbrev pub join : Bytes → List Bytes → Bytes
join sep [] = []
join sep (b ∷ []) = b
join sep (b ∷ c ∷ bs) = b ++ (sep ++ join sep (c ∷ bs))
