-- ===== src/Engine/K8sName/Length.antt =====
-- The lengths of texts that are cut, joined and trimmed, in bytes.
use Prim.Native.Nat.{compare, Ordering}
use Prim.Native.Char.{Char, code, len_utf8}
use Prim.Native.String.len as byte_len
use Prim.Native.String.slice as cut_out
use Prim.Native.String.{slice, fits, len}
use markov.Prelude.{
  ℕ, ◌+◌, ◌-◌, ◌≤◌, String, Bool, ◌≡◌, refl, ap, ◌∙◌, arith, ◌&&◌, ◌==◌, Bool-cases, inl, inr,
}
use markov.Engine.K8sName.{trim_right}

len_nil : len "" ≡ 0
len_nil = byte_len.nil

len_cons : (c : Char) (s : String) → len (String.◌∷◌ c s) ≡ len_utf8 c + len s
len_cons c s = byte_len.cons c s

len-fits :
    (o : Ordering) (c : Char) (r : String) (n : ℕ)
    → compare (len_utf8 c) n ≡ o
    → len r ≤ n - len_utf8 c
    → len (fits o c r) ≤ n
len-fits Ordering.lt c r n e h = let k = len_cons c r in ground (arith, e, h, k)
len-fits Ordering.eq c r n e h = let k = len_cons c r in ground (arith, e, h, k)
len-fits Ordering.gt c r n e h = let z = len_nil in omega (arith, z)

pub len-slice : (s : String) (n : ℕ) → len (slice s 0 n) ≤ n
len-slice String.[] n = let e = ap len (cut_out.nil 0 n) ∙ len_nil in omega (arith, e)
len-slice (String.◌∷◌ c s) n =
    let e = ap len (cut_out.cons-zero c s n) in
    let h =
      len-fits (compare (len_utf8 c) n) c (slice s 0 (n - len_utf8 c)) n refl
        (len-slice s (n - len_utf8 c)) in
    omega (arith, e, h)

pub len-trim_right : (p : ℕ → Bool) (s : String) → len (trim_right p s) ≤ len s
unfolding trim_right
len-trim_right p String.[] = omega arith
len-trim_right p (String.◌∷◌ c s) =
    let h = len-trim_right p s in
    let e = len_cons c s in
    let k = len_cons c (trim_right p s) in
    elim (Bool-cases (trim_right p s == "" && p (code c))) [
      | inl drop ↦ rw drop (let z = len_nil in omega (arith, z))
      | inr keep ↦ rw keep (omega (arith, h, e, k))
    ]
