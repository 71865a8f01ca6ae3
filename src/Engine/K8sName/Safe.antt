-- ===== src/Engine/K8sName/Safe.antt =====
-- The characters of a sanitized Kubernetes name, and its last one.
use Prim.Native.Char.{code}
use Prim.Native.String.append
use Prim.Native.String.{slice, ◌++◌, len}
use text.Mathlib.TextEquality.{slice-prefix}
use markov.Prelude.{
  ℕ, ◌-◌, String, Bool, true, false, ◌&&◌, ◌≡◌, refl, sym, ap, ◌∙◌, [], ◌∷◌, concat, ltb, nat_eq,
  ◌≤◌, arith, if◌then◌else◌, ◌==◌, Bool-cases, inl, inr,
}
use markov.Engine.Env.{Go}
use text.Mathlib.TextPositions.{len-append}
use markov.Engine.K8sName.Length.{len-slice, len-trim_right}
use markov.Engine.K8sName.{
  is_name_char, dashed, collapse, trim_left, trim_right, trim, is_edge, sanitize_k8s_name,
}

-- Every character passes a test.
abbrev pub all_chars : (ℕ → Bool) → String → Bool
all_chars p String.[] = true
all_chars p (String.◌∷◌ c s) = p (code c) && all_chars p s

-- The last character, if there is one, passes a test.
abbrev pub ends_in : (ℕ → Bool) → String → Bool
ends_in p String.[] = false
ends_in p (String.◌∷◌ c s) = if s == "" then p (code c) else ends_in p s

both : (a b : Bool) → a ≡ true → b ≡ true → (a && b) ≡ true
both a b h k = rw (h, k) refl

left_of : (a b : Bool) → (a && b) ≡ true → a ≡ true
left_of true b h = refl
left_of false b h = h

right_of : (a b : Bool) → (a && b) ≡ true → b ≡ true
right_of true b h = h
right_of false b h = cc

module _ (p : ℕ → Bool) where
  all_chars-append_left : (s t : String) → all_chars p (s ++ t) ≡ true → all_chars p s ≡ true
  all_chars-append_left String.[] t h = refl
  all_chars-append_left (String.◌∷◌ c s) t h =
      let k = sym (ap (all_chars p) (append.cons c s t)) ∙ h in
      both (p (code c)) (all_chars p s) (left_of (p (code c)) (all_chars p (s ++ t)) k)
        (all_chars-append_left s t (right_of (p (code c)) (all_chars p (s ++ t)) k))

  all_chars-append :
      (s t : String) → all_chars p s ≡ true → all_chars p t ≡ true → all_chars p (s ++ t) ≡ true
  all_chars-append String.[] t h k = ap (all_chars p) (append.nil t) ∙ k
  all_chars-append (String.◌∷◌ c s) t h k =
      ap (all_chars p) (append.cons c s t)
      ∙ both (p (code c)) (all_chars p (s ++ t)) (left_of (p (code c)) (all_chars p s) h)
          (all_chars-append s t (right_of (p (code c)) (all_chars p s) h) k)

  all_chars-slice : (s : String) (n : ℕ) → all_chars p s ≡ true → all_chars p (slice s 0 n) ≡ true
  all_chars-slice s n h =
      let (rest, e) = slice-prefix s n in
      all_chars-append_left (slice s 0 n) rest (ap (all_chars p) e ∙ h)

  all_chars-collapse :
      (after : Bool) (s : String) → all_chars p s ≡ true → all_chars p (collapse after s) ≡ true
  unfolding collapse
  all_chars-collapse after String.[] h = refl
  all_chars-collapse after (String.◌∷◌ c s) h =
      let k =
        all_chars-collapse (nat_eq (code c) 0x2d) s (right_of (p (code c)) (all_chars p s) h) in
      elim (Bool-cases (after && nat_eq (code c) 0x2d)) [
        | inl drop ↦ rw drop k
        | inr keep ↦ rw (keep, k, left_of (p (code c)) (all_chars p s) h) refl
      ]

  all_chars-trim_left :
      (q : ℕ → Bool) (s : String) → all_chars p s ≡ true → all_chars p (trim_left q s) ≡ true
  unfolding trim_left
  all_chars-trim_left q String.[] h = refl
  all_chars-trim_left q (String.◌∷◌ c s) h = elim (Bool-cases (q (code c))) [
    | inl drop ↦ rw drop (all_chars-trim_left q s (right_of (p (code c)) (all_chars p s) h))
    | inr keep ↦ rw keep h
  ]

  all_chars-trim_right :
      (q : ℕ → Bool) (s : String) → all_chars p s ≡ true → all_chars p (trim_right q s) ≡ true
  unfolding trim_right
  all_chars-trim_right q String.[] h = refl
  all_chars-trim_right q (String.◌∷◌ c s) h =
      let k = all_chars-trim_right q s (right_of (p (code c)) (all_chars p s) h) in
      elim (Bool-cases (trim_right q s == "" && q (code c))) [
        | inl drop ↦ rw drop refl
        | inr keep ↦ rw (keep, k, left_of (p (code c)) (all_chars p s) h) refl
      ]

dashed-safe : (s : String) → all_chars is_name_char (dashed s) ≡ true
unfolding dashed
dashed-safe String.[] = refl
dashed-safe (String.◌∷◌ c s) = elim (Bool-cases (is_name_char (code c))) [
  | inl safe ↦ rw (safe, safe, dashed-safe s) refl
  | inr unsafe ↦ rw (unsafe, dashed-safe s) refl
]

trim_right-trimmed : (q : ℕ → Bool) (s : String) → ends_in q (trim_right q s) ≡ false
unfolding trim_right
trim_right-trimmed q String.[] = refl
trim_right-trimmed q (String.◌∷◌ c s) = elim (Bool-cases (trim_right q s == "" && q (code c))) [
  | inl drop ↦ rw drop refl
  | inr keep ↦ rw keep (last keep (trim_right-trimmed q s))
]
  where
    last :
        (trim_right q s == "" && q (code c)) ≡ false
        → ends_in q (trim_right q s) ≡ false
        → (if trim_right q s == "" then q (code c) else ends_in q (trim_right q s)) ≡ false
    last keep more_trimmed = elim (Bool-cases (trim_right q s == "")) [
      | inl empty ↦ rw empty (sym (rw empty refl) ∙ keep)
      | inr more ↦ rw more more_trimmed
    ]

-- A sanitized name consists of lower-case letters, digits, `-` and `.` alone, ends in neither `-` nor
-- `.`, and has at most the number of bytes allowed, if a hexadecimal digest has such characters
-- alone and at least nine bytes are allowed.
pub sanitize_k8s_name-safe :
    (go : Go) (raw : String) (max : ℕ)
    → ((s : String) → all_chars is_name_char (go.sha256_hex s) ≡ true)
    → 9 ≤ max
    → (all_chars is_name_char (sanitize_k8s_name go raw max) ≡ true)
      × (ends_in is_edge (sanitize_k8s_name go raw max) ≡ false)
      × (len (sanitize_k8s_name go raw max) ≤ max)
unfolding sanitize_k8s_name trim
sanitize_k8s_name-safe go raw max hex room = elim (Bool-cases (ltb max (len clean))) [
  | inl long ↦ rw long (
    all_chars-trim_right is_name_char is_edge cut cut-safe,
    trim_right-trimmed is_edge cut,
    omega (arith, len-trim_right is_edge cut, cut-short),
  )
  | inr short ↦
      rw short
        (clean-safe, trim_right-trimmed is_edge (trim_left is_edge dashes), ground (arith, short))
]
  where
    dashes : String
    dashes = collapse false (dashed (go.to_lower raw))

    clean : String
    clean = trim_right is_edge (trim_left is_edge dashes)

    suffix : String
    suffix = slice (go.sha256_hex clean) 0 8

    cut : String
    cut = concat (slice clean 0 (max - len suffix - 1) ∷ "-" ∷ suffix ∷ [])

    clean-safe : all_chars is_name_char clean ≡ true
    clean-safe = all_chars-trim_right is_name_char is_edge (trim_left is_edge dashes) (
        all_chars-trim_left is_name_char is_edge dashes (
          all_chars-collapse is_name_char false (dashed (go.to_lower raw))
            (dashed-safe (go.to_lower raw))))

    cut-safe : all_chars is_name_char cut ≡ true
    cut-safe =
        all_chars-append is_name_char (slice clean 0 (max - len suffix - 1)) ("-" ++ (suffix ++ ""))
          (all_chars-slice is_name_char clean (max - len suffix - 1) clean-safe)
          (all_chars-append is_name_char "-" (suffix ++ "") refl (
            all_chars-append is_name_char suffix ""
              (all_chars-slice is_name_char (go.sha256_hex clean) 8 (hex clean)) refl))

    cut-short : len cut ≤ max
    cut-short =
        let start = slice clean 0 (max - len suffix - 1) in
        let whole = len-append start ("-" ++ (suffix ++ "")) in
        let tail = len-append "-" (suffix ++ "") in
        let last = len-append suffix "" in
        let a = len-slice clean (max - len suffix - 1) in
        let b = len-slice (go.sha256_hex clean) 8 in omega (arith, whole, tail, last, a, b)
