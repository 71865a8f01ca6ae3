-- ===== src/Parser/Loading/Merging.antt =====
-- The dictionaries that the files of a directory make together, in pkg/parser/parser.go: what
-- `readVars` and `readStepTypes` accept, and what they return.
use markov.Prelude.{
  String, Bool, true, false, if◌then◌else◌, ◌≡◌, refl, sym, ap, subst, ◌∙◌, ◌↔◌, inl, inr, Option,
  none, some, List, [], ◌∷◌, ◌++◌, ◌==◌, eq_iff, arith, Bool-cases, Dict, lookup, insert, has_key,
  is_some,
}
use mathlib.Core.List.{append-nil, append_assoc}
use markov.Prelude.Layers.{UniqueKeys, prefer}
use markov.Failure.{Error, Result, ok, err, returning, returning-ok}
use markov.Parser.Reading.{add_new, merge_files}

-- Each path reads to the value at its place.
abbrev pub Reads : {A : Type 0} → (String → Result A) → List String → List A → Type 0
Reads read [] [] = Unit
Reads read (p ∷ ps) (a ∷ as') = (read p ≡ ok a) × Reads read ps as'
Reads read _ _ = ⊥

abbrev pub together {ℓ} : {A : Type ℓ} → List (Dict A) → Dict A
together [] = []
together (d ∷ ds) = d ++ together ds

is_some-none {ℓ} : {A : Type ℓ} (o : Option A) → is_some o ≡ false → o ≡ none
is_some-none none h = refl
is_some-none (some a) h = cc

pub not_refused {ℓ} :
    {A : Type ℓ} (b : Bool) (e : Error) (r : Result A) {a : A}
    → (if b then err e else r) ≡ ok a
    → (b ≡ false) × (r ≡ ok a)
not_refused true e r h = cc
not_refused false e r h = (refl, h)

module _ {ℓ} {A : Type ℓ} where
  lookup-append : (k : String) (c d : Dict A) → lookup k (c ++ d) ≡ prefer (lookup k c) (lookup k d)
  unfolding lookup
  lookup-append k [] d = refl
  lookup-append k ((j, a) ∷ c) d = elim (Bool-cases (j == k)) [
    | inl same ↦ rw same refl
    | inr other ↦ rw other (lookup-append k c d)
  ]

  -- a key that is not that of the first entry
  lookup-tail :
      (k j : String) (a : A) (d : Dict A)
      → lookup k ((j, a) ∷ d) ≡ none
      → (j == k ≡ false) × (lookup k d ≡ none)
  unfolding lookup
  lookup-tail k j a d h = ground arith

  insert-absent :
      (k : String) (a : A) (d : Dict A) → lookup k d ≡ none → insert k a d ≡ d ++ ((k, a) ∷ [])
  unfolding insert
  insert-absent k a [] h = refl
  insert-absent k a ((j, b) ∷ d) h =
      let (other, later) = lookup-tail k j b d h in
      rw other (ap (λ e. (j, b) ∷ e) (insert-absent k a d later))

  prefer-none : (o p : Option A) → prefer o p ≡ none → (o ≡ none) × (p ≡ none)
  prefer-none none p h = (refl, h)
  prefer-none (some a) p h = cc

  -- the key of an entry in the middle is that of no entry before it
  before-absent :
      (k : String) (a : A) (old rest : Dict A)
      → UniqueKeys (old ++ (k, a) ∷ rest)
      → lookup k old ≡ none
  unfolding lookup
  before-absent k a [] rest u = refl
  before-absent k a ((j, b) ∷ old) rest (fresh, u) =
      let missing =
        prefer-none (lookup j old) _ (sym (lookup-append j old ((k, a) ∷ rest)) ∙ fresh) in
      let (other, _) = lookup-tail j k a rest (missing.1) in
      let later = before-absent k a old rest u in ground (arith, eq_iff j k, eq_iff k j)

  UniqueKeys-snoc :
      (k : String) (a : A) (d : Dict A)
      → UniqueKeys d
      → lookup k d ≡ none
      → UniqueKeys (d ++ ((k, a) ∷ []))
  unfolding lookup
  UniqueKeys-snoc k a [] u h = (refl, tt)
  UniqueKeys-snoc k a ((j, b) ∷ d) (fresh, u) h =
      let (other, later) = lookup-tail k j b d h in
      (
        lookup-append j d ((k, a) ∷ []) ∙ rw fresh (rw (differs k j other) refl),
        UniqueKeys-snoc k a d u later,
      )
    where
      differs : (s t : String) → t == s ≡ false → s == t ≡ false
      differs s t h = ground (arith, eq_iff s t, eq_iff t s)

  snoc-append : (k : String) (a : A) (c d : Dict A) → (c ++ ((k, a) ∷ [])) ++ d ≡ c ++ (k, a) ∷ d
  snoc-append k a c d = append_assoc c ((k, a) ∷ []) d

  add_new_sound :
      (duplicate : String → Error) (old new d : Dict A)
      → UniqueKeys old
      → add_new duplicate old new ≡ ok d
      → (d ≡ old ++ new) × UniqueKeys d
  unfolding add_new has_key
  add_new_sound duplicate old [] d u h =
      let same : d ≡ old = cc in (same ∙ sym (append-nil old), rw same u)
  add_new_sound duplicate old ((k, a) ∷ new) d u h =
      let (missing, rest) = not_refused (is_some (lookup k old)) _ _ h in
      let none_yet = is_some-none (lookup k old) missing in
      let grown = insert-absent k a old none_yet in
      let (same, unique) =
        add_new_sound duplicate (insert k a old) new d
          (subst UniqueKeys (sym grown) (UniqueKeys-snoc k a old u none_yet)) rest in
      (same ∙ ap (λ e. e ++ new) grown ∙ snoc-append k a old new, unique)

  add_new_complete :
      (duplicate : String → Error) (old new : Dict A)
      → UniqueKeys (old ++ new)
      → add_new duplicate old new ≡ ok (old ++ new)
  unfolding add_new has_key
  add_new_complete duplicate old [] u = ap ok (sym (append-nil old))
  add_new_complete duplicate old ((k, a) ∷ new) u =
      let missing = before-absent k a old new u in
      let longer = snoc-append k a old new in
      rw missing (
        rw (insert-absent k a old missing) (
          add_new_complete duplicate (old ++ ((k, a) ∷ [])) new (subst UniqueKeys (sym longer) u)
          ∙ ap ok longer))

  UniqueKeys-front : (c d : Dict A) → UniqueKeys (c ++ d) → UniqueKeys c
  UniqueKeys-front [] d u = tt
  UniqueKeys-front ((k, a) ∷ c) d (fresh, u) =
      ((prefer-none (lookup k c) _ (sym (lookup-append k c d) ∙ fresh)).0, UniqueKeys-front c d u)

module _ {A : Type 0} (read : String → Result (Dict A)) (duplicate : String → String → Error) where
  merge_files_sound :
      (old : Dict A) (paths : List String) (d : Dict A)
      → UniqueKeys old
      → merge_files read duplicate old paths ≡ ok d
      → (files : List (Dict A)) × Reads read paths files
        × (d ≡ old ++ together files)
        × UniqueKeys d
  unfolding merge_files
  merge_files_sound old [] d u h =
      let same : d ≡ old = cc in ([], tt, same ∙ sym (append-nil old), rw same u)
  merge_files_sound old (p ∷ ps) d u h =
      let (grown, merged, rest) =
        returning-ok (returning (read p) (add_new (duplicate p) old)) _ h in
      let (file, is_read, added) = returning-ok (read p) _ merged in
      let (longer, u') = add_new_sound (duplicate p) old file grown u added in
      let (files, reads, all, unique) = merge_files_sound grown ps d u' rest in
      (
        file ∷ files,
        (is_read, reads),
        all ∙ ap (λ e. e ++ together files) longer ∙ append_assoc old file (together files),
        unique,
      )

  merge_files_complete :
      (old : Dict A) (paths : List String) (files : List (Dict A)) (d : Dict A)
      → Reads read paths files
      → d ≡ old ++ together files
      → UniqueKeys d
      → merge_files read duplicate old paths ≡ ok d
  unfolding merge_files
  merge_files_complete old [] [] d r same u = ap ok (sym (append-nil old) ∙ sym same)
  merge_files_complete old [] (f ∷ fs) d r same u = absurd r
  merge_files_complete old (p ∷ ps) [] d r same u = absurd r
  merge_files_complete old (p ∷ ps) (file ∷ files) d (is_read, reads) same u =
      let whole = same ∙ sym (append_assoc old file (together files)) in
      let part = UniqueKeys-front (old ++ file) (together files) (subst UniqueKeys whole u) in
      rw is_read (
        rw (add_new_complete (duplicate p) old file part)
          (merge_files_complete (old ++ file) ps files d reads whole u))

  -- Files merge just when each of them can be read and no name is defined twice, by two of them or by
  -- one of them and the entries that were there before, of distinct names; the result is then the
  -- entries there before and all of theirs, in order.
  pub merge_files_iff :
      (old : Dict A) (paths : List String) (d : Dict A)
      → UniqueKeys old
      → (merge_files read duplicate old paths ≡ ok d) ↔ (
          (files : List (Dict A)) × Reads read paths files
          × (d ≡ old ++ together files)
          × UniqueKeys d)
  merge_files_iff old paths d unique = (
    merge_files_sound old paths d unique,
    λ (files, reads, same, u). merge_files_complete old paths files d reads same u,
  )
