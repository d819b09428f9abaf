-- ===== src/StringUtils/Merge.antt =====
-- The members of merged vectors (`MergeStringVectors` of Src/Common/StringUtils.cpp).
use p2pchat.Prelude.{
  ◌≡◌, refl, sym, Bool, true, false, not, ◌&&◌, ◌||◌, List, [], ◌∷◌, ◌++◌, Bool-cases, inl, inr,
  arith,
}
use p2pchat.IniFile.{AString, str_eq}
use p2pchat.IniFile.Assoc.{str_eq-≡, str_eq_comm}
use p2pchat.StringUtils.{contains, merge_string_vectors}

contains-append :
    (xs ys : List AString) (s : AString) → contains (xs ++ ys) s ≡ (contains xs s || contains ys s)
unfolding contains
contains-append [] ys s = refl
contains-append (x ∷ xs) ys s = rw (contains-append xs ys s) (ground arith)

or-false : (a b : Bool) → (a || b) ≡ false → (a ≡ false) × (b ≡ false)
or-false a b h = (ground arith, ground arith)

and-true : (a b : Bool) → (a && b) ≡ true → (a ≡ true) × (b ≡ true)
and-true a b h = (ground arith, ground arith)

-- Nothing stands in it twice.
abbrev pub has_no_repeat : List AString → Bool
has_no_repeat [] = true
has_no_repeat (x ∷ xs) = not (contains xs x) && has_no_repeat xs

no_repeat_end :
    (xs : List AString) (y : AString)
    → contains xs y ≡ false
    → has_no_repeat xs ≡ true
    → has_no_repeat (xs ++ y ∷ []) ≡ true
unfolding contains
no_repeat_end [] y new h = refl
no_repeat_end (x ∷ xs) y new h =
    let (other, new') = or-false (str_eq x y) (contains xs y) new in
    let (alone, h') = and-true (not (contains xs x)) (has_no_repeat xs) h in
    rw (contains-append xs (y ∷ []) x, str_eq_comm y x, other, no_repeat_end xs y new' h')
      (ground arith)

-- If no string stands twice in the first vector, none does in the one that `merge_string_vectors`
-- returns.
pub has_no_repeat-merge :
    (xs ys : List AString)
    → has_no_repeat xs ≡ true
    → has_no_repeat (merge_string_vectors xs ys) ≡ true
unfolding merge_string_vectors
has_no_repeat-merge xs [] h = h
has_no_repeat-merge xs (y ∷ ys) h = elim (Bool-cases (contains xs y)) [
  | inr new ↦ rw new (has_no_repeat-merge (xs ++ y ∷ []) ys (no_repeat_end xs y new h))
  | inl old ↦ rw old (has_no_repeat-merge xs ys h)
]

-- A string is in the vector that `merge_string_vectors` returns if it is in one of the two, and only
-- then.
pub contains-merge :
    (xs ys : List AString) (s : AString)
    → contains (merge_string_vectors xs ys) s ≡ (contains xs s || contains ys s)
unfolding merge_string_vectors contains
contains-merge xs [] s = ground arith
contains-merge xs (y ∷ ys) s = elim (Bool-cases (contains xs y)) [
  | inr new ↦
      rw (new, contains-merge (xs ++ y ∷ []) ys s, contains-append xs (y ∷ []) s) (ground arith)
  | inl old ↦
      rw (old, contains-merge xs ys s)
        (elim (Bool-cases (str_eq y s)) [
          | inl e ↦ rw (e, sym (str_eq-≡ y s e), old)
          | inr e ↦ rw e
        ])
]
