-- ===== src/StringUtils/Split.antt =====
-- Splitting and joining strings (Src/Common/StringUtils.cpp).
use p2pchat.Prelude.{
  ℕ, ◌≡◌, refl, sym, ap, ap₂, ◌∙◌, Bool, true, false, not, ◌||◌, List, [], ◌∷◌, ◌++◌, append-nil,
  append_assoc, map, zero, suc, ◌&&◌, ◌+◌, is_nil, length, ltb, ◌≤◌, ◌<◌, ◌-◌, ◌==◌, All,
  Bool-cases, inl, inr, arith,
}
use p2pchat.IniFile.{AString}
use p2pchat.StringUtils.{
  is_one_of, split_loop, string_split, concat_loop, strings_concat, zero_loop,
  split_zero_terminated_strings, split_trim_loop, split_one_loop, split_one_of,
  string_split_and_trim, trim_string,
}

-- No byte of the string is one of the delimiters.
abbrev pub IsWhole : AString → AString → Type 0
IsWhole delim s = All (λ c. is_one_of c delim ≡ false) s

abbrev pub last_piece : AString → List AString → AString
last_piece piece [] = piece
last_piece piece (s ∷ strings) = last_piece s strings

split_loop-append :
    (delim piece s t : AString)
    → IsWhole delim s
    → split_loop delim piece (s ++ t) ≡ split_loop delim (piece ++ s) t
unfolding split_loop
split_loop-append delim piece [] t h = ap (λ p. split_loop delim p t) (sym (append-nil piece))
split_loop-append delim piece (c ∷ s) t (e, h) = rw e (
    split_loop-append delim (piece ++ c ∷ []) s t h
    ∙ ap (λ p. split_loop delim p t) (append_assoc piece (c ∷ []) s))

split_loop-concat_loop :
    (separator : ℕ) (piece : AString) (strings : List AString)
    → is_one_of separator (separator ∷ []) ≡ true
    → All (IsWhole (separator ∷ [])) strings
    → is_nil (last_piece piece strings) ≡ false
    → split_loop (separator ∷ []) piece (concat_loop separator strings) ≡ piece ∷ strings
unfolding split_loop concat_loop
split_loop-concat_loop separator piece [] r h last = rw last
split_loop-concat_loop separator piece (s ∷ strings) r (w, h) last = rw r (
    ap (◌∷◌ piece) (
      split_loop-append (separator ∷ []) [] s (concat_loop separator strings) w
      ∙ split_loop-concat_loop separator s strings r h last))

is_one_of_self : (c : ℕ) → is_one_of c (c ∷ []) ≡ true
unfolding is_one_of
is_one_of_self c = ground arith

-- Strings that do not hold the separator, the last of them not empty, are split by `string_split` as
-- they were joined by `strings_concat`.
pub string_split-strings_concat :
    (separator : ℕ) (s : AString) (strings : List AString)
    → All (IsWhole (separator ∷ [])) (s ∷ strings)
    → is_nil (last_piece s strings) ≡ false
    → string_split (strings_concat (s ∷ strings) separator) (separator ∷ []) ≡ s ∷ strings
unfolding string_split strings_concat
string_split-strings_concat separator s strings (w, h) last =
    split_loop-append (separator ∷ []) [] s (concat_loop separator strings) w
    ∙ split_loop-concat_loop separator s strings (is_one_of_self separator) h last

zero_loop_lem :
    (output : List AString) (res : Bool) (piece str : AString)
    → zero_loop output res piece str ≡ (
      res || not (is_nil (split_loop (0 ∷ []) piece str)),
      output ++ split_loop (0 ∷ []) piece str,
    )
unfolding zero_loop split_loop is_one_of
zero_loop_lem output res [] [] = ap₂ (λ b o. (b, o)) (ground arith) (sym (append-nil output))
zero_loop_lem output res (c ∷ piece) [] = ap₂ (λ b o. (b, o)) (ground arith) refl
zero_loop_lem output res piece (c ∷ str) = elim (Bool-cases (c == 0)) [
  | inl e ↦
      rw (e, zero_loop_lem (output ++ piece ∷ []) true [] str)
        (ap₂ (λ b o. (b, o)) (ground arith)
          (append_assoc output (piece ∷ []) (split_loop (0 ∷ []) [] str)))
  | inr e ↦ rw (e, zero_loop_lem output res (piece ++ c ∷ []) str)
]

-- `split_zero_terminated_strings` splits at the null byte as `string_split` does, and answers whether
-- there is any piece, so that one piece is enough, also where there is no null byte.
pub split_zero_terminated_strings_lem :
    (str : AString)
    → split_zero_terminated_strings str
      ≡ (not (is_nil (string_split str (0 ∷ []))), string_split str (0 ∷ []))
unfolding split_zero_terminated_strings string_split
split_zero_terminated_strings_lem str = zero_loop_lem [] false [] str

split_trim_loop_lem :
    (delim piece str : AString)
    → split_trim_loop delim piece str ≡ map trim_string (split_loop delim piece str)
unfolding split_trim_loop split_loop
split_trim_loop_lem delim [] [] = refl
split_trim_loop_lem delim (c ∷ piece) [] = refl
split_trim_loop_lem delim piece (c ∷ str) = elim (Bool-cases (is_one_of c delim)) [
  | inl e ↦ rw (e, split_trim_loop_lem delim [] str)
  | inr e ↦ rw (e, split_trim_loop_lem delim (piece ++ c ∷ []) str)
]

-- `string_split_and_trim` trims each piece that `string_split` gives, and drops none.
pub string_split_and_trim_lem :
    (str delim : AString)
    → string_split_and_trim str delim ≡ map trim_string (string_split str delim)
unfolding string_split_and_trim string_split
string_split_and_trim_lem str delim = split_trim_loop_lem delim [] str

split_one_loop_few :
    (delims : AString) (n splits : ℕ) (piece str : AString)
    → splits ≤ suc n
    → length (split_one_loop delims (suc n) splits piece str) ≤ suc n - splits + 1
unfolding split_one_loop
split_one_loop_few delims n splits [] [] h = omega arith
split_one_loop_few delims n splits (c ∷ piece) [] h = omega arith
split_one_loop_few delims n splits piece (c ∷ str) h =
    let some_limit : (suc n == 0) ≡ false = ground arith in
    elim (Bool-cases (ltb splits (suc n) && is_one_of c delims)) [
      | inl e ↦
          let more : splits < suc n = ground arith in
          rw (some_limit, e)
            (omega (arith, more, split_one_loop_few delims n (splits + 1) [] str (omega arith)))
      | inr e ↦ rw (some_limit, e) (split_one_loop_few delims n splits (piece ++ c ∷ []) str h)
    ]

-- With a limit `n` that is not 0, `split_one_of` returns at most `n + 1` pieces.
pub split_one_of_few :
    (n : ℕ) (str delims : AString) → 0 < n → length (split_one_of str delims n) ≤ n + 1
unfolding split_one_of
split_one_of_few zero str delims h = absurd (omega arith)
split_one_of_few (suc n) str delims h =
    omega (arith, split_one_loop_few delims n 0 [] str (omega arith))

split_one_loop_all :
    (delims : AString) (splits : ℕ) (piece str : AString)
    → split_one_loop delims 0 splits piece str ≡ split_loop delims piece str
unfolding split_one_loop split_loop
split_one_loop_all delims splits piece [] = refl
split_one_loop_all delims splits piece (c ∷ str) = elim (Bool-cases (is_one_of c delims)) [
  | inl e ↦ rw (e, split_one_loop_all delims (splits + 1) [] str)
  | inr e ↦ rw (e, split_one_loop_all delims splits (piece ++ c ∷ []) str)
]

-- With the limit 0, which stands for none, `split_one_of` does what `string_split` does.
pub split_one_of-string_split :
    (str delims : AString) → split_one_of str delims 0 ≡ string_split str delims
unfolding split_one_of string_split
split_one_of-string_split str delims = split_one_loop_all delims 0 [] str
