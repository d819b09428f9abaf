-- ===== src/StringUtils/Encode.antt =====
-- Base64 and the escapes of addresses in Src/Common/StringUtils.cpp.
use p2pchat.Prelude.{
  ℕ, zero, suc, ◌+◌, ◌-◌, ◌*◌, ◌/◌, ◌^◌, ◌<◌, ◌≡◌, refl, ap, subst, Bool-cases, inl, inr, Bool,
  true, false, not, ◌&&◌, ◌||◌, Option, none, some, [], ◌∷◌, length, get_or, ltb, leb, ◌==◌,
  if◌then◌else◌, ℤ, pos, negsuc, bit_and, bit_or, arith,
}
use p2pchat.Outcome.{Outcome, ok, fail, undefined, exited, stuck}
use p2pchat.IniFile.{AString}
use p2pchat.ByteBuffer.{sub_size}

-- The table `BASE64`.
abbrev pub base64_table : AString
base64_table =
    65 ∷ 66 ∷ 67 ∷ 68 ∷ 69 ∷ 70 ∷ 71 ∷ 72 ∷ 73 ∷ 74 ∷ 75 ∷ 76 ∷ 77 ∷ 78 ∷ 79 ∷ 80 ∷ 81 ∷ 82 ∷ 83
    ∷ 84 ∷ 85 ∷ 86 ∷ 87 ∷ 88 ∷ 89 ∷ 90 ∷ 97 ∷ 98 ∷ 99 ∷ 100 ∷ 101 ∷ 102 ∷ 103 ∷ 104 ∷ 105 ∷ 106
    ∷ 107 ∷ 108 ∷ 109 ∷ 110 ∷ 111 ∷ 112 ∷ 113 ∷ 114 ∷ 115 ∷ 116 ∷ 117 ∷ 118 ∷ 119 ∷ 120 ∷ 121 ∷ 122
    ∷ 48 ∷ 49 ∷ 50 ∷ 51 ∷ 52 ∷ 53 ∷ 54 ∷ 55 ∷ 56 ∷ 57 ∷ 43 ∷ 47 ∷ []

unfoldable pub base64_char : ℕ → ℕ
base64_char v = get_or base64_table v 0

-- `UnBase64`.
unfoldable pub un_base64 : ℕ → ℤ
un_base64 c =
    if leb 65 c && leb c 90
    then pos (c - 65)
    else if leb 97 c && leb c 122
    then pos (c - 97 + 26)
    else if leb 48 c && leb c 57
    then pos (c - 48 + 52)
    else if c == 43
    then pos 62
    else if c == 47
    then pos 63
    else if c == 61
    then negsuc 0
    else negsuc 1

-- Three bytes a round, and what is left of one or two; '=' fills up.
unfoldable pub base64_encode : AString → AString
base64_encode [] = []
base64_encode (a ∷ []) =
    base64_char (a / 2 ^ 2) ∷ base64_char (bit_and (a * 2 ^ 4) 63) ∷ 61 ∷ 61 ∷ []
base64_encode (a ∷ b ∷ []) =
    base64_char (a / 2 ^ 2)
    ∷ base64_char (bit_and (bit_or (a * 2 ^ 4) (b / 2 ^ 4)) 63)
    ∷ base64_char (bit_and (b * 2 ^ 2) 63)
    ∷ 61
    ∷ []
base64_encode (a ∷ b ∷ c ∷ input) =
    base64_char (a / 2 ^ 2)
    ∷ base64_char (bit_and (bit_or (a * 2 ^ 4) (b / 2 ^ 4)) 63)
    ∷ base64_char (bit_and (bit_or (b * 2 ^ 2) (c / 2 ^ 6)) 63)
    ∷ base64_char (bit_and c 63)
    ∷ base64_encode input

-- The high digit; from an upper-case one the source takes 'F'.
unfoldable pub high_digit : ℕ → Option ℕ
high_digit c =
    if leb 48 c && leb c 57
    then some (c - 48)
    else if leb 97 c && leb c 102
    then some (c - 97 + 10)
    else if leb 65 c && leb c 70
    then some (c + 10 - 70)
    else none

unfoldable pub low_digit : ℕ → Option ℕ
low_digit c =
    if leb 48 c && leb c 57
    then some (c - 48)
    else if leb 97 c && leb c 102
    then some (c - 97 + 10)
    else if leb 65 c && leb c 70
    then some (c - 65 + 10)
    else none

-- The byte of two digits.
unfoldable pub hex_byte : ℕ → ℕ → Option ℕ
hex_byte h l = elim (high_digit h) [
  | none ↦ none
  | some hi ↦ elim (low_digit l) [ none ↦ none | some lo ↦ some (bit_or (hi * 2 ^ 4) lo) ]
]

abbrev pub push_byte : ℕ → Outcome AString → Outcome AString
push_byte c (ok s) = ok (c ∷ s)
push_byte c fail = fail
push_byte c undefined = undefined
push_byte c exited = exited
push_byte c stuck = stuck

-- The loop of `URLDecode` at `i` of `len`. The null character stands behind the last byte, and a read
-- behind that has no meaning.
unfoldable pub url_loop : ℕ → ℕ → AString → Outcome AString
url_loop len i [] = ok []
url_loop len i (c ∷ []) = if not (c == 37) || ltb (sub_size len 3) i then ok (c ∷ []) else undefined
url_loop len i (c ∷ h ∷ []) =
    let keep = push_byte c (url_loop len (i + 1) (h ∷ [])) in
    if not (c == 37) || ltb (sub_size len 3) i
    then keep
    else elim (hex_byte h 0) [ none ↦ keep | some x ↦ ok (x ∷ []) ]
url_loop len i (c ∷ h ∷ l ∷ str) =
    let keep = push_byte c (url_loop len (i + 1) (h ∷ l ∷ str)) in
    let cut = url_loop len (i + 3) str in
    if not (c == 37) || ltb (sub_size len 3) i
    then keep
    else elim (hex_byte h l) [ none ↦ keep | some x ↦ push_byte x cut ]

unfoldable pub url_decode : AString → Outcome AString
url_decode str = url_loop (length str) 0 str

abbrev is_digit : ℕ → ℤ → Bool
is_digit v (pos n) = n == v
is_digit v (negsuc n) = false

digit-pos : (v : ℕ) (z : ℤ) → is_digit v z ≡ true → z ≡ pos v
digit-pos v (pos n) h = ap pos (ground arith)
digit-pos v (negsuc n) h = cc

-- The characters of all digits below a bound are read back.
abbrev all_read_back : ℕ → Bool
all_read_back zero = true
all_read_back (suc n) = is_digit n (un_base64 (base64_char n)) && all_read_back n

read_back_below :
    (n v : ℕ) → all_read_back n ≡ true → v < n → is_digit v (un_base64 (base64_char v)) ≡ true
read_back_below zero v h lt = absurd (omega arith)
read_back_below (suc n) v h lt = elim (Bool-cases (v == n)) [
  | inl e ↦
      let same_digit : n ≡ v = ground arith in
      subst (λ k. is_digit k (un_base64 (base64_char k)) ≡ true) same_digit (ground arith)
  | inr e ↦ read_back_below n v (ground arith) (ground arith)
]

all_sixty_four : all_read_back 64 ≡ true
unfolding un_base64 base64_char
all_sixty_four = refl

-- `un_base64` reads each of the 64 digits back from the character that `base64_encode` puts for it.
pub un_base64-base64_char : (v : ℕ) → v < 64 → un_base64 (base64_char v) ≡ pos v
un_base64-base64_char v h =
    digit-pos v (un_base64 (base64_char v)) (read_back_below 64 v all_sixty_four h)
