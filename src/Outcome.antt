-- ===== src/Outcome.antt =====
-- What a call of the program may come to: the `bool` results of Src/Common/ByteBuffer.cpp with the
-- value read, an undefined operation of C++, and the exit of `VERIFY` (Include/Common.h).

pub data Outcome {ℓ} (A : Type ℓ) : Type ℓ where
  -- The value, by `return true` and a reference.
  ok : A → Outcome A
  -- `return false`.
  fail : Outcome A
  -- C++ gives an operation no meaning.
  undefined : Outcome A
  -- A `VERIFY` did not hold, and the process calls `exit(1)`.
  exited : Outcome A
  -- The rounds that a model gives to a loop ran out; it comes to this nowhere.
  stuck : Outcome A

-- A method that changes an object and may stop early; the object is left as the stop leaves it.
abbrev pub Reader {ℓ} : Type 0 → Type ℓ → Type ℓ
Reader S A = S → Outcome A × S

abbrev pub pure {ℓ} : {S : Type 0} {A : Type ℓ} → A → Reader S A
pure a s = (ok a, s)

abbrev pub continue {ℓ κ} :
    {S : Type 0} {A : Type ℓ} {B : Type κ} → Outcome A × S → (A → Reader S B) → Outcome B × S
continue (ok a, s) f = f a s
continue (fail, s) f = (fail, s)
continue (undefined, s) f = (undefined, s)
continue (exited, s) f = (exited, s)
continue (stuck, s) f = (stuck, s)

infixl 5 ◌>>=◌ ◌>>◌
abbrev pub ◌>>=◌ {ℓ κ} :
    {S : Type 0} {A : Type ℓ} {B : Type κ} → Reader S A → (A → Reader S B) → Reader S B
◌>>=◌ m f s = continue (m s) f

abbrev pub ◌>>◌ {ℓ} : {S : Type 0} {B : Type ℓ} → Reader S (Unit {0}) → Reader S B → Reader S B
m >> k = m >>= λ _. k

-- A change of the object that cannot fail.
abbrev pub modify {ℓ} : {S : Type ℓ} → (S → S) → S → Outcome (Unit {0}) × S
modify f s = (ok tt, f s)

-- On with what a call left, or the whole state as the stop leaves it.
abbrev pub resume {ℓ κ} :
    {A : Type ℓ} {B : Type κ}
    → Outcome (Unit {0}) × A
    → (A → Outcome (Unit {0}) × B)
    → (A → B)
    → Outcome (Unit {0}) × B
resume (ok _, a) next stop = next a
resume (fail, a) next stop = (fail, stop a)
resume (undefined, a) next stop = (undefined, stop a)
resume (exited, a) next stop = (exited, stop a)
resume (stuck, a) next stop = (stuck, stop a)
