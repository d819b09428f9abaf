-- ===== src/ByteBuffer/Window.antt =====
-- Memory of the ring buffer of Src/Common/ByteBuffer.cpp: `memcpy` into and out of a byte array,
-- and the bytes that are met when going round a ring of `size` bytes.
use p2pchat.Prelude.{
  ℕ, zero, suc, ◌+◌, ◌-◌, ◌≤◌, ◌<◌, ◌≡◌, refl, ap, ap₂, ◌∙◌, ◌⊎◌, List, [], ◌∷◌, ◌++◌, length,
  get_or, set, take, drop, length-set, drop-get_or, get_or-set_self, get_or-set_ne, ltb, ◌==◌,
  if◌then◌else◌, false, arith,
}

-- `memcpy(buf + off, xs, |xs|)`.
abbrev pub write_at : List ℕ → ℕ → List ℕ → List ℕ
write_at buf off [] = buf
write_at buf off (x ∷ xs) = write_at (set buf off x) (off + 1) xs

-- The bytes that `memcpy(dst, buf + off, n)` copies.
abbrev pub slice : List ℕ → ℕ → ℕ → List ℕ
slice buf off n = take n (drop off buf)

pub length-write_at :
    (buf : List ℕ) (off : ℕ) (xs : List ℕ) → length (write_at buf off xs) ≡ length buf
length-write_at buf off [] = refl
length-write_at buf off (x ∷ xs) =
    length-write_at (set buf off x) (off + 1) xs ∙ length-set buf off x

pub get_or-write_at_apart :
    (buf : List ℕ) (off : ℕ) (xs : List ℕ) (i : ℕ)
    → (i < off) ⊎ (off + length xs ≤ i)
    → get_or (write_at buf off xs) i 0 ≡ get_or buf i 0
get_or-write_at_apart buf off [] i h = refl
get_or-write_at_apart buf off (x ∷ xs) i h =
    get_or-write_at_apart (set buf off x) (off + 1) xs i (omega arith)
    ∙ get_or-set_ne buf off i x 0 (omega arith)

-- The index after `h` in a ring, and the one `m` places on.
abbrev pub next : ℕ → ℕ → ℕ
next size h = if h + 1 == size then 0 else h + 1

abbrev pub skip : ℕ → ℕ → ℕ → ℕ
skip size h m = if ltb (h + m) size then h + m else h + m - size

-- The number of places from `a` on to `b`.
abbrev pub dist : ℕ → ℕ → ℕ → ℕ
dist size a b = if ltb b a then size - a + b else b - a

-- The `n` bytes met from index `h` on.
unfoldable pub window : List ℕ → ℕ → ℕ → ℕ → List ℕ
window buf size h zero = []
window buf size h (suc n) = get_or buf h 0 ∷ window buf size (next size h) n

pub length-window : (buf : List ℕ) (size h n : ℕ) → length (window buf size h n) ≡ n
unfolding window
length-window buf size h zero = refl
length-window buf size h (suc n) = ap suc (length-window buf size (next size h) n)

skip-next :
    (size h m : ℕ) → h < size → suc m ≤ size → skip size (next size h) m ≡ skip size h (suc m)
skip-next size h m p q = ground arith

next-lt : (size h : ℕ) → h < size → next size h < size
next-lt size h p = ground arith

pub window-append :
    (buf : List ℕ) (size h m n : ℕ)
    → h < size
    → m ≤ size
    → window buf size h (m + n) ≡ window buf size h m ++ window buf size (skip size h m) n
unfolding window
window-append buf size h zero n p q =
    let e : skip size h 0 ≡ h = ground arith in rw e (ap (window buf size h) (omega arith))
window-append buf size h (suc m) n p q =
    let e : suc m + n ≡ suc (m + n) = omega arith in
    rw (e, ← skip-next size h m p q)
      (ap (◌∷◌ (get_or buf h 0))
        (window-append buf size (next size h) m n (next-lt size h p) (omega arith)))

-- Short of the end of the memory the next index is the next address.
window-next :
    (buf : List ℕ) (size h n : ℕ)
    → h + suc n ≤ size
    → window buf size (next size h) n ≡ window buf size (h + 1) n
unfolding window
window-next buf size h zero p = refl
window-next buf size h (suc n) p = let e : (h + 1 == size) ≡ false = ground arith in rw e

pub window-eq-slice :
    (buf : List ℕ) (size h n : ℕ)
    → length buf ≡ size
    → h + n ≤ size
    → window buf size h n ≡ slice buf h n
unfolding window
window-eq-slice buf size h zero l p = refl
window-eq-slice buf size h (suc n) l p =
    let e : suc h ≡ h + 1 = omega arith in
    rw (drop-get_or buf h 0 (omega arith)) (
      ap (◌∷◌ (get_or buf h 0))
        (window-next buf size h n p ∙ rw e (window-eq-slice buf size (h + 1) n l (omega arith))))

-- A window met before the written bytes, or after them, is not changed by the write.
pub window-write_at_apart :
    (buf : List ℕ) (size h n off : ℕ) (xs : List ℕ)
    → h < size
    → off + length xs ≤ size
    → (h + n ≤ off) ⊎ ((off + length xs ≤ h) × (h + n ≤ size + off))
    → window (write_at buf off xs) size h n ≡ window buf size h n
unfolding window
window-write_at_apart buf size h zero off xs p q r = refl
window-write_at_apart buf size h (suc n) off xs p q r =
    ap₂ ◌∷◌ (get_or-write_at_apart buf off xs h (omega arith))
      (window-write_at_apart buf size (next size h) n off xs (next-lt size h p) q (ground arith))

-- What was written is met there.
pub window-write_at_self :
    (buf : List ℕ) (size off : ℕ) (xs : List ℕ)
    → length buf ≡ size
    → off + length xs ≤ size
    → window (write_at buf off xs) size off (length xs) ≡ xs
unfolding window
window-write_at_self buf size off [] l q = refl
window-write_at_self buf size off (x ∷ xs) l q =
    ap₂ ◌∷◌
      (get_or-write_at_apart (set buf off x) (off + 1) xs off (omega arith)
        ∙ get_or-set_self buf off x 0 (omega arith))
      (window-next (write_at (set buf off x) (off + 1) xs) size off (length xs) q
        ∙ window-write_at_self (set buf off x) size (off + 1) xs (length-set buf off x ∙ l)
            (omega arith))

-- A window past the end of the memory is two slices.
pub window-eq-slices :
    (buf : List ℕ) (size h n : ℕ)
    → length buf ≡ size
    → h < size
    → size ≤ h + n
    → n ≤ size
    → window buf size h n ≡ slice buf h (size - h) ++ slice buf 0 (n - (size - h))
window-eq-slices buf size h n l h_in past n_in =
    let t = size - h in
    let parts : n ≡ t + (n - t) = omega arith in
    let wraps : skip size h t ≡ 0 = ground arith in
    ap (window buf size h) parts
    ∙ window-append buf size h t (n - t) h_in (omega arith)
    ∙ rw (wraps, window-eq-slice buf size h t l (omega arith))
        (ap (◌++◌ (slice buf h t)) (window-eq-slice buf size 0 (n - t) l (omega arith)))

-- No byte lies between an index and itself.
pub window-dist_self : (buf : List ℕ) (size h : ℕ) → window buf size h (dist size h h) ≡ []
unfolding window
window-dist_self buf size h = let e : dist size h h ≡ 0 = ground arith in rw e
