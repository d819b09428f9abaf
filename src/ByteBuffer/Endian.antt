-- ===== src/ByteBuffer/Endian.antt =====
-- Include/Endianness.h, on a little-endian host: the memory of a number, and the conversions between
-- the host's and the network's order, which are the same both ways.
use p2pchat.Prelude.{
  ℕ, zero, suc, ◌+◌, ◌*◌, ◌/◌, ◌%◌, ◌^◌, ◌<◌, ◌≡◌, refl, sym, ap, ap₂, ◌∙◌, List, [], ◌∷◌, ◌++◌,
  length, length-append, All, All-append, reverse, reverse-append, reverse-reverse, arith,
}
use native.Mathlib.Nat.{mul_comm, pow-suc, div-div-eq-div-mul}

-- The number whose bytes stand in memory, lowest first, and the `n` bytes of a number.
unfoldable pub load_le : List ℕ → ℕ
load_le [] = 0
load_le (b ∷ bs) = b + 256 * load_le bs

unfoldable pub store_le : ℕ → ℕ → List ℕ
store_le zero v = []
store_le (suc n) v = v % 256 ∷ store_le n (v / 256)

-- `htons`, `ntohs` (two bytes), `htonl`, `ntohl` (four): the bytes change their order.
unfoldable pub byte_swap : ℕ → ℕ → ℕ
byte_swap n v = load_le (reverse (store_le n v))

-- `HostToNetwork4`, and `ntohl` on what `memcpy` took.
unfoldable pub host_to_network4 : ℕ → ℕ
host_to_network4 v = byte_swap 4 v

-- `HostToNetwork8`.
unfoldable pub host_to_network8 : ℕ → ℕ
host_to_network8 v =
    (byte_swap 4 (v % 2 ^ 32) * 2 ^ 32 % 2 ^ 64 + byte_swap 4 (v / 2 ^ 32 % 2 ^ 32)) % 2 ^ 64

-- The macro `ntohll`, in `NetworkToHostULong8` and the like.
unfoldable pub network_to_host8 : ℕ → ℕ
network_to_host8 v =
    (byte_swap 4 (v % 2 ^ 32) * 2 ^ 32 % 2 ^ 64 + byte_swap 4 (v / 2 ^ 32 % 2 ^ 32)) % 2 ^ 64

-- The `n` bytes of a number, highest first.
unfoldable pub be_bytes : ℕ → ℕ → List ℕ
be_bytes zero v = []
be_bytes (suc n) v = be_bytes n (v / 256) ++ (v % 256 ∷ [])

pub length-store_le : (n v : ℕ) → length (store_le n v) ≡ n
unfolding store_le
length-store_le zero v = refl
length-store_le (suc n) v = ap suc (length-store_le n (v / 256))

abbrev pub IsByte : ℕ → Type 0
IsByte b = b < 256

store_le-IsByte : (n v : ℕ) → All IsByte (store_le n v)
unfolding store_le
store_le-IsByte zero v = tt
store_le-IsByte (suc n) v = (omega arith, store_le-IsByte n (v / 256))

be_bytes-eq-reverse : (n v : ℕ) → be_bytes n v ≡ reverse (store_le n v)
unfolding be_bytes store_le
be_bytes-eq-reverse zero v = refl
be_bytes-eq-reverse (suc n) v =
    ap (λ xs. xs ++ (v % 256 ∷ [])) (be_bytes-eq-reverse n (v / 256))
    ∙ sym (reverse-append (v % 256 ∷ []) (store_le n (v / 256)))

pub be_bytes-IsByte : (n v : ℕ) → All IsByte (be_bytes n v)
unfolding be_bytes
be_bytes-IsByte zero v = tt
be_bytes-IsByte (suc n) v =
    All-append IsByte (be_bytes n (v / 256)) (v % 256 ∷ []) (be_bytes-IsByte n (v / 256))
      (omega arith, tt)

pub length-be_bytes : (n v : ℕ) → length (be_bytes n v) ≡ n
unfolding be_bytes
length-be_bytes zero v = refl
length-be_bytes (suc n) v =
    omega (arith, length-append (be_bytes n (v / 256)) (v % 256 ∷ []), length-be_bytes n (v / 256))

store_le-load_le : (bs : List ℕ) → All IsByte bs → store_le (length bs) (load_le bs) ≡ bs
unfolding store_le load_le
store_le-load_le [] h = refl
store_le-load_le (b ∷ bs) h =
    let low : (b + 256 * load_le bs) % 256 ≡ b = omega arith in
    let high : (b + 256 * load_le bs) / 256 ≡ load_le bs = omega arith in
    rw (low, high) (ap (◌∷◌ b) (store_le-load_le bs h.1))

-- A number of `n` bytes is loaded from where it was stored.
pub load_le-store_le : (n v : ℕ) → v < 256 ^ n → load_le (store_le n v) ≡ v
unfolding store_le load_le
load_le-store_le zero v h = omega arith
load_le-store_le (suc n) v h = omega (arith, load_le-store_le n (v / 256) (omega arith))

load_le-lt : (bs : List ℕ) → All IsByte bs → load_le bs < 256 ^ length bs
unfolding load_le
load_le-lt [] h = omega arith
load_le-lt (b ∷ bs) h = omega (arith, load_le-lt bs h.1, pow-suc 256 (length bs))

store_le-append : (m n v : ℕ) → store_le (m + n) v ≡ store_le m v ++ store_le n (v / 256 ^ m)
unfolding store_le
store_le-append zero n v = ap₂ store_le (omega arith) (omega arith)
store_le-append (suc m) n v =
    let e : suc m + n ≡ suc (m + n) = omega arith in
    let d : v / 256 ^ suc m ≡ v / 256 / 256 ^ m =
      ap (λ k. v / k) (pow-suc 256 m ∙ mul_comm (256 ^ m) 256)
      ∙ sym (div-div-eq-div-mul v 256 (256 ^ m)) in
    rw (e, d) (ap (◌∷◌ (v % 256)) (store_le-append m n (v / 256)))

-- What stands above the `n` bytes is not stored.
store_le-add : (n v k : ℕ) → store_le n (v + k * 256 ^ n) ≡ store_le n v
unfolding store_le
store_le-add zero v k = refl
store_le-add (suc n) v k =
    let p : k * 256 ^ suc n ≡ 256 * (k * 256 ^ n) = ap (λ t. k * t) (pow-suc 256 n) ∙ omega arith in
    let low : (v + k * 256 ^ suc n) % 256 ≡ v % 256 = omega (arith, p) in
    let high : (v + k * 256 ^ suc n) / 256 ≡ v / 256 + k * 256 ^ n = omega (arith, p) in
    rw (low, high) (ap (◌∷◌ (v % 256)) (store_le-add n (v / 256) k))

byte_swap-lt : (n v : ℕ) → byte_swap n v < 256 ^ n
unfolding byte_swap
byte_swap-lt n v =
    let h = load_le-lt (be_bytes n v) (be_bytes-IsByte n v) in
    rw (length-be_bytes n v, be_bytes-eq-reverse n v) at h

-- The bytes of a swapped number are those of the number, highest first.
pub store_le-byte_swap : (n v : ℕ) → store_le n (byte_swap n v) ≡ be_bytes n v
unfolding byte_swap
store_le-byte_swap n v =
    let h = store_le-load_le (be_bytes n v) (be_bytes-IsByte n v) in
    rw (← be_bytes-eq-reverse n v) (rw (length-be_bytes n v) at h)

-- Loading them back and swapping gives the number.
pub byte_swap-be_bytes : (n v : ℕ) → v < 256 ^ n → byte_swap n (load_le (be_bytes n v)) ≡ v
unfolding byte_swap
byte_swap-be_bytes n v h =
    let bytes = store_le-load_le (be_bytes n v) (be_bytes-IsByte n v) in
    let whole = rw (length-be_bytes n v) at bytes in
    rw (whole, be_bytes-eq-reverse n v, reverse-reverse) (load_le-store_le n v h)

-- Eight bytes are swapped as two halves of four.
be_bytes_halves : (v : ℕ) → be_bytes 8 v ≡ be_bytes 4 (v / 256 ^ 4) ++ be_bytes 4 v
be_bytes_halves v =
    be_bytes-eq-reverse 8 v
    ∙ ap reverse (store_le-append 4 4 v)
    ∙ reverse-append (store_le 4 v) (store_le 4 (v / 256 ^ 4))
    ∙ ap₂ ◌++◌ (sym (be_bytes-eq-reverse 4 (v / 256 ^ 4))) (sym (be_bytes-eq-reverse 4 v))

be_bytes-mod : (v : ℕ) → be_bytes 4 (v % 2 ^ 32) ≡ be_bytes 4 v
be_bytes-mod v =
    let e : v ≡ v % 2 ^ 32 + v / 2 ^ 32 * 256 ^ 4 = omega arith in
    be_bytes-eq-reverse 4 (v % 2 ^ 32)
    ∙ ap reverse (sym (store_le-add 4 (v % 2 ^ 32) (v / 2 ^ 32)) ∙ ap (store_le 4) (sym e))
    ∙ sym (be_bytes-eq-reverse 4 v)

pub store_le-host_to_network8 :
    (v : ℕ) → v < 2 ^ 64 → store_le 8 (host_to_network8 v) ≡ be_bytes 8 v
unfolding host_to_network8
store_le-host_to_network8 v h =
    let hi = byte_swap 4 (v % 2 ^ 32) in
    let lo = byte_swap 4 (v / 2 ^ 32) in
    let hi_lt = byte_swap-lt 4 (v % 2 ^ 32) in
    let lo_lt = byte_swap-lt 4 (v / 2 ^ 32) in
    let e : v / 2 ^ 32 % 2 ^ 32 ≡ v / 2 ^ 32 = omega arith in
    let sum : (hi * 2 ^ 32 % 2 ^ 64 + lo) % 2 ^ 64 ≡ lo + hi * 256 ^ 4 = omega arith in
    let high : (lo + hi * 256 ^ 4) / 256 ^ 4 ≡ hi = omega arith in
    rw (e, sum)
      (store_le-append 4 4 (lo + hi * 256 ^ 4)
        ∙ ap₂ ◌++◌ (store_le-add 4 lo hi ∙ store_le-byte_swap 4 (v / 2 ^ 32))
            (ap (store_le 4) high ∙ store_le-byte_swap 4 (v % 2 ^ 32) ∙ be_bytes-mod v)
        ∙ sym (be_bytes_halves v))

host_to_network8-lt : (v : ℕ) → host_to_network8 v < 2 ^ 64
unfolding host_to_network8
host_to_network8-lt v = omega arith

network_to_host8-eq : (v : ℕ) → network_to_host8 v ≡ host_to_network8 v
unfolding network_to_host8 host_to_network8
network_to_host8-eq v = refl

-- Both conversions of eight bytes are their own inverse.
host_to_network8_twice : (v : ℕ) → v < 2 ^ 64 → host_to_network8 (host_to_network8 v) ≡ v
host_to_network8_twice v h =
    let w = host_to_network8 v in
    let w_lt = host_to_network8-lt v in
    let bytes : store_le 8 (host_to_network8 w) ≡ store_le 8 v =
      store_le-host_to_network8 w w_lt
      ∙ be_bytes-eq-reverse 8 w
      ∙ ap reverse (store_le-host_to_network8 v h ∙ be_bytes-eq-reverse 8 v)
      ∙ reverse-reverse (store_le 8 v) in
    sym (load_le-store_le 8 (host_to_network8 w) (host_to_network8-lt w))
    ∙ ap load_le bytes
    ∙ load_le-store_le 8 v h

pub network_to_host8-be_bytes : (v : ℕ) → v < 2 ^ 64 → network_to_host8 (load_le (be_bytes 8 v)) ≡ v
network_to_host8-be_bytes v h =
    let swapped : load_le (be_bytes 8 v) ≡ host_to_network8 v =
      rw (← store_le-host_to_network8 v h)
        (load_le-store_le 8 (host_to_network8 v) (host_to_network8-lt v)) in
    rw swapped (network_to_host8-eq (host_to_network8 v) ∙ host_to_network8_twice v h)
