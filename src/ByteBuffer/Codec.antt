-- ===== src/ByteBuffer/Codec.antt =====
-- A writing and a reading method of cByteBuffer (Src/Common/ByteBuffer.cpp) that belong together, with
-- the bytes that pass between them; and what holds of every such pair.
use p2pchat.Prelude.{
  ℕ, ◌≤◌, ◌<◌, ◌≡◌, refl, sym, ap, ap₂, ◌∙◌, Bool, true, false, List, [], ◌++◌, length, take-append,
  drop-append, append-nil, length-append, arith,
}
use p2pchat.Outcome.{ok, Reader}
use p2pchat.ByteBuffer.Stream.{Stream, room, extend}
use p2pchat.ByteBuffer.Valid.{IsValid, view}
use p2pchat.ByteBuffer.Write.{filled, filled-view, filled-IsValid}
use p2pchat.ByteBuffer.Read.{moved, moved-view, moved-IsValid}
use p2pchat.ByteBuffer.{ByteBuffer}

-- All bytes were written, behind what was there.
pub record Written (b : ByteBuffer) (xs : List ℕ) (r : Bool × ByteBuffer) : Type 0 where
  pub answer : r.0 ≡ true
  pub valid : IsValid r.1
  pub seen : view r.1 ≡ extend (view b) xs

pub filled-Written :
    (b : ByteBuffer) (xs : List ℕ)
    → IsValid b
    → length xs ≤ room (view b)
    → Written b xs (true, filled b xs)
filled-Written b xs v fits = record {
  answer = refl;
  valid = filled-IsValid b v xs fits;
  seen = filled-view b v xs fits;
}

pub record Codec {V : Type 0} (InRange : V → Type 0) (write : V → ByteBuffer → Bool × ByteBuffer)
    (read : Reader ByteBuffer V) (bytes : V → List ℕ) : Type 0 where
  -- A value that fits is written, whole and in place.
  pub writes :
      (b : ByteBuffer) (v : V)
      → IsValid b
      → InRange v
      → length (bytes v) ≤ room (view b)
      → Written b (bytes v) (write v b)
  -- One that does not fit is refused.
  pub refuses :
      (b : ByteBuffer) (v : V)
      → IsValid b
      → InRange v
      → room (view b) < length (bytes v)
      → (write v b).0 ≡ false
  -- The value is read back from its bytes, which are taken, and no others.
  pub reads :
      (b : ByteBuffer) (v : V) (tail : List ℕ)
      → IsValid b
      → InRange v
      → (view b).rest ≡ bytes v ++ tail
      → read b ≡ (ok v, moved b (length (bytes v)))

-- A buffer from which the first bytes have been taken.
module _ (b : ByteBuffer) (xs tail : List ℕ) (v : IsValid b) (e : (view b).rest ≡ xs ++ tail) where
  pub front_le : length xs ≤ length (view b).rest
  front_le = rw e (omega (arith, length-append xs tail))

  pub moved_front-IsValid : IsValid (moved b (length xs))
  moved_front-IsValid = moved-IsValid b v (length xs) front_le

  pub moved_front-view :
      view (moved b (length xs)) ≡ record (view b) { done = (view b).done ++ xs; rest = tail }
  moved_front-view =
      moved-view b v (length xs) front_le
      ∙ ap₂ (λ ys zs. record (view b) { done = (view b).done ++ ys; rest = zs })
          (rw e (take-append xs tail (length xs) refl))
          (rw e (drop-append xs tail (length xs) refl))

  pub moved_front-rest : (view (moved b (length xs))).rest ≡ tail
  moved_front-rest = ap (λ s. s.rest) moved_front-view

module _ {V : Type 0} {InRange : V → Type 0} {write : V → ByteBuffer → Bool × ByteBuffer}
    {read : Reader ByteBuffer V} {bytes : V → List ℕ} (c : Codec InRange write read bytes) where
  -- What is written to a buffer with nothing unread is what is read next, and then nothing is left.
  pub read-write :
      (b : ByteBuffer) (v : V)
      → IsValid b
      → InRange v
      → (view b).rest ≡ []
      → length (bytes v) ≤ room (view b)
      → let (s, b') = write v b in
        let (r, b'') = read b' in
        (s ≡ true)
        × (r ≡ ok v)
        × IsValid b''
        × (view b'' ≡ record (view b) { done = (view b).done ++ bytes v; rest = [] })
  read-write b v vb h empty fits =
      let w = c.writes b v vb h fits in
      let full = (write v b).1 in
      let front : (view full).rest ≡ bytes v ++ [] =
        ap (λ s. s.rest) w.seen ∙ ap (λ ys. ys ++ bytes v) empty ∙ sym (append-nil (bytes v)) in
      rw (c.reads full v [] w.valid h front) (
        w.answer,
        refl,
        moved_front-IsValid full (bytes v) [] w.valid front,
        moved_front-view full (bytes v) [] w.valid front
            ∙ ap {A = Stream} (λ s. record s { done = s.done ++ bytes v; rest = [] }) w.seen,
      )
