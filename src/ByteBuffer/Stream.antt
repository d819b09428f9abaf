-- ===== src/ByteBuffer/Stream.antt =====
-- What cByteBuffer (Include/ByteBuffer.h) promises, with no ring: a bounded queue of bytes whose
-- front has been read and is kept until it is committed.
use p2pchat.Prelude.{
  ℕ, ◌-◌, Bool, true, false, List, [], ◌++◌, length, take, drop, ltb, leb, if◌then◌else◌,
}
use p2pchat.Outcome.{ok, fail, Reader}

pub record Stream : Type 0 where
  pub capacity : ℕ
  -- Read, and not committed.
  pub done : List ℕ
  -- Not read.
  pub rest : List ℕ

abbrev pub room : Stream → ℕ
room s = s.capacity - length s.done - length s.rest

abbrev pub put : Stream → List ℕ → Bool × Stream
put s bytes =
    if ltb (room s) (length bytes) then (false, s) else (true, record s { rest = s.rest ++ bytes })

abbrev pub advance : Stream → ℕ → Stream
advance s n = record s { done = s.done ++ take n s.rest; rest = drop n s.rest }

abbrev pub get : ℕ → Reader Stream (List ℕ)
get n s = if leb n (length s.rest) then (ok (take n s.rest), advance s n) else (fail, s)

abbrev pub skip : Stream → ℕ → Bool × Stream
skip s n = if leb n (length s.rest) then (true, advance s n) else (false, s)

abbrev pub commit : Stream → Stream
commit s = record s { done = [] }

abbrev pub reset : Stream → Stream
reset s = record s { done = []; rest = s.done ++ s.rest }

-- The queue with bytes appended.
abbrev pub extend : Stream → List ℕ → Stream
extend s xs = record s { rest = s.rest ++ xs }
