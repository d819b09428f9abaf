-- ===== src/ByteBuffer/Numbers/Widths.antt =====
-- The memory of a number of Src/Common/ByteBuffer.cpp, written and read under the macros `PUTBYTES` and
-- `NEEDBYTES`.
use p2pchat.Prelude.{
  ℕ, ◌≤◌, ◌<◌, ◌≡◌, sym, ◌∙◌, true, false, List, ◌++◌, length, take, arith, take-append, le→leb,
  lt→leb, length-append,
}
use p2pchat.Outcome.{ok, fail}
use p2pchat.ByteBuffer.Endian.{load_le, store_le, length-store_le}
use p2pchat.ByteBuffer.Stream.{room}
use p2pchat.ByteBuffer.Valid.{IsValid, view}
use p2pchat.ByteBuffer.Write.{filled, write-ok, write-fail, can_write_lem, write_buf-eq-write}
use p2pchat.ByteBuffer.Read.{moved, need_bytes-ok, need_bytes-fail, read_buf-ok}
use p2pchat.ByteBuffer.{ByteBuffer, write_buf}
use p2pchat.ByteBuffer.Numbers.{read_val, write_val}

module _ (b : ByteBuffer) (v : IsValid b) where
  pub read_val-ok :
      (xs tail : List ℕ) (n : ℕ)
      → length xs ≡ n
      → (view b).rest ≡ xs ++ tail
      → read_val n b ≡ (ok (load_le xs), moved b n)
  unfolding read_val
  read_val-ok xs tail n l e =
      let enough : n ≤ length (view b).rest = rw e (omega (arith, length-append xs tail)) in
      let front : take n (view b).rest ≡ xs = rw e (take-append xs tail n (sym l)) in
      rw (need_bytes-ok b v n enough, read_buf-ok b v n enough, front)

  pub read_val-fail : (n : ℕ) → length (view b).rest < n → read_val n b ≡ (fail, b)
  unfolding read_val
  read_val-fail n short = rw (need_bytes-fail b v n short)

  pub write_buf-ok :
      (xs : List ℕ) → length xs ≤ room (view b) → write_buf b xs ≡ (true, filled b xs)
  write_buf-ok xs fits = write_buf-eq-write b xs ∙ write-ok b v xs fits

  pub write_buf-fail : (xs : List ℕ) → room (view b) < length xs → write_buf b xs ≡ (false, b)
  write_buf-fail xs full = write_buf-eq-write b xs ∙ write-fail b v xs full

  pub write_val-ok :
      (n x : ℕ) → n ≤ room (view b) → write_val n x b ≡ (true, filled b (store_le n x))
  unfolding write_val
  write_val-ok n x fits =
      rw (can_write_lem b v (store_le n x) n, le→leb _ _ fits)
        (write_buf-ok (store_le n x) (rw (length-store_le n x) fits))

  pub write_val-fail : (n x : ℕ) → room (view b) < n → write_val n x b ≡ (false, b)
  unfolding write_val
  write_val-fail n x full = rw (can_write_lem b v (store_le n x) n, lt→leb _ _ full)
