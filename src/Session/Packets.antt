-- ===== src/Session/Packets.antt =====
-- A packet as the peer receives it: the length of what follows, the packet's type and its fields
-- (`SendPacket` of Src/Server/Protocol/cProtocol_impl.cpp).
use p2pchat.Prelude.{
  ℕ, ◌%◌, ◌^◌, ◌≤◌, ◌<◌, ◌≡◌, refl, sym, ap, ◌∙◌, Bool, true, false, List, [], ◌∷◌, ◌++◌, length,
  length-append, append_assoc, append-nil, All, arith, InBits, to_bits,
}
use p2pchat.Outcome.{Outcome, ok, Reader}
use p2pchat.ByteBuffer.Endian.{be_bytes}
use p2pchat.ByteBuffer.Stream.{room, extend, commit}
use p2pchat.ByteBuffer.Valid.{IsValid, view, used_space_lem}
use p2pchat.ByteBuffer.Codec.{Written}
use p2pchat.ByteBuffer.Queue.{read_all_lem, commit-reset_refine}
use p2pchat.ByteBuffer.Numbers.Codecs.{int32-Codec, int64-Codec, uint32-Codec}
use p2pchat.ByteBuffer.VarInt.{write_var_int32}
use p2pchat.ByteBuffer.VarInt.Groups.{groups, groups_shape}
use p2pchat.ByteBuffer.VarInt.Codecs.{var_int32-Codec}
use p2pchat.ByteBuffer.Strings.Codecs.{string-Codec, string_bytes, IsShort}
use p2pchat.ByteBuffer.{ByteBuffer, read_all, commit_read, get_used_space}
use p2pchat.Session.{
  ClientHandle, Field, be_int32, be_int64, be_uint32, var_int32, string, write_field, verify,
  and_then, write_fields, send_data, send_packet, close_packet, with_out, packet,
}

-- The bytes of a field, and the values that it can carry.
abbrev pub field_bytes : Field → List ℕ
field_bytes (be_int32 z) = be_bytes 4 (to_bits 32 z)
field_bytes (be_int64 z) = be_bytes 8 (to_bits 64 z)
field_bytes (be_uint32 n) = be_bytes 4 n
field_bytes (var_int32 n) = groups 4 n
field_bytes (string s) = string_bytes s

abbrev pub IsField : Field → Type 0
IsField (be_int32 z) = InBits 32 z
IsField (be_int64 z) = InBits 64 z
IsField (be_uint32 n) = n < 2 ^ 32
IsField (var_int32 n) = n < 2 ^ 32
IsField (string s) = IsShort s

abbrev pub fields_bytes : List Field → List ℕ
fields_bytes [] = []
fields_bytes (f ∷ fs) = field_bytes f ++ fields_bytes fs

-- The type and the fields.
abbrev pub payload : ℕ → List Field → List ℕ
payload type fs = groups 4 type ++ fields_bytes fs

-- The length before it.
abbrev pub frame : List ℕ → List ℕ
frame bytes = groups 4 (length bytes) ++ bytes

write_field_lem :
    (f : Field) (b : ByteBuffer)
    → IsValid b
    → IsField f
    → length (field_bytes f) ≤ room (view b)
    → Written b (field_bytes f) (write_field f b)
unfolding write_field
write_field_lem (be_int32 z) b v h fits = int32-Codec.writes b z v h fits
write_field_lem (be_int64 z) b v h fits = int64-Codec.writes b z v h fits
write_field_lem (be_uint32 n) b v h fits = uint32-Codec.writes b n v h fits
write_field_lem (var_int32 n) b v h fits = var_int32-Codec.writes b n v h fits
write_field_lem (string s) b v h fits = string-Codec.writes b s v h fits

-- The fields are all written, and in place.
pub record Composed (b : ByteBuffer) (xs : List ℕ) (r : Outcome (Unit {0}) × ByteBuffer)
    : Type 0 where
  pub answer : r.0 ≡ ok tt
  pub valid : IsValid r.1
  pub seen : view r.1 ≡ extend (view b) xs

and_then-ok :
    (r : Bool × ByteBuffer) (k : Reader ByteBuffer (Unit {0}))
    → r.0 ≡ true
    → and_then (verify r) k ≡ k r.1
unfolding verify
and_then-ok (true, b) k e = refl
and_then-ok (false, b) k e = cc

write_fields_lem :
    (fs : List Field) (b : ByteBuffer)
    → IsValid b
    → All IsField fs
    → length (fields_bytes fs) ≤ room (view b)
    → Composed b (fields_bytes fs) (write_fields fs b)
unfolding write_fields
write_fields_lem [] b v h fits = record {
  answer = refl;
  valid = v;
  seen = ap (λ ys. record (view b) { rest = ys }) (sym (append-nil (view b).rest));
}
write_fields_lem (f ∷ fs) b v (h, hs) fits =
    let here : length (field_bytes f) ≤ room (view b) =
      omega (arith, length-append (field_bytes f) (fields_bytes fs)) in
    let w = write_field_lem f b v h here in
    let left : length (fields_bytes fs) ≤ room (view (write_field f b).1) = omega (
      arith,
      length-append (field_bytes f) (fields_bytes fs),
      ap room w.seen,
      length-append (view b).rest (field_bytes f),
    ) in
    let c = write_fields_lem fs (write_field f b).1 w.valid hs left in
    rw (and_then-ok (write_field f b) (write_fields fs) w.answer) (record {
      answer = c.answer;
      valid = c.valid;
      seen =
          c.seen
          ∙ ap (λ q. extend q (fields_bytes fs)) w.seen
          ∙ ap (λ ys. record (view b) { rest = ys })
              (append_assoc (view b).rest (field_bytes f) (fields_bytes fs));
    })

-- An empty buffer of a capacity.
pub record IsBlank (capacity : ℕ) (b : ByteBuffer) : Type 0 where
  pub valid : IsValid b
  pub seen : view b ≡ record { capacity = capacity; done = []; rest = [] }

-- The two buffers in which packets are composed are empty between packets.
pub record IsReady (c : ClientHandle) : Type 0 where
  pub out : IsBlank 65536 c.protocol.out_packet_buffer
  pub len : IsBlank 20 c.protocol.out_packet_len_buffer

abbrev pub with_scratch : ByteBuffer → ByteBuffer → ClientHandle → ClientHandle
with_scratch out len c = record c {
  protocol = record c.protocol { out_packet_buffer = out; out_packet_len_buffer = len };
}

-- The bytes went out whole, and nothing else changed but the memory of the two buffers.
pub record Delivered (c : ClientHandle) (bytes : List ℕ) (r : Outcome (Unit {0}) × ClientHandle)
    : Type 0 where
  pub out : ByteBuffer
  pub len : ByteBuffer
  pub out_blank : IsBlank 65536 out
  pub len_blank : IsBlank 20 len
  pub result : r ≡ (ok tt, with_scratch out len (send_data bytes c))

-- Reading everything and committing leaves an empty buffer.
pub drained-IsBlank :
    (b : ByteBuffer) (n : ℕ)
    → IsValid b
    → (view b).capacity ≡ n
    → IsBlank n (commit_read (read_all b).1)
drained-IsBlank b n v e =
    let (valid, answer, seen) = read_all_lem b v in
    let (still_valid, reset_valid, committed, was_reset) =
      commit-reset_refine (read_all b).1 valid in
    record {
      valid = still_valid;
      seen =
          committed
          ∙ ap commit seen
          ∙ ap {A = ℕ} (λ k. record { capacity = k; done = []; rest = [] }) e;
    }

-- `send_packet` sends what has been composed, behind its length.
module _ (c : ClientHandle) (bytes : List ℕ) (v : IsValid c.protocol.out_packet_buffer)
    (e : view c.protocol.out_packet_buffer ≡ record { capacity = 65536; done = []; rest = bytes })
    (blank : IsBlank 20 c.protocol.out_packet_len_buffer) (few : length bytes ≤ 65536) where
  packet_len : get_used_space c.protocol.out_packet_buffer % 2 ^ 32 ≡ length bytes
  packet_len = omega (
    arith,
    used_space_lem c.protocol.out_packet_buffer v,
    ap (λ s. length s.done) e,
    ap (λ s. length s.rest) e,
  )

  len-Written :
      Written c.protocol.out_packet_len_buffer
        (groups 4 (length bytes))
        (write_var_int32 (length bytes) c.protocol.out_packet_len_buffer)
  len-Written =
      var_int32-Codec.writes c.protocol.out_packet_len_buffer (length bytes) blank.valid
        (omega arith)
        (omega (arith, ap room blank.seen, groups_shape 4 (length bytes) (omega arith)))

  len_all :
      (read_all (write_var_int32 (length bytes) c.protocol.out_packet_len_buffer).1).0
      ≡ ok (groups 4 (length bytes))
  len_all =
      let w = len-Written in
      let (valid, answer, seen) = read_all_lem _ w.valid in
      answer
      ∙ ap ok (ap (λ s. s.rest) w.seen ∙ ap (λ s. s.rest ++ groups 4 (length bytes)) blank.seen)

  data_all : (read_all c.protocol.out_packet_buffer).0 ≡ ok bytes
  data_all =
      let (valid, answer, seen) = read_all_lem c.protocol.out_packet_buffer v in
      answer ∙ ap ok (ap (λ s. s.rest) e)

  send_packet-Delivered : Delivered c (frame bytes) (ok tt, send_packet c)
  unfolding send_packet send_data
  send_packet-Delivered =
      let w = len-Written in
      record {
        out = commit_read (read_all c.protocol.out_packet_buffer).1;
        len =
            commit_read
              (read_all (write_var_int32 (length bytes) c.protocol.out_packet_len_buffer).1).1;
        out_blank = drained-IsBlank c.protocol.out_packet_buffer 65536 v (ap (λ s. s.capacity) e);
        len_blank =
            drained-IsBlank _ 20 w.valid
              (ap (λ s. s.capacity) w.seen ∙ ap (λ s. s.capacity) blank.seen);
        result = rw (packet_len, len_all, data_all);
      }

-- The type and the fields of a packet are composed in an empty buffer.
pub write_packet_lem :
    (type : ℕ) (fs : List Field) (b : ByteBuffer)
    → IsBlank 65536 b
    → type < 2 ^ 32
    → All IsField fs
    → length (payload type fs) ≤ 65536
    → Composed b (payload type fs) (write_fields fs (write_var_int32 type b).1)
write_packet_lem type fs b blank ht hs few =
    let size = length-append (groups 4 type) (fields_bytes fs) in
    let w =
      var_int32-Codec.writes b type blank.valid ht (omega (arith, ap room blank.seen, size)) in
    let left : length (fields_bytes fs) ≤ room (view (write_var_int32 type b).1) = omega (
      arith,
      size,
      ap room w.seen,
      ap room blank.seen,
      length-append (view b).rest (groups 4 type),
      ap (λ s. length s.rest) blank.seen,
    ) in
    let f = write_fields_lem fs (write_var_int32 type b).1 w.valid hs left in
    record {
      answer = f.answer;
      valid = f.valid;
      seen =
          f.seen
          ∙ ap (λ q. extend q (fields_bytes fs)) w.seen
          ∙ ap (λ ys. record (view b) { rest = ys })
              (append_assoc (view b).rest (groups 4 type) (fields_bytes fs));
    }

-- A packet whose type is below 2^32, whose fields are in range and whose bytes, with the type's, are
-- at most 65,536, is queued whole for a client with empty buffers for packets, as one frame, its
-- length before it, unless the client has been sent its disconnect; nothing else changes but the
-- memory of the two buffers, which are empty again.
pub packet-Delivered :
    (c : ClientHandle) (type : ℕ) (fs : List Field)
    → IsReady c
    → type < 2 ^ 32
    → All IsField fs
    → length (payload type fs) ≤ 65536
    → Delivered c (frame (payload type fs)) (packet type fs c)
unfolding packet close_packet send_data
packet-Delivered c type fs ready ht hs few =
    let start = c.protocol.out_packet_buffer in
    let f = write_packet_lem type fs start ready.out ht hs few in
    let d =
      send_packet-Delivered (with_out (write_fields fs (write_var_int32 type start).1).1 c)
        (payload type fs) f.valid (f.seen ∙ ap (λ q. extend q (payload type fs)) ready.out.seen)
        ready.len few in
    rw f.answer (record {
      out = d.out;
      len = d.len;
      out_blank = d.out_blank;
      len_blank = d.len_blank;
      result = d.result;
    })
