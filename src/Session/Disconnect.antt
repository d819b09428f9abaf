-- ===== src/Session/Disconnect.antt =====
-- The packet that ends a session: `SendDisconnect` of Src/Server/ClientHandle.cpp and of
-- Src/Server/Protocol/cProtocol_impl.cpp.
use p2pchat.Prelude.{
  ℕ, ◌^◌, ◌<◌, ◌≤◌, ◌≡◌, refl, ◌∙◌, ap, true, false, not, ◌==◌, Bool-cases, inl, inr, List, [], ◌∷◌,
  length, length-append, arith, ℤ, pos, negsuc, InBits, to_bits, if◌then◌else◌,
}
use p2pchat.Outcome.{Outcome, ok, fail, undefined, exited, stuck, ◌>>◌, continue, modify}
use p2pchat.Session.{
  ClientHandle, Field, be_int32, be_uint32, packet, close_packet, send_packet, send_data,
  write_fields, with_out, write_var_int32,
}
use p2pchat.ByteBuffer.Endian.{length-be_bytes}
use p2pchat.ByteBuffer.VarInt.Groups.{groups, groups_shape}
use p2pchat.Session.Sent.{Sent, Delivered-Sent, Sent-nil, Sent-marked}
use p2pchat.Session.Packets.{IsReady, field_bytes, fields_bytes, payload, frame, packet-Delivered}
use p2pchat.Session.Sending.{send_reason, send_disconnect}

-- Of a client that has been sent its disconnect: what is queued for it, and that it has been.
abbrev pub Silent : ClientHandle → ClientHandle → Type 0
Silent c c' = (c'.has_sent_dc ≡ true) × (c'.outgoing_data ≡ c.outgoing_data)

close_packet-Silent :
    (r : Outcome (Unit {0})) (c : ClientHandle)
    → c.has_sent_dc ≡ true
    → Silent c (close_packet r c).1
unfolding close_packet send_packet send_data
close_packet-Silent (ok _) c e = rw e (refl, refl)
close_packet-Silent fail c e = (e, refl)
close_packet-Silent undefined c e = (e, refl)
close_packet-Silent exited c e = (e, refl)
close_packet-Silent stuck c e = (e, refl)

-- A client that has been sent its disconnect stays marked whatever packet is composed for it, and
-- nothing is queued for it, also where the packet does not fit.
pub packet-Silent :
    (type : ℕ) (fields : List Field) (c : ClientHandle)
    → c.has_sent_dc ≡ true
    → Silent c (packet type fields c).1
unfolding packet
packet-Silent type fields c e =
    let written = write_fields fields (write_var_int32 type c.protocol.out_packet_buffer).1 in
    close_packet-Silent written.0 (with_out written.1 c) e

send_disconnect-idle :
    (reason : ℤ) (c : ClientHandle) → c.has_sent_dc ≡ true → send_disconnect reason c ≡ (ok tt, c)
unfolding send_disconnect
send_disconnect-idle reason c e = rw e refl

send_disconnect-first :
    (reason : ℤ) (c : ClientHandle)
    → c.has_sent_dc ≡ false
    → send_disconnect reason c
      ≡ (send_reason reason >> modify (λ c'. record c' { has_sent_dc = true })) c
unfolding send_disconnect
send_disconnect-first reason c e =
    ap
      (λ b.
        if not b
        then (send_reason reason >> modify (λ c'. record c' { has_sent_dc = true })) c
        else (ok tt, c))
      e

again :
    (reason : ℤ) (r : Outcome (Unit {0}) × ClientHandle)
    → continue
        (continue r (λ _. modify (λ c. record c { has_sent_dc = true })))
        (λ _. send_disconnect reason)
      ≡ continue r (λ _. modify (λ c. record c { has_sent_dc = true }))
again reason (ok _, c) = send_disconnect-idle reason (record c { has_sent_dc = true }) refl
again reason (fail, c) = refl
again reason (undefined, c) = refl
again reason (exited, c) = refl
again reason (stuck, c) = refl

-- A disconnect behind another one, for whatever reasons, comes to what the first one alone comes to.
pub send_disconnect_once :
    (first second : ℤ) (c : ClientHandle)
    → (send_disconnect first >> send_disconnect second) c ≡ send_disconnect first c
unfolding send_disconnect
send_disconnect_once first second c = elim (Bool-cases (not c.has_sent_dc)) [
  | inl e ↦ rw e (again second (send_reason first c))
  | inr e ↦ rw e (rw e refl)
]

-- The packet that a disconnect sends, by the protocol's state.
abbrev pub goodbye : ℕ → ℤ → List ℕ
goodbye state reason =
    if state == 2
    then frame (payload 0 (be_int32 reason ∷ []))
    else if state == 3
    then frame (payload 0x40 (be_uint32 (to_bits 32 reason) ∷ []))
    else []

number_fits :
    (type : ℕ) (f : Field)
    → type < 2 ^ 32
    → length (field_bytes f) ≡ 4
    → length (payload type (f ∷ [])) ≤ 65536
number_fits type f h e = omega (
  arith,
  e,
  length-append (groups 4 type) (fields_bytes (f ∷ [])),
  length-append (field_bytes f) [],
  groups_shape 4 type (omega arith),
)

-- What a disconnect leaves of a client to which every packet can be sent.
pub record Disconnected (reason : ℤ) (c : ClientHandle) (r : Outcome (Unit {0}) × ClientHandle)
    : Type 0 where
  pub told : ClientHandle
  pub goodbye_sent : Sent (goodbye c.protocol.state reason) c told
  pub result : r ≡ (ok tt, record told { has_sent_dc = true })

pub to_bits_lt : (z : ℤ) → to_bits 32 z < 2 ^ 32
to_bits_lt (pos n) = omega arith
to_bits_lt (negsuc n) = omega arith

send_reason_lem :
    (reason : ℤ) (c : ClientHandle)
    → IsReady c
    → InBits 32 reason
    → ((send_reason reason c).0 ≡ ok tt)
      × Sent (goodbye c.protocol.state reason) c (send_reason reason c).1
unfolding send_reason
send_reason_lem reason c ready h = elim (Bool-cases (c.protocol.state == 2)) [
  | inl e ↦ rw e (
      Delivered-Sent c _ (packet 0 (be_int32 reason ∷ []) c) (
        packet-Delivered c 0 (be_int32 reason ∷ []) ready (omega arith) (h, tt)
          (number_fits 0 (be_int32 reason) (omega arith) (length-be_bytes 4 (to_bits 32 reason)))))
  | inr e ↦ elim (Bool-cases (c.protocol.state == 3)) [
    | inl e' ↦
        rw (e, e')
          (Delivered-Sent c _ (packet 0x40 (be_uint32 (to_bits 32 reason) ∷ []) c) (
            packet-Delivered c 0x40 (be_uint32 (to_bits 32 reason) ∷ []) ready (omega arith)
              (to_bits_lt reason, tt)
              (number_fits 0x40 (be_uint32 (to_bits 32 reason)) (omega arith)
                (length-be_bytes 4 (to_bits 32 reason)))))
    | inr e' ↦ rw (e, e') (refl, Sent-nil c ready)
  ]
]

pub continue-modify :
    (r : Outcome (Unit {0}) × ClientHandle) (f : ClientHandle → ClientHandle)
    → r.0 ≡ ok tt
    → continue r (λ _. modify f) ≡ (ok tt, f r.1)
continue-modify (ok _, c) f e = refl
continue-modify (fail, c) f e = cc
continue-modify (undefined, c) f e = cc
continue-modify (exited, c) f e = cc
continue-modify (stuck, c) f e = cc

-- On a client with empty buffers for packets, `send_disconnect` of a reason of 32 bits succeeds and
-- marks the client; before that it queues the reason in packet 0 in the protocol's state 2, in packet
-- 0x40 in state 3, and nothing in any other state or where the client was marked.
pub send_disconnect_lem :
    (reason : ℤ) (c : ClientHandle)
    → IsReady c
    → InBits 32 reason
    → Disconnected reason c (send_disconnect reason c)
unfolding send_disconnect
send_disconnect_lem reason c ready h = elim (Bool-cases c.has_sent_dc) [
  | inl e ↦ record {
    told = c;
    goodbye_sent = Sent-marked _ c e ready;
    result = send_disconnect-idle reason c e ∙ ap (λ b. (ok tt, record c { has_sent_dc = b })) e;
  }
  | inr e ↦
      let (answer, s) = send_reason_lem reason c ready h in
      record {
        told = (send_reason reason c).1;
        goodbye_sent = s;
        result =
            send_disconnect-first reason c e
            ∙ continue-modify (send_reason reason c) (λ c'. record c' { has_sent_dc = true })
                answer;
      }
]
