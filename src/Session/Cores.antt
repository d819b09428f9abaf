-- ===== src/Session/Cores.antt =====
-- What of a client decides its session: its state and its protocol's, its name and its number
-- (Src/Server/ClientHandle.h and Src/Server/Protocol/cProtocol_impl.h). Sending leaves it alone.
use p2pchat.Prelude.{
  ℕ, ◌≡◌, refl, ◌∙◌, true, not, ◌==◌, ltb, leb, ◌&&◌, Bool-cases, inl, inr, ℤ, List, arith, ◌+◌,
  ◌⊎◌, ◌^◌,
}
use p2pchat.Outcome.{Outcome, ok, fail, undefined, exited, stuck, Reader, ◌>>◌, continue, modify}
use p2pchat.IniFile.{AString}
use p2pchat.Session.{
  State, connected, authenticating, authenticated, working, destroying, destroyed, rank,
  ClientHandle, Field, packet, close_packet, send_packet, send_data, write_fields, with_out,
  write_var_int32,
}
use p2pchat.Session.Sending.{
  send_keep_alive, send_reason, send_disconnect, ping_if_due, count_tick, end_tick, start_working,
  flush_outgoing, client_timeout, handle_keep_alive, forward_media, forward_media_msg,
}

pub record Core : Type 0 where
  pub state : State
  pub protocol_state : ℕ
  pub username : AString
  pub unique_id : ℕ

abbrev pub core : ClientHandle → Core
core c = record {
  state = c.state;
  protocol_state = c.protocol.state;
  username = c.username;
  unique_id = c.unique_id;
}

-- Whatever a call comes to, it leaves that alone.
abbrev pub Same : Reader ClientHandle (Unit {0}) → Type 0
Same call = (c : ClientHandle) → core (call c).1 ≡ core c

continue-core :
    (r : Outcome (Unit {0}) × ClientHandle) (k : Reader ClientHandle (Unit {0}))
    → Same k
    → core (continue r (λ _. k)).1 ≡ core r.1
continue-core (ok _, c) k h = h c
continue-core (fail, c) k h = refl
continue-core (undefined, c) k h = refl
continue-core (exited, c) k h = refl
continue-core (stuck, c) k h = refl

pub seq-Same : (m k : Reader ClientHandle (Unit {0})) → Same m → Same k → Same (m >> k)
seq-Same m k h g c = continue-core (m c) k g ∙ h c

close_packet-core : (r : Outcome (Unit {0})) (c : ClientHandle) → core (close_packet r c).1 ≡ core c
unfolding close_packet send_packet send_data
close_packet-core (ok _) c = refl
close_packet-core fail c = refl
close_packet-core undefined c = refl
close_packet-core exited c = refl
close_packet-core stuck c = refl

pub packet-Same : (type : ℕ) (fields : List Field) → Same (packet type fields)
unfolding packet
packet-Same type fields c =
    let written = write_fields fields (write_var_int32 type c.protocol.out_packet_buffer).1 in
    close_packet-core written.0 (with_out written.1 c)

pub send_keep_alive-Same : (ping_id : ℕ) → Same (send_keep_alive ping_id)
unfolding send_keep_alive
send_keep_alive-Same ping_id c = elim (Bool-cases (not (c.protocol.state == 3))) [
  | inl e ↦ rw e refl
  | inr e ↦ rw e (packet-Same _ _ c)
]

send_reason-Same : (reason : ℤ) → Same (send_reason reason)
unfolding send_reason
send_reason-Same reason c = elim (Bool-cases (c.protocol.state == 2)) [
  | inl e ↦ rw e (packet-Same _ _ c)
  | inr e ↦ elim (Bool-cases (c.protocol.state == 3)) [
    | inl e' ↦ rw (e, e') (packet-Same _ _ c)
    | inr e' ↦ rw (e, e') refl
  ]
]

pub send_disconnect-Same : (reason : ℤ) → Same (send_disconnect reason)
unfolding send_disconnect
send_disconnect-Same reason c = elim (Bool-cases (not c.has_sent_dc)) [
  | inl e ↦ rw e (
      seq-Same (send_reason reason) (modify (λ c'. record c' { has_sent_dc = true }))
        (send_reason-Same reason) (λ c'. refl) c)
  | inr e ↦ rw e refl
]

ping_if_due-Same : (now : ℕ) → Same (ping_if_due now)
unfolding ping_if_due
ping_if_due-Same now c =
    elim (Bool-cases ((rank c.state == rank working) && leb (c.ping_start_time + 15000) now)) [
      | inl e ↦ rw e (send_keep_alive-Same _ _)
      | inr e ↦ rw e refl
    ]

count_tick-Same : Same count_tick
unfolding count_tick
count_tick-Same c = elim (Bool-cases (leb (2 ^ 31) (c.ticks_since_last_packet + 1))) [
  | inl e ↦ rw e refl
  | inr few ↦ elim (Bool-cases (ltb 600 (c.ticks_since_last_packet + 1))) [
    | inl e ↦
        rw (few, e)
          (send_disconnect-Same client_timeout
            (record c { ticks_since_last_packet = c.ticks_since_last_packet + 1 }))
    | inr e ↦ rw (few, e) refl
  ]
]

pub rank-authenticating :
    (state : State) → (rank state == rank authenticating) ≡ true → state ≡ authenticating
rank-authenticating connected e = ground arith
rank-authenticating authenticating e = refl
rank-authenticating authenticated e = ground arith
rank-authenticating working e = ground arith
rank-authenticating destroying e = ground arith
rank-authenticating destroyed e = ground arith

rank-authenticated :
    (state : State) → (rank state == rank authenticated) ≡ true → state ≡ authenticated
rank-authenticated connected e = ground arith
rank-authenticated authenticating e = ground arith
rank-authenticated authenticated e = refl
rank-authenticated working e = ground arith
rank-authenticated destroying e = ground arith
rank-authenticated destroyed e = ground arith

-- The end of a tick only starts the session of a client that has been let in.
pub end_tick-core :
    (now : ℕ) (c : ClientHandle)
    → (core (end_tick now c).1 ≡ core c)
      ⊎ ((c.state ≡ authenticated)
          × (core (end_tick now c).1 ≡ record (core c) { state = working }))
unfolding end_tick start_working flush_outgoing
end_tick-core now c =
    let started = start_working (flush_outgoing c) in
    let rest =
      continue-core (ping_if_due now started) count_tick count_tick-Same
      ∙ ping_if_due-Same now started in
    elim (Bool-cases (rank c.state == rank authenticated)) [
      | inl e ↦ inr (rank-authenticated c.state e, rest ∙ rw e refl)
      | inr e ↦ inl (rest ∙ rw e refl)
    ]

pub keep_alive-Same : (now n : ℕ) → Same (modify (handle_keep_alive now n))
unfolding handle_keep_alive
keep_alive-Same now n c = elim (Bool-cases (n == c.ping_id)) [
  | inl e ↦ rw e refl
  | inr e ↦ rw e refl
]

pub forward_media-Same : (from_id type : ℕ) → Same (forward_media from_id type)
unfolding forward_media
forward_media-Same from_id type = packet-Same 0x11 _

pub forward_media_msg-Same : (from_id : ℕ) (msg : AString) → Same (forward_media_msg from_id msg)
unfolding forward_media_msg
forward_media_msg-Same from_id msg = packet-Same 0x12 _
