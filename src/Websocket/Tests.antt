-- ===== src/Websocket/Tests.antt =====
-- Runs of the websocket server at concrete inputs.
use Prim.Native.Nat.{bit_xor}
use c_c_linux_learning_code.Common.{
  Bytes, ◌<◌, ℕ, zero, suc, ◌+◌, ◌%◌, ◌≡◌, refl, arith, true, false, some, none, [], ◌∷◌, ◌++◌,
  ◌==◌, if◌then◌else◌, update, Returns, length,
}
use c_c_linux_learning_code.Websocket.{
  Buffer, Event, ws_transmission, ws_end, recv_callback, send_callback, transmission,
}
use c_c_linux_learning_code.Websocket.Echo.{
  Masked, ClientFrame, ServerFrame, small, transmission-ServerFrame, transmission_overlap,
}
use c_c_linux_learning_code.Websocket.Server.{
  Digest, write_bytes, handshake, contains, string_at, codes,
}
use c_c_linux_learning_code.Websocket.Table.{Reactor, ctl_add, zero_event, epollout}
use c_c_linux_learning_code.Websocket.Callbacks.{
  Answers, received, failed, recv_cb, with_event, accept_event,
}
use c_c_linux_learning_code.Websocket.Events.{IsReactor, table, Replaced, with_event-Replaced}
use c_c_linux_learning_code.Websocket.Connection.{request_buffer, Answered, recv_cb-Answered}
use c_c_linux_learning_code.Websocket.Lines.{accepted, handshake_accepts}

-- The text "hi", masked by 1 2 3 4.
abbrev frame : Bytes
frame = 129 ∷ 130 ∷ 1 ∷ 2 ∷ 3 ∷ 4 ∷ 105 ∷ 107 ∷ []

abbrev hi : ℕ → ℕ
hi m = if m == 0 then 104 else 105

abbrev event_of : Buffer → Event
event_of buf = record zero_event { buffer = buf; state_machine = ws_transmission }

frame-Masked : Masked (request_buffer frame) 6 2 2 hi
unfolding write_bytes
frame-Masked = record { bytes = bytes; keys = λ m. ground arith; octets = λ m. ground arith }
  where
    bytes :
        (m : ℕ)
        → m < 2
        → request_buffer frame (6 + m) ≡ bit_xor (hi m) (request_buffer frame (2 + m % 4))
    bytes zero l = refl
    bytes (suc zero) l = refl
    bytes (suc (suc m)) l = absurd (omega arith)

frame-ClientFrame : ClientFrame (request_buffer frame) 2 hi
unfolding write_bytes
frame-ClientFrame = small (omega arith) refl frame-Masked

transmission-ServerFrame_example :
    Returns
      (λ r. ServerFrame r.0.buffer r.0.length 2 hi × (r.1 ≡ false))
      (transmission (event_of (request_buffer frame)))
unfolding write_bytes
transmission-ServerFrame_example =
    transmission-ServerFrame (event_of (request_buffer frame)) 2 hi (omega arith) (omega arith)
      frame-ClientFrame

-- 4096 bytes are announced, which do not fit behind the header.
abbrev overlong : Buffer
overlong = update (update (update (λ i. 0) 0 129) 1 254) 2 16

-- A frame of 64 bits of length.
abbrev long_frame : Buffer
long_frame = update (update (update (λ i. 0) 0 129) 1 255) 9 200

-- One block, whose connections are all in the state `s`.
abbrev one_block : Event → Reactor
one_block ev = record { blkcnt = 1; evblk = (λ i. ev) ∷ []; log = [] }

one_block-IsReactor : (ev : Event) → IsReactor (one_block ev)
one_block-IsReactor ev = record { counted = refl; some_block = omega arith }

abbrev digest : Digest
digest = record { sha1 = λ bs. 7 ∷ []; base64 = λ bs. 66 ∷ 119 ∷ 61 ∷ 61 ∷ 10 ∷ [] }

abbrev one_frame : Answers
one_frame = record {
  mallocs = [];
  recvs = received frame ∷ failed ∷ [];
  sent = true;
  accepted = none;
  nonblocking = true;
}

recv_cb-Answered_example :
    Returns
      (Answered 5 (one_block (event_of (λ i. 0))) λ ev.
        ServerFrame ev.buffer ev.length 2 hi
        × ((ev.callback ≡ send_callback) × (ev.events ≡ epollout)))
      (recv_cb digest one_frame 5 (one_block (event_of (λ i. 0))))
unfolding table write_bytes
recv_cb-Answered_example =
    recv_cb-Answered digest one_frame 5 2 hi frame (one_block (event_of (λ i. 0)))
      (one_block-IsReactor (event_of (λ i. 0))) (omega arith) refl (omega arith) (omega arith) refl
      (omega arith) (omega arith) frame-ClientFrame

abbrev accepting : Answers
accepting = record one_frame { accepted = some 5 }

abbrev ended : Event
ended = record zero_event { state_machine = ws_end }

-- The event of a descriptor that the second block holds.
abbrev listening : Event
listening = record zero_event { fd = 1030; callback = recv_callback; events = 1; status = 1 }

with_event-Replaced_example :
    Returns
      (Replaced 1030 (one_block ended) listening (ctl_add 1030 1 ∷ []))
      (with_event ((true, true) ∷ []) 1030 (accept_event 1030) (one_block ended))
unfolding table accept_event
with_event-Replaced_example =
    with_event-Replaced ((true, true) ∷ []) 1030 (accept_event 1030) (one_block ended) listening
      (ctl_add 1030 1 ∷ []) (one_block-IsReactor ended) (omega arith) refl

abbrev key_line : Bytes
key_line = codes "Sec-WebSocket-Key: " ++ 120 ∷ []

abbrev request : Bytes
request = 71 ∷ 13 ∷ 10 ∷ (key_line ++ 13 ∷ 10 ∷ [])

abbrev upgrade : Event
upgrade = event_of (write_bytes 0 request (λ i. 0))

handshake_accepts_example :
    Returns
      (λ ev'.
        (ev'.buffer ≡ write_bytes 0 (accepted (66 ∷ 119 ∷ 61 ∷ 61 ∷ [])) (λ i. 0))
        × (ev'.length ≡ length (accepted (66 ∷ 119 ∷ 61 ∷ 61 ∷ []))))
      (handshake digest upgrade)
unfolding write_bytes string_at contains
handshake_accepts_example =
    handshake_accepts digest upgrade ((71 ∷ []) ∷ []) (120 ∷ []) [] (66 ∷ 119 ∷ 61 ∷ 61 ∷ []) refl
      (record { is_line = (omega arith, tt); short = omega arith; no_key = refl }, tt)
      (omega arith, tt) (omega arith) (omega arith, tt) refl (omega arith)

-- Five bytes of payload, masked by zeros.
abbrev five : Buffer
five = update (update (λ i. 0) 0 129) 1 133

five-ClientFrame : ClientFrame five 5 (λ m. 0)
five-ClientFrame =
    small (omega arith) refl
      (record { bytes = λ m l. ground arith; keys = λ m. ground arith; octets = λ m. omega arith })

transmission_overlap_example : transmission (event_of five) ≡ none
transmission_overlap_example =
    transmission_overlap (event_of five) 5 (λ m. 0) (omega arith) (omega arith) (omega arith)
      five-ClientFrame
