-- ===== src/Websocket.antt =====
-- 2.1.4websocket/websocket_reactor.c: the frames of the websocket protocol as the server decodes and
-- answers them. A buffer of BUFFER_LENGTH bytes is a function of the offset, and an access behind its
-- end is a fault, `none`. An `int` is its 32 bits. The machine is little-endian, and ws_ophdr127 is
-- padded to 16 bytes. memcpy of overlapping ranges is a fault, since C leaves it undefined.
pub mod Unmask
pub mod Echo
pub mod Server
pub mod Table
pub mod Callbacks
pub mod Events
pub mod Connection
pub mod Lines
mod Tests
use Prim.Native.Nat.{bit_xor}
use c_c_linux_learning_code.Common.{
  ℕ, zero, suc, ◌+◌, ◌*◌, ◌/◌, ◌%◌, Bool, true, false, ◌&&◌, ◌||◌, not, Option, none, some, List,
  [], ◌∷◌, ltb, leb, ◌==◌, if◌then◌else◌, update, ◌>>=◌,
}

abbrev pub Buffer : Type 0
Buffer = ℕ → ℕ

abbrev pub buffer_length : ℕ
buffer_length = 4096

-- What `callback` points to; `none` of them is NULL.
pub data Callback : Type 0 where
  no_callback recv_callback send_callback accept_callback : Callback

pub data StateMachine : Type 0 where
  ws_handshake ws_transmission ws_end : StateMachine

-- `arg` is left out: it is the reactor in each event that is set.
pub record Event : Type 0 where
  pub fd : ℕ
  pub events : ℕ
  pub callback : Callback
  pub status : ℕ
  pub buffer : Buffer
  pub length : ℕ
  pub state_machine : StateMachine

-- `rounds` is what is left of `length`, and `i` the index; `payload` and `mask_key` are offsets.
unfoldable pub umask_loop : ℕ → ℕ → ℕ → ℕ → Buffer → Option Buffer
umask_loop zero i payload mask_key buf = some buf
umask_loop (suc rounds) i payload mask_key buf =
    let at = payload + i in
    let rest =
      umask_loop rounds (suc i) payload mask_key
        (update buf at (bit_xor (buf at) (buf (mask_key + i % 4)))) in
    if ltb at buffer_length then rest else none

-- A negative length unmasks nothing.
unfoldable pub umask : ℕ → ℕ → ℕ → Buffer → Option Buffer
unfolding umask_loop
umask payload length mask_key buf =
    umask_loop (if ltb length 2147483648 then length else 0) 0 payload mask_key buf

abbrev opcode : Buffer → ℕ
opcode buf = buf 0 % 16

abbrev pub payload_len : Buffer → ℕ
payload_len buf = buf 1 % 128

abbrev mask : Buffer → Bool
mask buf = not (buf 1 / 128 == 0)

-- The 16 bits at an offset in network order, and the 32 low bits of 64 in the machine's order.
abbrev pub get_short : Buffer → ℕ → ℕ
get_short buf at = buf at * 256 + buf (at + 1)

abbrev pub get_int : Buffer → ℕ → ℕ
get_int buf at = buf at + buf (at + 1) * 256 + buf (at + 2) * 65536 + buf (at + 3) * 16777216

-- `payload` is the offset of the payload, `none` for NULL.
pub record Decoded : Type 0 where
  pub event : Event
  pub payload : Option ℕ
  pub real_len : ℕ
  pub virtual_len : ℕ
  pub closed : Bool

decode_payload : Event → ℕ → ℕ → ℕ → ℕ → Option Decoded
unfolding umask
decode_payload ev virtual_len payload real_len mask_key =
    let unmasked = umask payload real_len mask_key ev.buffer in
    (if mask ev.buffer then unmasked else some ev.buffer) >>= λ buf. some (record {
      event = record ev { buffer = buf };
      payload = some payload;
      real_len = real_len;
      virtual_len = virtual_len;
      closed = false;
    })

-- The length of 16 bits is written back in the machine's order.
swap_short : Event → Event
swap_short ev = record ev { buffer = update (update ev.buffer 2 (ev.buffer 3)) 3 (ev.buffer 2) }

unfoldable pub decode_packet : Event → Option Decoded
unfolding decode_payload swap_short
decode_packet ev =
    if opcode ev.buffer == 8
    then some (record {
      event = record ev { state_machine = ws_end };
      payload = none;
      real_len = 0;
      virtual_len = payload_len ev.buffer;
      closed = true;
    })
    else if ltb (payload_len ev.buffer) 126
    then decode_payload ev (payload_len ev.buffer) 6 (payload_len ev.buffer) 2
    else if payload_len ev.buffer == 126
    then decode_payload (swap_short ev) (payload_len ev.buffer) 8 (get_short ev.buffer 2) 4
    else decode_payload ev (payload_len ev.buffer) 18 (get_int ev.buffer 2) 10

-- memcpy of `rounds` bytes between ranges that do not overlap; `i` counts up.
unfoldable pub copy_loop : ℕ → ℕ → ℕ → ℕ → Buffer → Option Buffer
copy_loop zero i dest src buf = some buf
copy_loop (suc rounds) i dest src buf =
    let rest = copy_loop rounds (suc i) dest src (update buf (dest + i) (buf (src + i))) in
    if ltb (dest + i) buffer_length && ltb (src + i) buffer_length then rest else none

-- NULL as the source is only right for no bytes, and the ranges must not overlap.
unfoldable pub copy_payload : ℕ → Option ℕ → ℕ → Buffer → Option Buffer
unfolding copy_loop
copy_payload dest none length buf = if length == 0 then some buf else none
copy_payload dest (some src) length buf =
    let copied = copy_loop length 0 dest src buf in
    if ltb length 2147483648 && (leb (dest + length) src || leb (src + length) dest)
    then copied
    else none

put_head : ℕ → Buffer → Buffer
put_head virtual_len buf = update (update buf 0 129) 1 (virtual_len % 128)

put_short : ℕ → Buffer → Buffer
put_short real_len buf = update (update buf 2 (real_len / 256 % 256)) 3 (real_len % 256)

-- The 64 bits of an `int` in the machine's order; the upper half repeats its sign.
put_long : ℕ → Buffer → Buffer
put_long real_len buf =
    let high = if ltb real_len 2147483648 then 0 else 255 in
    let low =
      update
        (update (update (update buf 2 (real_len % 256)) 3 (real_len / 256 % 256)) 4
          (real_len / 65536 % 256))
        5 (real_len / 16777216 % 256) in
    update (update (update (update low 6 high) 7 high) 8 high) 9 high

-- The header, with its length.
unfoldable pub encode_head : ℕ → ℕ → Buffer → Buffer × ℕ
unfolding put_head put_short put_long
encode_head real_len virtual_len buf =
    let head = put_head virtual_len buf in
    if ltb virtual_len 126
    then (head, 2)
    else if virtual_len == 126
    then (put_short real_len head, 4)
    else if virtual_len == 127
    then (put_long real_len head, 10)
    else (head, 0)

unfoldable pub encode_packet : Event → ℕ → ℕ → Option ℕ → Option (Event × ℕ)
unfolding encode_head copy_payload
encode_packet ev real_len virtual_len payload =
    let (buf, head_offset) = encode_head real_len virtual_len ev.buffer in
    copy_payload head_offset payload real_len buf >>= λ buf'.
    some (record ev { buffer = buf' }, (head_offset + real_len) % 4294967296)

-- The event, and whether its descriptor was closed.
unfoldable pub transmission : Event → Option (Event × Bool)
unfolding decode_packet encode_packet
transmission ev = do
  d ← decode_packet ev
  (ev', length) ← encode_packet d.event d.real_len d.virtual_len d.payload
  some (record ev' { length = length }, d.closed)
