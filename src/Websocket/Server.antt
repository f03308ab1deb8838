-- ===== src/Websocket/Server.antt =====
-- 2.1.4websocket/websocket_reactor.c: the handshake and the state machine of a connection.
-- The bytes of a request are numbers, and a C string ends at its first 0. SHA1 and base64 are
-- arguments.
use Prim.Native.Char.{code}
use Prim.Native.String.{String}
use c_c_linux_learning_code.Common.{
  Bytes, until_zero, drop, ℕ, zero, suc, ◌+◌, Bool, true, false, ◌&&◌, Option, none, some, [], ◌∷◌,
  ◌++◌, ltb, leb, ◌==◌, if◌then◌else◌, update, ◌>>=◌, length,
}
use c_c_linux_learning_code.Websocket.{
  Buffer, buffer_length, Event, StateMachine, ws_handshake, ws_transmission, ws_end, transmission,
}

-- The string at an offset, of `rounds` bytes at most.
unfoldable pub string_at : ℕ → ℕ → Buffer → Bytes
string_at zero at buf = []
string_at (suc rounds) at buf =
    let c = buf at in if c == 0 then [] else c ∷ string_at rounds (suc at) buf

abbrev line_length : ℕ
line_length = 1024

-- The line that begins the text, and what follows it; `none` where the text has no line end. A line
-- is collected in `line_length` bytes, with its end.
unfoldable pub readline : Bytes → Option (Bytes × Bytes)
readline [] = none
readline (c ∷ []) = none
readline (c ∷ d ∷ rest) =
    let later : Option (Bytes × Bytes) = do
      (line, left) ← readline (d ∷ rest)
      some (c ∷ line, left)
    in if (c == 13) && (d == 10) then some ([], rest) else later

unfoldable pub starts_with : Bytes → Bytes → Bool
starts_with [] text = true
starts_with (c ∷ cs) [] = false
starts_with (c ∷ cs) (d ∷ ds) = c == d && starts_with cs ds

-- strstr, as a test.
unfoldable pub contains : Bytes → Bytes → Bool
unfolding starts_with
contains key [] = starts_with key []
contains key (c ∷ cs) = if starts_with key (c ∷ cs) then true else contains key cs

-- The code points of an ASCII text.
abbrev pub codes : String → Bytes
codes String.[] = []
codes (String.◌∷◌ c s) = code c ∷ codes s

abbrev pub key_name : Bytes
key_name = codes "Sec-WebSocket-Key"

abbrev pub guid : Bytes
guid = codes "258EAFA5-E914-47DA-95CA-C5AB0DC85B11"

-- The line with the key, if there is one; a line that does not fit its buffer is a fault. Each round
-- takes a byte at least.
unfoldable pub find_key : ℕ → Bytes → Option (Option Bytes)
unfolding readline contains
find_key zero text = none
find_key (suc f) text = elim (readline text) [
  | none ↦ if ltb line_length (length text) then none else some none
  | some (line, rest) ↦
      let later = find_key f rest in
      if leb line_length (length line)
      then none
      else if contains key_name line
      then some (some line)
      else later
]

unfoldable pub without_last : Bytes → Bytes
without_last [] = []
without_last (c ∷ []) = []
without_last (c ∷ d ∷ cs) = c ∷ without_last (d ∷ cs)

-- SHA1, and the text that a base64 BIO makes, with its line end.
pub record Digest : Type 0 where
  pub sha1 : Bytes → Bytes
  pub base64 : Bytes → Bytes

-- The line end is overwritten; where the BIO gave nothing, the byte before the output is.
unfoldable pub base64_encode : Digest → Bytes → Option Bytes
unfolding without_last
base64_encode digest bytes = elim (digest.base64 bytes) [
  | [] ↦ none
  | c ∷ cs ↦ if ltb 32 (length (c ∷ cs)) then none else some (without_last (c ∷ cs))
]

unfoldable pub write_bytes : ℕ → Bytes → Buffer → Buffer
write_bytes at [] buf = buf
write_bytes at (c ∷ cs) buf = write_bytes (suc at) cs (update buf at c)

abbrev pub response : Bytes → Bytes
response sec_key =
    codes
      "HTTP/1.1 101 Switching Protocols\r\nUpgrade: websocket\r\nConnection: Upgrade\r\nSec-WebSocket-Accept: "
    ++ (sec_key ++ codes "\r\n\r\n")

-- The text that is hashed, from the line with the key. The strings of strcpy, with their ends, must
-- not overlap; what is left then has room for the constant.
unfoldable pub hashed : Bytes → Option Bytes
unfolding drop
hashed line = let rest = drop 19 line in if ltb (length rest) 19 then some (rest ++ guid) else none

unfoldable pub answer_key : Digest → Event → Bytes → Option Event
unfolding hashed until_zero base64_encode write_bytes
answer_key digest ev line = do
  key ← hashed line
  sec_key ← base64_encode digest (until_zero (digest.sha1 key))
  let text = response sec_key
  some (record ev { buffer = write_bytes 0 text (λ i. 0); length = length text })

-- Without a key the event stays as it is.
unfoldable pub handshake : Digest → Event → Option Event
unfolding string_at find_key answer_key
handshake digest ev = do
  let text = string_at buffer_length 0 ev.buffer
  found ← find_key (length text + 1) text
  elim found [ none ↦ some ev | some line ↦ answer_key digest ev line ]

-- The event, and whether its descriptor was closed.
unfoldable pub request_in : StateMachine → Digest → Event → Option (Event × Bool)
unfolding handshake transmission
request_in ws_handshake digest ev =
    handshake digest ev >>= λ ev'. some (record ev' { state_machine = ws_transmission }, false)
request_in ws_transmission digest ev = transmission ev
request_in ws_end digest ev = some (ev, false)

unfoldable pub websocket_request : Digest → Event → Option (Event × Bool)
unfolding request_in
websocket_request digest ev = request_in ev.state_machine digest ev
