-- ===== src/Websocket/Lines.antt =====
-- The lines of a request, and the one that handshake looks for.
use c_c_linux_learning_code.Common.{
  All-append, ltb-true, drop, ap, until_zero_lem, Bytes, leb-false, length-append, Returns, returns,
  ℕ, zero, suc, ◌+◌, ◌≤◌, ◌<◌, ◌≡◌, ◌≢◌, refl, arith, true, false, some, List, [], ◌∷◌, ◌++◌, ltb,
  leb, length, All, ltb-false, eq-false,
}
use c_c_linux_learning_code.Websocket.{Event, buffer_length}
use c_c_linux_learning_code.Websocket.Server.{
  guid, codes, Digest, string_at, hashed, handshake, answer_key, base64_encode, without_last,
  write_bytes, readline, find_key, contains, key_name,
}

abbrev pub line_end : Bytes
line_end = 13 ∷ 10 ∷ []

-- No byte of a line is a carriage return.
abbrev pub IsLine : Bytes → Type 0
IsLine line = All (λ c. c ≢ 13) line

pub readline-append :
    (line rest : Bytes) → IsLine line → readline (line ++ (line_end ++ rest)) ≡ some (line, rest)
unfolding readline
readline-append [] rest h = refl
readline-append (c ∷ []) rest h = rw (eq-false h.0) refl
readline-append (c ∷ d ∷ line) rest h = rw (eq-false h.0, readline-append (d ∷ line) rest h.1) refl

-- The text of some lines.
abbrev pub join_lines : List Bytes → Bytes → Bytes
join_lines [] rest = rest
join_lines (line ∷ lines) rest = line ++ (line_end ++ join_lines lines rest)

-- A line before the one with the key.
pub record IsOther (line : Bytes) : Type 0 where
  pub is_line : IsLine line
  pub short : length line < 1024
  pub no_key : contains key_name line ≡ false

-- x
pub find_key-join_lines :
    (f : ℕ) (lines : List Bytes) (line rest : Bytes)
    → length lines < f
    → All IsOther lines
    → IsLine line
    → length line < 1024
    → contains key_name line ≡ true
    → find_key f (join_lines lines (line ++ (line_end ++ rest))) ≡ some (some line)
unfolding find_key
find_key-join_lines zero lines line rest few others whole short key = absurd (omega arith)
find_key-join_lines (suc f) [] line rest few others whole short key =
    let test : leb 1024 (length line) ≡ false = leb-false short in
    rw (find_key, readline-append line rest whole, test, key) refl
find_key-join_lines (suc f) (l ∷ lines) line rest few others whole short key =
    let o = others.0 in
    let test : leb 1024 (length l) ≡ false = leb-false o.short in
    rw
      (
        find_key,
        readline-append l (join_lines lines (line ++ (line_end ++ rest))) o.is_line,
        test,
        o.no_key,
      )
      (find_key-join_lines f lines line rest (omega arith) others.1 whole short key)

length-join_lines :
    (lines : List Bytes) (rest : Bytes) → length lines ≤ length (join_lines lines rest)
length-join_lines [] rest = omega arith
length-join_lines (line ∷ lines) rest =
    omega
      (arith, length-append line (line_end ++ join_lines lines rest), length-join_lines lines rest)

-- The response with a text for the key.
abbrev pub accepted : Bytes → Bytes
accepted sec =
    codes "HTTP/1.1 101 Switching Protocols\r\n"
    ++ (codes "Upgrade: websocket\r\nConnection: Upgrade\r\n"
        ++ (codes "Sec-WebSocket-Accept: " ++ (sec ++ 13 ∷ 10 ∷ 13 ∷ 10 ∷ [])))

named-IsLine : (key : Bytes) → IsLine key → IsLine (codes "Sec-WebSocket-Key: " ++ key)
named-IsLine key h =
    All-append (λ c. c ≢ 13) (codes "Sec-WebSocket-Key: ") key
      (
        omega arith,
        (
          omega arith,
          (
            omega arith,
            (
              omega arith,
              (
                omega arith,
                (
                  omega arith,
                  (
                    omega arith,
                    (
                      omega arith,
                      (
                        omega arith,
                        (
                          omega arith,
                          (
                            omega arith,
                            (
                              omega arith,
                              (
                                omega arith,
                                (
                                  omega arith,
                                  (
                                    omega arith,
                                    (omega arith, (omega arith, (omega arith, (omega arith, tt)))),
                                  ),
                                ),
                              ),
                            ),
                          ),
                        ),
                      ),
                    ),
                  ),
                ),
              ),
            ),
          ),
        ),
      )
      h

without_last-append : (x : ℕ) (cs : Bytes) → without_last (cs ++ x ∷ []) ≡ cs
unfolding without_last
without_last-append x [] = refl
without_last-append x (c ∷ []) = refl
without_last-append x (c ∷ d ∷ cs) = ap (λ e. c ∷ e) (without_last-append x (d ∷ cs))

base64_encode-lines :
    (digest : Digest) (bytes sec : Bytes)
    → digest.base64 bytes ≡ sec ++ 10 ∷ []
    → length sec < 32
    → base64_encode digest bytes ≡ some sec
unfolding base64_encode without_last
base64_encode-lines digest bytes [] e room = rw (base64_encode, e) refl
base64_encode-lines digest bytes (c ∷ cs) e room =
    let size = length-append cs (10 ∷ []) in
    let fits : ltb 32 (length (c ∷ (cs ++ 10 ∷ []))) ≡ false = ltb-false (omega arith) in
    rw (base64_encode, e, fits) (ap some (without_last-append 10 (c ∷ cs)))

-- For a request whose line "Sec-WebSocket-Key: " with a key stands behind any lines without this
-- name, where each of these lines is shorter than 1024 bytes and the key shorter than 19, and where
-- the digest of the key and the constant of the protocol has no byte 0 and base64 makes of it a
-- text of less than 32 bytes and a line end: handshake ends without a fault and leaves the response
-- with this text, and its length.
pub handshake_accepts :
    (digest : Digest) (ev : Event) (lines : List Bytes) (key rest sec : Bytes)
    → string_at buffer_length 0 ev.buffer
      ≡ join_lines lines (codes "Sec-WebSocket-Key: " ++ (key ++ (line_end ++ rest)))
    → All IsOther lines
    → IsLine key
    → length key < 19
    → All (λ b. b ≢ 0) (digest.sha1 (key ++ codes "258EAFA5-E914-47DA-95CA-C5AB0DC85B11"))
    → digest.base64 (digest.sha1 (key ++ codes "258EAFA5-E914-47DA-95CA-C5AB0DC85B11"))
      ≡ sec ++ 10 ∷ []
    → length sec < 32
    → Returns
        (λ ev'.
          (ev'.buffer ≡ write_bytes 0 (accepted sec) (λ i. 0))
          × (ev'.length ≡ length (accepted sec)))
        (handshake digest ev)
unfolding handshake answer_key hashed contains drop
handshake_accepts digest ev lines key rest sec text others whole short no_zero encoded room =
    let line = codes "Sec-WebSocket-Key: " ++ key in
    let text_of = join_lines lines (line ++ (line_end ++ rest)) in
    let is_line : IsLine line = named-IsLine key whole in
    let found =
      find_key-join_lines (length text_of + 1) lines line rest
        (omega (arith, length-join_lines lines (line ++ (line_end ++ rest)))) others is_line
        (omega arith) refl in
    let fits : ltb (length key) 19 ≡ true = ltb-true short in
    let made = base64_encode-lines digest (digest.sha1 (key ++ guid)) sec encoded room in
    rw (text, found, fits, until_zero_lem (digest.sha1 (key ++ guid)) no_zero, made)
      (returns (refl, refl))
