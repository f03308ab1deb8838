-- ===== src/Websocket/Echo.antt =====
-- What transmission makes of a frame.
use Prim.Native.Nat.{bit_xor}
use c_c_linux_learning_code.Common.{
  leb-true, leb-false, leb, Returns-inv, ℕ, ◌+◌, ◌*◌, ◌/◌, ◌%◌, ◌≤◌, ◌<◌, ◌≡◌, ◌≢◌, refl, arith,
  true, false, some, none, ap, ltb, ◌==◌, Returns, returns, Returns-map, Returns-bind, ◌∙◌,
  Bool-cases, inl, inr,
}
use c_c_linux_learning_code.Websocket.{
  Buffer, Event, Decoded, buffer_length, get_short, get_int, swap_short, decode_payload,
  decode_packet, encode_packet, encode_head, copy_payload, copy_loop, transmission, umask,
  umask_loop, put_head, put_long, ws_end, mask,
}
use c_c_linux_learning_code.Websocket.Unmask.{
  bit_xor_twice, umask_loop-Unmasked, umask_loop_fault, Copied, copy_loop-Copied,
}

-- The payload `p` of `n` bytes stands masked from the offset `at` on.
pub record Masked (buf : Buffer) (at mask_key n : ℕ) (p : ℕ → ℕ) : Type 0 where
  pub bytes : (m : ℕ) → m < n → buf (at + m) ≡ bit_xor (p m) (buf (mask_key + m % 4))
  pub keys : (m : ℕ) → buf (mask_key + m % 4) < 256
  pub octets : (m : ℕ) → p m < 256

-- A frame of a client with the payload `p` of `n` bytes, in either of the two shorter formats.
pub data ClientFrame (buf : Buffer) (n : ℕ) (p : ℕ → ℕ) : Type 0 where
  small : n < 126 → buf 1 ≡ 128 + n → Masked buf 6 2 n p → ClientFrame buf n p
  medium :
      buf 1 ≡ 254 → buf 2 ≡ n / 256 → buf 3 ≡ n % 256 → Masked buf 8 4 n p → ClientFrame buf n p

-- A final text frame of the server with the payload `p`, which is not masked.
pub data ServerFrame (buf : Buffer) (length n : ℕ) (p : ℕ → ℕ) : Type 0 where
  small :
      n < 126
      → length ≡ 2 + n
      → buf 0 ≡ 129
      → buf 1 ≡ n
      → ((m : ℕ) → m < n → buf (2 + m) ≡ p m)
      → ServerFrame buf length n p
  medium :
      length ≡ 4 + n
      → buf 0 ≡ 129
      → buf 1 ≡ 126
      → buf 2 ≡ n / 256
      → buf 3 ≡ n % 256
      → ((m : ℕ) → m < n → buf (4 + m) ≡ p m)
      → ServerFrame buf length n p

-- The payload after umask.
Plain : Buffer → ℕ → ℕ → (ℕ → ℕ) → Buffer → Type 0
Plain buf at n p buf' =
    ((j : ℕ) → j < at → buf' j ≡ buf j) × ((m : ℕ) → m < n → buf' (at + m) ≡ p m)

umask-Plain :
    (buf : Buffer) (at mask_key n : ℕ) (p : ℕ → ℕ)
    → mask_key + 4 ≤ at
    → at + n ≤ buffer_length
    → Masked buf at mask_key n p
    → Returns (Plain buf at n p) (umask at n mask_key buf)
unfolding umask Plain
umask-Plain buf at mask_key n p before fits v =
    let positive : ltb n 2147483648 ≡ true = ground arith in
    rw positive (
      Returns-map (umask_loop-Unmasked n 0 at mask_key buf before (omega arith)) λ buf' u. (
        λ j l. u.below j (omega arith),
        λ m l.
            u.bytes m (omega arith) (omega arith)
            ∙ ap (λ x. bit_xor x (buf (mask_key + m % 4))) (v.bytes m l)
            ∙ bit_xor_twice (p m) (buf (mask_key + m % 4)) (v.octets m) (v.keys m),
      ))

-- What encode_packet leaves of a payload behind the header.
copy_payload-Plain :
    (buf : Buffer) (dest src n : ℕ)
    → dest + n ≤ src
    → src + n ≤ buffer_length
    → Returns (Copied dest src 0 n buf) (copy_payload dest (some src) n buf)
unfolding copy_payload
copy_payload-Plain buf dest src n order fits =
    let positive : ltb n 2147483648 ≡ true = ground arith in
    let apart : leb (dest + n) src ≡ true = leb-true order in
    rw (positive, apart)
      (Returns-map (copy_loop-Copied n 0 dest src buf (omega arith) (omega arith))
        λ buf' c. record { below = c.below; bytes = λ m l h. c.bytes m l (omega arith) })

-- What decode_packet gives of a masked frame.
record Read (at n : ℕ) (p : ℕ → ℕ) (v : ℕ) (d : Decoded) : Type 0 where
  pub payload : d.payload ≡ some at
  pub real_len : d.real_len ≡ n
  pub virtual_len : d.virtual_len ≡ v
  pub closed : d.closed ≡ false
  pub bytes : (m : ℕ) → m < n → d.event.buffer (at + m) ≡ p m

decode_payload-Read :
    (ev : Event) (w at mask_key n : ℕ) (p : ℕ → ℕ)
    → mask_key + 4 ≤ at
    → at + n ≤ buffer_length
    → 128 ≤ ev.buffer 1
    → Masked ev.buffer at mask_key n p
    → Returns (Read at n p w) (decode_payload ev w at n mask_key)
unfolding decode_payload Plain
decode_payload-Read ev w at mask_key n p before fits masked v =
    let bit : (ev.buffer 1 / 128 == 0) ≡ false = ground arith in
    rw bit (
      Returns-bind (umask-Plain ev.buffer at mask_key n p before fits v) λ buf' u. returns (record {
        payload = refl;
        real_len = refl;
        virtual_len = refl;
        closed = refl;
        bytes = u.1;
      }))

decode_small :
    (ev : Event) (n : ℕ) (p : ℕ → ℕ)
    → ev.buffer 0 % 16 ≢ 8
    → n < 126
    → ev.buffer 1 ≡ 128 + n
    → Masked ev.buffer 6 2 n p
    → Returns (Read 6 n p n) (decode_packet ev)
unfolding decode_packet
decode_small ev n p open_frame few length v =
    let code : (ev.buffer 0 % 16 == 8) ≡ false = ground arith in
    let low : ev.buffer 1 % 128 ≡ n = omega arith in
    let test : ltb n 126 ≡ true = ground arith in
    rw (code, low, test)
      (decode_payload-Read ev n 6 2 n p (omega arith) (omega arith) (omega arith) v)

decode_medium :
    (ev : Event) (n : ℕ) (p : ℕ → ℕ)
    → ev.buffer 0 % 16 ≢ 8
    → 8 + n ≤ buffer_length
    → ev.buffer 1 ≡ 254
    → ev.buffer 2 ≡ n / 256
    → ev.buffer 3 ≡ n % 256
    → Masked ev.buffer 8 4 n p
    → Returns (Read 8 n p 126) (decode_packet ev)
unfolding decode_packet swap_short
decode_medium ev n p open_frame fits length high low v =
    let code : (ev.buffer 0 % 16 == 8) ≡ false = ground arith in
    let virtual_len : ev.buffer 1 % 128 ≡ 126 = omega arith in
    let real_len : get_short ev.buffer 2 ≡ n = omega arith in
    rw (code, virtual_len, real_len)
      (decode_payload-Read (swap_short ev) 126 8 4 n p (omega arith) fits (omega arith) (record {
        bytes = λ m l. ground (arith, v.bytes m);
        keys = λ m. ground (arith, v.keys m);
        octets = v.octets;
      }))

-- What encode_packet makes of a payload that it reads behind the header.
encode_packet-Plain :
    (ev : Event) (n w src : ℕ) (p : ℕ → ℕ) (head : Buffer) (offset : ℕ)
    → encode_head n w ev.buffer ≡ (head, offset)
    → offset + n ≤ src
    → src + n ≤ buffer_length
    → ((m : ℕ) → m < n → head (src + m) ≡ p m)
    → Returns
        (λ r.
          (r.1 ≡ offset + n)
          × (((j : ℕ) → j < offset → r.0.buffer j ≡ head j)
              × ((m : ℕ) → m < n → r.0.buffer (offset + m) ≡ p m)))
        (encode_packet ev n w (some src))
unfolding encode_packet
encode_packet-Plain ev n w src p head offset e order fits bytes = rw e (
    Returns-bind (copy_payload-Plain head offset src n order fits) λ buf' c.
      returns (
        omega arith,
        (λ j l. c.below j (omega arith), λ m l. c.bytes m (omega arith) l ∙ bytes m l),
      ))

-- For a client's frame, in the format of 7 or of 16 bits of length, that is not a closing frame,
-- with a masked payload of at most 4 bytes: transmission ends without a fault, closes nothing, and
-- leaves a final text frame of the server with the same payload, not masked, its length in the same
-- format, and as `length` the bytes of this frame.
pub transmission-ServerFrame :
    (ev : Event) (n : ℕ) (p : ℕ → ℕ)
    → ev.buffer 0 % 16 ≢ 8
    → n ≤ 4
    → ClientFrame ev.buffer n p
    → Returns (λ r. ServerFrame r.0.buffer r.0.length n p × (r.1 ≡ false)) (transmission ev)
unfolding transmission encode_head
transmission-ServerFrame ev n p open_frame fits (small few length v) =
    Returns-bind (decode_small ev n p open_frame few length v) λ d r.
      let test : ltb n 126 ≡ true = ground arith in
      let e : encode_head n n d.event.buffer ≡ (put_head n d.event.buffer, 2) = rw test refl in
      rw (r.payload, r.real_len, r.virtual_len, r.closed)
        (Returns-bind
          (encode_packet-Plain d.event n n 6 p _ 2 e (omega arith) (omega arith)
            (λ m l. ground (arith, r.bytes m)))
          λ q w. returns (
            small few w.0 (w.1.0 0 (omega arith) ∙ ground arith)
                (w.1.0 1 (omega arith) ∙ ground arith) w.1.1,
            refl,
          ))
transmission-ServerFrame ev n p open_frame fits (medium length high low v) =
    Returns-bind (decode_medium ev n p open_frame (omega arith) length high low v) λ d r.
      rw (r.payload, r.real_len, r.virtual_len, r.closed)
        (Returns-bind
          (encode_packet-Plain d.event n 126 8 p _ 4 refl (omega arith) (omega arith)
            (λ m l. ground (arith, r.bytes m)))
          λ q w. returns (
            medium w.0 (w.1.0 0 (omega arith) ∙ ground arith) (w.1.0 1 (omega arith) ∙ ground arith)
                (w.1.0 2 (omega arith) ∙ ground arith) (w.1.0 3 (omega arith) ∙ ground arith) w.1.1,
            refl,
          ))

encode_packet_overlap :
    (ev : Event) (n w src : ℕ) (head : Buffer) (offset : ℕ)
    → encode_head n w ev.buffer ≡ (head, offset)
    → offset ≤ src
    → src < offset + n
    → encode_packet ev n w (some src) ≡ none
unfolding encode_packet copy_payload
encode_packet_overlap ev n w src head offset e order over =
    let before : leb (offset + n) src ≡ false = leb-false over in
    let behind : leb (src + n) offset ≡ false = leb-false (omega arith) in
    elim (Bool-cases (ltb n 2147483648)) [
      | inl i ↦ rw (e, before, behind, i) refl
      | inr i ↦ rw (e, before, behind, i) refl
    ]

-- For a client's frame, in the format of 7 or of 16 bits of length, that is not a closing frame,
-- with a masked payload of `n` bytes, more than 4, and `8 + n` at most 4096: transmission calls
-- memcpy with overlapping ranges, a fault.
pub transmission_overlap :
    (ev : Event) (n : ℕ) (p : ℕ → ℕ)
    → ev.buffer 0 % 16 ≢ 8
    → 8 + n ≤ buffer_length
    → 4 < n
    → ClientFrame ev.buffer n p
    → transmission ev ≡ none
unfolding transmission encode_head
transmission_overlap ev n p open_frame fits many (small few length v) =
    let (d, e, r) = Returns-inv (decode_small ev n p open_frame few length v) in
    let test : ltb n 126 ≡ true = ground arith in
    let h : encode_head n n d.event.buffer ≡ (put_head n d.event.buffer, 2) = rw test refl in
    let fault = encode_packet_overlap d.event n n 6 _ 2 h (omega arith) (omega arith) in
    rw (e, r.payload, r.real_len, r.virtual_len, fault) refl
transmission_overlap ev n p open_frame fits many (medium length high low v) =
    let (d, e, r) = Returns-inv (decode_medium ev n p open_frame fits length high low v) in
    let fault = encode_packet_overlap d.event n 126 8 _ 4 refl (omega arith) (omega arith) in
    rw (e, r.payload, r.real_len, r.virtual_len, fault) refl

-- A frame that is not a closing one, that is masked, and whose 16 bits of length reach behind the
-- buffer of 4096 bytes makes transmission write out of bounds, whatever was received.
pub transmission_overflow :
    (ev : Event)
    → ev.buffer 0 % 16 ≢ 8
    → ev.buffer 1 ≡ 254
    → ev.buffer 2 < 256
    → ev.buffer 3 < 256
    → buffer_length < 8 + (ev.buffer 2 * 256 + ev.buffer 3)
    → transmission ev ≡ none
unfolding transmission decode_packet decode_payload umask swap_short
transmission_overflow ev open_frame length high low over =
    let code : (ev.buffer 0 % 16 == 8) ≡ false = ground arith in
    let virtual_len : ev.buffer 1 % 128 ≡ 126 = omega arith in
    let bit : (ev.buffer 1 / 128 == 0) ≡ false = ground arith in
    let positive : ltb (ev.buffer 2 * 256 + ev.buffer 3) 2147483648 ≡ true = ground arith in
    let fault =
      umask_loop_fault (ev.buffer 2 * 256 + ev.buffer 3) 0 8 4 (swap_short ev).buffer (omega arith)
        (omega arith) in
    rw (code, virtual_len, bit, positive, fault) refl

put_long-zero : (buf : Buffer) (j : ℕ) → 2 ≤ j → j < 10 → put_long 0 buf j ≡ 0
unfolding put_long
put_long-zero buf j l h = ground arith

-- A frame in the format of 64 bits of length that is not a closing one, and whose length in network
-- order is below 2^32, is answered without a fault by 10 bytes, a header in this format with the
-- length 0: the payload is lost.
pub transmission_long :
    (ev : Event)
    → ev.buffer 0 % 16 ≢ 8
    → ev.buffer 1 % 128 ≡ 127
    → ev.buffer 2 ≡ 0
    → ev.buffer 3 ≡ 0
    → ev.buffer 4 ≡ 0
    → ev.buffer 5 ≡ 0
    → Returns
        (λ r.
          (r.0.length ≡ 10)
          × ((r.0.buffer 1 ≡ 127) × ((j : ℕ) → 2 ≤ j → j < 10 → r.0.buffer j ≡ 0)))
        (transmission ev)
unfolding transmission decode_packet decode_payload umask umask_loop encode_packet encode_head
    copy_payload copy_loop
transmission_long ev open_frame length b2 b3 b4 b5 =
    let code : (ev.buffer 0 % 16 == 8) ≡ false = ground arith in
    let zero_len : get_int ev.buffer 2 ≡ 0 = omega arith in
    let zeros : (j : ℕ) → 2 ≤ j → j < 10 → (encode_head 0 127 ev.buffer).0 j ≡ 0 =
      λ j l h. put_long-zero (put_head 127 ev.buffer) j l h in
    elim (Bool-cases (mask ev.buffer)) [
      | inl e ↦ rw (code, length, zero_len, e) (returns (refl, (refl, zeros)))
      | inr e ↦ rw (code, length, zero_len, e) (returns (refl, (refl, zeros)))
    ]

-- A closing frame ends the connection and closes its descriptor.
pub transmission_close :
    (ev : Event)
    → ev.buffer 0 % 16 ≡ 8
    → Returns (λ r. (r.0.state_machine ≡ ws_end) × (r.1 ≡ true)) (transmission ev)
unfolding transmission decode_packet encode_packet copy_payload
transmission_close ev code = rw code (returns (refl, refl))
