-- ===== src/Websocket/Connection.antt =====
-- What the callbacks make of a connection.
use c_c_linux_learning_code.Common.{
  Bytes, Option-cases, ltb-true, ltb-false, eq-false, ℕ, ◌+◌, ◌/◌, ◌%◌, ◌≤◌, ◌<◌, ◌≡◌, ◌≢◌, refl,
  sym, ap, ◌∙◌, subst, arith, Bool, true, false, Option, some, none, List, [], ◌∷◌, ◌++◌, ltb, ◌==◌,
  update, length, All, Returns, Returns-map, Returns-bind, Returns-inv, Bool-cases, inl, inr, ◌>>=◌,
}
use c_c_linux_learning_code.Websocket.{
  Buffer, buffer_length, Event, StateMachine, ws_transmission, ws_end, recv_callback, send_callback,
}
use c_c_linux_learning_code.Websocket.Echo.{ClientFrame, ServerFrame, transmission-ServerFrame}
use c_c_linux_learning_code.Websocket.Server.{Digest, websocket_request, request_in, write_bytes}
use c_c_linux_learning_code.Websocket.Table.{
  find_event, Reactor, Call, event_del, event_set, event_add, epollin, epollout,
}
use c_c_linux_learning_code.Websocket.Callbacks.{
  Recv, received, failed, recv_loop, recv_event, accept_event, answer, wait_to_send, Reply,
  with_event, Answers, recv_cb, accept_cb,
}
use c_c_linux_learning_code.Websocket.Events.{
  IsReactor, table, given, Replaced, with_event-Replaced,
}

-- The buffer that recv_cb hands on after a request of one piece.
abbrev pub request_buffer : Bytes → Buffer
request_buffer bs = update (write_bytes 0 bs (λ i. 0)) (length bs) 0

-- The event to which recv_cb applies websocket_request.
requested : Bytes → Event → Event
unfolding event_del
requested bs ev = record (event_del (record ev { buffer = write_bytes 0 bs (λ i. 0) })).0 {
  buffer = request_buffer bs;
  length = length bs;
}

-- A request of one piece goes through websocket_request.
recv_event_one :
    (digest : Digest) (fd : ℕ) (bs : Bytes) (ev : Event) (p : Event × Bool)
    → 0 < length bs
    → length bs < buffer_length
    → websocket_request digest (requested bs ev) ≡ some p
    → (let reply = wait_to_send fd (requested bs ev).fd p in
        (calls : List Call) × (recv_event digest (received bs ∷ failed ∷ []) fd ev
          ≡ some (reply.0, calls)))
unfolding recv_event recv_loop answer requested
recv_event_one digest fd bs ev p some_bytes fits e =
    let test : ltb 4096 (0 + length bs) ≡ false = ltb-false (omega arith) in
    let inside : ltb (length bs) 4096 ≡ true = ltb-true fits in
    let start : 0 + length bs ≡ length bs = omega arith in
    let no_end : (length bs == 0) ≡ false = eq-false (omega arith) in
    let first = event_del (record ev { buffer = write_bytes 0 bs (λ i. 0) }) in
    (
      first.1 ++ (wait_to_send fd (requested bs ev).fd p).1,
      rw (test, start, no_end, inside, e) refl,
    )

wait_to_send_lem :
    (fd old_fd : ℕ) (p : Event × Bool)
    → (let ev = (wait_to_send fd old_fd p).0 in
        (ev.buffer ≡ p.0.buffer)
        × ((ev.length ≡ p.0.length) × ((ev.callback ≡ send_callback) × (ev.events ≡ epollout))))
unfolding wait_to_send event_set event_add
wait_to_send_lem fd old_fd (ev, c) = elim (Bool-cases (ev.status == 1)) [
  | inl e ↦ rw e (refl, (refl, (refl, refl)))
  | inr e ↦ rw e (refl, (refl, (refl, refl)))
]

-- The event of `fd` after a callback, and that nothing else has changed.
pub record Answered (fd : ℕ) (r : Reactor) (Post : Event → Type 0) (r' : Reactor) : Type 0 where
  pub valid : IsReactor r'
  pub room : fd / 1024 < r'.blkcnt
  pub post : Post (table r' fd)
  pub others : (j : ℕ) → j ≢ fd → table r' j ≡ table r j

Replaced-Answered :
    {fd : ℕ} {r r' : Reactor} {ev : Event} {calls : List Call} (Post : Event → Type 0)
    → Post ev
    → Replaced fd r ev calls r'
    → Answered fd r Post r'
Replaced-Answered {fd} {r} {r'} {ev} Post holds p =
    let self : (fd == fd) ≡ true = ground arith in
    record {
      valid = p.valid;
      room = p.room;
      post = subst Post (sym (p.table_of fd ∙ rw self refl)) holds;
      others =
          λ j other. let test : (fd == j) ≡ false = ground arith in p.table_of j ∙ rw test refl;
    }

-- What is answered to a request of one piece.
abbrev Sending : Event → Event → Type 0
Sending ev ev' =
    (ev'.buffer ≡ ev.buffer)
    × ((ev'.length ≡ ev.length) × ((ev'.callback ≡ send_callback) × (ev'.events ≡ epollout)))

recv_cb_one :
    (digest : Digest) (a : Answers) (fd : ℕ) (bs : Bytes) (r : Reactor) (p : Event × Bool)
    → IsReactor r
    → fd / 1024 < r.blkcnt + given a.mallocs
    → a.recvs ≡ received bs ∷ failed ∷ []
    → 0 < length bs
    → length bs < buffer_length
    → websocket_request digest (requested bs (table r fd)) ≡ some p
    → Returns (Answered fd r (Sending p.0)) (recv_cb digest a fd r)
unfolding recv_cb
recv_cb_one digest a fd bs r p v room one some_bytes fits e =
    let (calls, e') = recv_event_one digest fd bs (table r fd) p some_bytes fits e in
    let reply = (wait_to_send fd (requested bs (table r fd)).fd p).0 in
    Returns-map
      (with_event-Replaced a.mallocs fd (recv_event digest a.recvs fd) r reply calls v room
        (subst (λ x. recv_event digest x fd (table r fd) ≡ some (reply, calls)) (sym one) e'))
      λ r' q.
        Replaced-Answered (Sending p.0) (wait_to_send_lem fd (requested bs (table r fd)).fd p) q

Answered-map :
    {fd : ℕ} {r r' : Reactor} {P Q : Event → Type 0}
    → ((ev : Event) → P ev → Q ev)
    → Answered fd r P r'
    → Answered fd r Q r'
Answered-map {fd} {r} {r'} f a = record {
  valid = a.valid;
  room = a.room;
  post = f (table r' fd) a.post;
  others = a.others;
}

requested-state : (bs : Bytes) (ev : Event) → (requested bs ev).state_machine ≡ ev.state_machine
unfolding requested
requested-state bs ev = elim (Bool-cases (ev.status == 1)) [
  | inl e ↦ rw (requested, e) refl
  | inr e ↦ rw (requested, e) refl
]

request_of :
    (digest : Digest) (ev : Event) (s : StateMachine)
    → ev.state_machine ≡ s
    → websocket_request digest ev ≡ request_in s digest ev
unfolding websocket_request
request_of digest ev s e = ap (λ x. request_in x digest ev) e

requested-content :
    (bs : Bytes) (ev : Event)
    → ((requested bs ev).buffer ≡ request_buffer bs) × ((requested bs ev).length ≡ length bs)
unfolding requested
requested-content bs ev = (refl, refl)

-- In a valid table where malloc gives blocks enough, for a descriptor in the state WS_TRANSMISSION:
-- when recv gives a client's frame of less than 4096 bytes with a payload of at most 4 bytes in one
-- piece, not a closing one, and then fails, recv_cb ends without a fault and leaves the server's
-- frame with the same payload in the event of this descriptor, which waits to be sent; the table
-- stays valid and all other events are as before.
pub recv_cb-Answered :
    (digest : Digest) (a : Answers) (fd n : ℕ) (p : ℕ → ℕ) (bs : Bytes) (r : Reactor)
    → IsReactor r
    → fd / 1024 < r.blkcnt + given a.mallocs
    → a.recvs ≡ received bs ∷ failed ∷ []
    → 0 < length bs
    → length bs < buffer_length
    → (table r fd).state_machine ≡ ws_transmission
    → request_buffer bs 0 % 16 ≢ 8
    → n ≤ 4
    → ClientFrame (request_buffer bs) n p
    → Returns
        (Answered fd r λ ev.
          ServerFrame ev.buffer ev.length n p
          × ((ev.callback ≡ send_callback) × (ev.events ≡ epollout)))
        (recv_cb digest a fd r)
unfolding recv_cb
recv_cb-Answered digest a fd n p bs r v room one some_bytes fits state plain whole frame =
    let content = requested-content bs (table r fd) in
    let ev = requested bs (table r fd) in
    let (q, e, (f, still_open)) = Returns-inv (
      transmission-ServerFrame ev n p (subst (λ b. b 0 % 16 ≢ 8) (sym content.0) plain) whole
        (subst (λ b. ClientFrame b n p) (sym content.0) frame)) in
    let handled : websocket_request digest ev ≡ some q =
      request_of digest ev ws_transmission (requested-state bs (table r fd) ∙ state)
      ∙ (unfold request_in in e) in
    Returns-map (recv_cb_one digest a fd bs r q v room one some_bytes fits handled) λ r' s.
      Answered-map
        (λ x t. (
          subst (λ b. ServerFrame b x.length n p) (sym t.0)
              (subst (λ l. ServerFrame q.0.buffer l n p) (sym t.1.0) f),
          t.1.1,
        ))
        s

-- x
pub accept_cb-Answered :
    (a : Answers) (fd : ℕ) (r : Reactor)
    → IsReactor r
    → fd / 1024 < r.blkcnt + given a.mallocs
    → a.accepted ≡ some fd
    → a.nonblocking ≡ true
    → Returns
        (Answered fd r λ ev.
          (ev.state_machine ≡ (table r fd).state_machine)
          × ((ev.fd ≡ fd) × ((ev.callback ≡ recv_callback) × (ev.events ≡ epollin))))
        (accept_cb a r)
unfolding accept_cb accept_event event_set event_add
accept_cb-Answered a fd r v room some_fd nonblocking =
    rw (some_fd, nonblocking)
      (Returns-map (with_event-Replaced a.mallocs fd (accept_event fd) r _ _ v room refl)
        λ r' q. Replaced-Answered _ (refl, (refl, (refl, refl))) q)

-- When a descriptor whose event is in the state WS_END is accepted again, accept_cb and then
-- recv_cb of a first request, in one piece of less than 4096 bytes, end without a fault, and what
-- waits to be sent is the request itself and no handshake.
pub accept_cb_stale :
    (digest : Digest) (a b : Answers) (fd : ℕ) (bs : Bytes) (r : Reactor)
    → IsReactor r
    → fd / 1024 < r.blkcnt
    → (table r fd).state_machine ≡ ws_end
    → a.accepted ≡ some fd
    → a.nonblocking ≡ true
    → b.recvs ≡ received bs ∷ failed ∷ []
    → 0 < length bs
    → length bs < buffer_length
    → Returns
        (λ r'.
          ((table r' fd).buffer ≡ request_buffer bs)
          × (((table r' fd).length ≡ length bs) × ((table r' fd).callback ≡ send_callback)))
        (accept_cb a r >>= recv_cb digest b fd)
accept_cb_stale digest a b fd bs r v room state some_fd nonblocking one some_bytes fits =
    Returns-bind (accept_cb-Answered a fd r v (omega arith) some_fd nonblocking) λ r1 s.
      let old : (table r1 fd).state_machine ≡ ws_end = s.post.0 ∙ state in
      let handled : websocket_request digest (requested bs (table r1 fd))
          ≡ some (requested bs (table r1 fd), false) =
        request_of digest _ ws_end (requested-state bs (table r1 fd) ∙ old)
        ∙ (unfold request_in in refl) in
      let content = requested-content bs (table r1 fd) in
      Returns-map
        (recv_cb_one digest b fd bs r1 (requested bs (table r1 fd), false) s.valid
          (let room = s.room in omega arith) one some_bytes fits handled)
        λ r2 t. (t.post.0 ∙ content.0, (t.post.1.0 ∙ content.1, t.post.1.1.0))

-- An answer of recv that is not a failure; an empty one is the end of the stream.
abbrev pub IsReceived : Recv → Type 0
IsReceived (received bs) = Unit
IsReceived failed = ⊥

recv_loop_waits :
    (answers : List Recv) (buf : Buffer) (len : ℕ)
    → All IsReceived answers
    → recv_loop answers buf len ≡ none
unfolding recv_loop
recv_loop_waits [] buf len h = refl
recv_loop_waits (failed ∷ answers) buf len h = absurd h.0
recv_loop_waits (received bs ∷ answers) buf len h = elim (Bool-cases (ltb 4096 (len + length bs))) [
  | inl e ↦ rw e refl
  | inr e ↦ rw e (recv_loop_waits answers _ _ h.1)
]

with_event_fault :
    (mallocs : List (Bool × Bool)) (fd : ℕ) (change : Event → Option Reply) (r : Reactor)
    → ((ev : Event) → change ev ≡ none)
    → with_event mallocs fd change r ≡ none
unfolding with_event
with_event_fault mallocs fd change r h = elim (Option-cases (find_event mallocs r fd)) [
  | inl e ↦ rw e refl
  | inr (p, e) ↦ rw e (rw (h p.1) refl)
]

-- As long as recv has given bytes or the end of the stream and has not failed, however often,
-- recv_cb has not ended.
pub recv_cb_waits :
    (digest : Digest) (a : Answers) (fd : ℕ) (r : Reactor)
    → All IsReceived a.recvs
    → recv_cb digest a fd r ≡ none
unfolding recv_cb recv_event
recv_cb_waits digest a fd r h =
    with_event_fault a.mallocs fd (recv_event digest a.recvs fd) r
      λ ev. rw (recv_loop_waits a.recvs (λ i. 0) 0 h) refl
