-- ===== src/Websocket/Callbacks.antt =====
-- 2.1.4websocket/websocket_reactor.c: recv_cb, send_cb, accept_cb, the listeners and a round of
-- ntyreactor_run. What recv, send, accept, fcntl and malloc answer are arguments; printing, sleeping
-- and the addresses of clients are left out.
use c_c_linux_learning_code.Common.{
  Bytes, ℕ, ◌+◌, ◌/◌, ◌%◌, Bool, ◌&&◌, not, Option, none, some, List, [], ◌∷◌, ◌++◌, ltb, ◌==◌,
  if◌then◌else◌, update, ◌>>=◌, length,
}
use c_c_linux_learning_code.Websocket.{
  Buffer, buffer_length, Callback, no_callback, recv_callback, send_callback, accept_callback,
  Event,
}
use c_c_linux_learning_code.Websocket.Server.{Digest, websocket_request, write_bytes}
use c_c_linux_learning_code.Websocket.Table.{
  Call, closed, Reactor, find_event, load, store, event_set, event_add, event_del, epollin,
  epollout,
}

-- recv gives bytes, none for an end of the stream, or fails with -1.
pub data Recv : Type 0 where
  received : Bytes → Recv
  failed : Recv

-- The loop ends by a failure only; `none` while recv has not failed. recv does not give more bytes
-- than there is room for.
unfoldable pub recv_loop : List Recv → Buffer → ℕ → Option (Buffer × ℕ)
unfolding write_bytes
recv_loop [] buf len = none
recv_loop (failed ∷ answers) buf len = some (buf, len)
recv_loop (received bs ∷ answers) buf len =
    let rest = recv_loop answers (write_bytes len bs buf) (len + length bs) in
    if ltb buffer_length (len + length bs) then none else rest

abbrev pub Reply : Type 0
Reply = Event × List Call

-- The answer waits to be sent; the descriptor may have been closed before.
unfoldable pub wait_to_send : ℕ → ℕ → Event × Bool → Reply
unfolding event_set event_add
wait_to_send fd old_fd (ev, was_closed) =
    let (ev', call) = event_add epollout (event_set ev fd send_callback) in
    (ev', if was_closed then closed old_fd ∷ call ∷ [] else call ∷ [])

-- What was read is answered; the byte behind it is set to 0, in the buffer or not at all.
unfoldable pub answer : Digest → ℕ → Event → Buffer → ℕ → Option Reply
unfolding websocket_request wait_to_send
answer digest fd ev buf len =
    let request =
      websocket_request digest (record ev { buffer = update buf len 0; length = len }) in
    (if ltb len buffer_length then request else none) >>= λ p. some (wait_to_send fd ev.fd p)

-- What recv_cb does with the event of `fd`, and its calls.
unfoldable pub recv_event : Digest → List Recv → ℕ → Event → Option Reply
unfolding recv_loop answer event_del
recv_event digest answers fd ev = do
  (buf, len) ← recv_loop answers (λ i. 0) 0
  let (ev', calls) = event_del (record ev { buffer = buf })
  let replied = answer digest fd ev' buf len >>= λ (ev'', more). some (ev'', calls ++ more)
  if len == 0 then some (ev', calls ++ closed ev.fd ∷ []) else replied

-- The same for send_cb, where `sent` tells whether send gave a positive number.
unfoldable pub send_event : Bool → ℕ → Event → Option Reply
unfolding event_del event_set event_add
send_event sent fd ev =
    let (ev', calls) = event_del ev in
    let (ev'', call) = event_add epollin (event_set ev' fd recv_callback) in
    some (if sent then (ev'', calls ++ call ∷ []) else (ev', calls ++ closed ev.fd ∷ []))

-- The same for accept_cb, with the event of the new descriptor.
unfoldable pub accept_event : ℕ → Event → Option Reply
unfolding event_set event_add
accept_event clientfd ev =
    let (ev', call) =
      event_add epollin (record (event_set ev clientfd recv_callback) { status = 0 }) in
    some (ev', call ∷ [])

-- An event is looked up, changed and stored, and the calls are logged.
unfoldable pub with_event :
    List (Bool × Bool) → ℕ → (Event → Option Reply) → Reactor → Option Reactor
unfolding find_event store
with_event mallocs fd change r = do
  (r1, ev) ← find_event mallocs r fd
  (ev', calls) ← change ev
  r2 ← store r1 fd ev'
  some (record r2 { log = r2.log ++ calls })

-- What the rest of the world answers to one callback. `accepted` is none for a failure.
pub record Answers : Type 0 where
  pub mallocs : List (Bool × Bool)
  pub recvs : List Recv
  pub sent : Bool
  pub accepted : Option ℕ
  pub nonblocking : Bool

unfoldable pub recv_cb : Digest → Answers → ℕ → Reactor → Option Reactor
unfolding with_event recv_event
recv_cb digest a fd r = with_event a.mallocs fd (recv_event digest a.recvs fd) r

unfoldable pub send_cb : Answers → ℕ → Reactor → Option Reactor
unfolding with_event send_event
send_cb a fd r = with_event a.mallocs fd (send_event a.sent fd) r

unfoldable pub accept_cb : Answers → Reactor → Option Reactor
unfolding with_event accept_event
accept_cb a r = elim a.accepted [
  | none ↦ some r
  | some clientfd ↦
      if a.nonblocking then with_event a.mallocs clientfd (accept_event clientfd) r else some r
]

listen_event : ℕ → Event → Option Reply
unfolding event_set event_add
listen_event sockfd ev =
    let (ev', call) = event_add epollin (event_set ev sockfd accept_callback) in
    some (ev', call ∷ [])

unfoldable pub addlistener : List (Bool × Bool) → ℕ → Reactor → Option Reactor
unfolding with_event listen_event
addlistener mallocs sockfd r = with_event mallocs sockfd (listen_event sockfd) r

-- The call of `callback`; NULL is a fault.
unfoldable pub call_back : Digest → Answers → Callback → ℕ → Reactor → Option Reactor
unfolding recv_cb send_cb accept_cb
call_back digest a no_callback fd r = none
call_back digest a recv_callback fd r = recv_cb digest a fd r
call_back digest a send_callback fd r = send_cb a fd r
call_back digest a accept_callback fd r = accept_cb a r

-- One of the two tests of ntyreactor_run, for the bit `bit` of the events that are ready and the event
-- at the slot of `slot`.
unfoldable pub run_bit : Digest → Answers → ℕ → ℕ → ℕ → Reactor → Option Reactor
unfolding call_back load
run_bit digest a bit slot ready r = do
  ev ← load r slot
  let called = call_back digest a ev.callback ev.fd r
  if not (ready / bit % 2 == 0) && not (ev.events / bit % 2 == 0) then called else some r

-- What ntyreactor_run does with one entry that epoll_wait gives; the answers are for each test.
unfoldable pub run_entry : Digest → Answers → Answers → ℕ → ℕ → Reactor → Option Reactor
unfolding run_bit
run_entry digest a b slot ready r = do
  r' ← run_bit digest a epollin slot ready r
  run_bit digest b epollout slot ready r'
