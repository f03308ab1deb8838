-- ===== src/Websocket/Table.antt =====
-- 2.1.4websocket/websocket_reactor.c: the reactor's table of events, in blocks of MAX_EPOLL_EVENTS.
-- The list of blocks is a list, the events of a block are a function of the index. What malloc
-- answers is an argument, and a descriptor is not negative. The calls of epoll_ctl and close are
-- logged; epoll_ctl answers without failure.
use c_c_linux_learning_code.Common.{
  ℕ, zero, suc, ◌+◌, ◌/◌, ◌%◌, Bool, ◌&&◌, Option, none, some, List, [], ◌∷◌, ◌++◌, leb, ◌==◌,
  if◌then◌else◌, update, ◌>>=◌,
}
use c_c_linux_learning_code.Websocket.{Callback, no_callback, Event, ws_handshake}

abbrev pub Block : Type 0
Block = ℕ → Event

-- calloc's event: malloc with memset.
abbrev pub zero_event : Event
zero_event = record {
  fd = 0;
  events = 0;
  callback = no_callback;
  status = 0;
  buffer = λ i. 0;
  length = 0;
  state_machine = ws_handshake;
}

pub data Call : Type 0 where
  ctl_add ctl_mod : ℕ → ℕ → Call
  ctl_del closed : ℕ → Call

pub record Reactor : Type 0 where
  pub blkcnt : ℕ
  pub evblk : List Block
  pub log : List Call

-- The return values 0, -1 and -2.
pub data AllocResult : Type 0 where
  allocated no_list no_memory : AllocResult

-- The answers of malloc for the events and for the block.
unfoldable pub alloc : Bool → Bool → Reactor → Reactor × AllocResult
alloc events_given block_given r = elim r.evblk [
  | [] ↦ (r, no_list)
  | b ∷ bs ↦
      if events_given && block_given
      then (
        record r { evblk = (b ∷ bs) ++ (λ i. zero_event) ∷ []; blkcnt = r.blkcnt + 1 },
        allocated,
      )
      else (r, no_memory)
]

-- The first loop of ntyreactor_find_event_idx; `none` while malloc's answers do not suffice.
unfoldable pub grow : List (Bool × Bool) → ℕ → Reactor → Option Reactor
unfolding alloc
grow [] blkidx r = if leb r.blkcnt blkidx then none else some r
grow ((a, b) ∷ answers) blkidx r =
    let rest = grow answers blkidx (alloc a b r).0 in if leb r.blkcnt blkidx then rest else some r

unfoldable pub get_block : List Block → ℕ → Option Block
get_block [] i = none
get_block (b ∷ bs) zero = some b
get_block (b ∷ bs) (suc i) = get_block bs i

unfoldable pub set_block : List Block → ℕ → Block → List Block
set_block [] i c = []
set_block (b ∷ bs) zero c = c ∷ bs
set_block (b ∷ bs) (suc i) c = b ∷ set_block bs i c

-- A read and a write through the pointer that ntyreactor_find_event_idx gives.
unfoldable pub load : Reactor → ℕ → Option Event
unfolding get_block
load r sockfd = get_block r.evblk (sockfd / 1024) >>= λ b. some (b (sockfd % 1024))

unfoldable pub store : Reactor → ℕ → Event → Option Reactor
unfolding get_block set_block
store r sockfd ev = get_block r.evblk (sockfd / 1024) >>= λ b.
    some (record r { evblk = set_block r.evblk (sockfd / 1024) (update b (sockfd % 1024) ev) })

unfoldable pub find_event : List (Bool × Bool) → Reactor → ℕ → Option (Reactor × Event)
unfolding grow load
find_event answers r sockfd = do
  r' ← grow answers (sockfd / 1024) r
  ev ← load r' sockfd
  some (r', ev)

abbrev pub epollin : ℕ
epollin = 1

abbrev pub epollout : ℕ
epollout = 4

unfoldable pub event_set : Event → ℕ → Callback → Event
event_set ev fd callback = record ev { fd = fd; callback = callback; events = 0 }

unfoldable pub event_add : ℕ → Event → Event × Call
event_add events ev =
    if ev.status == 1
    then (record ev { events = events }, ctl_mod ev.fd events)
    else (record ev { events = events; status = 1 }, ctl_add ev.fd events)

-- Nothing for an event that is not registered.
unfoldable pub event_del : Event → Event × List Call
event_del ev = if ev.status == 1 then (record ev { status = 0 }, ctl_del ev.fd ∷ []) else (ev, [])

-- ntyreactor_init, after epoll_create gave a descriptor.
unfoldable pub init : Bool → Bool → Option Reactor
init events_given block_given =
    if events_given && block_given
    then some (record { blkcnt = 1; evblk = (λ i. zero_event) ∷ []; log = [] })
    else none
