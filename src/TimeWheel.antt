-- ===== src/TimeWheel.antt =====
-- 3.2.3定时器红黑树最小堆跳表时间轮/timewheel.h and timewheel.c: the hierarchical timing wheel.
-- A node is its address, a number; `node` is the memory behind the addresses. A `link_list_t` is
-- the list of the nodes that its `head` and their `next` pointers chain, `link` appends behind
-- `tail`, and the functions below keep no other chain. `uint32_t` wraps, `x & (2^k - 1)` is
-- `x % 2 ^ k` and `x >> k` is `x / 2 ^ k`. What callbacks and other threads do while the lock is
-- free is the argument `others`, which gets the nodes that are taken out of the wheel and not yet
-- freed; the clock and malloc are arguments too. `current` is never read.
pub mod Slots
pub mod Content
pub mod Placed
pub mod Clients
pub mod Between
pub mod Tick
pub mod Fire
pub mod Stuck
pub mod Schedule
mod Tests
use c_c_linux_learning_code.Common.{
  ◌&&◌, ℕ, zero, suc, ◌+◌, ◌-◌, ◌*◌, ◌/◌, ◌%◌, Bool, true, false, ◌||◌, Option, none, some, List,
  [], ◌∷◌, ◌++◌, ltb, leb, ◌==◌, if◌then◌else◌, not, update,
}

-- `callback` names the function.
pub record TimerNode : Type 0 where
  pub expire : ℕ
  pub callback : ℕ
  pub cancel : ℕ
  pub id : ℕ

pub record Timer : Type 0 where
  pub near : ℕ → List ℕ
  pub t : ℕ → ℕ → List ℕ
  pub time : ℕ
  pub current_point : ℕ
  pub node : ℕ → TimerNode

abbrev pub link : List ℕ → ℕ → List ℕ
link list node = list ++ node ∷ []

abbrev pub link_near : Timer → ℕ → ℕ → Timer
link_near T i node = record T { near = update T.near i (link (T.near i) node) }

abbrev pub set_level : Timer → ℕ → ℕ → List ℕ → Timer
set_level T level idx list = record T { t = update T.t level (update (T.t level) idx list) }

abbrev pub link_level : Timer → ℕ → ℕ → ℕ → Timer
link_level T level idx node = set_level T level idx (link (T.t level idx) node)

pub add_node : Timer → ℕ → Timer
add_node T node =
    let time = (T.node node).expire in
    let msec = (time + 4294967296 - T.time) % 4294967296 in
    if ltb msec 256
    then link_near T (time % 256) node
    else if ltb msec 16384
    then link_level T 0 (time / 256 % 64) node
    else if ltb msec 1048576
    then link_level T 1 (time / 16384 % 64) node
    else if ltb msec 67108864
    then link_level T 2 (time / 1048576 % 64) node
    else link_level T 3 (time / 67108864 % 64) node

-- The fields that add_timer writes; `cancel` stays what malloc left there.
unfoldable pub fill_node : Timer → ℕ → ℕ → ℕ → ℕ → Timer
fill_node T node time func threadid = record T {
  node = update T.node node (record (T.node node) {
    expire = (time + T.time) % 4294967296;
    callback = func;
    id = threadid;
  });
}

-- What add_timer returns (NULL is `none`), the nodes whose callbacks it calls, and the new state.
pub record Added : Type 0 where
  pub result : Option ℕ
  pub called : List ℕ
  pub state : Timer

-- `int time`, as 32 bits, is not positive.
abbrev pub not_positive : ℕ → Bool
not_positive time = time == 0 || leb 2147483648 time

-- `node` is the address that malloc gives.
unfoldable pub add_timer : Timer → ℕ → ℕ → ℕ → ℕ → Added
add_timer T node time func threadid =
    let T' = fill_node T node time func threadid in
    if not_positive time
    then record { result = none; called = node ∷ []; state = T' }
    else record { result = some node; called = []; state = add_node T' node }

pub add_nodes : Timer → List ℕ → Timer
add_nodes T [] = T
add_nodes T (current ∷ rest) = add_nodes (add_node T current) rest

unfoldable pub move_list : Timer → ℕ → ℕ → Timer
unfolding add_nodes
move_list T level idx = add_nodes (set_level T level idx []) (T.t level idx)

-- The `while` loop of timer_shift, from the level `i` on.
unfoldable pub shift_loop : ℕ → Timer → ℕ → ℕ → ℕ → ℕ → Timer
shift_loop zero T ct i mask time = T
shift_loop (suc f) T ct i mask time =
    let idx = time % 64 in
    let rest = shift_loop f T ct (i + 1) (mask * 64 % 4294967296) (time / 64) in
    let step = if not (idx == 0) then move_list T i idx else rest in
    if ct % mask == 0 then step else T

-- `ct` is not 0 in the loop, so one of the four levels has an index that is not 0.
unfoldable pub timer_shift : Timer → Timer
unfolding shift_loop
timer_shift T =
    let ct = (T.time + 1) % 4294967296 in
    let T' = record T { time = ct } in
    if ct == 0 then move_list T' 3 0 else shift_loop 4 T' ct 0 256 (ct / 256)

-- The nodes whose callbacks are called, after those of `called`, and the state. The lock is free:
-- others act before each test, so after each callback, and after the last one.
unfoldable pub dispatch_list : (List ℕ → Timer → Timer) → Timer → List ℕ → List ℕ → List ℕ × Timer
dispatch_list others T [] called = (called, others [] T)
dispatch_list others T (current ∷ rest) called =
    let T' = others (current ∷ rest) T in
    let called' = if (T'.node current).cancel == 0 then called ++ current ∷ [] else called in
    dispatch_list others T' rest called'

-- The nodes whose callbacks are called, and the state at the end; `none` stands for a loop that has
-- not ended within the fuel.
unfoldable pub execute_loop :
    (List ℕ → Timer → Timer) → ℕ → Timer → ℕ → List ℕ → Option (List ℕ × Timer)
execute_loop others zero T idx called = none
execute_loop others (suc f) T idx called = elim (T.near idx) [
  | [] ↦ some (called, T)
  | node ∷ rest ↦
      let r =
        dispatch_list others (record T { near = update T.near idx [] }) (node ∷ rest) called in
      execute_loop others f r.1 idx r.0
]

-- Nothing that is added while the lock is free is due at once: two rounds are enough.
unfoldable pub timer_execute : (List ℕ → Timer → Timer) → Timer → Option (List ℕ × Timer)
unfolding execute_loop
timer_execute others T = execute_loop others 2 T (T.time % 256) []

unfoldable pub after_shift :
    (List ℕ → Timer → Timer) → Option (List ℕ × Timer) → Option (List ℕ × Timer)
after_shift others none = none
after_shift others (some (called, T)) =
    execute_loop others 2 (timer_shift T) ((timer_shift T).time % 256) called

unfoldable pub timer_update : (List ℕ → Timer → Timer) → Timer → Option (List ℕ × Timer)
unfolding after_shift
timer_update others T = after_shift others (timer_execute others T)

unfoldable pub del_timer : Timer → ℕ → Timer
del_timer T node = record T { node = update T.node node (record (T.node node) { cancel = 1 }) }

-- `struct timespec` of the monotonic clock, in units of 10 ms on 64 bits.
pub gettime : ℕ → ℕ → ℕ
gettime tv_sec tv_nsec =
    (tv_sec * 100 % 18446744073709551616 + tv_nsec / 10000000) % 18446744073709551616

pub timer_create_timer : (ℕ → TimerNode) → Timer
timer_create_timer node = record {
  near = λ i. [];
  t = λ i j. [];
  time = 0;
  current_point = 0;
  node = node;
}

pub init_timer : (ℕ → TimerNode) → ℕ → Timer
unfolding timer_create_timer
init_timer node cp = record (timer_create_timer node) { current_point = cp }

-- `timer_update`, `diff` times. The lock is free before each.
unfoldable pub update_loop : (List ℕ → Timer → Timer) → ℕ → Timer → List ℕ → Option (List ℕ × Timer)
update_loop others zero T called = some (called, T)
update_loop others (suc diff) T called = elim (timer_update others (others [] T)) [
  | none ↦ none
  | some (more, T') ↦ update_loop others diff T' (called ++ more)
]

unfoldable pub expire_timer : (List ℕ → Timer → Timer) → Timer → ℕ → Option (List ℕ × Timer)
unfolding update_loop
expire_timer others T cp =
    let diff = (cp + 18446744073709551616 - T.current_point) % 18446744073709551616 % 4294967296 in
    if cp == T.current_point
    then some ([], T)
    else update_loop others diff (record T { current_point = cp }) []

pub clear_timer : Timer → Timer
clear_timer T = record T {
  near = λ i. if ltb i 256 then [] else T.near i;
  t = λ i j. if ltb i 4 && ltb j 64 then [] else T.t i j;
}
