-- ===== src/Websocket/Events.antt =====
-- The reactor's table as a function from descriptors to events.
use mathlib.Core.List.{append-nil}
use c_c_linux_learning_code.Common.{
  ℕ, zero, suc, ◌+◌, ◌/◌, ◌%◌, ◌≤◌, ◌<◌, ◌≡◌, refl, sym, ap, ◌∙◌, arith, Bool, true, false, ◌&&◌,
  Option, some, none, List, [], ◌∷◌, ◌++◌, leb, ◌==◌, if◌then◌else◌, update, length, length-append,
  Returns, returns, Returns-map, Returns-bind, Bool-cases, inl, inr, ◌>>=◌,
}
use c_c_linux_learning_code.Websocket.{Event}
use c_c_linux_learning_code.Websocket.Table.{
  Block, Reactor, Call, zero_event, alloc, grow, get_block, set_block, load, store, find_event,
}
use c_c_linux_learning_code.Websocket.Callbacks.{with_event, Reply}

at_slot : Option Block → ℕ → Event
at_slot none j = zero_event
at_slot (some b) j = b j

-- The event of each descriptor; before its block is allocated, it is all zeros.
unfoldable pub table : Reactor → ℕ → Event
unfolding at_slot get_block
table r fd = at_slot (get_block r.evblk (fd / 1024)) (fd % 1024)

pub record IsReactor (r : Reactor) : Type 0 where
  pub counted : r.blkcnt ≡ length r.evblk
  pub some_block : 1 ≤ r.blkcnt

get_block-append_zero :
    (bs : List Block) (i j : ℕ)
    → at_slot (get_block (bs ++ (λ x. zero_event) ∷ []) i) j ≡ at_slot (get_block bs i) j
unfolding at_slot get_block
get_block-append_zero [] zero j = refl
get_block-append_zero [] (suc i) j = refl
get_block-append_zero (b ∷ bs) zero j = refl
get_block-append_zero (b ∷ bs) (suc i) j = get_block-append_zero bs i j

get_block-some : (bs : List Block) (i : ℕ) → i < length bs → (b : Block) × (get_block bs i ≡ some b)
unfolding get_block
get_block-some [] i h = absurd (omega arith)
get_block-some (b ∷ bs) zero h = (b, refl)
get_block-some (b ∷ bs) (suc i) h = get_block-some bs i (omega arith)

length-set_block : (bs : List Block) (i : ℕ) (c : Block) → length (set_block bs i c) ≡ length bs
unfolding set_block
length-set_block [] i c = refl
length-set_block (b ∷ bs) zero c = refl
length-set_block (b ∷ bs) (suc i) c = ap suc (length-set_block bs i c)

get_block-set_block :
    (bs : List Block) (i : ℕ) (c : Block) (k j : ℕ)
    → i < length bs
    → at_slot (get_block (set_block bs i c) k) j
      ≡ (if i == k then c j else at_slot (get_block bs k) j)
unfolding at_slot get_block set_block
get_block-set_block [] i c k j h = absurd (omega arith)
get_block-set_block (b ∷ bs) zero c zero j h = refl
get_block-set_block (b ∷ bs) zero c (suc k) j h = ground arith
get_block-set_block (b ∷ bs) (suc i) c zero j h = ground arith
get_block-set_block (b ∷ bs) (suc i) c (suc k) j h =
    get_block-set_block bs i c k j (omega arith) ∙ ground arith

-- How often malloc gives both a block and its events.
abbrev pub given : List (Bool × Bool) → ℕ
given [] = 0
given ((a, b) ∷ answers) = (if a && b then 1 else 0) + given answers

-- The table is as before, and has the block.
record Grown (r : Reactor) (blkidx : ℕ) (r' : Reactor) : Type 0 where
  pub valid : IsReactor r'
  pub room : blkidx < length r'.evblk
  pub same : (fd : ℕ) → table r' fd ≡ table r fd
  pub log : r'.log ≡ r.log

-- What alloc leaves.
record Allocated (r : Reactor) (more : Bool) (r' : Reactor) : Type 0 where
  pub valid : IsReactor r'
  pub count : r'.blkcnt ≡ r.blkcnt + (if more then 1 else 0)
  pub same : (fd : ℕ) → table r' fd ≡ table r fd
  pub log : r'.log ≡ r.log

alloc-Allocated :
    (a b : Bool) (n : ℕ) (bs : List Block) (log : List Call)
    → (let r : Reactor = record { blkcnt = n; evblk = bs; log = log } in
        IsReactor r → Allocated r (a && b) (alloc a b r).0)
unfolding alloc table
alloc-Allocated a b n [] log v = let c = v.counted in let s = v.some_block in absurd (omega arith)
alloc-Allocated true true n (c ∷ bs) log v =
    let counted = v.counted in
    record {
      valid = record {
        counted = omega (arith, length-append bs ((λ (i : ℕ). zero_event) ∷ []));
        some_block = omega arith;
      };
      count = refl;
      same = λ fd. get_block-append_zero (c ∷ bs) (fd / 1024) (fd % 1024);
      log = refl;
    }
alloc-Allocated true false n (c ∷ bs) log v = record {
  valid = v;
  count = omega arith;
  same = λ fd. refl;
  log = refl;
}
alloc-Allocated false b n (c ∷ bs) log v = record {
  valid = v;
  count = omega arith;
  same = λ fd. refl;
  log = refl;
}

-- The loop ends once malloc has given blocks enough.
grow-Grown :
    (answers : List (Bool × Bool)) (blkidx : ℕ) (r : Reactor)
    → IsReactor r
    → blkidx < r.blkcnt + given answers
    → Returns (Grown r blkidx) (grow answers blkidx r)
unfolding grow
grow-Grown [] blkidx r v h =
    let test : leb r.blkcnt blkidx ≡ false = ground arith in
    let counted = v.counted in
    rw test (returns (record { valid = v; room = omega arith; same = λ fd. refl; log = refl }))
grow-Grown ((a, b) ∷ answers) blkidx r v h = elim (Bool-cases (leb r.blkcnt blkidx)) [
  | inl e ↦
      let w = alloc-Allocated a b r.blkcnt r.evblk r.log v in
      let count = w.count in
      rw e (
        Returns-map (grow-Grown answers blkidx (alloc a b r).0 w.valid (omega arith)) λ r' g.
          record {
            valid = g.valid;
            room = g.room;
            same = λ fd. g.same fd ∙ w.same fd;
            log = g.log ∙ w.log;
          })
  | inr e ↦
      let counted = v.counted in
      let enough : blkidx < r.blkcnt = ground arith in
      rw e (returns (record { valid = v; room = omega arith; same = λ fd. refl; log = refl }))
]

-- One event is replaced, all others stay, and the calls are logged.
pub record Replaced (fd : ℕ) (r : Reactor) (ev : Event) (calls : List Call) (r' : Reactor)
    : Type 0 where
  pub valid : IsReactor r'
  pub room : fd / 1024 < r'.blkcnt
  pub table_of : (j : ℕ) → table r' j ≡ (if fd == j then ev else table r j)
  pub log_of : r'.log ≡ r.log ++ calls

load_lem : (r : Reactor) (fd : ℕ) → fd / 1024 < length r.evblk → load r fd ≡ some (table r fd)
unfolding load table at_slot
load_lem r fd h = let (b, got) = get_block-some r.evblk (fd / 1024) h in rw got refl

store-Replaced :
    (r : Reactor) (fd : ℕ) (ev : Event)
    → IsReactor r
    → fd / 1024 < length r.evblk
    → Returns (Replaced fd r ev []) (store r fd ev)
unfolding store table at_slot
store-Replaced r fd ev v h =
    let (b, got) = get_block-some r.evblk (fd / 1024) h in
    let counted = v.counted in
    let kept = length-set_block r.evblk (fd / 1024) (update b (fd % 1024) ev) in
    rw got (
      returns (record {
        valid = record { counted = omega arith; some_block = v.some_block };
        room = omega arith;
        table_of =
            λ j. get_block-set_block r.evblk (fd / 1024) _ (j / 1024) (j % 1024) h ∙ slot b got j;
        log_of = sym (append-nil r.log);
      }))
  where
    slot :
        (b : Block)
        → get_block r.evblk (fd / 1024) ≡ some b
        → (j : ℕ)
        → (if fd / 1024 == j / 1024 then update b (fd % 1024) ev (j % 1024) else table r j)
          ≡ (if fd == j then ev else table r j)
    slot b got j = elim (Bool-cases (fd == j)) [
      | inl e ↦
          let same : fd ≡ j = ground arith in
          let block : (fd / 1024 == j / 1024) ≡ true = ground arith in
          let place : (fd % 1024 == j % 1024) ≡ true = ground arith in rw (block, place, e) refl
      | inr e ↦ elim (Bool-cases (fd / 1024 == j / 1024)) [
        | inl block ↦
            let same : fd / 1024 ≡ j / 1024 = ground arith in
            let place : (fd % 1024 == j % 1024) ≡ false = ground arith in
            rw (block, place, e, ← same, got) refl
        | inr block ↦ rw (block, e) refl
      ]
    ]

-- In a valid table where malloc gives blocks enough: a callback that looks up the event of a
-- descriptor, changes it and stores it ends without a fault, is given the event that the table
-- holds, all zeros before its block is allocated, and leaves a valid table with exactly this event
-- replaced, and its calls behind the log.
pub with_event-Replaced :
    (mallocs : List (Bool × Bool)) (fd : ℕ) (change : Event → Option Reply) (r : Reactor)
    (ev : Event) (calls : List Call)
    → IsReactor r
    → fd / 1024 < r.blkcnt + given mallocs
    → change (table r fd) ≡ some (ev, calls)
    → Returns (Replaced fd r ev calls) (with_event mallocs fd change r)
unfolding with_event find_event table
with_event-Replaced mallocs fd change r ev calls v h e =
    Returns-bind (found (grow-Grown mallocs (fd / 1024) r v h))
      λ p g. changed p.0 p.1 g.0 (ap change g.1 ∙ e)
  where
    found :
        {o : Option Reactor}
        → Returns (Grown r (fd / 1024)) o
        → Returns {A = Reactor × Event}
            (λ p. Grown r (fd / 1024) p.0 × (p.1 ≡ table r fd))
            (o >>= λ r1. load r1 fd >>= λ x. some (r1, x))
    found (returns {a = r1} g) = rw (load_lem r1 fd g.room) (returns (g, g.same fd))

    changed :
        (r1 : Reactor) (x : Event)
        → Grown r (fd / 1024) r1
        → change x ≡ some (ev, calls)
        → Returns
            (Replaced fd r ev calls)
            (change x >>= λ y. store r1 fd y.0 >>= λ r2. some (record r2 { log = r2.log ++ y.1 }))
    changed r1 x g c = rw c (
        Returns-bind (store-Replaced r1 fd ev g.valid g.room) λ r2 s.
          returns {a = record r2 { log = r2.log ++ calls }} (record {
            valid = record { counted = s.valid.counted; some_block = s.valid.some_block };
            room = s.room;
            table_of = λ j. s.table_of j ∙ ap (λ x. if fd == j then ev else x) (g.same j);
            log_of = ap (λ l. l ++ calls) (s.log_of ∙ append-nil r1.log ∙ g.log);
          }))
