-- ===== src/HeapTimer/Expire.antt =====
-- expire_timer and find_nearest_expire_timer.
use mathlib.Core.Path.{fun_ext}
use c_c_linux_learning_code.Common.{
  ℕ, zero, suc, ◌+◌, ◌≤◌, ◌<◌, ◌≡◌, inl, inr, refl, ◌∙◌, some, List, [], ◌∷◌, arith, ltb, Among,
  All-of_Among, IsSortedBy, length, Returns, returns, Returns-bind, Returns-if, subst,
}
use c_c_linux_learning_code.MinHeap.{MinHeap}
use c_c_linux_learning_code.MinHeap.Order.{time, IsValid, Holds}
use c_c_linux_learning_code.MinHeap.Holding.{Holding}
use c_c_linux_learning_code.MinHeap.Remove.{top-least, pop-Removed, Removed}
use c_c_linux_learning_code.HeapTimer.{Callback, expire_loop, expire_timer}

-- A callback that leaves the heap alone, as `hello_world` of mh-timer.c does.
abbrev pub IsQuiet : Callback → Type 0
IsQuiet callback = (h te : ℕ) (s : MinHeap) → callback h te s ≡ some s

-- What a round of expiry at the time `cur` does to the heap `s`: it fires the entries that are due,
-- each once and in the order of their times, and the heap `r` holds the others.
pub record Fired (s : MinHeap) (cur : ℕ) (fired : List ℕ) (r : MinHeap) : Type 0 where
  pub rest : Holding s r (λ x. Holds s x × (cur < time s x))
  pub due : (x : ℕ) → Holds s x → time s x ≤ cur → Among x fired
  pub sound : (x : ℕ) → Among x fired → Holds s x × (time s x ≤ cur)
  pub sorted : IsSortedBy (time s) fired
  pub count : length fired + r.n ≡ s.n

module _ (s : MinHeap) (cur : ℕ) (v : IsValid s) where
  nothing_due : ((x : ℕ) → Holds s x → cur < time s x) → Fired s cur [] s
  nothing_due h = record {
    rest = record { valid = v; times = λ x. refl; kept = λ x k. k.0; only = λ x k. (k, h x k) };
    due = λ x k d. absurd (omega (arith, h x k));
    sound = λ x m. absurd m;
    sorted = tt;
    count = omega arith;
  }

  module _ (te : ℕ) (held : Holds s te) (over : time s te ≤ cur)
      (least : (x : ℕ) → Holds s x → time s te ≤ time s x) {s2 : MinHeap}
      (removed : Removed s te s2) where
    open removed.2 use {times, kept, only}

    one_more : {fired : List ℕ} {r : MinHeap} → Fired s2 cur fired r → Fired s cur (te ∷ fired) r
    one_more {fired} {r} q = record {
      rest = record {
        valid = q.rest.valid;
        times = λ x. q.rest.times x ∙ times x;
        kept = λ x k. q.rest.kept x (ground (arith, kept x, times x));
        only = λ x k. ground (arith, q.rest.only x k, only x, times x);
      };
      due = λ x k d. ground (arith, kept x, times x, q.due x);
      sound = λ x m. sound_at x m;
      sorted = (
        All-of_Among fired (λ x m. least x (later x m).0),
        subst (λ t. IsSortedBy t fired) (fun_ext times) q.sorted,
      );
      count = omega (arith, q.count, removed.0);
    }
      where
        later : (x : ℕ) → Among x fired → Holds s x × (time s x ≤ cur)
        later x m = ground (arith, q.sound x m, only x, times x)

        sound_at : (x : ℕ) → Among x (te ∷ fired) → Holds s x × (time s x ≤ cur)
        sound_at x (inl e) = rw e (held, over)
        sound_at x (inr m) = later x m

expire_loop-Fired :
    (callback : Callback) (f cur : ℕ) (s : MinHeap)
    → IsQuiet callback
    → IsValid s
    → s.n < f
    → Returns (λ (fired, r). Fired s cur fired r) (expire_loop callback f cur s)
unfolding expire_loop
expire_loop-Fired callback zero cur s quiet v h = absurd (omega arith)
expire_loop-Fired callback (suc f) cur s quiet v h = elim (top-least s v) [
  | inl (none_left, e) ↦ rw e (returns (nothing_due s cur v (λ x k. absurd (omega (arith, k.0)))))
  | inr (pos, e, held, least) ↦ rw e (
      Returns-if (ltb cur (time s (s.p 0)))
        (λ early. returns (nothing_due s cur v (λ x k. ground (arith, least x k))))
        (λ now. rw (quiet (s.entry (s.p 0)).handler (s.p 0) s) (
          Returns-bind (pop-Removed s v pos) λ (x, s2) (_, _, removed).
            Returns-bind
              (expire_loop-Fired callback f cur s2 quiet removed.2.valid (omega (arith, removed.0)))
              λ (fired, r) q.
                returns (one_more s cur v (s.p 0) held (ground arith) least removed q))))
]

-- On a valid heap, and with callbacks that leave it alone, expire_timer ends without a fault. It
-- calls the handlers of exactly the entries whose time is not after `cur`, in ascending order of
-- time, as many times as entries leave the heap, and leaves a valid heap of exactly the other
-- entries, with their times.
pub expire_timer-Fired :
    (callback : Callback) (s : MinHeap) (cur : ℕ)
    → IsQuiet callback
    → IsValid s
    → Returns (λ (fired, r). Fired s cur fired r) (expire_timer callback s cur)
unfolding expire_timer
expire_timer-Fired callback s cur quiet v =
    expire_loop-Fired callback (s.n + 1) cur s quiet v (omega arith)
