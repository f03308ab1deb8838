-- ===== src/ThreadPool/Create.antt =====
-- What thread_poll_create returns.
use c_c_linux_learning_code.Common.{
  ℕ, zero, suc, ◌+◌, ◌≤◌, ◌≡◌, refl, ap, subst, arith, List, [], ◌∷◌, if◌then◌else◌, ltb, length,
  Returns, returns, Returns-if, Option-cases, inl, inr,
}
use c_c_linux_learning_code.ThreadPool.{Answer, create_loop, create}

-- At least one thread is asked for.
abbrev pub asked : ℕ → ℕ
asked thread_num = if ltb thread_num 1 then 1 else thread_num

-- The number that is returned is that of the workers, of whom `n` more may come.
abbrev IsCounted : ℕ → ℕ × List ℕ → Type 0
IsCounted most r = (length r.1 ≡ r.0) × (r.0 ≤ most)

create_loop-IsCounted :
    (n idx : ℕ) (workers : List ℕ) (answers : List Answer)
    → n ≤ length answers
    → length workers ≡ idx
    → Returns (IsCounted (n + idx)) (create_loop n idx workers answers)
unfolding create_loop
create_loop-IsCounted zero idx workers answers enough h = returns (h, omega arith)
create_loop-IsCounted (suc n) idx workers [] enough h = absurd (omega arith)
create_loop-IsCounted (suc n) idx workers (a ∷ answers) enough h = elim (Option-cases a.malloc) [
  | inl e ↦ rw e (returns (h, omega arith))
  | inr (w, e) ↦
      let rest = create_loop-IsCounted n (suc idx) (w ∷ workers) answers (omega arith) (ap suc h) in
      let most : n + suc idx ≡ suc n + idx = omega arith in
      rw e (Returns-if a.created (λ _. rw (← most) rest) (λ _. returns (h, omega arith)))
]

-- With an answer of malloc and pthread_create for each thread asked for, one at least,
-- thread_poll_create returns, wherever an answer fails, the number of workers that it has listed,
-- which is at most the number asked for.
pub create_counts :
    (thread_num : ℕ) (answers : List Answer)
    → asked thread_num ≤ length answers
    → Returns (λ r. (length r.1 ≡ r.0) × (r.0 ≤ asked thread_num)) (create thread_num answers)
unfolding create
create_counts thread_num answers enough =
    let counted = create_loop-IsCounted (asked thread_num) 0 [] answers enough refl in
    let most : asked thread_num + 0 ≡ asked thread_num = omega arith in
    subst (λ m. Returns (IsCounted m) (create thread_num answers)) most counted
