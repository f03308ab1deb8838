-- ===== src/SingleWheel/Heard.antt =====
-- A heartbeat in a valid wheel: the search for a node, and the wheel after it.
use c_c_linux_learning_code.Common.{
  none≢some, ℕ, zero, suc, ◌+◌, ◌%◌, ◌≤◌, ◌<◌, ◌≡◌, ◌≢◌, refl, sym, ap, ◌∙◌, subst, arith, false,
  none, some, [], ◌∷◌, ◌++◌, ◌==◌, if◌then◌else◌, update, Among, Among-append, inl, inr, ◌⊎◌,
  eq-true, eq-false, ltb-true, ltb-false,
}
use mathlib.Core.Option.{some-injective}
use c_c_linux_learning_code.SingleWheel.{
  TimerNode, Wheel, max_timer, timer_search, raise_used, append,
}
use c_c_linux_learning_code.SingleWheel.Counts.{
  uses, pending, uses-frame, uses-append, total-change, eq-cases,
}
use c_c_linux_learning_code.SingleWheel.Valid.{IsValid}

pub lt-cases : (a b : ℕ) → (a < b) ⊎ (b ≤ a)
lt-cases a b = ground arith

pub timer_search-free :
    (f : ℕ) (nodes : ℕ → TimerNode) (i j : ℕ)
    → 0 < i
    → i < 131072
    → timer_search f nodes i ≡ some j
    → (0 < j) × (j < max_timer) × ((nodes j).idx ≡ 0)
unfolding timer_search
timer_search-free zero nodes i j low high e = absurd (none≢some e)
timer_search-free (suc f) nodes i j low high e =
    let here : i % 131072 ≡ i = omega arith in
    let next : (i + 1) % 4294967296 ≡ i + 1 = omega arith in
    elim (lt-cases i max_timer) [
      | inl inside ↦
          let test = ltb-true inside in
          elim (lt-cases 0 (nodes i).idx) [
            | inl used ↦
                let step : timer_search (suc f) nodes i ≡ timer_search f nodes (i + 1) =
                  rw (here, test, ltb-true used, next) refl in
                timer_search-free f nodes (i + 1) j (omega arith) (omega arith) (sym step ∙ e)
            | inr free ↦
                let step : timer_search (suc f) nodes i ≡ some i =
                  rw (here, test, ltb-false free) refl in
                let idle : (nodes i).idx ≡ 0 = omega arith in
                subst (λ k. (0 < k) × (k < max_timer) × ((nodes k).idx ≡ 0))
                  (some-injective i j (sym step ∙ e)) (low, inside, idle)
          ]
      | inr outside ↦
          let step : timer_search (suc f) nodes i ≡ none = rw (here, ltb-false outside) refl in
          absurd (none≢some (sym step ∙ e))
    ]

-- The wheel after a heartbeat that takes the node `j`.
unfoldable pub heard : Wheel → ℕ → ℕ → ℕ → Wheel
unfolding append raise_used
heard w c j slot =
    append
      (raise_used
        (record w {
          t_iter = j;
          timer_nodes = update w.timer_nodes j (record (w.timer_nodes j) { idx = j });
        })
        c)
      j c slot

module _ (w : Wheel) (c j slot : ℕ) (v : IsValid w) (low : 0 < j)
    (free : (w.timer_nodes j).idx ≡ 0) where
  unlisted : (s t : ℕ) → Among t (w.tw s) → j ≢ t
  unlisted s t m e =
      let marked = v.marked s t m in
      let same : (w.timer_nodes j).idx ≡ (w.timer_nodes t).idx =
        ap (λ k. (w.timer_nodes k).idx) e in
      omega arith

  heard-other : (t : ℕ) → j ≢ t → ((heard w c j slot).timer_nodes t) ≡ w.timer_nodes t
  unfolding append raise_used heard
  heard-other t other = rw (eq-false other) refl

  heard-new : ((heard w c j slot).timer_nodes j) ≡ record { node = c; idx = j }
  unfolding append raise_used heard
  heard-new = rw (eq-true {a = j} refl) refl

  heard-list : (s : ℕ) → s ≢ slot → (heard w c j slot).tw s ≡ w.tw s
  unfolding append raise_used heard
  heard-list s other =
      let test : (slot == s) ≡ false = eq-false (λ e. other (sym e)) in rw test refl

  heard-slot : (heard w c j slot).tw slot ≡ w.tw slot ++ j ∷ []
  unfolding append raise_used heard
  heard-slot = rw (eq-true {a = slot} refl) refl

  heard-used :
      (d : ℕ)
      → ((heard w c j slot).conn_nodes d).used
        ≡ (if c == d then ((w.conn_nodes d).used + 1) % 256 else (w.conn_nodes d).used)
  unfolding append raise_used heard
  heard-used d = elim (eq-cases c d) [
    | inl e ↦
        let same : (w.conn_nodes c).used ≡ (w.conn_nodes d).used =
          ap (λ k. (w.conn_nodes k).used) e in
        rw (eq-true e, same) refl
    | inr e ↦ rw (eq-false e) refl
  ]

  -- What is listed after the heartbeat.
  heard-Among :
      (s t : ℕ) → Among t ((heard w c j slot).tw s) → Among t (w.tw s) ⊎ ((s ≡ slot) × (t ≡ j))
  heard-Among s t m = elim (eq-cases s slot) [
    | inl e ↦
        let listed : (heard w c j slot).tw s ≡ w.tw s ++ j ∷ [] =
          subst (λ k. (heard w c j slot).tw k ≡ w.tw k ++ j ∷ []) (sym e) heard-slot in
        elim (Among-append t (w.tw s) (j ∷ []) (subst (λ ts. Among t ts) listed m)) [
          | inl m' ↦ inl m'
          | inr (inl f) ↦ inr (e, f)
          | inr (inr m') ↦ elim m' [ ]
        ]
    | inr e ↦ inl (subst (λ ts. Among t ts) (heard-list s e) m)
  ]

  heard-uses :
      (d s : ℕ) → uses (heard w c j slot).timer_nodes d (w.tw s) ≡ uses w.timer_nodes d (w.tw s)
  heard-uses d s =
      uses-frame w.timer_nodes (heard w c j slot).timer_nodes d (w.tw s)
        (λ t m. ap (λ n. TimerNode.node n) (heard-other t (unlisted s t m)))

  heard-pending :
      (d : ℕ) → slot < 16 → pending (heard w c j slot) d ≡ (if c == d then 1 else 0) + pending w d
  heard-pending d less =
      let nodes = (heard w c j slot).timer_nodes in
      let one : uses nodes d (j ∷ []) ≡ (if c == d then 1 else 0) = rw heard-new (omega arith) in
      let more : uses nodes d ((heard w c j slot).tw slot)
          ≡ uses w.timer_nodes d (w.tw slot) + (if c == d then 1 else 0) =
        rw (heard-slot, uses-append nodes d (w.tw slot) (j ∷ []), heard-uses d slot, one) refl in
      let change =
        total-change 16 slot (λ s. uses w.timer_nodes d (w.tw s))
          (λ s. uses nodes d ((heard w c j slot).tw s)) less
          (λ s other. rw (heard-list s other) (sym (heard-uses d s))) in
      omega arith

  heard-counted :
      (w.conn_nodes c).used < 255
      → slot < 16
      → (d : ℕ)
      → (((heard w c j slot).conn_nodes d).used ≡ pending (heard w c j slot) d)
        × (((heard w c j slot).conn_nodes d).used < 256)
  heard-counted few less d =
      let before = v.counts d in
      let small = v.small d in
      elim (eq-cases c d) [
        | inl e ↦
            let few' : (w.conn_nodes d).used < 255 =
              subst (λ k. (w.conn_nodes k).used < 255) e few in
            let used : ((heard w c j slot).conn_nodes d).used ≡ ((w.conn_nodes d).used + 1) % 256 =
              heard-used d ∙ rw (eq-true e) refl in
            let timers : pending (heard w c j slot) d ≡ 1 + pending w d =
              heard-pending d less ∙ rw (eq-true e) refl in
            (omega arith, omega arith)
        | inr e ↦
            let used : ((heard w c j slot).conn_nodes d).used ≡ (w.conn_nodes d).used =
              heard-used d ∙ rw (eq-false e) refl in
            let timers : pending (heard w c j slot) d ≡ 0 + pending w d =
              heard-pending d less ∙ rw (eq-false e) refl in
            (omega arith, omega arith)
      ]

  pub heard-IsValid :
      (w.conn_nodes c).used < 255 → j < max_timer → slot < 16 → IsValid (heard w c j slot)
  unfolding heard append raise_used
  heard-IsValid few inside less = record {
    counts = λ d. (heard-counted few less d).0;
    small = λ d. (heard-counted few less d).1;
    marked = λ s t m. elim (heard-Among s t m) [
      | inl m' ↦ rw (heard-other t (unlisted s t m')) (v.marked s t m')
      | inr (_, e) ↦
          subst (λ k. 0 < ((heard w c j slot).timer_nodes k).idx) (sym e) (rw heard-new low)
    ];
    apart = λ s r t m l. elim (heard-Among s t m) [
      | inl m' ↦ elim (heard-Among r t l) [
        | inl l' ↦ v.apart s r t m' l'
        | inr (_, e) ↦ absurd (unlisted s t m' (sym e))
      ]
      | inr (at_slot, e) ↦ elim (heard-Among r t l) [
        | inl l' ↦ absurd (unlisted r t l' (sym e))
        | inr (at_slot', _) ↦ at_slot ∙ sym at_slot'
      ]
    ];
    iter = inside;
  }
