-- ===== src/ThreadPool/Chain.antt =====
-- The lists that LL_ADD and LL_REMOVE keep, as sequences of addresses.
use c_c_linux_learning_code.Common.{
  ℕ, ◌≡◌, refl, sym, subst, true, false, Option, none, some, List, [], ◌∷◌, ◌==◌, Among, eq-true,
  eq-false, inl, inr,
}
use c_c_linux_learning_code.ThreadPool.{
  Node, Links, set_prev, set_next, ll_add, first_without, ll_remove,
}

-- The addresses form a list from `start` on, whose first node has `before` as its `prev`.
abbrev pub IsChain : (ℕ → Node) → Option ℕ → Option ℕ → List ℕ → Type 0
IsChain node before start [] = start ≡ none
IsChain node before start (x ∷ xs) =
    (start ≡ some x) × ((node x).prev ≡ before) × IsChain node (some x) (node x).next xs

abbrev pub IsUnique : List ℕ → Type 0
IsUnique [] = Unit
IsUnique (x ∷ xs) = ¬ Among x xs × IsUnique xs

-- The links hold exactly the addresses, in their order.
pub record IsList (l : Links) (xs : List ℕ) : Type 0 where
  pub chain : IsChain l.node none l.list xs
  pub unique : IsUnique xs

pub IsChain-frame :
    (node node' : ℕ → Node) (before start : Option ℕ) (xs : List ℕ)
    → ((y : ℕ) → Among y xs → node' y ≡ node y)
    → IsChain node before start xs
    → IsChain node' before start xs
IsChain-frame node node' before start [] same h = h
IsChain-frame node node' before start (x ∷ xs) same h =
    let e = same x (inl refl) in
    let there = IsChain-frame node node' (some x) (node x).next xs (λ y m. same y (inr m)) h.2 in
    (h.0, rw e h.1, rw e there)

same : (a : ℕ) → (a == a) ≡ true
same a = eq-true refl

apart : (x y : ℕ) (xs : List ℕ) → ¬ Among x xs → Among y xs → (x == y) ≡ false
apart x y xs out m = eq-false (λ e. out (subst (λ k. Among k xs) (sym e) m))

ll_add-other :
    (l : Links) (item x y : ℕ)
    → l.list ≡ some x
    → (item == y) ≡ false
    → (x == y) ≡ false
    → (ll_add item l).node y ≡ l.node y
unfolding ll_add set_prev
ll_add-other l item x y first no_item no_first = rw (first, no_item, no_first) refl

pub ll_add-IsList :
    (l : Links) (item : ℕ) (xs : List ℕ)
    → IsList l xs
    → ¬ Among item xs
    → IsList (ll_add item l) (item ∷ xs)
unfolding ll_add set_prev
ll_add-IsList l item [] h new = record {
  chain = rw (h.chain, same item) (refl, refl, refl);
  unique = (new, tt);
}
ll_add-IsList l item (x ∷ xs) h new =
    let other : (item == x) ≡ false = eq-false (λ e. new (inl e)) in
    let back : (x == item) ≡ false = eq-false (λ e. new (inl (sym e))) in
    let rest =
      IsChain-frame l.node (ll_add item l).node (some x) (l.node x).next xs
        (λ y m.
          ll_add-other l item x y h.chain.0 (apart item y xs (λ a. new (inr a)) m)
            (apart x y xs h.unique.0 m))
        h.chain.2 in
    record {
      chain = rw (h.chain.0, same x, same item, other, back) (refl, refl, (refl, refl, rest));
      unique = (new, h.unique);
    }

ll_remove-other :
    (l : Links) (item x y : ℕ)
    → (l.node item).prev ≡ none
    → (l.node item).next ≡ some x
    → (item == y) ≡ false
    → (x == y) ≡ false
    → (ll_remove item l).node y ≡ l.node y
unfolding ll_remove set_prev set_next
ll_remove-other l item x y first next no_item no_next = rw (first, next, no_item, no_next) refl

-- LL_REMOVE of the first.
pub ll_remove-first :
    (l : Links) (item : ℕ) (xs : List ℕ) → IsList l (item ∷ xs) → IsList (ll_remove item l) xs
unfolding ll_remove set_prev set_next first_without
ll_remove-first l item [] h = record {
  chain = rw (h.chain.1, h.chain.2, h.chain.0, same item, h.chain.2) refl;
  unique = tt;
}
ll_remove-first l item (x ∷ xs) h =
    let other : (item == x) ≡ false = eq-false (λ e. h.unique.0 (inl e)) in
    let back : (x == item) ≡ false = eq-false (λ e. h.unique.0 (inl (sym e))) in
    let rest =
      IsChain-frame l.node (ll_remove item l).node (some x) (l.node x).next xs
        (λ y m.
          ll_remove-other l item x y h.chain.1 h.chain.2.0
            (apart item y xs (λ a. h.unique.0 (inr a)) m) (apart x y xs h.unique.1.0 m))
        h.chain.2.2 in
    record {
      chain =
          rw (h.chain.1, h.chain.2.0, h.chain.0, same item, same x, other, back)
            (h.chain.2.0, h.chain.1, rest);
      unique = h.unique.1;
    }
