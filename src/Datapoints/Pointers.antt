-- ===== src/Datapoints/Pointers.antt =====
-- The search of `deleteNode` along the pointers, and the chain without a node.
use std.Path.{subst}
use a2pm.Common.{
  ℕ, zero, suc, ◌≤◌, ◌≡◌, ◌≢◌, refl, ap, sym, ◌∙◌, inl, inr, arith, Bool, true, false, Option, none,
  some, List, [], ◌∷◌, ◌++◌, if◌then◌else◌, ◌==◌, Bool-cases, length,
}
use a2pm.Common.Family.{update, update_self, update_other}
use a2pm.Datapoints.{Node, Heap, Search, found, absent, search_loop}
use a2pm.Datapoints.Sequences.{IsFresh, AreDistinct, last_node, IsFresh-last, IsFresh-before}
use a2pm.Datapoints.Insertion.{IsChain, IsChain-update}

-- Without the first node that passes the test.
abbrev pub erase_first : (ℕ → Bool) → List ℕ → List ℕ
erase_first test [] = []
erase_first test (x ∷ xs) = if test x then xs else x ∷ erase_first test xs

unfoldable pub NonePass : (ℕ → Bool) → List ℕ → Type 0
NonePass test [] = Unit {0}
NonePass test (x ∷ xs) = (test x ≡ false) × NonePass test xs

pub erase_first-none : (test : ℕ → Bool) (xs : List ℕ) → NonePass test xs → erase_first test xs ≡ xs
unfolding NonePass
erase_first-none test [] h = refl
erase_first-none test (x ∷ xs) (missed, h) =
    rw missed (ap (λ l. x ∷ l) (erase_first-none test xs h))

pub erase_first-split :
    (test : ℕ → Bool) (before : List ℕ) (t : ℕ) (after : List ℕ)
    → NonePass test before
    → test t ≡ true
    → erase_first test (before ++ t ∷ after) ≡ before ++ after
unfolding NonePass
erase_first-split test [] t after h hit = rw hit refl
erase_first-split test (x ∷ before) t after (missed, h) hit =
    rw missed (ap (λ l. x ∷ l) (erase_first-split test before t after h hit))

-- What the search has as the predecessor of `t` behind `before`, if it starts behind `tp`.
abbrev pub predecessor : Option ℕ → List ℕ → ℕ → ℕ
predecessor tp [] t = elim tp [ none ↦ t | some b ↦ b ]
predecessor tp (x ∷ before) t = predecessor (some x) before t

pub predecessor-last :
    (b : ℕ) (bs : List ℕ) (t : ℕ) → last_node (b ∷ bs) ≡ some (predecessor (some b) bs t)
predecessor-last b [] t = refl
predecessor-last b (c ∷ bs) t = predecessor-last c bs t

pub some_inj : {A : Type 0} {x y : A} → some x ≡ some y → x ≡ y
some_inj e = cc

pub differ : (t tp : ℕ) → t ≢ tp → (t == tp) ≡ false
differ t tp ne = ground arith

module _ {D : Type 0} where
  -- Whether the key of a node is the one looked for.
  abbrev pub holds : (D → Bool) → Heap D → ℕ → Bool
  holds is_key h x = elim (h x) [ none ↦ false | some n ↦ is_key n.datapoint ]

  pub data Split (is_key : D → Bool) (h : Heap D) (tp : Option ℕ) (xs : List ℕ)
      : Search → Type 0 where
    nowhere : {r : Search} → r ≡ absent → NonePass (holds is_key h) xs → Split is_key h tp xs r
    somewhere :
        {r : Search} (before : List ℕ) (t : ℕ) (after : List ℕ)
        → xs ≡ before ++ t ∷ after
        → NonePass (holds is_key h) before
        → holds is_key h t ≡ true
        → r ≡ found t (predecessor tp before t)
        → Split is_key h tp xs r

  behind :
      (is_key : D → Bool) (h : Heap D) (tp : Option ℕ) (x : ℕ) (xs : List ℕ) {r : Search}
      → holds is_key h x ≡ false
      → Split is_key h (some x) xs r
      → Split is_key h tp (x ∷ xs) r
  unfolding NonePass
  behind is_key h tp x xs missed (nowhere e none_pass) = nowhere e (missed, none_pass)
  behind is_key h tp x xs missed (somewhere before t after e none_pass hit r) =
      somewhere (x ∷ before) t after (ap (λ l. x ∷ l) e) (missed, none_pass) hit r

  pub search_loop-Split :
      (rounds : ℕ) (is_key : D → Bool) (p tp : Option ℕ) (h : Heap D) (xs : List ℕ)
      → IsChain h p xs
      → length xs ≤ rounds
      → Split is_key h tp xs (search_loop rounds is_key p tp h)
  unfolding search_loop IsChain NonePass
  search_loop-Split rounds is_key p tp h [] c enough = nowhere (rw c refl) tt
  search_loop-Split zero is_key p tp h (x ∷ xs) c enough = absurd (omega arith)
  search_loop-Split (suc rounds) is_key p tp h (x ∷ xs) (e, (n, at, c)) enough =
      elim (Bool-cases (is_key n.datapoint)) [
        | inl hit ↦
            somewhere [] x xs refl tt (rw (holds, at) hit)
              (rw (e, search_loop) (rw at (rw hit refl)))
        | inr miss ↦
            let rest = search_loop rounds is_key n.next (some x) h in
            let on : search_loop (suc rounds) is_key p tp h ≡ rest =
              rw (e, search_loop) (rw at (rw miss refl)) in
            rw on (
              behind is_key h tp x xs (rw (holds, at) miss)
                (search_loop-Split rounds is_key n.next (some x) h xs c (omega arith)))
      ]

  -- The chain with `t` taken out behind its predecessor.
  pub IsChain-cut :
      (h : Heap D) (p : Option ℕ) (b : ℕ) (bs : List ℕ) (t : ℕ) (after : List ℕ) (tp : ℕ)
      (node : Node D)
      → last_node (b ∷ bs) ≡ some tp
      → AreDistinct ((b ∷ bs) ++ t ∷ after)
      → h t ≡ some node
      → IsChain h p ((b ∷ bs) ++ t ∷ after)
      → (m : Node D) × (h tp ≡ some m)
        × IsChain (update h tp (some (record m { next = node.next }))) p ((b ∷ bs) ++ after)
        × IsChain h node.next after
  unfolding IsChain
  IsChain-cut h p b [] t after tp node last (f, d) at (pb, (m, hb, (mt, (node', at', c)))) =
      let same_node : some node' ≡ some node = sym at' ∙ at in
      let next : node'.next ≡ node.next = ap (λ n. n.next) (some_inj same_node) in
      let here : b ≡ tp = some_inj last in
      let rest : IsChain h node.next after = rw next at c in
      let fresh : IsFresh tp after = subst (λ z. IsFresh z after) here f.1 in
      (
        m,
        rw here at hb,
        (
          pb,
          (
            record m { next = node.next },
            rw here (update_self h tp _),
            IsChain-update h node.next after tp _ fresh rest,
          ),
        ),
        rest,
      )
  IsChain-cut h p b (c ∷ bs) t after tp node last (f, d) at (pb, (m, hb, chain)) =
      let (m', htp, cut, rest) = IsChain-cut h m.next c bs t after tp node last d at chain in
      let fresh = IsFresh-before b (c ∷ bs) (t ∷ after) f in
      (
        m',
        htp,
        (
          pb,
          (
            m,
            update_other h tp b _ (λ same. IsFresh-last b (c ∷ bs) tp fresh last (sym same)) ∙ hb,
            cut,
          ),
        ),
        rest,
      )
