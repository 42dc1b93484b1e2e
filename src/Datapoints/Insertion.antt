-- ===== src/Datapoints/Insertion.antt =====
-- `insertFront` and `insertRear` on lists that represent a sequence of nodes.
use a2pm.Common.{ℕ, ◌≡◌, refl, sym, ◌∙◌, arith, Option, none, some, List, [], ◌∷◌, ◌++◌}
use a2pm.Common.Family.{update, update_self, update_other}
use a2pm.Datapoints.Sequences.{
  IsFresh, AreDistinct, last_node, last_node-some, last_node-snoc, AreDistinct-snoc, IsFresh-last,
}
use a2pm.Datapoints.{Node, NodeList, Heap, write_next, with_list, insert_front, insert_rear}

module _ {D : Type 0} where
  -- From the pointer `p`, the nodes are `xs` in their order, and the last points nowhere.
  unfoldable pub IsChain : Heap D → Option ℕ → List ℕ → Type 0
  IsChain h p [] = p ≡ none
  IsChain h p (x ∷ xs) = (p ≡ some x) × ((n : Node D) × (h x ≡ some n) × IsChain h n.next xs)

  -- The list consists of the nodes `xs`.
  pub record IsList (h : Heap D) (l : NodeList) (xs : List ℕ) : Type 0 where
    pub chain : IsChain h l.head xs
    pub distinct : AreDistinct xs
    pub ends : l.tail ≡ last_node xs

  pub IsChain-update :
      (h : Heap D) (p : Option ℕ) (xs : List ℕ) (a : ℕ) (v : Option (Node D))
      → IsFresh a xs
      → IsChain h p xs
      → IsChain (update h a v) p xs
  unfolding IsChain
  IsChain-update h p [] a v f c = c
  IsChain-update h p (x ∷ xs) a v (ne, f) (e, (n, at, c)) =
      (e, (n, update_other h a x v ne ∙ at, IsChain-update h n.next xs a v f c))

  -- A node that points nowhere, hung on the last one.
  IsChain-snoc :
      (h : Heap D) (p : Option ℕ) (xs : List ℕ) (a b : ℕ) (n : Node D)
      → AreDistinct xs
      → IsFresh a xs
      → last_node xs ≡ some b
      → h a ≡ some n
      → n.next ≡ none
      → IsChain h p xs
      → (m : Node D) × (h b ≡ some m)
        × IsChain (update h b (some (record m { next = some a }))) p (xs ++ a ∷ [])
  unfolding IsChain
  IsChain-snoc h p [] a b n d f e at end c = absurd (ground (arith, e))
  IsChain-snoc h p (x ∷ []) a b n d (ne, f) e at end (px, (m, hx, c)) =
      let same : x ≡ b = ground (arith, e) in
      (
        m,
        rw same at hx,
        (
          px,
          (
            record m { next = some a },
            rw same (update_self h b _),
            (refl, (n, update_other h b a _ (λ e'. ne (sym (same ∙ e'))) ∙ at, end)),
          ),
        ),
      )
  IsChain-snoc h p (x ∷ y ∷ xs) a b n (fx, d) (ne, f) e at end (px, (m, hx, c)) =
      let (mb, hb, chain) = IsChain-snoc h m.next (y ∷ xs) a b n d f e at end c in
      (
        mb,
        hb,
        (
          px,
          (m, update_other h b x _ (λ same. IsFresh-last x (y ∷ xs) b fx e (sym same)) ∙ hx, chain),
        ),
      )

  pub write_next-some :
      (h : Heap D) (t : ℕ) (p : Option ℕ) (m : Node D)
      → h t ≡ some m
      → write_next t p h ≡ some (update h t (some (record m { next = p })))
  unfolding write_next
  write_next-some h t p m e = rw (write_next, e) refl

  -- `insertRear` of a node that is not in the list and points nowhere: the list is the same with the
  -- node at its end.
  pub insert_rear-IsList :
      (h : Heap D) (l : NodeList) (xs : List ℕ) (a : ℕ) (n : Node D)
      → IsList h l xs
      → IsFresh a xs
      → h a ≡ some n
      → n.next ≡ none
      → (l' : NodeList) × (h' : Heap D) × (insert_rear l a h ≡ some (l', h'))
        × IsList h' l' (xs ++ a ∷ [])
  unfolding insert_rear with_list IsChain
  insert_rear-IsList h l [] a n w f at end = (
    record { head = some a; tail = some a },
    h,
    rw w.chain refl,
    record { chain = (refl, (n, at, end)); distinct = (tt, tt); ends = refl },
  )
  insert_rear-IsList h l (x ∷ xs) a n w f at end =
      let (b, lb) = last_node-some x xs in
      let tail : l.tail ≡ some b = w.ends ∙ lb in
      let (m, hb, chain) = IsChain-snoc h l.head (x ∷ xs) a b n w.distinct f lb at end w.chain in
      (
        record l { tail = some a },
        update h b (some (record m { next = some a })),
        rw (w.chain.0, tail, write_next-some h b (some a) m hb) refl,
        record {
          chain = chain;
          distinct = AreDistinct-snoc (x ∷ xs) a w.distinct f;
          ends = sym (last_node-snoc (x ∷ xs) a);
        },
      )

  -- `insertFront` of a node that is not in the list and points nowhere: the list is the same behind
  -- the node.
  pub insert_front-IsList :
      (h : Heap D) (l : NodeList) (xs : List ℕ) (a : ℕ) (n : Node D)
      → IsList h l xs
      → IsFresh a xs
      → h a ≡ some n
      → n.next ≡ none
      → (l' : NodeList) × (h' : Heap D) × (insert_front l a h ≡ some (l', h'))
        × IsList h' l' (a ∷ xs)
  unfolding insert_front with_list IsChain
  insert_front-IsList h l [] a n w f at end = (
    record { head = some a; tail = some a },
    h,
    rw w.chain refl,
    record { chain = (refl, (n, at, end)); distinct = (tt, tt); ends = refl },
  )
  insert_front-IsList h l (x ∷ xs) a n w f at end = (
    record l { head = some a },
    update h a (some (record n { next = some x })),
    rw (w.chain.0, write_next-some h a (some x) n at) refl,
    record {
      chain = (
        refl,
        (
          record n { next = some x },
          update_self h a _,
          IsChain-update h (some x) (x ∷ xs) a _ f (refl, w.chain.1),
        ),
      );
      distinct = (f, w.distinct);
      ends = w.ends;
    },
  )
