-- ===== src/Datapoints/Runs.antt =====
-- model_build/aggregate.c: a run is built by `malloc`, `memcpy` and `insertRear`. It is a list of
-- datapoints, which is how Aggregation takes it.
use mathlib.Core.List.{append_assoc, append-nil}
use a2pm.Common.{
  ℕ, ◌≡◌, ◌≢◌, refl, sym, ◌∙◌, inl, inr, arith, Option, none, some, List, [], ◌∷◌, ◌++◌, map, ◌⊎◌,
  ◌≤◌, length,
}
use a2pm.Common.Family.{update, update_self, update_other}
use a2pm.Datapoints.Sequences.{IsFresh, AreDistinct, AreDistinct-without, IsFresh-before}
use a2pm.Datapoints.Insertion.{IsChain, IsChain-update, IsList, insert_rear-IsList, write_next-some}
use a2pm.Datapoints.{Node, NodeList, Heap, init_list, with_list, insert_rear}
use a2pm.Datapoints.Held.{
  datapoint_at, Hold, Hold-same, Hold-update, Hold-snoc, insert_rear-datapoint,
}

module _ {D : Type 0} where
  -- A copy of the datapoint read, at the address that `malloc` gives, hung on the end. `next` is what
  -- the pointer of the datapoint read holds.
  unfoldable pub insert_new :
      (address : ℕ) → D → (next : Option ℕ) → NodeList → Heap D → Option (NodeList × Heap D)
  insert_new address p next l h =
      insert_rear l address (update h address (some (record { datapoint = p; next = next })))

  -- After each copy, `bzero` clears the pointer.
  unfoldable pub insert_points :
      (next : Option ℕ) → List (ℕ × D) → NodeList → Heap D → Option (NodeList × Heap D)
  unfolding insert_new
  insert_points next [] l h = some (l, h)
  insert_points next ((address, p) ∷ more) l h = elim (insert_new address p next l h) [
    | none ↦ none
    | some (l', h') ↦ insert_points none more l' h'
  ]

  record Inserted (xs : List ℕ) (ps : List D) (result : Option (NodeList × Heap D)) : Type 0 where
    list : NodeList
    heap : Heap D
    returned : result ≡ some (list, heap)
    chain : IsList heap list xs
    held : Hold heap xs ps

  insert_new-Inserted :
      (a : ℕ) (p : D) (l : NodeList) (h : Heap D) (xs : List ℕ) (ps : List D)
      → IsFresh a xs
      → IsList h l xs
      → Hold h xs ps
      → Inserted (xs ++ a ∷ []) (ps ++ p ∷ []) (insert_new a p none l h)
  unfolding insert_new
  insert_new-Inserted a p l h xs ps fresh w k =
      let new : Node D = record { datapoint = p; next = none } in
      let h₁ = update h a (some new) in
      let at : h₁ a ≡ some new = update_self h a (some new) in
      let w₁ : IsList h₁ l xs = record {
        chain = IsChain-update h l.head xs a (some new) fresh w.chain;
        distinct = w.distinct;
        ends = w.ends;
      } in
      let (l', h', e, w') = insert_rear-IsList h₁ l xs a new w₁ fresh at refl in
      let here : datapoint_at h₁ a ≡ some p = rw (at, datapoint_at) refl in
      record {
        list = l';
        heap = h';
        returned = e;
        chain = w';
        held =
            Hold-same h₁ h' (xs ++ a ∷ []) (ps ++ p ∷ []) (insert_rear-datapoint l a h₁ l' h' e)
              (Hold-snoc h₁ xs ps a p (Hold-update h xs ps a (some new) fresh k) here);
      }

  insert_points-Inserted :
      (more : List (ℕ × D)) (l : NodeList) (h : Heap D) (xs : List ℕ) (ps : List D)
      → AreDistinct (xs ++ map (λ c. c.0) more)
      → IsList h l xs
      → Hold h xs ps
      → Inserted
          (xs ++ map (λ c. c.0) more)
          (ps ++ map (λ c. c.1) more)
          (insert_points none more l h)
  unfolding insert_points
  insert_points-Inserted [] l h xs ps d w k =
      rw (append-nil xs, append-nil ps)
        (record { list = l; heap = h; returned = refl; chain = w; held = k })
  insert_points-Inserted ((a, p) ∷ more) l h xs ps d w k =
      let fresh =
        IsFresh-before a xs (map (λ c. c.0) more)
          (AreDistinct-without xs a (map (λ c. c.0) more) d).1 in
      let one = insert_new-Inserted a p l h xs ps fresh w k in
      let assoc = append_assoc xs (a ∷ []) (map (λ c. c.0) more) in
      let assoc' = append_assoc ps (p ∷ []) (map (λ c. c.1) more) in
      let rest =
        insert_points-Inserted more one.list one.heap (xs ++ a ∷ []) (ps ++ p ∷ []) (rw assoc d)
          one.chain one.held in
      record {
        list = rest.list;
        heap = rest.heap;
        returned = rw (one.returned, insert_points) rest.returned;
        chain = rw (sym assoc) rest.chain;
        held = rw (sym assoc, sym assoc') rest.held;
      }

  insert_pair-Inserted :
      (next : Option ℕ) (a b : ℕ) (p q : D) (h : Heap D)
      → a ≢ b
      → (l₁ : NodeList) × (h₁ : Heap D) × (insert_new a p next init_list h ≡ some (l₁, h₁))
        × Inserted (a ∷ b ∷ []) (p ∷ q ∷ []) (insert_new b q none l₁ h₁)
  unfolding insert_new init_list insert_rear with_list IsChain
  insert_pair-Inserted next a b p q h ne =
      let first : Node D = record { datapoint = p; next = next } in
      let second : Node D = record { datapoint = q; next = none } in
      let h₁ = update h a (some first) in
      let h₂ = update h₁ b (some second) in
      let at_a : h₂ a ≡ some first =
        update_other h₁ b a (some second) (λ e. ne (sym e)) ∙ update_self h a (some first) in
      let linked : Node D = record first { next = some b } in
      let h₃ = update h₂ a (some linked) in
      let now_a : h₃ a ≡ some linked = update_self h₂ a (some linked) in
      let now_b : h₃ b ≡ some second =
        update_other h₂ a b (some linked) ne ∙ update_self h₁ b (some second) in
      (
        record { head = some a; tail = some a },
        h₁,
        refl,
        record {
          list = record { head = some a; tail = some b };
          heap = h₃;
          returned = rw (write_next-some h₂ a (some b) first at_a) refl;
          chain = record {
            chain = (refl, (linked, now_a, (refl, (second, now_b, refl))));
            distinct = ((ne, tt), (tt, tt));
            ends = refl;
          };
          held = (rw (now_a, datapoint_at) refl, (rw (now_b, datapoint_at) refl, tt));
        },
      )

  -- What `read_db_file` links for one run, starting from an empty list, with an address of its own for
  -- each datapoint. If the pointer of the datapoint read is clear at first, or two or more are read,
  -- every insertion returns, and the list consists of the new nodes in their order, which hold the
  -- datapoints in theirs.
  pub insert_points-IsList :
      (next : Option ℕ) (cells : List (ℕ × D)) (h : Heap D)
      → (next ≡ none) ⊎ (2 ≤ length cells)
      → AreDistinct (map (λ c. c.0) cells)
      → (l' : NodeList) × (h' : Heap D) × (insert_points next cells init_list h ≡ some (l', h'))
        × IsList h' l' (map (λ c. c.0) cells)
        × Hold h' (map (λ c. c.0) cells) (map (λ c. c.1) cells)
  unfolding init_list IsChain insert_points
  insert_points-IsList next cells h (inl clear) d =
      let empty : IsList h init_list [] = record { chain = refl; distinct = tt; ends = refl } in
      let all = insert_points-Inserted cells init_list h [] [] d empty tt in
      (all.list, all.heap, rw clear all.returned, all.chain, all.held)
  insert_points-IsList next [] h (inr two) d = absurd (ground (arith, two))
  insert_points-IsList next (c ∷ []) h (inr two) d = absurd (ground (arith, two))
  insert_points-IsList next ((a, p) ∷ (b, q) ∷ more) h (inr two) d =
      let (l₁, h₁, e, two_nodes) = insert_pair-Inserted next a b p q h d.0.0 in
      let all =
        insert_points-Inserted more two_nodes.list two_nodes.heap (a ∷ b ∷ []) (p ∷ q ∷ []) d
          two_nodes.chain two_nodes.held in
      (
        all.list,
        all.heap,
        rw (e, insert_points) (rw (two_nodes.returned, insert_points) all.returned),
        all.chain,
        all.held,
      )
