-- ===== src/Datapoints/Deletion.antt =====
-- `deleteNode` on lists that represent a sequence of nodes.
use mathlib.Core.List.{append-nil}
use std.Path.{subst}
use a2pm.Common.{
  ℕ, ◌≤◌, ◌≡◌, ◌≢◌, refl, ap, sym, ◌∙◌, inl, inr, arith, Bool, true, false, none, some, List, [],
  ◌∷◌, ◌++◌, ◌==◌, ==_iff, Option-cases, length,
}
use a2pm.Common.Family.{update}
use a2pm.Datapoints.{
  Node, NodeList, Heap, Search, with_list, search_loop, unhook, freed, delete_node,
}
use a2pm.Datapoints.Sequences.{
  last_node, IsFresh-last, IsFresh-before, AreDistinct-without, last_node-append,
}
use a2pm.Datapoints.Insertion.{IsChain, IsList, IsChain-update, write_next-some}
use a2pm.Datapoints.Pointers.{
  erase_first, erase_first-none, erase_first-split, predecessor, predecessor-last, some_inj, differ,
  holds, Split, nowhere, somewhere, search_loop-Split, IsChain-cut,
}

module _ {D : Type 0} where
  -- The list once `t` is unhooked and freed.
  record Removed (h : Heap D) (l : NodeList) (t tp : ℕ) (node : Node D) (rest : List ℕ)
      : Type 0 where
    list : NodeList
    heap : Heap D
    unhooks : unhook l t tp node h ≡ some (list, heap)
    remains : IsList (update heap t none) list rest

  unhook-Removed :
      (h : Heap D) (l : NodeList) (before : List ℕ) (t : ℕ) (after : List ℕ) (node : Node D)
      → h t ≡ some node
      → IsList h l (before ++ t ∷ after)
      → Removed h l t (predecessor none before t) node (before ++ after)
  unfolding unhook with_list IsChain
  unhook-Removed h l [] t [] node at w =
      let (_, (node', at', end)) = w.chain in
      let next : node.next ≡ none = ap (λ n. n.next) (some_inj (sym at ∙ at')) ∙ end in
      let first : (t == t) ≡ true = (==_iff t t).1 refl in
      record {
        list = record { head = none; tail = none };
        heap = h;
        unhooks = rw first (rw next refl);
        remains = record { chain = refl; distinct = tt; ends = refl };
      }
  unhook-Removed h l [] t (a ∷ after) node at w =
      let (_, (node', at', (to, there))) = w.chain in
      let next : node.next ≡ some a = ap (λ n. n.next) (some_inj (sym at ∙ at')) ∙ to in
      let first : (t == t) ≡ true = (==_iff t t).1 refl in
      record {
        list = record l { head = some a };
        heap = h;
        unhooks = rw first (rw next refl);
        remains = record {
          chain = IsChain-update h (some a) (a ∷ after) t none w.distinct.0 (refl, there);
          distinct = w.distinct.1;
          ends = w.ends;
        };
      }
  unhook-Removed h l (b ∷ bs) t [] node at w =
      let tp = predecessor (some b) bs t in
      let last = predecessor-last b bs t in
      let (d, f) = AreDistinct-without (b ∷ bs) t [] w.distinct in
      let behind_first =
        differ t tp (IsFresh-last t (b ∷ bs) tp (IsFresh-before t (b ∷ bs) [] f) last) in
      let (m, htp, cut, next) = IsChain-cut h l.head b bs t [] tp node last w.distinct at w.chain in
      record {
        list = record l { tail = some tp };
        heap = update h tp (some (record m { next = node.next }));
        unhooks = rw behind_first (rw next (rw (write_next-some h tp none m htp) refl));
        remains = record {
          chain = IsChain-update _ l.head ((b ∷ bs) ++ []) t none f cut;
          distinct = d;
          ends = sym (ap last_node (append-nil (b ∷ bs)) ∙ last);
        };
      }
  unhook-Removed h l (b ∷ bs) t (a ∷ after) node at w =
      let tp = predecessor (some b) bs t in
      let last = predecessor-last b bs t in
      let (d, f) = AreDistinct-without (b ∷ bs) t (a ∷ after) w.distinct in
      let behind_first =
        differ t tp (IsFresh-last t (b ∷ bs) tp (IsFresh-before t (b ∷ bs) (a ∷ after) f) last) in
      let (m, htp, cut, rest) =
        IsChain-cut h l.head b bs t (a ∷ after) tp node last w.distinct at w.chain in
      record {
        list = l;
        heap = update h tp (some (record m { next = node.next }));
        unhooks = rw behind_first (rw rest.0 (rw (write_next-some h tp (some a) m htp) refl));
        remains = record {
          chain = IsChain-update _ l.head ((b ∷ bs) ++ a ∷ after) t none f cut;
          distinct = d;
          ends =
              w.ends
              ∙ (last_node-append (b ∷ bs) t (a ∷ after) ∙ sym (last_node-append (b ∷ bs) a after));
        };
      }

  -- `deleteNode` with at least as many rounds as the list has nodes: it returns, and the list is
  -- without the first node that has the key, or the same if there is none.
  pub delete_node-IsList :
      (rounds : ℕ) (is_key : D → Bool) (h : Heap D) (l : NodeList) (xs : List ℕ)
      → IsList h l xs
      → length xs ≤ rounds
      → (l' : NodeList) × (h' : Heap D) × (delete_node rounds is_key l h ≡ some (l', h'))
        × IsList h' l' (erase_first (holds is_key h) xs)
  unfolding delete_node freed
  delete_node-IsList rounds is_key h l xs w enough =
      go (search_loop rounds is_key l.head none h)
        (search_loop-Split rounds is_key l.head none h xs w.chain enough) refl
    where
      no_node : (t : ℕ) → h t ≡ none → holds is_key h t ≢ true
      no_node t gone hit =
          let never : false ≡ true = rw (holds, gone) at hit in ground (arith, never)

      go :
          (r : Search)
          → Split is_key h none xs r
          → search_loop rounds is_key l.head none h ≡ r
          → (l' : NodeList) × (h' : Heap D) × (delete_node rounds is_key l h ≡ some (l', h'))
            × IsList h' l' (erase_first (holds is_key h) xs)
      go r (nowhere e none_pass) same = (
        l,
        h,
        rw (same ∙ e, delete_node) refl,
        rw (erase_first-none (holds is_key h) xs none_pass) w,
      )
      go r (somewhere before t after split none_pass hit e) same = elim (Option-cases (h t)) [
        | inl gone ↦ absurd (no_node t gone hit)
        | inr (node, at) ↦
            let removed =
              unhook-Removed h l before t after node at (subst (λ z. IsList h l z) split w) in
            let shorter =
              ap (λ z. erase_first (holds is_key h) z) split
              ∙ erase_first-split (holds is_key h) before t after none_pass hit in
            (
              removed.list,
              update removed.heap t none,
              rw (same ∙ e, delete_node) (rw at (rw removed.unhooks refl)),
              rw shorter removed.remains,
            )
      ]
