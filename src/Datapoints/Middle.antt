-- ===== src/Datapoints/Middle.antt =====
-- `insertNext` on lists that represent a sequence of nodes.
use std.Path.{subst}
use a2pm.Common.{
  ℕ, ◌≤◌, ◌≡◌, ◌≢◌, refl, ap, sym, ◌∙◌, inl, inr, arith, Bool, true, false, Option, none, some,
  List, [], ◌∷◌, ◌++◌, if◌then◌else◌, Option-cases, length,
}
use a2pm.Common.Family.{update, update_self, update_other}
use a2pm.Datapoints.{Node, NodeList, Heap, Search, found, with_list, search_loop, insert_next}
use a2pm.Datapoints.Sequences.{IsFresh, AreDistinct, AreDistinct-without, last_node-append}
use a2pm.Datapoints.Insertion.{IsChain, IsList, IsChain-update, write_next-some}
use a2pm.Datapoints.Pointers.{
  NonePass, some_inj, holds, Split, nowhere, somewhere, search_loop-Split,
}

-- With `a` behind the first node that passes the test.
abbrev pub insert_after : (ℕ → Bool) → ℕ → List ℕ → List ℕ
insert_after test a [] = []
insert_after test a (x ∷ xs) =
    let rest = insert_after test a xs in if test x then x ∷ a ∷ xs else x ∷ rest

insert_after-none :
    (test : ℕ → Bool) (a : ℕ) (xs : List ℕ) → NonePass test xs → insert_after test a xs ≡ xs
unfolding NonePass
insert_after-none test a [] h = refl
insert_after-none test a (x ∷ xs) (missed, h) =
    rw missed (ap (λ l. x ∷ l) (insert_after-none test a xs h))

insert_after-split :
    (test : ℕ → Bool) (a : ℕ) (before : List ℕ) (t : ℕ) (after : List ℕ)
    → NonePass test before
    → test t ≡ true
    → insert_after test a (before ++ t ∷ after) ≡ before ++ t ∷ a ∷ after
unfolding NonePass
insert_after-split test a [] t after h hit = rw hit refl
insert_after-split test a (x ∷ before) t after (missed, h) hit =
    rw missed (ap (λ l. x ∷ l) (insert_after-split test a before t after h hit))

IsFresh-insert :
    (x a : ℕ) (before : List ℕ) (t : ℕ) (after : List ℕ)
    → x ≢ a
    → IsFresh x (before ++ t ∷ after)
    → IsFresh x (before ++ t ∷ a ∷ after)
IsFresh-insert x a [] t after ne (xt, f) = (xt, (ne, f))
IsFresh-insert x a (b ∷ before) t after ne (xb, f) = (xb, IsFresh-insert x a before t after ne f)

AreDistinct-insert :
    (a : ℕ) (before : List ℕ) (t : ℕ) (after : List ℕ)
    → IsFresh a (before ++ t ∷ after)
    → AreDistinct (before ++ t ∷ after)
    → AreDistinct (before ++ t ∷ a ∷ after)
AreDistinct-insert a [] t after (at, fa) (ft, d) = (((λ e. at (sym e)), ft), (fa, d))
AreDistinct-insert a (b ∷ before) t after (ab, fa) (fb, d) = (
  IsFresh-insert b a before t after (λ e. ab (sym e)) fb,
  AreDistinct-insert a before t after fa d,
)

differs :
    {a : ℕ} (before : List ℕ) (t : ℕ) (after : List ℕ) → IsFresh a (before ++ t ∷ after) → t ≢ a
differs [] t after (at, f) e = at (sym e)
differs (b ∷ before) t after (ab, f) e = differs before t after f e

module _ {D : Type 0} where
  node_at :
      (h : Heap D) (p : Option ℕ) (before : List ℕ) (t : ℕ) (after : List ℕ) (node : Node D)
      → h t ≡ some node
      → IsChain h p (before ++ t ∷ after)
      → IsChain h node.next after
  unfolding IsChain
  node_at h p [] t after node at (pt, (m, hm, c)) =
      let same : m ≡ node = some_inj (sym hm ∙ at) in rw same at c
  node_at h p (b ∷ before) t after node at (pb, (m, hm, c)) =
      node_at h m.next before t after node at c

  -- The pointer of `t` moved to `a`, which points where it pointed.
  IsChain-insert :
      (h : Heap D) (p : Option ℕ) (before : List ℕ) (t : ℕ) (after : List ℕ) (a : ℕ)
      (node temp : Node D)
      → IsFresh t (before ++ after)
      → t ≢ a
      → h t ≡ some node
      → h a ≡ some temp
      → temp.next ≡ node.next
      → IsChain h p (before ++ t ∷ after)
      → IsChain (update h t (some (record node { next = some a }))) p (before ++ t ∷ a ∷ after)
  unfolding IsChain
  IsChain-insert h p [] t after a node temp f ne at ha same c =
      let rest : IsChain h temp.next after = rw same (node_at h p [] t after node at c) in
      let linked = some (record node { next = some a }) in
      (
        c.0,
        (
          record node { next = some a },
          update_self h t linked,
          (
            refl,
            (
              temp,
              update_other h t a linked ne ∙ ha,
              IsChain-update h temp.next after t linked f rest,
            ),
          ),
        ),
      )
  IsChain-insert h p (b ∷ before) t after a node temp (tb, f) ne at ha same (pb, (m, hm, c)) = (
    pb,
    (
      m,
      update_other h t b (some (record node { next = some a })) tb ∙ hm,
      IsChain-insert h m.next before t after a node temp f ne at ha same c,
    ),
  )

  -- Behind a node that was found.
  inserts :
      (h : Heap D) (l : NodeList) (before : List ℕ) (t : ℕ) (after : List ℕ) (a : ℕ)
      (node temp : Node D) (tp rounds : ℕ) (is_key : D → Bool)
      → search_loop rounds is_key l.head none h ≡ found t tp
      → IsList h l (before ++ t ∷ after)
      → IsFresh a (before ++ t ∷ after)
      → h t ≡ some node
      → h a ≡ some temp
      → temp.next ≡ none
      → (l' : NodeList) × (h' : Heap D) × (insert_next rounds is_key l a h ≡ some (l', h'))
        × IsList h' l' (before ++ t ∷ a ∷ after)
  unfolding insert_next with_list IsChain
  inserts h l before t [] a node temp tp rounds is_key e w fresh at ha ends =
      let (d, f) = AreDistinct-without before t [] w.distinct in
      let next : node.next ≡ none = node_at h l.head before t [] node at w.chain in
      let apart = differs before t [] fresh in
      (
        record l { tail = some a },
        update h t (some (record node { next = some a })),
        rw (e, insert_next) (rw at (rw next (rw (write_next-some h t (some a) node at) refl))),
        record {
          chain =
              IsChain-insert h l.head before t [] a node temp f apart at ha (ends ∙ sym next)
                w.chain;
          distinct = AreDistinct-insert a before t [] fresh w.distinct;
          ends = sym (last_node-append before t (a ∷ []));
        },
      )
  inserts h l before t (y ∷ ys) a node temp tp rounds is_key e w fresh at ha ends =
      let (d, f) = AreDistinct-without before t (y ∷ ys) w.distinct in
      let next : node.next ≡ some y = (node_at h l.head before t (y ∷ ys) node at w.chain).0 in
      let apart = differs before t (y ∷ ys) fresh in
      let temp' : Node D = record temp { next = some y } in
      let h₁ = update h a (some temp') in
      let at₁ : h₁ t ≡ some node = update_other h a t (some temp') (λ e'. apart (sym e')) ∙ at in
      let ha₁ : h₁ a ≡ some temp' = update_self h a (some temp') in
      let chain₁ = IsChain-update h l.head (before ++ t ∷ y ∷ ys) a (some temp') fresh w.chain in
      (
        l,
        update h₁ t (some (record node { next = some a })),
        rw (e, insert_next)
            (rw at (
              rw next (
                rw (write_next-some h a (some y) temp ha)
                  (rw (write_next-some h₁ t (some a) node at₁) refl)))),
        record {
          chain =
              IsChain-insert h₁ l.head before t (y ∷ ys) a node temp' f apart at₁ ha₁ (sym next)
                chain₁;
          distinct = AreDistinct-insert a before t (y ∷ ys) fresh w.distinct;
          ends =
              w.ends
              ∙ (last_node-append before t (y ∷ ys) ∙ sym (last_node-append before t (a ∷ y ∷ ys)));
        },
      )

  -- `insertNext` of a node that is not in the list and points nowhere, with at least as many rounds as
  -- the list has nodes: it returns, and the node stands behind the first that has the key; if there is
  -- none, the list is the same.
  pub insert_next-IsList :
      (rounds : ℕ) (is_key : D → Bool) (h : Heap D) (l : NodeList) (xs : List ℕ) (a : ℕ)
      (temp : Node D)
      → IsList h l xs
      → length xs ≤ rounds
      → IsFresh a xs
      → h a ≡ some temp
      → temp.next ≡ none
      → (l' : NodeList) × (h' : Heap D) × (insert_next rounds is_key l a h ≡ some (l', h'))
        × IsList h' l' (insert_after (holds is_key h) a xs)
  unfolding insert_next
  insert_next-IsList rounds is_key h l xs a temp w enough fresh ha ends =
      go (search_loop rounds is_key l.head none h)
        (search_loop-Split rounds is_key l.head none h xs w.chain enough) refl
    where
      go :
          (r : Search)
          → Split is_key h none xs r
          → search_loop rounds is_key l.head none h ≡ r
          → (l' : NodeList) × (h' : Heap D) × (insert_next rounds is_key l a h ≡ some (l', h'))
            × IsList h' l' (insert_after (holds is_key h) a xs)
      go r (nowhere e none_pass) same = (
        l,
        h,
        rw (same ∙ e, insert_next) refl,
        rw (insert_after-none (holds is_key h) a xs none_pass) w,
      )
      go r (somewhere before t after split none_pass hit e) same = elim (Option-cases (h t)) [
        | inl gone ↦
            let never : false ≡ true = rw (holds, gone) at hit in absurd (ground (arith, never))
        | inr (node, at) ↦
            let w' = subst (λ z. IsList h l z) split w in
            let fresh' = subst (λ z. IsFresh a z) split fresh in
            let longer =
              ap (λ z. insert_after (holds is_key h) a z) split
              ∙ insert_after-split (holds is_key h) a before t after none_pass hit in
            let (l', h', returned, is_list) =
              inserts h l before t after a node temp _ rounds is_key (same ∙ e) w' fresh' at ha
                ends in
            (l', h', returned, rw longer is_list)
      ]
