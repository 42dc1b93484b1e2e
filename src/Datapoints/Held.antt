-- ===== src/Datapoints/Held.antt =====
-- The datapoints that the nodes of a list hold, which `insertRear` does not write.
use a2pm.Common.{
  ℕ, ◌≡◌, refl, sym, ap, ◌∙◌, inl, inr, arith, Option, none, some, List, [], ◌∷◌, ◌++◌, ◌==◌,
  ==_iff, Bool-cases, Option-cases,
}
use a2pm.Common.Family.{update, update_other}
use a2pm.Datapoints.Sequences.{IsFresh}
use a2pm.Datapoints.Insertion.{write_next-some}
use a2pm.Datapoints.{Node, NodeList, Heap, write_next, with_list, insert_rear}

module _ {D : Type 0} where
  abbrev pub datapoint_at : Heap D → ℕ → Option D
  datapoint_at h x = elim (h x) [ none ↦ none | some n ↦ some n.datapoint ]

  -- The nodes hold the datapoints.
  abbrev pub Hold : Heap D → List ℕ → List D → Type 0
  Hold h [] [] = Unit {0}
  Hold h (x ∷ xs) (p ∷ ps) = (datapoint_at h x ≡ some p) × Hold h xs ps
  Hold h [] (p ∷ ps) = ⊥
  Hold h (x ∷ xs) [] = ⊥

  pub Hold-same :
      (h h' : Heap D) (xs : List ℕ) (ps : List D)
      → ((c : ℕ) → datapoint_at h' c ≡ datapoint_at h c)
      → Hold h xs ps
      → Hold h' xs ps
  Hold-same h h' [] [] same k = tt
  Hold-same h h' (x ∷ xs) (p ∷ ps) same k = (same x ∙ k.0, Hold-same h h' xs ps same k.1)
  Hold-same h h' [] (p ∷ ps) same k = k
  Hold-same h h' (x ∷ xs) [] same k = k

  pub Hold-update :
      (h : Heap D) (xs : List ℕ) (ps : List D) (a : ℕ) (v : Option (Node D))
      → IsFresh a xs
      → Hold h xs ps
      → Hold (update h a v) xs ps
  Hold-update h [] [] a v f k = tt
  Hold-update h (x ∷ xs) (p ∷ ps) a v (ne, f) k =
      (rw (update_other h a x v ne, datapoint_at) k.0, Hold-update h xs ps a v f k.1)
  Hold-update h [] (p ∷ ps) a v f k = k
  Hold-update h (x ∷ xs) [] a v f k = k

  pub Hold-snoc :
      (h : Heap D) (xs : List ℕ) (ps : List D) (a : ℕ) (p : D)
      → Hold h xs ps
      → datapoint_at h a ≡ some p
      → Hold h (xs ++ a ∷ []) (ps ++ p ∷ [])
  Hold-snoc h [] [] a p k e = (e, tt)
  Hold-snoc h (x ∷ xs) (q ∷ ps) a p k e = (k.0, Hold-snoc h xs ps a p k.1 e)
  Hold-snoc h [] (q ∷ ps) a p k e = absurd k
  Hold-snoc h (x ∷ xs) [] a p k e = absurd k

  datapoint-update :
      (h : Heap D) (b : ℕ) (n m : Node D)
      → h b ≡ some n
      → m.datapoint ≡ n.datapoint
      → (c : ℕ) → datapoint_at (update h b (some m)) c ≡ datapoint_at h c
  datapoint-update h b n m at keeps c = elim (Bool-cases (b == c)) [
    | inl here ↦
        let same : b ≡ c = (==_iff b c).0 here in
        let there : h c ≡ some n = rw same at at in
        rw (here, datapoint_at) (rw (there, datapoint_at) (ap (λ p. some p) keeps))
    | inr other ↦ rw (other, datapoint_at) refl
  ]

  write_next-datapoint :
      (b : ℕ) (next : Option ℕ) (h h' : Heap D)
      → write_next b next h ≡ some h'
      → (c : ℕ) → datapoint_at h' c ≡ datapoint_at h c
  unfolding write_next
  write_next-datapoint b next h h' e c = elim (Option-cases (h b)) [
    | inl f ↦ let wrong : none ≡ some h' = rw (f, write_next) at e in absurd (ground (arith, wrong))
    | inr (node, f) ↦
        let same : update h b (some (record node { next = next })) ≡ h' =
          some_heap (sym (write_next-some h b next node f) ∙ e) in
        rw (sym same) (datapoint-update h b node (record node { next = next }) f refl c)
  ]
    where
      some_heap : {x y : Heap D} → some x ≡ some y → x ≡ y
      some_heap e = cc

  abbrev returning : NodeList → Heap D → Option (NodeList × Heap D)
  returning l h = some (l, h)

  returning_heap : {l₁ l₂ : NodeList} {h₁ h₂ : Heap D} → returning l₁ h₁ ≡ returning l₂ h₂ → h₁ ≡ h₂
  returning_heap e = cc

  -- `insertRear` writes no datapoint.
  pub insert_rear-datapoint :
      (l : NodeList) (a : ℕ) (h : Heap D) (l' : NodeList) (h' : Heap D)
      → insert_rear l a h ≡ some (l', h')
      → (c : ℕ) → datapoint_at h' c ≡ datapoint_at h c
  unfolding insert_rear with_list
  insert_rear-datapoint l a h l' h' e c = elim (Option-cases l.head) [
    | inl empty ↦
        let e' : returning (record { head = some a; tail = some a }) h ≡ returning l' h' =
          rw (empty, insert_rear) at e in
        let same : h ≡ h' = returning_heap e' in rw (sym same) refl
    | inr (x, first) ↦ elim (Option-cases l.tail) [
      | inl no_tail ↦
          let e' : none ≡ some (l', h') = rw (first, no_tail, insert_rear) at e in
          absurd (ground (arith, e'))
      | inr (b, last) ↦
          let e' : with_list (record l { tail = some a }) (write_next b (some a) h)
              ≡ some (l', h') =
            rw (first, last, insert_rear) at e in
          elim (Option-cases (write_next b (some a) h)) [
            | inl stuck ↦
                let wrong : none ≡ some (l', h') = rw (stuck, with_list) at e' in
                absurd (ground (arith, wrong))
            | inr (h'', wrote) ↦
                let e'' : returning (record l { tail = some a }) h'' ≡ returning l' h' =
                  rw (wrote, with_list) at e' in
                let same : h'' ≡ h' = returning_heap e'' in
                write_next-datapoint b (some a) h h' (wrote ∙ ap (λ k. some k) same) c
          ]
    ]
  ]
