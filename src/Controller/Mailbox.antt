-- ===== src/Controller/Mailbox.antt =====
-- The message box between the threads of controller/server.c and `balancer_thread`.
use mathlib.Core.List.{append-nil}
use std.Path.{subst}
use a2pm.Common.{
  ℕ, suc, ◌+◌, ◌≤◌, ◌≡◌, refl, ap, sym, inl, inr, ◌∙◌, arith, true, false, none, some, List, [],
  ◌∷◌, ◌++◌, if◌then◌else◌, Bool-cases,
}
use a2pm.Balancer.Vms.{VirtualMachine}
use a2pm.Controller.{Server, announce, balancer_turn}

-- All messages but a number that were overwritten, in their order.
pub data Merge : (lost : ℕ) (kept all : List VirtualMachine) → Type 0 where
  nothing : Merge 0 [] []
  kept :
      {n : ℕ} {k a : List VirtualMachine} (m : VirtualMachine)
      → Merge n k a
      → Merge n (k ++ m ∷ []) (a ++ m ∷ [])
  overwritten :
      {n : ℕ} {k a : List VirtualMachine} (m : VirtualMachine)
      → Merge n k a
      → Merge (n + 1) k (a ++ m ∷ [])

Merge-none : (n : ℕ) (k a : List VirtualMachine) → Merge n k a → n ≡ 0 → a ≡ k
Merge-none n k a nothing e = refl
Merge-none n k a (kept m h) e = ap (λ l. l ++ m ∷ []) (Merge-none _ _ _ h e)
Merge-none n k a (overwritten m h) e = absurd (omega (arith, e))

module _ {F R : Type 0} where
  -- The message that waits, if the flag says so.
  abbrev pub pending : Server F R → List VirtualMachine
  pending s = if s.state_man_vm then s.virt_machine ∷ [] else []

  -- The histories of the box: the messages announced and those handed to `send`, oldest first, and
  -- the number of failed `pthread_create`s. After such a failure `accept_new_client` unlocks the mutex,
  -- whoever has locked it. Any other step leaves the box alone.
  pub data Reach : (announced sent : List VirtualMachine) (failures : ℕ) → Server F R → Type 0 where
    start : (s : Server F R) → s.state_man_vm ≡ false → s.manage_locked ≡ false → Reach [] [] 0 s
    post :
        {a t : List VirtualMachine} {u : ℕ} {s s' : Server F R} (m : VirtualMachine)
        → Reach a t u s
        → announce m s ≡ some s'
        → Reach (a ++ m ∷ []) t u s'
    unlock :
        {a t : List VirtualMachine} {u : ℕ} {s : Server F R}
        → Reach a t u s
        → Reach a t (suc u) (record s { manage_locked = false })
    send :
        {a t : List VirtualMachine} {u : ℕ} {s : Server F R} (m : VirtualMachine)
        → Reach a t u s
        → (balancer_turn s).0 ≡ some m
        → Reach a (t ++ m ∷ []) u (balancer_turn s).1
    idle :
        {a t : List VirtualMachine} {u : ℕ} {s : Server F R}
        → Reach a t u s
        → (balancer_turn s).0 ≡ none
        → Reach a t u (balancer_turn s).1
    elsewhere :
        {a t : List VirtualMachine} {u : ℕ} {s s' : Server F R}
        → Reach a t u s
        → s'.virt_machine ≡ s.virt_machine
        → s'.state_man_vm ≡ s.state_man_vm
        → s'.manage_locked ≡ s.manage_locked
        → Reach a t u s'

  -- A waiting message whose mutex was unlocked.
  abbrev exposed : Server F R → ℕ
  exposed s = if s.state_man_vm then (if s.manage_locked then 0 else 1) else 0

  record Inv (a t : List VirtualMachine) (u : ℕ) (s : Server F R) : Type 0 where
    lost : ℕ
    over : List VirtualMachine
    order : a ≡ over ++ pending s
    merged : Merge lost t over
    bound : lost + exposed s ≤ u
    lock : u ≡ 0 → s.manage_locked ≡ s.state_man_vm

  abbrev posted : VirtualMachine → Server F R → Server F R
  posted m s = record s { virt_machine = m; state_man_vm = true; manage_locked = true }

  post-Inv :
      {a t : List VirtualMachine} {u : ℕ} (m : VirtualMachine) (s : Server F R)
      → s.manage_locked ≡ false
      → Inv a t u s
      → Inv (a ++ m ∷ []) t u (posted m s)
  post-Inv {a = a} {t = t} {u = u} m s free inv = elim (Bool-cases s.state_man_vm) [
    | inr off ↦
        let all : a ≡ inv.over ++ [] = rw off at inv.order in
        record {
          lost = inv.lost;
          over = inv.over;
          order = ap (λ l. l ++ m ∷ []) (all ∙ append-nil inv.over);
          merged = inv.merged;
          bound = omega (arith, inv.bound);
          lock = λ e. refl;
        }
    | inl waits ↦
        let all : a ≡ inv.over ++ s.virt_machine ∷ [] = rw waits at inv.order in
        let room : inv.lost + 1 ≤ u = rw (waits, free) at inv.bound in
        record {
          lost = inv.lost + 1;
          over = inv.over ++ s.virt_machine ∷ [];
          order = ap (λ l. l ++ m ∷ []) all;
          merged = overwritten s.virt_machine inv.merged;
          bound = omega (arith, room);
          lock = λ e. refl;
        }
  ]

  reach-Inv : {a t : List VirtualMachine} {u : ℕ} {s : Server F R} → Reach a t u s → Inv a t u s
  unfolding announce balancer_turn
  reach-Inv (start s off free) = record {
    lost = 0;
    over = [];
    order = rw off refl;
    merged = nothing;
    bound = rw off (omega arith);
    lock = λ e. free ∙ sym off;
  }
  reach-Inv (post {a = a} {t = t} {u = u} {s = s} {s' = s'} m r e) =
      elim (Bool-cases s.manage_locked) [
        | inl locked ↦
            let none_here : none ≡ some s' = rw locked at e in absurd (ground (arith, none_here))
        | inr free ↦
            let stored : some (posted m s) ≡ some s' = rw free at e in
            let same : posted m s ≡ s' = cc in
            subst (λ x. Inv (a ++ m ∷ []) t u x) same (post-Inv m s free (reach-Inv r))
      ]
  reach-Inv (unlock {a = a} {t = t} {u = u} {s = s} r) =
      let inv = reach-Inv r in
      record {
        lost = inv.lost;
        over = inv.over;
        order = inv.order;
        merged = inv.merged;
        bound = ground (arith, inv.bound);
        lock = λ e. absurd (omega (arith, e));
      }
  reach-Inv (send {a = a} {t = t} {u = u} {s = s} m r e) = elim (Bool-cases s.state_man_vm) [
    | inr off ↦ let none_here : none ≡ some m = rw off at e in absurd (ground (arith, none_here))
    | inl flag ↦
        let inv = reach-Inv r in
        let handed : some s.virt_machine ≡ some m = rw flag at e in
        let same : s.virt_machine ≡ m = cc in
        let order : a ≡ inv.over ++ s.virt_machine ∷ [] = rw flag at inv.order in
        rw (balancer_turn, flag)
          (record {
            lost = inv.lost;
            over = inv.over ++ m ∷ [];
            order =
                order ∙ (ap (λ v. inv.over ++ v ∷ []) same ∙ sym (append-nil (inv.over ++ m ∷ [])));
            merged = kept m inv.merged;
            bound = omega (arith, inv.bound);
            lock = λ e. refl;
          })
  ]
  reach-Inv (idle {a = a} {t = t} {u = u} {s = s} r e) = elim (Bool-cases s.state_man_vm) [
    | inr off ↦ subst (λ x. Inv a t u x) (rw (balancer_turn, off) refl) (reach-Inv r)
    | inl flag ↦
        let some_here : some s.virt_machine ≡ none = rw flag at e in
        absurd (ground (arith, some_here))
  ]
  reach-Inv (elsewhere r vm flag lock) =
      let inv = reach-Inv r in
      record {
        lost = inv.lost;
        over = inv.over;
        order = rw (vm, flag) inv.order;
        merged = inv.merged;
        bound = rw (flag, lock) inv.bound;
        lock = λ e. lock ∙ (inv.lock e ∙ sym flag);
      }

  -- In any history of announcements, turns of `balancer_thread`, failures to create a thread and steps
  -- that leave the box alone: the messages announced are those handed to `send`, in the order in which
  -- they were announced, with some that were overwritten among them, and the one that waits; at most
  -- as many were overwritten as creations have failed. While none has failed, none is overwritten, and
  -- the mutex is held exactly while a message waits.
  pub balancer-in_order :
      (a t : List VirtualMachine) (failures : ℕ) (s : Server F R)
      → Reach a t failures s
      → ((over : List VirtualMachine) × (lost : ℕ) × (a ≡ over ++ pending s)
          × Merge lost t over
          × (lost ≤ failures))
        × (failures ≡ 0 → (a ≡ t ++ pending s) × (s.manage_locked ≡ s.state_man_vm))
  balancer-in_order a t failures s r =
      let inv = reach-Inv r in
      (
        (inv.over, inv.lost, inv.order, inv.merged, omega (arith, inv.bound)),
        λ none_failed.
            let no_loss : inv.lost ≡ 0 = omega (arith, inv.bound, none_failed) in
            (
              inv.order
                  ∙ ap (λ l. l ++ pending s) (Merge-none inv.lost t inv.over inv.merged no_loss),
              inv.lock none_failed,
            ),
      )
