-- ===== src/Balancer/Clients/Serving.antt =====
-- A table in use, and the client that a VM of it has.
use Prim.Native.String.{String}
use a2pm.Common.{
  ℕ, ◌≤◌, ◌<◌, ◌≡◌, ap, sym, ◌∙◌, inl, inr, arith, Bool, true, false, Option, none, some, ◌==◌,
  ==_iff, Bool-cases, Option-cases,
}
use a2pm.Common.Family.{update_self}
use a2pm.Balancer.Vms.{VmData, Group}
use a2pm.Balancer.Vms.Members.{IsListed, IsValid}
use a2pm.Balancer.Clients.{wrap_index, check_already_connected, get_current_socket}
use a2pm.Balancer.Clients.Entries.{has_client, Entered-has_client}
use a2pm.Balancer.Clients.Lookup.{assigned, Routed, again, fresh, full}

-- A valid table with a VM, whose turn is at most one past the last.
pub record IsServing (g : Group) : Type 0 where
  pub valid : IsValid g
  pub some_vm : 0 < g.current_vms
  pub turn : g.actual_index ≤ g.current_vms

pub wrap_index-IsServing :
    (g : Group)
    → IsServing g
    → IsServing (wrap_index g) × ((wrap_index g).actual_index < (wrap_index g).current_vms)
wrap_index-IsServing g s = elim (Bool-cases (g.actual_index == g.current_vms)) [
  | inl last ↦ rw last (record { valid = keep; some_vm = s.some_vm; turn = omega arith }, s.some_vm)
  | inr within ↦ rw within (s, ground (arith, s.turn))
]
  where
    keep : IsValid (record g { actual_index = 0 })
    keep = record { fits = s.valid.fits; room = s.valid.room; listed = s.valid.listed }

-- The client is with the VM `k` and no earlier one, at the address `a`.
pub record IsWith (g : Group) (ip : String) (a : String × ℕ) : Type 0 where
  pub k : ℕ
  pub below : k < g.current_vms
  pub has : has_client (g.vm_data_set k) ip ≡ true
  pub first : (j : ℕ) → j < k → has_client (g.vm_data_set j) ip ≡ false
  pub at : (g.vm_data_set k).address ≡ some a

pub Routed-IsWith :
    (g : Group) (ip : String) (a : String × ℕ) {r : Option ((String × ℕ) × Group)}
    → IsWith g ip a
    → Routed g ip r
    → r ≡ some (a, g)
Routed-IsWith g ip a w (again i b lt has first at e) = elim (Bool-cases (i == w.k)) [
  | inl here ↦
      let same : i ≡ w.k = (==_iff i w.k).0 here in
      let there : some b ≡ some a = sym at ∙ (ap (λ j. (g.vm_data_set j).address) same ∙ w.at) in
      let found : b ≡ a = cc in e ∙ ap (λ c. some (c, g)) found
  | inr other ↦ absurd (ground (arith, first w.k, w.first i, w.has, has))
]
Routed-IsWith g ip a w (fresh b vm new at listed entered e) =
    absurd (ground (arith, new w.k w.below, w.has))
Routed-IsWith g ip a w (full new none_free e) = absurd (ground (arith, new w.k w.below, w.has))

assigned-IsServing :
    (g : Group) (vm : VmData)
    → IsServing g
    → g.actual_index < g.current_vms
    → IsListed vm
    → IsServing (assigned g vm)
assigned-IsServing g vm s turn listed = record {
  valid = record {
    fits = s.valid.fits;
    room = s.valid.room;
    listed = λ i lt. elim (Bool-cases (g.actual_index == i)) [
      | inl here ↦ rw here listed
      | inr other ↦ rw other (s.valid.listed i lt)
    ];
  };
  some_vm = s.some_vm;
  turn = omega arith;
}

pub same_answer : {x y : (String × ℕ) × Group} → some x ≡ some y → x ≡ y
same_answer e = cc

pub routed :
    (g g' : Group) (ip : String) (a : String × ℕ) {r : Option ((String × ℕ) × Group)}
    → IsServing g
    → g.actual_index < g.current_vms
    → Routed g ip r
    → r ≡ some (a, g')
    → IsServing g' × IsWith g' ip a
routed g g' ip a s turn (again i b lt has first at e) h =
    let pair = same_answer (sym e ∙ h) in
    let found : b ≡ a = ap (λ x. x.0) pair in
    let kept : g ≡ g' = ap (λ x. x.1) pair in
    (
      rw (sym kept) s,
      rw (sym kept)
          (record { k = i; below = lt; has = has; first = first; at = rw (sym found) at }),
    )
routed g g' ip a s turn (fresh b vm new at listed entered e) h =
    let pair = same_answer (sym e ∙ h) in
    let found : b ≡ a = ap (λ x. x.0) pair in
    let kept : assigned g vm ≡ g' = ap (λ x. x.1) pair in
    (
      rw (sym kept) (assigned-IsServing g vm s turn listed),
      rw (sym kept) (record {
        k = g.actual_index;
        below = turn;
        has =
            rw (update_self g.vm_data_set g.actual_index vm)
              (Entered-has_client (g.vm_data_set g.actual_index) vm ip entered);
        first = λ j lt. elim (Bool-cases (g.actual_index == j)) [
          | inl here ↦ absurd (ground arith)
          | inr other ↦ rw other (new j (omega arith))
        ];
        at = rw (update_self g.vm_data_set g.actual_index vm) (entered.address ∙ rw (sym found) at);
      }),
    )
routed g g' ip a s turn (full new none_free e) h = absurd (ground (arith, e, h))

-- The end of `get_current_socket`, read backwards.
pub connect_lem :
    (connects : String × ℕ → Bool) (ip : String) (g g' : Group) (a : String × ℕ)
    → get_current_socket connects ip g ≡ some (a, g')
    → (check_already_connected ip (wrap_index g) ≡ some (a, g')) × (connects a ≡ true)
unfolding get_current_socket
connect_lem connects ip g g' a h = elim (Option-cases (check_already_connected ip (wrap_index g))) [
  | inl e ↦
      let none_here : none ≡ some (a, g') = rw (e, get_current_socket) at h in
      absurd (ground (arith, none_here))
  | inr ((b, g2), e) ↦ elim (Bool-cases (connects b)) [
    | inl up ↦
        let pair = same_answer (rw (e, get_current_socket, up) at h) in
        let found : b ≡ a = ap (λ x. x.0) pair in (e ∙ ap (λ x. some x) pair, rw (sym found) up)
    | inr down ↦
        let none_here : none ≡ some (a, g') = rw (e, get_current_socket, down) at h in
        absurd (ground (arith, none_here))
  ]
]

pub wrap_index-IsWith :
    (g : Group) (ip : String) (a : String × ℕ) → IsWith g ip a → IsWith (wrap_index g) ip a
wrap_index-IsWith g ip a w = elim (Bool-cases (g.actual_index == g.current_vms)) [
  | inl last ↦
      rw last (record { k = w.k; below = w.below; has = w.has; first = w.first; at = w.at })
  | inr within ↦ rw within w
]
