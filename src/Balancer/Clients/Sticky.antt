-- ===== src/Balancer/Clients/Sticky.antt =====
-- `get_current_socket`: a client stays with its VM, and the turn stays on a connected VM.
use text.Mathlib.Text.{◌==◌ as str_eq}
use text.Mathlib.TextEquality.{eq_iff}
use Prim.Native.String.{String}
use a2pm.Common.{
  ℕ, ◌≡◌, refl, ap, sym, ◌∙◌, inl, inr, arith, Bool, true, false, Option, none, some, ◌==◌, ==_iff,
  Bool-cases, Option-cases, List, [], ◌∷◌,
}
use a2pm.Balancer.Vms.{VmData, Group}
use a2pm.Balancer.Clients.{free_entry, wrap_index, get_current_socket, get_current_sockets}
use a2pm.Balancer.Clients.Entries.{has_client, Entered, Entered-others}
use a2pm.Balancer.Clients.Lookup.{
  IsNew, assigned, Routed, again, fresh, full, check_already_connected-Routed,
}
use a2pm.Balancer.Clients.Serving.{
  IsServing, IsWith, wrap_index-IsServing, Routed-IsWith, same_answer, routed, connect_lem,
  wrap_index-IsWith,
}

other-IsWith :
    (g : Group) (ip other : String) (a : String × ℕ) (vm : VmData)
    → IsWith g ip a
    → IsNew g other
    → str_eq ip free_entry ≡ false
    → Entered (g.vm_data_set g.actual_index) vm other
    → IsWith (assigned g vm) ip a
other-IsWith g ip other a vm w new named entered = record {
  k = w.k;
  below = w.below;
  has = same w.k ∙ w.has;
  first = λ j lt. same j ∙ w.first j lt;
  at = address w.k ∙ w.at;
}
  where
    differ : str_eq other ip ≡ false
    differ = elim (Bool-cases (str_eq other ip)) [
      | inr ne ↦ ne
      | inl hit ↦
          let is_ip : other ≡ ip = (eq_iff other ip).0 hit in
          let missing : has_client (g.vm_data_set w.k) ip ≡ false = rw is_ip at (new w.k w.below) in
          absurd (ground (arith, missing, w.has))
    ]

    same : (j : ℕ) → has_client ((assigned g vm).vm_data_set j) ip ≡ has_client (g.vm_data_set j) ip
    same j = elim (Bool-cases (g.actual_index == j)) [
      | inr apart ↦ rw apart refl
      | inl here ↦
          let at : g.actual_index ≡ j = (==_iff g.actual_index j).0 here in
          rw here (
            Entered-others (g.vm_data_set g.actual_index) vm ip other entered differ named
            ∙ ap (λ i. has_client (g.vm_data_set i) ip) at)
    ]

    address : (j : ℕ) → ((assigned g vm).vm_data_set j).address ≡ (g.vm_data_set j).address
    address j = elim (Bool-cases (g.actual_index == j)) [
      | inr apart ↦ rw apart refl
      | inl here ↦
          let at : g.actual_index ≡ j = (==_iff g.actual_index j).0 here in
          rw here (entered.address ∙ ap (λ i. (g.vm_data_set i).address) at)
    ]

stays :
    (g g' : Group) (ip other : String) (a b : String × ℕ) {r : Option ((String × ℕ) × Group)}
    → IsWith g ip a
    → str_eq ip free_entry ≡ false
    → Routed g other r
    → r ≡ some (b, g')
    → IsWith g' ip a
stays g g' ip other a b w named (again i c lt has first at e) h =
    let kept : g ≡ g' = ap (λ x. x.1) (same_answer (sym e ∙ h)) in rw (sym kept) w
stays g g' ip other a b w named (fresh c vm new at listed entered e) h =
    let kept : assigned g vm ≡ g' = ap (λ x. x.1) (same_answer (sym e ∙ h)) in
    rw (sym kept) (other-IsWith g ip other a vm w new named entered)
stays g g' ip other a b w named (full new none_free e) h = absurd (ground (arith, e, h))

-- Over any further calls the client is where it was.
stays_all :
    (connects : String × ℕ → Bool) (ips : List String) (g h : Group) (ip : String) (a : String × ℕ)
    → IsServing g
    → IsWith g ip a
    → str_eq ip free_entry ≡ false
    → get_current_sockets connects ips g ≡ some h
    → IsServing h × IsWith h ip a
unfolding get_current_sockets
stays_all connects [] g h ip a s w named e =
    let same : g ≡ h = cc in (rw (sym same) s, rw (sym same) w)
stays_all connects (other ∷ ips) g h ip a s w named e =
    elim (Option-cases (get_current_socket connects other g)) [
      | inl f ↦
          let wrong : none ≡ some h = rw (f, get_current_sockets) at e in
          absurd (ground (arith, wrong))
      | inr ((b, g'), f) ↦
          let rest : get_current_sockets connects ips g' ≡ some h =
            rw (f, get_current_sockets) at e in
          let (s1, turn1) = wrap_index-IsServing g s in
          let (answer, up) = connect_lem connects other g g' b f in
          let route = check_already_connected-Routed other (wrap_index g) s1.valid turn1 in
          let (s', _) = routed (wrap_index g) g' other b s1 turn1 route answer in
          let w' =
            stays (wrap_index g) g' ip other a b (wrap_index-IsWith g ip a w) named route answer in
          stays_all connects ips g' h ip a s' w' named rest
    ]

-- From a valid table with a VM, an answered client is with a VM. Whichever clients are answered after
-- it, the next time it asks it gets the same address, and nothing but the turn's wrap-around changes.
-- Its address is not 0.0.0.0, which marks a free entry.
pub get_current_socket-sticky :
    (connects : String × ℕ → Bool) (ip : String) (g g' h : Group) (a : String × ℕ)
    (others : List String)
    → IsServing g
    → str_eq ip free_entry ≡ false
    → get_current_socket connects ip g ≡ some (a, g')
    → get_current_sockets connects others g' ≡ some h
    → IsServing h
      × (connects a ≡ true)
      × (get_current_socket connects ip h ≡ some (a, wrap_index h))
unfolding get_current_socket
get_current_socket-sticky connects ip g g' h a others s named e more =
    let (s1, turn1) = wrap_index-IsServing g s in
    let (first, up) = connect_lem connects ip g g' a e in
    let routed1 = check_already_connected-Routed ip (wrap_index g) s1.valid turn1 in
    let (s', with) = routed (wrap_index g) g' ip a s1 turn1 routed1 first in
    let (sh, withh) = stays_all connects others g' h ip a s' with named more in
    let (s2, turn2) = wrap_index-IsServing h sh in
    let again =
      Routed-IsWith (wrap_index h) ip a (wrap_index-IsWith h ip a withh)
        (check_already_connected-Routed ip (wrap_index h) s2.valid turn2) in
    (sh, up, rw (again, get_current_socket) (rw up refl))
