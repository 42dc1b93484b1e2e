-- ===== src/Controller/Accept/Addressed.antt =====
-- `accept_new_client`: the message that it stores for `balancer_thread`, whose service exists.
use std.Path.{subst}
use a2pm.Common.{
  ℕ, ◌<◌, ◌≡◌, inl, inr, refl, sym, ap, ◌∙◌, arith, Bool, true, false, Option, none, some, List,
  ltb, ◌==◌, Bool-cases, Option-cases,
}
use a2pm.Sockets.{htons}
use a2pm.Balancer.Vms.{VirtualMachine, add, number_groups}
use a2pm.Controller.{VmService, Server, is_active, announce}
use a2pm.Controller.Communication.Addressed.{IsAddressed, announce-IsAddressed}
use a2pm.Controller.Accept.{
  Answer, failed, disconnected, service_info, handshake, Peer, Accepted, fault, waiting, unchanged,
  registered, make_room, add_to_table, announce_active, launch, register, accept_new_client,
}
use a2pm.Controller.Accept.Handshake.{handshake-service}

module _ {F R : Type 0} where
  unfoldable pub AcceptedAddressed : Accepted F R → Type 0
  AcceptedAddressed fault = Unit {0}
  AcceptedAddressed waiting = Unit {0}
  AcceptedAddressed unchanged = Unit {0}
  AcceptedAddressed (registered s started) = IsAddressed s

  abbrev box : Option (Server F R) → Option VirtualMachine
  box o = elim o [ none ↦ none | some s ↦ some s.virt_machine ]

  make_room-virt_machine :
      (service : ℕ) (s : Server F R) → (make_room service s).virt_machine ≡ s.virt_machine
  unfolding make_room
  make_room-virt_machine service s =
      elim (Bool-cases ((s.groups service).current_vms == (s.groups service).allocated_vms)) [
        | inl full ↦ rw full refl
        | inr room ↦ rw room refl
      ]

  add_to_table-virt_machine :
      (info : VmService) (peer : Peer) (s s' : Server F R)
      → add_to_table info peer s ≡ some s'
      → s.virt_machine ≡ s'.virt_machine
  unfolding add_to_table
  add_to_table-virt_machine info peer s s' e =
      let g = s.groups info.service in
      elim (Bool-cases (ltb g.current_vms g.allocated_vms)) [
        | inr full ↦ let wrong : none ≡ some s' = rw full at e in absurd (ground (arith, wrong))
        | inl room ↦
            let kept : box (add_to_table info peer s) ≡ some s.virt_machine = rw (room, box) refl in
            let same : some s.virt_machine ≡ some s'.virt_machine = sym kept ∙ ap box e in cc
      ]

  -- The table does not touch the message box.
  add_to_table-IsAddressed :
      (info : VmService) (peer : Peer) (s s' : Server F R)
      → IsAddressed s
      → add_to_table info peer (make_room info.service s) ≡ some s'
      → IsAddressed s'
  add_to_table-IsAddressed info peer s s' h e =
      let same =
        sym (make_room-virt_machine info.service s)
        ∙ add_to_table-virt_machine info peer (make_room info.service s) s' e in
      subst (λ (m : VirtualMachine). m.service < number_groups) same h

  announce_active-IsAddressed :
      (info : VmService) (peer : Peer) (s s' : Server F R)
      → info.service < number_groups
      → IsAddressed s
      → announce_active info peer s ≡ some s'
      → IsAddressed s'
  unfolding announce_active
  announce_active-IsAddressed info peer s s' lt h e = elim (Bool-cases (is_active info.state)) [
    | inr off ↦
        let kept : some s ≡ some s' = rw off at e in let same : s ≡ s' = cc in rw (sym same) h
    | inl on ↦
        let m : VirtualMachine = record {
          ip = peer.ip;
          port = htons 8080;
          service = info.service;
          op = add;
        } in
        let posted : announce m s ≡ some s' = rw on at e in announce-IsAddressed m s s' lt posted
  ]

  launch-AcceptedAddressed :
      (created : Bool) (service : ℕ) (s : Server F R)
      → IsAddressed s
      → AcceptedAddressed (launch created service s)
  unfolding launch AcceptedAddressed
  launch-AcceptedAddressed true service s h = h
  launch-AcceptedAddressed false service s h = h

  register-AcceptedAddressed :
      (created : Bool) (info : VmService) (peer : Peer) (s : Server F R)
      → info.service < number_groups
      → IsAddressed s
      → AcceptedAddressed (register created info peer s)
  unfolding register AcceptedAddressed
  register-AcceptedAddressed created info peer s lt h =
      elim (Option-cases (add_to_table info peer (make_room info.service s))) [
        | inl e ↦ rw (AcceptedAddressed, e) tt
        | inr (s1, e1) ↦ elim (Option-cases (announce_active info peer s1)) [
          | inl e ↦ rw (AcceptedAddressed, e1, e) tt
          | inr (s2, e) ↦
              rw (AcceptedAddressed, e1, e)
                (launch-AcceptedAddressed created info.service s2 (
                  announce_active-IsAddressed info peer s1 s2 lt
                    (add_to_table-IsAddressed info peer s s1 h e1) e))
        ]
      ]

  pub accept_new_client-AcceptedAddressed :
      (first : Answer) (answers : List Answer) (peer : Peer) (created : Bool) (s : Server F R)
      → IsAddressed s
      → AcceptedAddressed (accept_new_client first answers peer created s)
  unfolding accept_new_client AcceptedAddressed
  accept_new_client-AcceptedAddressed failed answers peer created s h = tt
  accept_new_client-AcceptedAddressed disconnected answers peer created s h = tt
  accept_new_client-AcceptedAddressed (service_info info) answers peer created s h =
      elim (Option-cases (handshake info answers)) [
        | inl e ↦ rw (AcceptedAddressed, e) tt
        | inr (info', e) ↦
            rw (AcceptedAddressed, e)
              (register-AcceptedAddressed created info' peer s
                (handshake-service info info' answers e) h)
      ]
