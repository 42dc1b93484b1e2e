-- ===== src/Controller/Communication/Addressed.antt =====
-- `communication_thread`: the messages that it stores for `balancer_thread`, whose service exists.
use a2pm.Common.{
  ℕ, ◌+◌, ◌*◌, ◌<◌, ◌≡◌, inl, inr, sym, arith, Bool, true, false, none, some, List, leb,
  if◌then◌else◌, Bool-cases, Option-cases,
}
use a2pm.Balancer.Vms.{VirtualMachine, delete, rej, number_groups}
use a2pm.Controller.{Server, is_active, announce, manage_disconnected_vms, switch_active_machine}
use a2pm.Controller.Communication.{
  Models, Inbound, failed, disconnected, received, Local, Turn, fault, waiting, finished, going,
  message, get_feature, push_rate, finish, keep_on, replace, judge, communication_turn,
}

module _ {F R : Type 0} where
  abbrev pub IsAddressed : Server F R → Type 0
  IsAddressed s = s.virt_machine.service < number_groups

  pub announce-IsAddressed :
      (m : VirtualMachine) (s s' : Server F R)
      → m.service < number_groups
      → announce m s ≡ some s'
      → IsAddressed s'
  unfolding announce
  announce-IsAddressed m s s' lt h = elim (Bool-cases s.manage_locked) [
    | inl locked ↦ let e : none ≡ some s' = rw locked at h in absurd (ground (arith, e))
    | inr free ↦
        let e : some (record s { virt_machine = m; state_man_vm = true; manage_locked = true })
            ≡ some s' =
          rw free at h in
        let same : record s { virt_machine = m; state_man_vm = true; manage_locked = true } ≡ s' =
          cc in
        rw (sym same) lt
  ]

  -- What a turn of a thread leaves, if it returns.
  unfoldable pub TurnAddressed : Turn F R → Type 0
  TurnAddressed fault = Unit {0}
  TurnAddressed waiting = Unit {0}
  TurnAddressed (finished s closed) = IsAddressed s
  TurnAddressed (going l s) = IsAddressed s

  finish-TurnAddressed :
      (l : Local F) (s : Server F R)
      → l.vm.service_info.service < number_groups
      → TurnAddressed (finish l s)
  unfolding finish TurnAddressed manage_disconnected_vms
  finish-TurnAddressed l s lt = elim (Option-cases (announce (message delete l.vm) s)) [
    | inl e ↦ rw (TurnAddressed, e) tt
    | inr (s', e) ↦ rw (TurnAddressed, e) (announce-IsAddressed (message delete l.vm) s s' lt e)
  ]

  keep_on-TurnAddressed :
      (sent : Bool) (l : Local F) (s : Server F R)
      → l.vm.service_info.service < number_groups
      → IsAddressed s
      → TurnAddressed (keep_on sent l s)
  unfolding keep_on TurnAddressed
  keep_on-TurnAddressed true l s lt h = h
  keep_on-TurnAddressed false l s lt h =
      finish-TurnAddressed
        (record l {
          vm = record l.vm {
            last_features = l.current_features;
            last_system_features_stored = true;
          };
        })
        s lt

  replace-TurnAddressed :
      (sent : Bool) (l : Local F) (s : Server F R)
      → l.vm.service_info.service < number_groups
      → TurnAddressed (replace sent l s)
  unfolding replace TurnAddressed
  replace-TurnAddressed sent l s lt =
      let s1 = switch_active_machine sent l.vm s in
      elim (Option-cases (announce (message rej l.vm) s1)) [
        | inl e ↦ rw (TurnAddressed, e) tt
        | inr (s', e) ↦ rw (TurnAddressed, e) (announce-IsAddressed (message rej l.vm) s1 s' lt e)
      ]

  judge-TurnAddressed :
      (ml : Models F R) (sent : Bool) (l : Local F) (s : Server F R)
      → l.vm.service_info.service < number_groups
      → IsAddressed s
      → TurnAddressed (judge ml sent l s)
  unfolding judge push_rate TurnAddressed
  judge-TurnAddressed ml sent l s lt h = elim (Bool-cases l.vm.last_system_features_stored) [
    | inr first ↦ rw first (keep_on-TurnAddressed sent l s lt h)
    | inl again ↦ rw again (elim (Bool-cases (leb ((s.index_rej_rate + 1) * 4) s.rej_bytes)) [
      | inr outside ↦ rw outside tt
      | inl inside ↦
          rw inside (elim (Bool-cases (ml.crashes_soon l.vm.last_features l.current_features)) [
            | inl soon ↦ rw soon (replace-TurnAddressed sent l _ lt)
            | inr well ↦ rw well (keep_on-TurnAddressed sent l _ lt h)
          ])
    ])
  ]

  pub communication_turn-TurnAddressed :
      (ml : Models F R) (parse : List ℕ → F) (inbound : Inbound) (sent : Bool) (l : Local F)
      (s : Server F R)
      → l.vm.service_info.service < number_groups
      → IsAddressed s
      → TurnAddressed (communication_turn ml parse inbound sent l s)
  unfolding communication_turn get_feature TurnAddressed
  communication_turn-TurnAddressed ml parse failed sent l s lt h =
      elim (Bool-cases (is_active l.vm.service_info.state)) [
        | inl on ↦ rw on (finish-TurnAddressed l s lt)
        | inr off ↦ rw off h
      ]
  communication_turn-TurnAddressed ml parse disconnected sent l s lt h =
      elim (Bool-cases (is_active l.vm.service_info.state)) [
        | inl on ↦ rw on (finish-TurnAddressed l s lt)
        | inr off ↦ rw off h
      ]
  communication_turn-TurnAddressed ml parse (received m) sent l s lt h =
      elim (Bool-cases (is_active l.vm.service_info.state)) [
        | inl on ↦ rw on (
            judge-TurnAddressed ml sent
              (record l {
                init_features =
                    if l.flag_init_features then l.init_features else l.current_features;
                flag_init_features = true;
              })
              s lt h)
        | inr off ↦ rw off h
      ]
