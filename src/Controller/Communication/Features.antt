-- ===== src/Controller/Communication/Features.antt =====
-- `communication_thread`: what becomes of the features, and of the table.
use a2pm.Common.{
  ℕ, ◌+◌, ◌*◌, ◌≡◌, inl, inr, refl, sym, arith, Bool, true, false, none, some, List, leb,
  if◌then◌else◌, Bool-cases, Option-cases,
}
use a2pm.Balancer.Vms.{VirtualMachine, delete, rej}
use a2pm.Controller.{VmService, Server, is_active, announce, switch_active_machine}
use a2pm.Controller.Table.{
  AreWellFormed, manage_disconnected_vms-AreWellFormed, switch_active_machine-AreWellFormed,
}
use a2pm.Controller.Communication.{
  Models, Inbound, failed, disconnected, received, Local, Turn, fault, waiting, finished, going,
  message, get_feature, push_rate, finish, keep_on, replace, judge, communication_turn,
}

module _ {F R : Type 0} where
  -- The turn for one message is the turn for any other: what a VM sends does not reach the
  -- prediction, the table or the locals.
  pub communication_turn-deaf :
      (ml : Models F R) (parse : List ℕ → F) (m m' : List ℕ) (sent : Bool) (l : Local F)
      (s : Server F R)
      → communication_turn ml parse (received m) sent l s
        ≡ communication_turn ml parse (received m') sent l s
  unfolding communication_turn get_feature
  communication_turn-deaf ml parse m m' sent l s = refl

  announce-AreWellFormed :
      (m : VirtualMachine) (s s' : Server F R)
      → announce m s ≡ some s'
      → AreWellFormed s
      → AreWellFormed s'
  unfolding announce
  announce-AreWellFormed m s s' h all = elim (Bool-cases s.manage_locked) [
    | inl locked ↦ let e : none ≡ some s' = rw locked at h in absurd (ground (arith, e))
    | inr free ↦
        let e : some (record s { virt_machine = m; state_man_vm = true; manage_locked = true })
            ≡ some s' =
          rw free at h in
        let same : record s { virt_machine = m; state_man_vm = true; manage_locked = true } ≡ s' =
          cc in
        rw (sym same) all
  ]

  -- The table is well formed after the turn, if there is no fault, and the thread is still that of
  -- the same VM.
  unfoldable pub IsKept : (socket : ℕ) (info : VmService) (current_features : F) → Turn F R → Type 0
  IsKept socket info current fault = Unit {0}
  IsKept socket info current waiting = Unit {0}
  IsKept socket info current (finished s closed) = AreWellFormed s × (closed ≡ socket)
  IsKept socket info current (going l s) =
      AreWellFormed s
      × (l.vm.socket ≡ socket)
      × (l.vm.service_info ≡ info)
      × (l.current_features ≡ current)

  finish-IsKept :
      (l : Local F) (s : Server F R)
      → AreWellFormed s
      → IsKept l.vm.socket l.vm.service_info l.current_features (finish l s)
  unfolding finish IsKept
  finish-IsKept l s all = elim (Option-cases (announce (message delete l.vm) s)) [
    | inl e ↦ rw (IsKept, e) tt
    | inr (s', e) ↦
        rw (IsKept, e)
          (
            manage_disconnected_vms-AreWellFormed l.vm s' (announce-AreWellFormed _ s s' e all),
            refl,
          )
  ]

  keep_on-IsKept :
      (sent : Bool) (l : Local F) (s : Server F R)
      → AreWellFormed s
      → IsKept l.vm.socket l.vm.service_info l.current_features (keep_on sent l s)
  unfolding keep_on IsKept
  keep_on-IsKept true l s all = (all, refl, refl, refl)
  keep_on-IsKept false l s all =
      finish-IsKept
        (record l {
          vm = record l.vm {
            last_features = l.current_features;
            last_system_features_stored = true;
          };
        })
        s all

  replace-IsKept :
      (sent : Bool) (l : Local F) (s : Server F R)
      → AreWellFormed s
      → IsKept l.vm.socket l.vm.service_info l.current_features (replace sent l s)
  unfolding replace IsKept
  replace-IsKept sent l s all =
      let all' = switch_active_machine-AreWellFormed sent l.vm s all in
      elim (Option-cases (announce (message rej l.vm) (switch_active_machine sent l.vm s))) [
        | inl e ↦ rw (IsKept, e) tt
        | inr (s', e) ↦ rw (IsKept, e) (announce-AreWellFormed _ _ s' e all', refl, refl, refl)
      ]

  judge-IsKept :
      (ml : Models F R) (sent : Bool) (l : Local F) (s : Server F R)
      → AreWellFormed s
      → IsKept l.vm.socket l.vm.service_info l.current_features (judge ml sent l s)
  unfolding judge push_rate IsKept
  judge-IsKept ml sent l s all = elim (Bool-cases l.vm.last_system_features_stored) [
    | inr first ↦ rw first (keep_on-IsKept sent l s all)
    | inl again ↦ rw again (elim (Bool-cases (leb ((s.index_rej_rate + 1) * 4) s.rej_bytes)) [
      | inr outside ↦ rw outside tt
      | inl inside ↦
          rw inside (elim (Bool-cases (ml.crashes_soon l.vm.last_features l.current_features)) [
            | inl soon ↦ rw soon (replace-IsKept sent l _ all)
            | inr well ↦ rw well (keep_on-IsKept sent l _ all)
          ])
    ])
  ]

  -- A turn of `communication_thread` in a well-formed table, whatever is received and whatever the
  -- models say, that does not fault or wait: the table stays well formed, and the thread goes on with
  -- the socket, the service and the features it had, or ends and closes that socket.
  pub communication_turn-IsKept :
      (ml : Models F R) (parse : List ℕ → F) (inbound : Inbound) (sent : Bool) (l : Local F)
      (s : Server F R)
      → AreWellFormed s
      → IsKept l.vm.socket l.vm.service_info l.current_features
          (communication_turn ml parse inbound sent l s)
  unfolding communication_turn get_feature IsKept
  communication_turn-IsKept ml parse failed sent l s all =
      elim (Bool-cases (is_active l.vm.service_info.state)) [
        | inl on ↦ rw on (finish-IsKept l s all)
        | inr off ↦ rw off (all, refl, refl, refl)
      ]
  communication_turn-IsKept ml parse disconnected sent l s all =
      elim (Bool-cases (is_active l.vm.service_info.state)) [
        | inl on ↦ rw on (finish-IsKept l s all)
        | inr off ↦ rw off (all, refl, refl, refl)
      ]
  communication_turn-IsKept ml parse (received m) sent l s all =
      elim (Bool-cases (is_active l.vm.service_info.state)) [
        | inl on ↦ rw on (
            judge-IsKept ml sent
              (record l {
                init_features =
                    if l.flag_init_features then l.init_features else l.current_features;
                flag_init_features = true;
              })
              s all)
        | inr off ↦ rw off (all, refl, refl, refl)
      ]
