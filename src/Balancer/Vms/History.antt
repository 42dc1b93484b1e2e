-- ===== src/Balancer/Vms/History.antt =====
-- The tables of all services over a history of messages from the controller.
use a2pm.Common.{
  ℕ, zero, suc, ◌<◌, ◌≡◌, refl, ◌∙◌, arith, some, List, length, get_elem?, set, length-set, [], ◌∷◌,
}
use a2pm.Balancer.Vms.{
  Group, empty_group, VirtualMachine, controller_message, controller_messages, create_system_image,
  number_groups,
}
use a2pm.Balancer.Vms.Members.{IsValid}
use a2pm.Balancer.Vms.Messages.{group_message-Handled}

pub empty_group-IsValid : IsValid empty_group
empty_group-IsValid = record {
  fits = omega arith;
  room = omega arith;
  listed = λ i lt. absurd (omega arith);
}

abbrev pub AreValid : List Group → Type 0
AreValid [] = Unit {0}
AreValid (g ∷ gs) = IsValid g × AreValid gs

pub get-AreValid :
    (gs : List Group) (i : ℕ)
    → AreValid gs
    → i < length gs
    → (g : Group) × (get_elem? gs i ≡ some g) × IsValid g
get-AreValid [] i v h = absurd (omega arith)
get-AreValid (g ∷ gs) zero v h = (g, refl, v.0)
get-AreValid (g ∷ gs) (suc i) v h = get-AreValid gs i v.1 (omega arith)

pub set-AreValid :
    (gs : List Group) (i : ℕ) (g : Group) → AreValid gs → IsValid g → AreValid (set gs i g)
set-AreValid [] i g v w = tt
set-AreValid (x ∷ gs) zero g v w = (w, v.1)
set-AreValid (x ∷ gs) (suc i) g v w = (v.0, set-AreValid gs i g v.1 w)

abbrev pub InServices : ℕ → List VirtualMachine → Type 0
InServices n [] = Unit {0}
InServices n (vm ∷ vms) = (vm.service < n) × InServices n vms

pub controller_messages-valid_from :
    (vms : List VirtualMachine) (groups : List Group)
    → AreValid groups
    → InServices (length groups) vms
    → (groups' : List Group) × (controller_messages vms groups ≡ some groups')
      × AreValid groups'
      × (length groups' ≡ length groups)
unfolding controller_messages controller_message
controller_messages-valid_from [] groups v h = (groups, refl, v, refl)
controller_messages-valid_from (vm ∷ vms) groups v h =
    let (g, at, w) = get-AreValid groups vm.service v h.0 in
    let (g', e, handled) = group_message-Handled (vm.ip, vm.port) vm.op g w in
    let same = length-set groups vm.service g' in
    let (groups', e', v', l) =
      controller_messages-valid_from vms (set groups vm.service g')
        (set-AreValid groups vm.service g' v handled.valid) (rw same h.1) in
    (groups', rw (at, controller_messages) (rw e e'), v', l ∙ same)

-- From the start of the balancer on, any sequence of messages for services that exist is handled
-- without a fault and leaves each table valid.
pub controller_messages-valid :
    (vms : List VirtualMachine)
    → InServices number_groups vms
    → (groups : List Group) × (controller_messages vms create_system_image ≡ some groups)
      × AreValid groups
      × (length groups ≡ number_groups)
unfolding create_system_image
controller_messages-valid vms h =
    controller_messages-valid_from vms create_system_image
      (empty_group-IsValid, (empty_group-IsValid, (empty_group-IsValid, tt))) h
