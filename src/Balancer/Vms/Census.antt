-- ===== src/Balancer/Vms/Census.antt =====
-- The tables of `controller_thread` against what they stand for: how often each address is connected
-- for each service. Slots, their order and the lists of clients are forgotten.
use Prim.Native.String.{String}
use std.Path.{subst}
use a2pm.Common.{
  ℕ, zero, suc, ◌+◌, ◌-◌, ◌<◌, ◌≡◌, ◌≢◌, refl, sym, ap, ◌∙◌, inl, inr, arith, true, Option, some,
  List, [], ◌∷◌, ◌==◌, ==_iff, if◌then◌else◌, length, get_elem?, set, length-set,
  get_elem?-set_self, get_elem?-set_ne, Bool-cases,
}
use a2pm.Common.Family.{count}
use a2pm.Balancer.Vms.{
  Group, empty_group, VirtualMachine, controller_message, controller_messages, create_system_image,
  number_groups,
}
use a2pm.Balancer.Vms.Members.{occurrences}
use a2pm.Balancer.Vms.Messages.{gained, lost, group_message-Handled}
use a2pm.Balancer.Vms.History.{
  AreValid, InServices, get-AreValid, set-AreValid, empty_group-IsValid,
}

abbrev pub Census : Type 0
Census = ℕ → String × ℕ → ℕ

abbrev pub no_vms : Census
no_vms service a = 0

-- A message counts its address once more, or once less if it is there at all.
unfoldable pub census_message : VirtualMachine → Census → Census
census_message vm c service a =
    let address : String × ℕ = (vm.ip, vm.port) in
    if vm.service == service
    then c service a + gained vm.op address a - lost vm.op (c service address) address a
    else c service a

unfoldable pub census_messages : List VirtualMachine → Census → Census
unfolding census_message
census_messages [] c = c
census_messages (vm ∷ vms) c = census_messages vms (census_message vm c)

abbrev pub Represents : List Group → Census → Type 0
Represents groups c =
    (service : ℕ) (g : Group)
    → get_elem? groups service ≡ some g
    → (a : String × ℕ) → occurrences g a ≡ c service a

pub some_same : (g g' : Group) (o : Option Group) → o ≡ some g → o ≡ some g' → g ≡ g'
some_same g g' o e e' = cc

-- The count at the service of the message.
census_message-here :
    (vm : VirtualMachine) (g g' : Group) (c : Census)
    → ((a : String × ℕ) → occurrences g a ≡ c vm.service a)
    → ((a : String × ℕ)
        → occurrences g' a + lost vm.op (occurrences g (vm.ip, vm.port)) (vm.ip, vm.port) a
          ≡ occurrences g a + gained vm.op (vm.ip, vm.port) a)
    → (a : String × ℕ) → occurrences g' a ≡ census_message vm c vm.service a
unfolding census_message
census_message-here vm g g' c rep members a =
    let here : (vm.service == vm.service) ≡ true = (==_iff vm.service vm.service).1 refl in
    let known : lost vm.op (occurrences g (vm.ip, vm.port)) (vm.ip, vm.port) a
        ≡ lost vm.op (c vm.service (vm.ip, vm.port)) (vm.ip, vm.port) a =
      ap (λ (n : ℕ). lost vm.op n (vm.ip, vm.port) a) (rep (vm.ip, vm.port)) in
    rw here (omega (arith, members a, known, rep a))

set-Represents :
    (vm : VirtualMachine) (groups : List Group) (g g' : Group) (c : Census)
    → vm.service < length groups
    → get_elem? groups vm.service ≡ some g
    → Represents groups c
    → ((a : String × ℕ)
        → occurrences g' a + lost vm.op (occurrences g (vm.ip, vm.port)) (vm.ip, vm.port) a
          ≡ occurrences g a + gained vm.op (vm.ip, vm.port) a)
    → Represents (set groups vm.service g') (census_message vm c)
set-Represents vm groups g g' c lt at rep members service h e a =
    elim (Bool-cases (vm.service == service)) [
      | inl here ↦
          let same : vm.service ≡ service = (==_iff vm.service service).0 here in
          let e' : get_elem? (set groups vm.service g') vm.service ≡ some h =
            subst (λ s. get_elem? (set groups vm.service g') s ≡ some h) (sym same) e in
          let found : g' ≡ h = some_same g' h _ (get_elem?-set_self groups vm.service g' lt) e' in
          subst (λ s. occurrences h a ≡ census_message vm c s a) same
            (rw (sym found) (census_message-here vm g g' c (rep vm.service g at) members a))
      | inr other ↦
          let apart : vm.service ≢ service = λ same. ground arith in
          let kept : census_message vm c service a ≡ c service a =
            unfold census_message in rw other refl in
          rep service h (sym (get_elem?-set_ne groups g' apart) ∙ e) a ∙ sym kept
    ]

pub census_from :
    (vms : List VirtualMachine) (groups : List Group) (c : Census)
    → AreValid groups
    → InServices (length groups) vms
    → Represents groups c
    → (groups' : List Group) × (controller_messages vms groups ≡ some groups')
      × Represents groups' (census_messages vms c)
unfolding controller_messages controller_message census_messages
census_from [] groups c v h rep = (groups, refl, rep)
census_from (vm ∷ vms) groups c v h rep =
    let (g, at, w) = get-AreValid groups vm.service v h.0 in
    let (g', e, handled) = group_message-Handled (vm.ip, vm.port) vm.op g w in
    let same = length-set groups vm.service g' in
    let (groups', e', rep') =
      census_from vms (set groups vm.service g') (census_message vm c)
        (set-AreValid groups vm.service g' v handled.valid) (rw same h.1)
        (set-Represents vm groups g g' c h.0 at rep handled.members) in
    (groups', rw (at, controller_messages) (rw e e'), rep')

occurrences-empty_group :
    (g : Group) (a : String × ℕ) → some empty_group ≡ some g → occurrences g a ≡ 0
unfolding count
occurrences-empty_group g a e =
    let same : empty_group ≡ g = some_same empty_group g (some g) (sym e) refl in rw (sym same) refl

pub create_system_image-Represents : Represents create_system_image no_vms
unfolding create_system_image
create_system_image-Represents zero g e a = occurrences-empty_group g a e
create_system_image-Represents (suc zero) g e a = occurrences-empty_group g a e
create_system_image-Represents (suc (suc zero)) g e a = occurrences-empty_group g a e
create_system_image-Represents (suc (suc (suc n))) g e a = absurd (ground (arith, e))

-- From the start of the balancer on, any messages for services that exist are handled without a fault,
-- and the tables then say of each address and each service what counting the messages says: one more
-- for each ADD, one less for each DELETE or REJ that finds the address, and nothing else.
pub controller_messages-census :
    (vms : List VirtualMachine)
    → InServices number_groups vms
    → (groups : List Group) × (controller_messages vms create_system_image ≡ some groups)
      × Represents groups (census_messages vms no_vms)
unfolding create_system_image
controller_messages-census vms h =
    census_from vms create_system_image no_vms
      (empty_group-IsValid, (empty_group-IsValid, (empty_group-IsValid, tt))) h
      create_system_image-Represents
