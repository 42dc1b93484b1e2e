-- ===== src/Network/Census.antt =====
-- The tables of the balancer in any interleaving of both programs.
use a2pm.Common.{◌⊎◌, ℕ, ◌<◌, ◌≡◌, List, [], ◌∷◌, ◌++◌}
use a2pm.Balancer.Vms.{VirtualMachine, number_groups}
use a2pm.Balancer.Vms.History.{InServices}
use a2pm.Balancer.Vms.Census.{no_vms, census_messages}
use a2pm.Controller.Communication.{Models}
use a2pm.Controller.Communication.Addressed.{IsAddressed}
use a2pm.Controller.Rates.{Average}
use a2pm.Controller.System.{System, IsSound}
use a2pm.Network.{Network}
use a2pm.Network.Tables.{AreCounted}

-- What the balancer handles, given what it receives and what its local holds at first and now: each
-- message once or more, one after the other.
pub data Repeats (first : VirtualMachine)
    : (received handled : List VirtualMachine) (now : VirtualMachine) → Type 0 where
  nothing : Repeats first [] [] first
  fresh :
      {received handled : List VirtualMachine} {now : VirtualMachine} (m : VirtualMachine)
      → Repeats first received handled now
      → Repeats first (received ++ m ∷ []) (handled ++ m ∷ []) m
  again :
      {received handled : List VirtualMachine} {now : VirtualMachine}
      → Repeats first received handled now
      → Repeats first received (handled ++ now ∷ []) now

module _ {F R : Type 0} (ml : Models F R) (parse : List ℕ → F) ⦃a : Average R⦄ where
  record Inv (sent handled : List VirtualMachine) (n : Network F R) : Type 0 where
    first : VirtualMachine
    received : List VirtualMachine
    order : sent ≡ received ++ n.in_transit
    repeated : Repeats first received handled n.vm
    services : InServices number_groups sent
    addressed_vm : (handled ≡ []) ⊎ (n.vm.service < number_groups)
    tables : AreCounted n.tables (census_messages handled no_vms)
    sound : IsSound n.controller
    addressed : IsAddressed n.controller.server
