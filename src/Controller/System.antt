-- ===== src/Controller/System.antt =====
-- controller/server.c as a whole: `main`, which accepts VMs for ever, and its threads: one for each VM,
-- `balancer_thread` and `mttf_thread`. A step is a turn of one of them, in any order.
pub mod Addressed
use a2pm.Common.{
  ℕ, ◌<◌, ◌≡◌, ◌≢◌, Bool, Option, none, some, List, [], ◌∷◌, ◌++◌, inl, inr, Bool-cases, ◌==◌,
}
use a2pm.Balancer.Vms.{VirtualMachine, number_groups}
use a2pm.Controller.{VmData, Server, balancer_turn}
use a2pm.Controller.Table.{AreWellFormed}
use a2pm.Controller.Communication.{
  Models, Inbound, Local, finished, going, communication_turn, start,
}
use a2pm.Controller.Communication.Features.{IsKept, communication_turn-IsKept}
use a2pm.Controller.Accept.{
  Answer, Peer, Accepted, fault, registered, unchanged, waiting, accept_new_client, initial,
}
use a2pm.Controller.Accept.Registered.{
  IsOf, IsRegistered, accept_new_client-IsRegistered, initial-AreWellFormed,
}
use a2pm.Controller.Rates.{Average, mttf_round}

-- The shared state and the locals of the threads of the VMs.
pub record System (F R : Type 0) : Type 0 where
  pub server : Server F R
  pub threads : List (Local F)

module _ {F : Type 0} where
  -- Every thread is for a service that exists.
  abbrev pub AreServed : List (Local F) → Type 0
  AreServed [] = Unit {0}
  AreServed (l ∷ ls) = (l.vm.service_info.service < number_groups) × AreServed ls

  pub AreServed-middle :
      (before after : List (Local F)) (l : Local F)
      → AreServed (before ++ l ∷ after)
      → (l.vm.service_info.service < number_groups) × AreServed (before ++ after)
  AreServed-middle [] after l h = h
  AreServed-middle (b ∷ before) after l h =
      let (mine, others) = AreServed-middle before after l h.1 in (mine, (h.0, others))

  AreServed-insert :
      (before after : List (Local F)) (l : Local F)
      → l.vm.service_info.service < number_groups
      → AreServed (before ++ after)
      → AreServed (before ++ l ∷ after)
  AreServed-insert [] after l lt h = (lt, h)
  AreServed-insert (b ∷ before) after l lt h = (h.0, AreServed-insert before after l lt h.1)

module _ {F R : Type 0} where
  pub record IsSound (s : System F R) : Type 0 where
    pub table : AreWellFormed s.server
    pub served : AreServed s.threads

  balancer_turn-AreWellFormed :
      (s : Server F R) → AreWellFormed s → AreWellFormed (balancer_turn s).1
  unfolding balancer_turn
  balancer_turn-AreWellFormed s all = elim (Bool-cases s.state_man_vm) [
    | inl full ↦ rw full all
    | inr empty ↦ rw empty all
  ]

  mttf_round-AreWellFormed :
      ⦃a : Average R⦄ → (s : Server F R) → AreWellFormed s → AreWellFormed (mttf_round s).0
  unfolding mttf_round
  mttf_round-AreWellFormed s all = elim (Bool-cases (s.index_rej_rate == 0)) [
    | inl empty ↦ rw empty all
    | inr filled ↦ rw filled all
  ]

module _ {F R : Type 0} (ml : Models F R) (parse : List ℕ → F) ⦃a : Average R⦄ where
  -- A step with the message that it hands to `send`. `memory` is what the locals of a new thread hold.
  -- A call that waits, or is a fault, makes no step.
  pub data Step (s : System F R) : Option VirtualMachine → System F R → Type 0 where
    connects :
        (first : Answer) (answers : List Answer) (peer : Peer) (created : Bool) (memory : F)
        (server : Server F R) (vm : VmData F)
        → accept_new_client first answers peer created s.server ≡ registered server (some vm)
        → Step s none (record { server = server; threads = start vm memory ∷ s.threads })
    without_thread :
        (first : Answer) (answers : List Answer) (peer : Peer) (created : Bool)
        (server : Server F R)
        → accept_new_client first answers peer created s.server ≡ registered server none
        → Step s none (record s { server = server })
    turns :
        (before after : List (Local F)) (l l' : Local F) (inbound : Inbound) (sent : Bool)
        (server : Server F R)
        → s.threads ≡ before ++ l ∷ after
        → communication_turn ml parse inbound sent l s.server ≡ going l' server
        → Step s none (record { server = server; threads = before ++ l' ∷ after })
    ends :
        (before after : List (Local F)) (l : Local F) (inbound : Inbound) (sent : Bool)
        (server : Server F R) (closed : ℕ)
        → s.threads ≡ before ++ l ∷ after
        → communication_turn ml parse inbound sent l s.server ≡ finished server closed
        → Step s none (record { server = server; threads = before ++ after })
    balances : Step s (balancer_turn s.server).0 (record s { server = (balancer_turn s.server).1 })
    averages : Step s none (record s { server = (mttf_round s.server).0 })

  pub data Reach (s : System F R) : System F R → Type 0 where
    here : Reach s s
    next :
        {t u : System F R} {message : Option VirtualMachine}
        → Reach s t
        → Step t message u
        → Reach s u

  pub Step-IsSound :
      {s t : System F R} {message : Option VirtualMachine}
      → Step s message t
      → IsSound s
      → IsSound t
  unfolding IsRegistered IsOf IsKept
  Step-IsSound {s = s} (connects first answers peer created memory server vm e) h =
      let k : IsRegistered peer (registered server (some vm)) =
        rw e at (accept_new_client-IsRegistered first answers peer created s.server h.table) in
      record { table = k.0; served = (k.1.2, h.served) }
  Step-IsSound {s = s} (without_thread first answers peer created server e) h =
      let k : IsRegistered peer (registered server none) =
        rw e at (accept_new_client-IsRegistered first answers peer created s.server h.table) in
      record { table = k.0; served = h.served }
  Step-IsSound {s = s} (turns before after l l' inbound sent server e e') h =
      let k : IsKept l.vm.socket l.vm.service_info l.current_features (going l' server) =
        rw e' at (communication_turn-IsKept ml parse inbound sent l s.server h.table) in
      let (mine, others) = AreServed-middle before after l (rw e at h.served) in
      record { table = k.0; served = AreServed-insert before after l' (rw k.2 mine) others }
  Step-IsSound {s = s} (ends before after l inbound sent server closed e e') h =
      let k : IsKept l.vm.socket l.vm.service_info l.current_features (finished server closed) =
        rw e' at (communication_turn-IsKept ml parse inbound sent l s.server h.table) in
      record { table = k.0; served = (AreServed-middle before after l (rw e at h.served)).1 }
  Step-IsSound {s = s} balances h = record {
    table = balancer_turn-AreWellFormed s.server h.table;
    served = h.served;
  }
  Step-IsSound {s = s} averages h = record {
    table = mttf_round-AreWellFormed s.server h.table;
    served = h.served;
  }

  Reach-IsSound : {s t : System F R} → IsSound s → Reach s t → IsSound t
  Reach-IsSound h here = h
  Reach-IsSound h (next r step) = Step-IsSound step (Reach-IsSound h r)

  accepted-ne-fault : (peer : Peer) (r : Accepted F R) → IsRegistered peer r → r ≢ fault
  unfolding IsRegistered
  accepted-ne-fault peer fault h e = h
  accepted-ne-fault peer waiting h e = cc
  accepted-ne-fault peer unchanged h e = cc
  accepted-ne-fault peer (registered server started) h e = cc

  -- From the state that `main` makes, whatever the memory holds, and in every order in which VMs
  -- connect and the threads take their turns: the table stays well formed, every thread of a VM is
  -- for a service that exists, and the next VM is registered without an access outside the table,
  -- whatever it sends.
  pub system-IsSound :
      (memory : ℕ → ℕ → VmData F) (rates : ℕ → R) (zeroed : VirtualMachine) (s : System F R)
      → Reach (record { server = initial memory rates zeroed; threads = [] }) s
      → AreWellFormed s.server
        × AreServed s.threads
        × ((first : Answer) (answers : List Answer) (peer : Peer) (created : Bool)
            → accept_new_client first answers peer created s.server ≢ fault)
  system-IsSound memory rates zeroed s r =
      let initially : IsSound (record { server = initial memory rates zeroed; threads = [] }) =
        record { table = initial-AreWellFormed memory rates zeroed; served = tt } in
      let h = Reach-IsSound initially r in
      (
        h.table,
        h.served,
        λ first answers peer created.
            accepted-ne-fault peer (accept_new_client first answers peer created s.server)
              (accept_new_client-IsRegistered first answers peer created s.server h.table),
      )
