-- ===== src/Controller/System/Addressed.antt =====
-- The steps of controller/server.c as a whole: every message to the balancer is for a service that
-- exists.
use a2pm.Common.{ℕ, ◌<◌, Option, none, some, List, inl, inr, Bool-cases, ◌==◌}
use a2pm.Balancer.Vms.{VirtualMachine, number_groups}
use a2pm.Controller.{Server, balancer_turn}
use a2pm.Controller.Communication.{Models, finished, going}
use a2pm.Controller.Communication.Addressed.{
  IsAddressed, TurnAddressed, communication_turn-TurnAddressed,
}
use a2pm.Controller.Accept.{registered}
use a2pm.Controller.Accept.Addressed.{AcceptedAddressed, accept_new_client-AcceptedAddressed}
use a2pm.Controller.Rates.{Average, mttf_round}
use a2pm.Controller.System.{
  System, AreServed-middle, IsSound, Step, connects, without_thread, turns, ends, balances,
  averages,
}

abbrev pub MessageAddressed : Option VirtualMachine → Type 0
MessageAddressed none = Unit {0}
MessageAddressed (some m) = m.service < number_groups

module _ {F R : Type 0} where
  balancer_turn-Addressed :
      (s : Server F R)
      → IsAddressed s
      → MessageAddressed (balancer_turn s).0 × IsAddressed (balancer_turn s).1
  unfolding balancer_turn
  balancer_turn-Addressed s h = elim (Bool-cases s.state_man_vm) [
    | inl full ↦ rw full (h, h)
    | inr empty ↦ rw empty (tt, h)
  ]

  mttf_round-IsAddressed :
      ⦃a : Average R⦄ → (s : Server F R) → IsAddressed s → IsAddressed (mttf_round s).0
  unfolding mttf_round
  mttf_round-IsAddressed s h = elim (Bool-cases (s.index_rej_rate == 0)) [
    | inl empty ↦ rw empty h
    | inr filled ↦ rw filled h
  ]

module _ {F R : Type 0} (ml : Models F R) (parse : List ℕ → F) ⦃a : Average R⦄ where
  -- From a sound state in which the stored message is for a service that exists, a step hands over at
  -- most such a message and keeps the stored one so.
  pub Step-Addressed :
      {s t : System F R} {message : Option VirtualMachine}
      → Step ml parse s message t
      → IsSound s
      → IsAddressed s.server
      → MessageAddressed message × IsAddressed t.server
  unfolding AcceptedAddressed TurnAddressed
  Step-Addressed {s = s} (connects first answers peer created memory server vm e) sound h =
      let k : AcceptedAddressed (registered server (some vm)) =
        rw e at (accept_new_client-AcceptedAddressed first answers peer created s.server h) in
      (tt, k)
  Step-Addressed {s = s} (without_thread first answers peer created server e) sound h =
      let k : AcceptedAddressed (registered server none) =
        rw e at (accept_new_client-AcceptedAddressed first answers peer created s.server h) in
      (tt, k)
  Step-Addressed {s = s} (turns before after l l' inbound sent server e e') sound h =
      let (mine, others) = AreServed-middle before after l (rw e at sound.served) in
      let k : TurnAddressed (going l' server) =
        rw e' at (communication_turn-TurnAddressed ml parse inbound sent l s.server mine h) in
      (tt, k)
  Step-Addressed {s = s} (ends before after l inbound sent server closed e e') sound h =
      let (mine, others) = AreServed-middle before after l (rw e at sound.served) in
      let k : TurnAddressed (finished server closed) =
        rw e' at (communication_turn-TurnAddressed ml parse inbound sent l s.server mine h) in
      (tt, k)
  Step-Addressed {s = s} balances sound h = balancer_turn-Addressed s.server h
  Step-Addressed {s = s} averages sound h = (tt, mttf_round-IsAddressed s.server h)
