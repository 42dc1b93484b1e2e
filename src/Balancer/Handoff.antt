-- ===== src/Balancer/Handoff.antt =====
-- controller/balancer.c: the loop of `main`, which accepts clients, and the first lines of
-- `deal_with_data`, with the struct `vm_client` that both read and write: `main` locks the mutex and
-- fills it, the thread that it creates copies it and unlocks the mutex.
pub mod InOrder
use Prim.Native.String.{String}
use a2pm.Common.{
  ℕ, suc, ◌+◌, ◌≡◌, Bool, true, false, Option, none, some, List, [], ◌∷◌, ◌++◌, ltb, ◌==◌,
  if◌then◌else◌,
}

pub record ArgThread : Type 0 where
  pub socket : ℕ
  pub ip_address : String
  pub port : ℕ

-- Where `main` is: at `accept` or at the lock, or behind the lock with the client that it has accepted
-- and so many fields written.
pub data Main : Type 0 where
  accepting : Main
  locked has_socket has_ip filled : ArgThread → Main

-- `fresh` threads have not yet copied the struct; those of `copied` have and hold their copy.
pub record Handoff : Type 0 where
  pub mutex : Bool
  pub vm_client : ArgThread
  pub at : Main
  pub fresh : ℕ
  pub copied : List ArgThread

-- The steps of `main` and of the threads, in any order. The lists are the clients for which a thread
-- was created and the copies with which threads have gone on, in their order.
pub data Reach : (created served : List ArgThread) → Handoff → Type 0 where
  start :
      (memory : ArgThread)
      → Reach [] []
          (record { mutex = false; vm_client = memory; at = accepting; fresh = 0; copied = [] })
  locks :
      (client : ArgThread) {created served : List ArgThread} {s : Handoff}
      → Reach created served s
      → s.at ≡ accepting
      → s.mutex ≡ false
      → Reach created served (record s { mutex = true; at = locked client })
  writes_socket :
      (client : ArgThread) {created served : List ArgThread} {s : Handoff}
      → Reach created served s
      → s.at ≡ locked client
      → Reach created served (record s {
        vm_client = record s.vm_client { socket = client.socket };
        at = has_socket client;
      })
  writes_ip :
      (client : ArgThread) {created served : List ArgThread} {s : Handoff}
      → Reach created served s
      → s.at ≡ has_socket client
      → Reach created served (record s {
        vm_client = record s.vm_client { ip_address = client.ip_address };
        at = has_ip client;
      })
  writes_port :
      (client : ArgThread) {created served : List ArgThread} {s : Handoff}
      → Reach created served s
      → s.at ≡ has_ip client
      → Reach created served
          (record s { vm_client = record s.vm_client { port = client.port }; at = filled client })
  creates :
      (client : ArgThread) {created served : List ArgThread} {s : Handoff}
      → Reach created served s
      → s.at ≡ filled client
      → Reach (created ++ client ∷ []) served (record s { at = accepting; fresh = s.fresh + 1 })
  cannot_create :
      (client : ArgThread) {created served : List ArgThread} {s : Handoff}
      → Reach created served s
      → s.at ≡ filled client
      → Reach created served (record s { mutex = false; at = accepting })
  copies :
      (fresh : ℕ) {created served : List ArgThread} {s : Handoff}
      → Reach created served s
      → s.fresh ≡ suc fresh
      → Reach created served (record s { fresh = fresh; copied = s.vm_client ∷ s.copied })
  unlocks :
      (before after : List ArgThread) (arg : ArgThread) {created served : List ArgThread}
      {s : Handoff}
      → Reach created served s
      → s.copied ≡ before ++ arg ∷ after
      → Reach created (served ++ arg ∷ []) (record s { mutex = false; copied = before ++ after })
