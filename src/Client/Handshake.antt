-- ===== src/Client/Handshake.antt =====
-- `connect_to_server` of client.c against `accept_new_client` of server.c: the service on which both
-- sides of the handshake agree.
use a2pm.Common.{
  ℕ, ◌≡◌, refl, inl, inr, true, Option, none, some, List, [], ◌∷◌, ◌++◌, replicate, ltb,
  if◌then◌else◌, Bool-cases,
}
use a2pm.Common.Text.{codes, same_text}
use a2pm.Balancer.Vms.{number_groups}
use a2pm.Controller
use a2pm.Controller.Accept.{Answer, service_info, handshake}
use a2pm.Client.{
  VmService, Reply, text, retyped, Round, Connection, exited, waiting, connected, wait_for_ack,
}

-- What the controller answers to a service, padded with zeros to the size of the buffer.
unfoldable pub acknowledge : ℕ → Reply
acknowledge service =
    if ltb service number_groups
    then text (codes "ok" ++ replicate 4094 0)
    else text (codes "groups" ++ replicate 4090 0)

-- The struct of the controller has one field more than that of the client, which the bytes of the
-- client do not fill.
abbrev pub as_received : ℕ → VmService → Controller.VmService
as_received rest s = record { service = s.service; state = s.state; provided_port = rest }

-- Both sides, while the connection holds and the user types services.
abbrev pub rounds : VmService → List ℕ → List Round
rounds s [] = record { reply = acknowledge s.service; typed = none; sent = true } ∷ []
rounds s (n ∷ typed) =
    record { reply = acknowledge s.service; typed = some n; sent = true }
    ∷ rounds (retyped (some n) s) typed

abbrev pub answers : ℕ → VmService → List ℕ → List Answer
answers rest s [] = []
answers rest s (n ∷ typed) =
    service_info (as_received rest (retyped (some n) s)) ∷ answers rest (retyped (some n) s) typed

abbrev pub agreed : ℕ → Connection → Option Controller.VmService
agreed rest exited = none
agreed rest waiting = none
agreed rest (connected s) = some (as_received rest s)

-- The client goes on with a service exactly when the controller registers the VM under it, whichever
-- numbers the user types, with every message received whole: the loop of the client ends with the service and the state with which the loop of
-- the controller ends, and as long as one waits so does the other.
pub wait_for_ack-handshake :
    (rest : ℕ) (s : VmService) (typed : List ℕ)
    → agreed rest (wait_for_ack s (rounds s typed))
      ≡ handshake (as_received rest s) (answers rest s typed)
unfolding wait_for_ack handshake acknowledge same_text
wait_for_ack-handshake rest s [] = elim (Bool-cases (ltb s.service number_groups)) [
  | inl known ↦ rw known refl
  | inr unknown ↦ rw unknown refl
]
wait_for_ack-handshake rest s (n ∷ typed) = elim (Bool-cases (ltb s.service number_groups)) [
  | inl known ↦ rw known refl
  | inr unknown ↦ rw unknown (wait_for_ack-handshake rest (retyped (some n) s) typed)
]
