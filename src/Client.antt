-- ===== src/Client.antt =====
-- controller/client.c, the program on a VM: its arguments, the connection to the controller and the
-- loop that sends datapoints and obeys commands. What the system calls do is input.
pub mod Features
pub mod Totals
pub mod Handshake
pub mod Commands
use a2pm.Common.{
  ℕ, Bool, true, false, ◌&&◌, Option, none, some, List, [], ◌∷◌, ◌++◌, ◌==◌, if◌then◌else◌,
}
use a2pm.Common.Text.{codes, same_text}
use a2pm.Controller.{VmState, stand_by, active}

pub record VmService : Type 0 where
  pub service : ℕ
  pub state : VmState

abbrev state_named : List ℕ → Option VmState
state_named text =
    if same_text text (codes "STAND_BY")
    then some stand_by
    else if same_text text (codes "ACTIVE")
    then some active
    else none

-- The argument for the state and, while none is valid, what is typed. `none` is a wait for more.
unfoldable pub read_state : List ℕ → List (List ℕ) → Option VmState
read_state argument [] = state_named argument
read_state argument (typed ∷ more) =
    let rest = read_state typed more in
    elim (state_named argument) [ some state ↦ some state | none ↦ rest ]

-- What `recv` does; the buffer is zeroed before.
pub data Reply : Type 0 where
  failed disconnected : Reply
  text : List ℕ → Reply

-- The buffer as a C string.
abbrev pub c_string : List ℕ → List ℕ
c_string [] = []
c_string (c ∷ s) = let rest = c_string s in if c == 0 then [] else c ∷ rest

abbrev pub buffer_of : Reply → List ℕ
buffer_of failed = []
buffer_of disconnected = []
buffer_of (text s) = s

-- A failed `recv` closes the socket.
abbrev pub is_open : Reply → Bool
is_open failed = false
is_open disconnected = true
is_open (text s) = true

-- The service that is typed, if `scanf` reads one.
abbrev pub retyped : Option ℕ → VmService → VmService
retyped none s = s
retyped (some service) s = record s { service = service }

-- A round of the loop that waits for the acknowledgement, in so far as it is needed.
pub record Round : Type 0 where
  pub reply : Reply
  pub typed : Option ℕ
  pub sent : Bool

pub data Connection : Type 0 where
  exited waiting : Connection
  connected : VmService → Connection

-- The loop: every text but "ok" asks for another service, which is sent. A socket that is closed
-- sends nothing.
unfoldable pub wait_for_ack : VmService → List Round → Connection
wait_for_ack s [] = waiting
wait_for_ack s (r ∷ rounds) =
    let rest = wait_for_ack (retyped r.typed s) rounds in
    if same_text (c_string (buffer_of r.reply)) (codes "ok")
    then connected s
    else if is_open r.reply && r.sent
    then rest
    else exited

unfoldable pub connect_to_server :
    (has_socket has_connected sent : Bool) → VmService → List Round → Connection
unfolding wait_for_ack
connect_to_server has_socket has_connected sent s rounds =
    if has_socket && has_connected && sent then wait_for_ack s rounds else exited

-- `enum massage` of controller/commands.h, as the byte that is sent.
abbrev pub waiting_data : ℕ
waiting_data = 0

abbrev pub continue : ℕ
continue = 1

abbrev pub rejuvenate : ℕ
rejuvenate = 2

-- The first byte of the buffer, which is 0 if nothing is received.
abbrev pub command_of : List ℕ → ℕ
command_of [] = waiting_data
command_of (c ∷ s) = c

-- What the calls of a turn do: the datapoint, if it can be collected, its `send` and the `recv`.
pub record Turn : Type 0 where
  pub datapoint : Option (List ℕ)
  pub is_sent : Bool
  pub reply : Reply

-- The end of the loop with the datapoints that were sent: the program ends in `get_features`, it
-- closes the socket, or it reboots the VM. `going` is a loop that has not ended.
pub data Served : Type 0 where
  stopped closed rebooted going : List (List ℕ) → Served

abbrev has_failed : Reply → Bool
has_failed failed = true
has_failed disconnected = false
has_failed (text s) = false

unfoldable pub obey : (sent : List (List ℕ)) → List Turn → Served
obey sent [] = going sent
obey sent (t ∷ turns) = elim t.datapoint [
  | none ↦ stopped sent
  | some datapoint ↦
      let sent' = sent ++ datapoint ∷ [] in
      let rest = obey sent' turns in
      if t.is_sent
      then (if has_failed t.reply
          then closed sent'
          else if command_of (buffer_of t.reply) == rejuvenate
          then rebooted sent'
          else rest)
      else closed sent
]
