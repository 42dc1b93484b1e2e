-- ===== src/Broadcast.antt =====
-- controller/broadcast.c: messages between controllers over UDP. `S` is the state that the
-- registered callbacks change. `none` is a fault: an access outside an array, a call of a null
-- pointer, or `abort`.
pub mod Dispatch
pub mod Delivery
pub mod Startup
use text.Mathlib.Text.{◌==◌ as str_eq}
use Prim.Native.String.{String}
use a2pm.Common.{
  ℕ, zero, suc, ◌+◌, ◌≡◌, Bool, true, false, Option, none, some, List, [], ◌∷◌, ltb, ◌==◌,
  if◌then◌else◌, length, get_elem?, set, replicate,
}
use a2pm.Common.Int.{ℤ, pos}

abbrev pub max_controllers : ℕ
max_controllers = 32

abbrev pub max_callbacks : ℕ
max_callbacks = 1024

abbrev pub max_message : ℕ
max_message = 1024

pub record Message : Type 0 where
  pub type : ℕ
  pub size : ℕ
  pub payload : ℤ

-- One of the other controllers, and the last value that it sent.
pub record Connection : Type 0 where
  pub ip : String
  pub socket : ℤ
  pub value : ℤ

-- `connections` has `max_controllers` slots, of which the first `last_controller_socket` are in use.
pub record Bus : Type 0 where
  pub connections : List Connection
  pub last_controller_socket : ℕ
  pub msg_temp : Message
  pub new_bcast_message : Bool

-- A datagram that goes out: the socket, the address and the message.
pub record Datagram : Type 0 where
  pub socket : ℤ
  pub ip : String
  pub message : Message

-- The slots from `index` on, for `rounds` rounds.
send_loop : (rounds index : ℕ) → Bus → List Datagram
send_loop zero index bus = []
send_loop (suc rounds) index bus =
    let later = send_loop rounds (index + 1) bus in
    elim (get_elem? bus.connections index) [
      | none ↦ later
      | some c ↦ record { socket = c.socket; ip = c.ip; message = bus.msg_temp } ∷ later
    ]

-- A datagram that cannot be sent is reported and not tried again.
unfoldable pub do_bcast : Bus → List Datagram × Bus
unfolding send_loop
do_bcast bus =
    (send_loop bus.last_controller_socket 0 bus, record bus { new_bcast_message = false })

unfoldable pub broadcast : (type : ℕ) (payload : ℤ) (size : ℕ) → Bus → Option Bus
broadcast type payload size bus =
    if ltb max_message size
    then none
    else some (record bus {
      msg_temp = record { type = type; size = size; payload = payload };
      new_bcast_message = true;
    })

-- The loop over the connections in use: the slot with the sender's address, or the first one that
-- is not in use.
find_sender : (rounds index : ℕ) → List Connection → String → ℕ
find_sender zero index connections ip = index
find_sender (suc rounds) index connections ip =
    let later = find_sender rounds (index + 1) connections ip in
    elim (get_elem? connections index) [
      | none ↦ later
      | some c ↦ if str_eq c.ip ip then index else later
    ]

-- What `select` reports in one round of `broadcast_loop`.
pub data Wakeup : Type 0 where
  timeout : Wakeup
  datagram : (ip : String) → Message → Wakeup

module _ (S : Type 0) where
  -- A callback: it is given the socket, the content and its size.
  abbrev pub Handler : Type 0
  Handler = (sock content : ℤ) (size : ℕ) → S → S

  -- A slot of `callbacks`. Those not yet registered hold type 0 and a null pointer.
  pub record Callback : Type 0 where
    pub type : ℕ
    pub callback : Option Handler

  pub record Callbacks : Type 0 where
    pub callbacks : List Callback
    pub last_callback : ℕ

module _ {S : Type 0} where
  abbrev pub empty_slot : Callback S
  empty_slot = record { type = 0; callback = none }

  unfoldable pub no_callbacks : Callbacks S
  no_callbacks = record { callbacks = replicate max_callbacks empty_slot; last_callback = 0 }

  unfoldable pub register_callback : (type : ℕ) → Handler S → Callbacks S → Option (Callbacks S)
  register_callback type f c =
      if ltb c.last_callback (length c.callbacks)
      then some (record {
        callbacks = set c.callbacks c.last_callback (record { type = type; callback = some f });
        last_callback = c.last_callback + 1;
      })
      else none

  call : Option (Handler S) → ℤ → Message → S → Option S
  call none sock msg s = none
  call (some f) sock msg s = some (f sock msg.payload msg.size s)

  call_loop : List (Callback S) → ℤ → Message → S → Option S
  unfolding call
  call_loop [] sock msg s = some s
  call_loop (c ∷ cs) sock msg s =
      let rest = call_loop cs sock msg s in
      if msg.type == 0
      then rest
      else (if msg.type == c.type then call c.callback sock msg s else rest)

  unfoldable pub call_function : Callbacks S → ℤ → Message → S → Option S
  unfolding call_loop
  call_function c sock msg s = call_loop c.callbacks sock msg s

  -- The value is stored only in a slot in use; the callback is given the socket of the slot `i`.
  unfoldable pub receive : Callbacks S → String → Message → Bus × S → Option (Bus × S)
  unfolding find_sender call_function
  receive c ip msg (bus, s) =
      let i = find_sender bus.last_controller_socket 0 bus.connections ip in
      elim (get_elem? bus.connections i) [
        | none ↦ none
        | some peer ↦
            let bus' =
              if ltb i bus.last_controller_socket
              then record bus {
                connections = set bus.connections i (record peer { value = msg.payload });
              }
              else bus in
            elim (call_function c peer.socket msg s) [ none ↦ none | some s' ↦ some (bus', s') ]
      ]

  -- One round after `select` returns. `my_new` is the flag as it was read before `select`.
  unfoldable pub broadcast_round :
      Callbacks S → (my_new : Bool) → Wakeup → Bus × S → Option (List Datagram × Bus × S)
  unfolding receive do_bcast
  broadcast_round c my_new timeout (bus, s) =
      if my_new
      then (let (sent, bus') = do_bcast bus in some (sent, bus', s))
      else some ([], bus, s)
  broadcast_round c my_new (datagram ip msg) (bus, s) = elim (receive c ip msg (bus, s)) [
    | none ↦ none
    | some (bus', s') ↦ some ([], bus', s')
  ]
