-- ===== src/Broadcast/Delivery.antt =====
-- What `broadcast_loop` sends and whom it takes for the sender of a message.
use text.Mathlib.Text.{◌==◌ as str_eq}
use Prim.Native.String.{String}
use a2pm.Common.{
  none, ℕ, zero, suc, ◌+◌, ◌≤◌, ◌<◌, ◌≡◌, refl, ap, sym, ◌∙◌, arith, inl, inr, true, false, some,
  List, [], ◌∷◌, map, ◌==◌, ==_iff, ltb, if◌then◌else◌, Bool-cases, length, set, take, drop,
  get_elem?, get_elem?-some,
}
use native.Mathlib.Numerals.{add-one}
use a2pm.Common.Int.{ℤ}
use a2pm.Broadcast.{
  Message, Connection, Bus, Datagram, Callbacks, timeout, send_loop, broadcast, find_sender,
  call_function, receive, broadcast_round,
}

abbrev pub addressed : Message → Connection → Datagram
addressed m c = record { socket = c.socket; ip = c.ip; message = m }

drop_at :
    (cs : List Connection) (i : ℕ) (c : Connection)
    → get_elem? cs i ≡ some c
    → drop i cs ≡ c ∷ drop (suc i) cs
drop_at [] i c h = cc
drop_at (x ∷ cs) zero c h = ground arith
drop_at (x ∷ cs) (suc i) c h = drop_at cs i c h

send_loop_lem :
    (rounds index : ℕ) (bus : Bus)
    → index + rounds ≤ length bus.connections
    → send_loop rounds index bus
      ≡ map (addressed bus.msg_temp) (take rounds (drop index bus.connections))
unfolding send_loop
send_loop_lem zero index bus h = refl
send_loop_lem (suc rounds) index bus h =
    let (c, at) = get_elem?-some bus.connections index (omega arith) in
    rw (at, send_loop, drop_at bus.connections index c at)
      (ap (λ r. addressed bus.msg_temp c ∷ r)
        (rw add-one (send_loop_lem rounds (suc index) bus (omega arith))))

abbrev pub holding : Message → Bus → Bus
holding m bus = record bus { msg_temp = m; new_bcast_message = true }

abbrev pub message : (type size : ℕ) (payload : ℤ) → Message
message type size payload = record { type = type; size = size; payload = payload }

broadcast-eq-some :
    (t size : ℕ) (payload : ℤ) (bus bus' : Bus)
    → broadcast t payload size bus ≡ some bus'
    → bus' ≡ holding (message t size payload) bus
unfolding broadcast
broadcast-eq-some t size payload bus bus' e = ground arith

-- Of two messages that are broadcast before a timeout, only the last is sent, once to each
-- controller in use and in their order; another timeout sends nothing more.
pub broadcast-latest :
    {S : Type 0} (callbacks : Callbacks S) (s : S) (bus bus' bus'' : Bus) (t t' size size' : ℕ)
    (payload payload' : ℤ)
    → bus.last_controller_socket ≤ length bus.connections
    → broadcast t payload size bus ≡ some bus'
    → broadcast t' payload' size' bus' ≡ some bus''
    → (broadcast_round callbacks bus''.new_bcast_message timeout (bus'', s)
        ≡ some (
          map
              (addressed (message t' size' payload'))
              (take bus.last_controller_socket bus.connections),
          record bus'' { new_bcast_message = false },
          s,
        ))
      × (broadcast_round callbacks false timeout (record bus'' { new_bcast_message = false }, s)
          ≡ some ([], record bus'' { new_bcast_message = false }, s))
unfolding broadcast_round
broadcast-latest callbacks s bus bus' bus'' t t' size size' payload payload' h e e' =
    let one = broadcast-eq-some t size payload bus bus' e in
    let two = broadcast-eq-some t' size' payload' bus' bus'' e' in
    let both : bus'' ≡ holding (message t' size' payload') bus =
      two ∙ ap (holding (message t' size' payload')) one in
    rw both (
      ap
          (λ l.
            some (
              l,
              record bus { msg_temp = message t' size' payload'; new_bcast_message = false },
              s,
            ))
          (send_loop_lem bus.last_controller_socket 0 (holding (message t' size' payload') bus)
            (omega arith)),
      refl,
    )

-- The slot that is taken for the sender's: the first in use with its address, or else the first that
-- is not in use.
pub record IsSender (cs : List Connection) (last : ℕ) (ip : String) (i : ℕ) : Type 0 where
  pub within : i ≤ last
  pub hit : i < last → (c : Connection) × (get_elem? cs i ≡ some c) × (str_eq c.ip ip ≡ true)
  pub first : (j : ℕ) (c : Connection) → j < i → get_elem? cs j ≡ some c → str_eq c.ip ip ≡ false

find_sender-IsSender :
    (rounds index last : ℕ) (cs : List Connection) (ip : String)
    → index + rounds ≡ last
    → last ≤ length cs
    → ((j : ℕ) (c : Connection) → j < index → get_elem? cs j ≡ some c → str_eq c.ip ip ≡ false)
    → IsSender cs last ip (find_sender rounds index cs ip)
unfolding find_sender
find_sender-IsSender zero index last cs ip e h before = record {
  within = omega arith;
  hit = λ lt. absurd (omega arith);
  first = before;
}
find_sender-IsSender (suc rounds) index last cs ip e h before =
    let (c, at) = get_elem?-some cs index (omega arith) in
    rw (at, find_sender)
      (elim (Bool-cases (str_eq c.ip ip)) [
        | inl same ↦
            rw same (record { within = omega arith; hit = λ lt. (c, at, same); first = before })
        | inr other ↦ rw other (
            find_sender-IsSender rounds (index + 1) last cs ip (omega arith) h (λ j d lt at'.
              elim (Bool-cases (j == index)) [
                | inl here ↦
                    let same : j ≡ index = (==_iff j index).0 here in
                    let eq : some d ≡ some c = sym at' ∙ (ap (get_elem? cs) same ∙ at) in
                    let found : d ≡ c = cc in rw found other
                | inr earlier ↦ before j d (ground arith) at'
              ]))
      ])

-- The bus once the slot `i` has sent the message.
abbrev pub heard : Bus → (i : ℕ) → Connection → Message → Bus
heard bus i peer msg =
    if ltb i bus.last_controller_socket
    then record bus { connections = set bus.connections i (record peer { value = msg.payload }) }
    else bus

-- A message from `ip` is handed to the callback with the socket of the slot that is taken for the
-- sender's, whatever its address: of the first slot in use with the address `ip`, where the value is
-- stored too, or if there is none, of the slot behind those in use, and then no connection changes.
pub receive-IsSender :
    {S : Type 0} (callbacks : Callbacks S) (ip : String) (msg : Message) (bus : Bus) (s : S)
    → bus.last_controller_socket < length bus.connections
    → (i : ℕ) × (peer : Connection) × IsSender bus.connections bus.last_controller_socket ip i
      × (get_elem? bus.connections i ≡ some peer)
      × (receive callbacks ip msg (bus, s) ≡ elim (call_function callbacks peer.socket msg s) [
        | none ↦ none
        | some s' ↦ some (heard bus i peer msg, s')
      ])
unfolding receive
receive-IsSender callbacks ip msg bus s h =
    let i = find_sender bus.last_controller_socket 0 bus.connections ip in
    let sender =
      find_sender-IsSender bus.last_controller_socket 0 bus.last_controller_socket bus.connections
        ip (omega arith) (omega arith) (λ j c lt. absurd (omega arith)) in
    let (peer, at) = get_elem?-some bus.connections i (omega (arith, sender.within)) in
    (i, peer, sender, at, rw (receive, at) refl)
