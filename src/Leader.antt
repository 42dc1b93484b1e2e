-- ===== src/Leader.antt =====
-- controller/leader.c: the election of the leading controller. Times are milliseconds of the clock
-- that `gettimeofday` reads. `none` is a fault: a write outside an array, or the end of the process.
pub mod Reduction
pub mod Agreement
pub mod Heartbeat
pub mod Send
use text.Mathlib.Text.{◌==◌ as str_eq}
use Prim.Native.String.{String}
use a2pm.Common.{
  ℕ, zero, suc, ◌+◌, ◌-◌, ◌*◌, ◌^◌, ◌≡◌, Bool, true, false, not, ◌&&◌, ◌||◌, Option, none, some,
  List, [], ◌∷◌, ltb, leb, ◌==◌, if◌then◌else◌, length,
}
use a2pm.Common.Family.{update}
use a2pm.Common.Int.{ℤ, pos, negsuc, ltb_ℤ, eqb_ℤ}
use a2pm.Broadcast.{Bus, max_controllers, broadcast}
use a2pm.Sockets.{Outcome, Wrote, sock_write}

-- In milliseconds.
abbrev pub leader_suspect_threshold : ℕ
leader_suspect_threshold = 10 * 1000

abbrev pub leader_propose_threshold : ℕ
leader_propose_threshold = 10 * 1000

abbrev pub leader_heartbeat_type : ℕ
leader_heartbeat_type = 20000

abbrev pub leader_propose_type : ℕ
leader_propose_type = 20001

abbrev pub minus_one : ℤ
minus_one = negsuc 0

-- The two arrays have `max_controllers` elements; `last_proposal` counts those in use.
pub record Leader : Type 0 where
  pub controllers : ℕ
  pub leader_socket : ℤ
  pub am_i_leader : Bool
  pub heartbeat : ℕ
  pub leader_propose_timer : ℕ
  pub agreement_running : Bool
  pub leader_proposals : ℕ → ℤ
  pub leader_proposals_sockets : ℕ → ℤ
  pub last_proposal : ℕ

-- `timer_value_milli`; the clock does not run back, and the difference is taken to be an `int`.
abbrev pub timer_value : (now timer : ℕ) → ℕ
timer_value now timer = now - timer

-- The loop over the proposals, from `i` on for `rounds` rounds: the greatest and its socket.
unfoldable pub greatest : (proposals sockets : ℕ → ℤ) (rounds i : ℕ) (id leader : ℤ) → ℤ × ℤ
greatest proposals sockets zero i id leader = (id, leader)
greatest proposals sockets (suc rounds) i id leader =
    let better = ltb_ℤ id (proposals i) in
    greatest proposals sockets rounds (i + 1) (if better then proposals i else id)
      (if better then sockets i else leader)

unfoldable pub do_agreement_reduction : (now : ℕ) → Leader → Leader
unfolding greatest
do_agreement_reduction now s =
    if ltb s.last_proposal s.controllers
      && leb (timer_value now s.leader_propose_timer) leader_propose_threshold
    then s
    else (let (id, leader) =
          greatest s.leader_proposals s.leader_proposals_sockets s.last_proposal 0 (pos 0)
            minus_one in
        if eqb_ℤ leader minus_one
        then record s { agreement_running = false }
        else record s { agreement_running = false; leader_socket = leader })

-- An entry of the list that `getifaddrs` yields: its name, and the address, if it has one, with
-- whether that is of the family AF_INET. The address is the `long` made of `s_addr`.
pub record Interface : Type 0 where
  pub ifa_name : String
  pub ifa_addr : Option (Bool × ℕ)

-- The address of the first IPv4 interface `eth0`.
find_ip : List Interface → Option ℕ
find_ip [] = none
find_ip (ifa ∷ rest) =
    let later = find_ip rest in
    elim ifa.ifa_addr [
      | none ↦ later
      | some (af_inet, s_addr) ↦
          if af_inet && str_eq ifa.ifa_name "eth0" then some s_addr else later
    ]

-- `ifaddrs` is what `getifaddrs` yields; `none` if it fails.
unfoldable pub do_leader_election :
    (now : ℕ) (ifaddrs : Option (List Interface)) → Leader × Bus → Option (Leader × Bus)
unfolding do_agreement_reduction find_ip broadcast
do_leader_election now ifaddrs (s, bus) =
    if s.agreement_running
    then some (do_agreement_reduction now s, bus)
    else (let s' = record s {
      agreement_running = true;
      last_proposal = 0;
      leader_propose_timer = now;
    } in
        elim ifaddrs [
          | none ↦ none
          | some entries ↦ elim (find_ip entries) [
            | none ↦ some (s', bus)
            | some my_int_ip ↦ elim (broadcast leader_propose_type (pos my_int_ip) 8 bus) [
              | none ↦ none
              | some bus' ↦ some (s', bus')
            ]
          ]
        ])

-- The callbacks that `initialize_leader` registers.
unfoldable pub leader_propose : (sock content : ℤ) → Leader → Option Leader
leader_propose sock content s =
    if ltb s.last_proposal max_controllers
    then some (record s {
      leader_proposals_sockets = update s.leader_proposals_sockets s.last_proposal sock;
      leader_proposals = update s.leader_proposals s.last_proposal content;
      last_proposal = s.last_proposal + 1;
    })
    else none

unfoldable pub leader_heartbeat : (now : ℕ) → Leader → Leader
leader_heartbeat now s = record s { heartbeat = now }

unfoldable pub suspect_leader : (now : ℕ) → Leader → Leader
suspect_leader now s =
    if ltb leader_suspect_threshold (timer_value now s.heartbeat)
    then record s {
      leader_socket = minus_one;
      am_i_leader = if s.am_i_leader then false else s.am_i_leader;
    }
    else s

-- The last part of a round of `leader_loop`.
send_heartbeat : Leader × Bus → Option (Leader × Bus)
unfolding broadcast
send_heartbeat (s, bus) =
    if s.am_i_leader
    then (elim (broadcast leader_heartbeat_type (pos 0) 0 bus) [
      | none ↦ none
      | some bus' ↦ some (s, bus')
    ])
    else some (s, bus)

-- One round of `leader_loop`, after its `sleep`.
unfoldable pub leader_round :
    (now : ℕ) (ifaddrs : Option (List Interface)) → Leader × Bus → Option (Leader × Bus)
unfolding suspect_leader do_leader_election send_heartbeat
leader_round now ifaddrs (s, bus) =
    let s' = suspect_leader now s in
    elim (if eqb_ℤ s'.leader_socket minus_one
      then do_leader_election now ifaddrs (s', bus)
      else some (s', bus)) [ none ↦ none | some after ↦ send_heartbeat after ]

-- `lines` are the lines of the file of controllers, each as one `fgets` reads it; `none` if the file
-- cannot be opened.
unfoldable pub initialize_leader :
    {Text : Type 0} (now : ℕ) (lines : Option (List Text)) → Option Leader
initialize_leader now none = none
initialize_leader now (some lines) = some (record {
  controllers = length lines;
  leader_socket = minus_one;
  am_i_leader = false;
  heartbeat = now;
  leader_propose_timer = 0;
  agreement_running = false;
  leader_proposals = λ _. pos 0;
  leader_proposals_sockets = λ _. pos 0;
  last_proposal = 0;
})

-- C converts the `int` to the unsigned 64-bit type of `size` before it compares.
abbrev as_size : ℤ → ℕ
as_size (pos n) = n
as_size (negsuc n) = 2 ^ 64 - n - 1

-- The comparison of `send_to_leader`; `none` while `sock_write` has not returned.
abbrev answer : Wrote → ℕ → Option Bool
answer w size = elim w.status [
  | none ↦ none
  | some status ↦ some (if ltb (as_size status) size then false else true)
]

unfoldable pub send_to_leader :
    Leader → List Outcome → (payload : List ℕ) (size : ℕ) → Option Bool × Wrote
unfolding sock_write
send_to_leader s script payload size =
    if eqb_ℤ s.leader_socket minus_one
    then (some false, record { status = none; sent = []; rest = script })
    else (let w = sock_write script payload size in (answer w size, w))
