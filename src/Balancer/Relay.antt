-- ===== src/Balancer/Relay.antt =====
-- controller/balancer.c: the thread `deal_with_data`, which passes the bytes between a client and its
-- VM. A turn of its loop gets what `select` reports and what the calls on the sockets do.
pub mod Streams
pub mod Capacity
pub mod Faults
pub mod Room
pub mod Select
use a2pm.Common.{
  ℕ, suc, ◌+◌, ◌*◌, ◌^◌, Bool, true, false, ◌||◌, Option, none, some, List, [], ◌∷◌, ◌++◌, ltb, leb,
  ◌==◌, if◌then◌else◌, length,
}
use a2pm.Common.Int.{ℤ, pos, negsuc}
use a2pm.Sockets.{Outcome, Arrival, sock_write, sock_read}

abbrev pub forward_buffer_size : ℕ
forward_buffer_size = 1024 * 1024

-- What `realloc` does: the block grows where it is, moves (and the old one is freed), or there is no
-- memory.
pub data Realloc : Type 0 where
  in_place moved refused : Realloc

-- A buffer with the bytes counted as ready. `dangling` says that the thread's pointer is to a block
-- that was freed, since `append_buffer` does not hand back the new one.
pub record Buffer : Type 0 where
  pub bytes : List ℕ
  pub capacity : ℕ
  pub dangling : Bool

grown : Buffer → List ℕ → (capacity : ℕ) → Bool → Option Buffer
grown b aux capacity moved_away =
    let bytes = b.bytes ++ aux in
    if leb (length bytes) capacity
    then some (record { bytes = bytes; capacity = capacity; dangling = moved_away })
    else none

with_times : ℕ → Option Buffer → Option (Buffer × ℕ)
with_times times none = none
with_times times (some b) = some (b, times)

-- `none` is a fault: an access to a freed block, behind the end of one or at no address, or a size
-- outside `int`.
unfoldable pub append_buffer : Realloc → Buffer → (aux : List ℕ) (times : ℕ) → Option (Buffer × ℕ)
unfolding grown with_times
append_buffer realloc b aux times =
    let size = times * forward_buffer_size in
    if b.dangling
    then none
    else (if leb forward_buffer_size (length b.bytes + length aux)
        then (if ltb size (2 ^ 31)
            then (elim realloc [
              | in_place ↦ with_times (times + 1) (grown b aux size false)
              | moved ↦ with_times (times + 1) (grown b aux size true)
              | refused ↦ none
            ])
            else none)
        else with_times times (grown b aux b.capacity false))

-- The calls on a socket that `select` reports as ready.
pub record Ready : Type 0 where
  pub writes : List Outcome
  pub reads : List Arrival
  pub realloc : Realloc

-- What the block for one socket does: a fault, a call that does not return, the end of the thread with
-- the bytes sent and the buffers that it frees, or the bytes sent and got and the buffers after it.
pub data Served : Type 0 where
  fault blocked : Served
  ended : (sent : List ℕ) (out into : Buffer) (times : ℕ) → Served
  going : (sent got : List ℕ) (out into : Buffer) (times : ℕ) → Served

receive : Ready → (sent : List ℕ) (out into : Buffer) (times : ℕ) → Served
unfolding append_buffer
receive ready sent out into times =
    let r = sock_read ready.reads forward_buffer_size in
    elim r.status [
      | none ↦ blocked
      | some (negsuc n) ↦ going sent [] out into times
      | some (pos n) ↦
          if n == 0
          then (if out.dangling || into.dangling then fault else ended sent out into times)
          else (elim (append_buffer ready.realloc into r.received times) [
            | none ↦ fault
            | some (into', times') ↦ going sent r.received out into' times'
          ])
    ]

-- The buffer `out` is written to the socket and emptied, whatever the write returns; then the socket
-- is read into `into`.
unfoldable pub serve : Ready → (out into : Buffer) (times : ℕ) → Served
unfolding receive
serve ready out into times =
    if ltb 0 (length out.bytes)
    then (if out.dangling
        then fault
        else (elim (sock_write ready.writes out.bytes (length out.bytes)).status [
          | none ↦ blocked
          | some transferred_bytes ↦
              receive ready (sock_write ready.writes out.bytes (length out.bytes)).sent
                (record out { bytes = [] }) into times
        ]))
    else receive ready [] out into times

-- `to_vm` is `buffer_from_client`.
pub record Relay : Type 0 where
  pub to_vm : Buffer
  pub to_client : Buffer
  pub times : ℕ

pub record Traffic : Type 0 where
  pub from_client : List ℕ
  pub to_vm : List ℕ
  pub from_vm : List ℕ
  pub to_client : List ℕ

abbrev pub quiet : Traffic
quiet = record { from_client = []; to_vm = []; from_vm = []; to_client = [] }

abbrev pub after : Traffic → Traffic → Traffic
after s t = record {
  from_client = s.from_client ++ t.from_client;
  to_vm = s.to_vm ++ t.to_vm;
  from_vm = s.from_vm ++ t.from_vm;
  to_client = s.to_client ++ t.to_client;
}

-- At the end of the thread, its buffers are freed as they are.
pub data Turn : Type 0 where
  fault blocked : Turn
  ended : Traffic → Relay → Turn
  going : Traffic → Relay → Turn

abbrev pub empty_buffer : Buffer
empty_buffer = record { bytes = []; capacity = forward_buffer_size; dangling = false }

-- The state at the start of the loop.
abbrev pub new_relay : Relay
new_relay = record { to_vm = empty_buffer; to_client = empty_buffer; times = 2 }

client_turn : Served → Turn
client_turn fault = fault
client_turn blocked = blocked
client_turn (ended sent out into times) =
    ended (record quiet { to_client = sent })
      (record { to_vm = into; to_client = out; times = times })
client_turn (going sent got out into times) =
    going (record quiet { from_client = got; to_client = sent })
      (record { to_vm = into; to_client = out; times = times })

vm_turn : Served → Turn
vm_turn fault = fault
vm_turn blocked = blocked
vm_turn (ended sent out into times) =
    ended (record quiet { to_vm = sent }) (record { to_vm = out; to_client = into; times = times })
vm_turn (going sent got out into times) =
    going (record quiet { from_vm = got; to_vm = sent })
      (record { to_vm = out; to_client = into; times = times })

-- The blocks for the client and for the VM; `none` is a socket that is not ready.
unfoldable pub client_part : Option Ready → Relay → Turn
unfolding serve client_turn
client_part none r = going quiet r
client_part (some ready) r = client_turn (serve ready r.to_client r.to_vm r.times)

unfoldable pub vm_part : Option Ready → Relay → Turn
unfolding serve vm_turn
vm_part none r = going quiet r
vm_part (some ready) r = vm_turn (serve ready r.to_vm r.to_client r.times)

later : Traffic → Turn → Turn
later s fault = fault
later s blocked = blocked
later s (ended t r) = ended (after s t) r
later s (going t r) = going (after s t) r

and_then : Turn → (Relay → Turn) → Turn
unfolding later
and_then fault next = fault
and_then blocked next = blocked
and_then (ended s r) next = ended s r
and_then (going s r) next = later s (next r)

-- One turn of the loop of `deal_with_data`, and a run of it.
unfoldable pub relay_turn : Option Ready × Option Ready → Relay → Turn
unfolding client_part vm_part and_then
relay_turn (client, vm) r = and_then (client_part client r) (vm_part vm)

unfoldable pub deal_with_data : List (Option Ready × Option Ready) → Relay → Turn
unfolding relay_turn and_then
deal_with_data [] r = going quiet r
deal_with_data (event ∷ events) r = and_then (relay_turn event r) (deal_with_data events)
