-- ===== src/Balancer/Clients.antt =====
-- controller/balancer.c: which VM a client is connected to. The program uses the first service only,
-- whose table is the argument. `none` is a fault: an access outside an array or a read of memory that
-- nothing has written; or, in `get_current_socket`, the end of the process.
pub mod Kept
pub mod Entries
pub mod Lookup
pub mod Serving
pub mod Sticky
use text.Mathlib.Text.{◌==◌ as str_eq}
use Prim.Native.String.{String}
use a2pm.Common.{
  ℕ, zero, suc, ◌+◌, ◌-◌, ◌≡◌, Bool, true, false, Option, none, some, List, [], ◌∷◌, ltb, ◌==◌,
  if◌then◌else◌, set,
}
use a2pm.Common.Family.{update}
use a2pm.Balancer.Vms.{VmData, Group}

abbrev pub free_entry : String
free_entry = "0.0.0.0"

-- The place of the address in the list, counted from 1, or 0.
unfoldable pub search_loop : List String → (index : ℕ) (ip : String) → ℕ
search_loop [] index ip = 0
search_loop (c ∷ cs) index ip =
    let later = search_loop cs (index + 1) ip in if str_eq c ip then index + 1 else later

unfoldable pub search_ip : VmData → String → Option ℕ
unfolding search_loop
search_ip vm ip = elim vm.connected_clients [
  | none ↦ none
  | some clients ↦ some (search_loop clients 0 ip)
]

-- The loop of `check_already_connected` from `index` on: the address of the first VM that has the
-- client, `some none` if there is none.
connected_loop : (rounds index : ℕ) → String → Group → Option (Option (String × ℕ))
unfolding search_ip
connected_loop zero index ip g = some none
connected_loop (suc rounds) index ip g =
    let later = connected_loop rounds (index + 1) ip g in
    elim (search_ip (g.vm_data_set index) ip) [
      | none ↦ none
      | some place ↦
          if ltb 0 place
          then (elim (g.vm_data_set index).address [
            | none ↦ none
            | some address ↦ some (some address)
          ])
          else later
    ]

-- The first free entry of the list is overwritten by `strcpy`; without one, the place 0 - 1 is
-- outside the list.
pub enter : VmData → String → Option VmData
unfolding search_loop
enter vm ip = elim vm.connected_clients [
  | none ↦ none
  | some clients ↦
      let place = search_loop clients 0 free_entry in
      if ltb 0 place
      then some (record vm { connected_clients = some (set clients (place - 1) ip) })
      else none
]

-- A new client goes to the VM whose turn it is.
assign : String → Group → Option ((String × ℕ) × Group)
unfolding enter
assign ip g =
    if ltb g.actual_index g.allocated_vms
    then (elim (g.vm_data_set g.actual_index).address [
      | none ↦ none
      | some address ↦ elim (enter (g.vm_data_set g.actual_index) ip) [
        | none ↦ none
        | some vm ↦ some (
          address,
          record g {
            vm_data_set = update g.vm_data_set g.actual_index vm;
            actual_index = g.actual_index + 1;
          },
        )
      ]
    ])
    else none

unfoldable pub check_already_connected : String → Group → Option ((String × ℕ) × Group)
unfolding connected_loop assign
check_already_connected ip g = elim (connected_loop g.current_vms 0 ip g) [
  | none ↦ none
  | some found ↦ elim found [ none ↦ assign ip g | some address ↦ some (address, g) ]
]

abbrev pub wrap_index : Group → Group
wrap_index g = if g.actual_index == g.current_vms then record g { actual_index = 0 } else g

-- `connects` says whether `socket` and `connect` succeed; the process ends if they do not.
unfoldable pub get_current_socket :
    (connects : String × ℕ → Bool) → String → Group → Option ((String × ℕ) × Group)
unfolding check_already_connected
get_current_socket connects ip g = elim (check_already_connected ip (wrap_index g)) [
  | none ↦ none
  | some (address, g') ↦ if connects address then some (address, g') else none
]

-- The calls of the client threads, one after another.
unfoldable pub get_current_sockets :
    (connects : String × ℕ → Bool) → List String → Group → Option Group
unfolding get_current_socket
get_current_sockets connects [] g = some g
get_current_sockets connects (ip ∷ ips) g = elim (get_current_socket connects ip g) [
  | none ↦ none
  | some (address, g') ↦ get_current_sockets connects ips g'
]
