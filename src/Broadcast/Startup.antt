-- ===== src/Broadcast/Startup.antt =====
-- controller/broadcast.c: `initialize_broadcast`, with `start_server_dgram`. It reads a controller
-- from each line of a file.
pub mod Controllers
use Prim.Native.String.{String}
use a2pm.Common.{
  ℕ, zero, suc, ◌+◌, ◌≡◌, Bool, true, false, ◌&&◌, Option, none, some, List, [], ◌∷◌, ltb,
  if◌then◌else◌, length, get_elem?, set, replicate,
}
use a2pm.Common.Int.{ℤ, pos, negsuc}
use a2pm.Sockets.{global_controller_port}
use a2pm.Sockets.Connection.{SocketType, dgram, NameService, Made, make_connection}
use a2pm.Broadcast.{Message, Connection, Bus, max_controllers}

-- The line without its last character, which is the end of the line if there is one.
abbrev pub all_but_last : String → String
all_but_last String.[] = String.[]
all_but_last (String.◌∷◌ c String.[]) = String.[]
all_but_last (String.◌∷◌ c (String.◌∷◌ d s)) = String.◌∷◌ c (all_but_last (String.◌∷◌ d s))

-- What each `socket` gives that is called for a line.
pub record Line : Type 0 where
  pub text : String
  pub sockets : List (Option ℕ)

-- A write behind `connections`, a loop that goes on, or the table with the number of controllers.
pub data Loaded : Type 0 where
  fault trying : Loaded
  loaded : List Connection → ℕ → Loaded

abbrev pub no_controllers : List Connection
no_controllers = replicate max_controllers (record { ip = ""; socket = pos 0; value = pos 0 })

pub data Initialized : Type 0 where
  exited stuck crashed : Initialized
  ready : Bus → Initialized

unfoldable pub started : Loaded → Initialized
started fault = crashed
started trying = stuck
started (loaded table index) = ready (record {
  connections = table;
  last_controller_socket = index;
  msg_temp = record { type = 0; size = 0; payload = pos 0 };
  new_bcast_message = false;
})

module _ (names : NameService) (getservbyname : SocketType → ℤ → Option ℕ) where
  -- The loop over `make_connection`, up to a socket. `none` is a loop that goes on.
  unfoldable pub connect_line : String → List (Option ℕ) → Option ℕ
  connect_line text [] = none
  connect_line text (socket ∷ sockets) =
      let again = connect_line text sockets in
      elim (make_connection names getservbyname (pos global_controller_port) dgram text socket true
        []).status [ pos fd ↦ some fd | negsuc _ ↦ again ]

  unfoldable pub load_loop : (index : ℕ) → List Line → List Connection → Loaded
  load_loop index [] table = loaded table index
  load_loop index (line ∷ lines) table = elim (connect_line line.text line.sockets) [
    | none ↦ trying
    | some fd ↦
        let rest = load_loop (index + 1) lines (
          set table index
            (record { ip = all_but_last line.text; socket = pos fd; value = pos 0 })) in
        if ltb index max_controllers then rest else fault
  ]

  -- `listens` says whether the UDP socket can be made and bound; `none` is a file that does not open.
  unfoldable pub initialize_broadcast : (listens : Bool) → Option (List Line) → Initialized
  unfolding load_loop started
  initialize_broadcast listens none = exited
  initialize_broadcast listens (some lines) =
      if listens then started (load_loop 0 lines no_controllers) else exited
