-- ===== src/Sockets/Connection.antt =====
-- controller/sockhelp.c: `get_connection`, which listens and forks a process for every client, and
-- `make_connection` with `atoaddr`. The sockets that the process has open are part of the state.
pub mod Opened
use Prim.Native.String.{String}
use a2pm.Common.{
  ℕ, ◌+◌, ◌-◌, ◌^◌, Bool, true, false, Option, none, some, List, [], ◌∷◌, ◌==◌, if◌then◌else◌,
}
use a2pm.Common.Int.{ℤ, pos, negsuc}
use a2pm.Sockets.{eintr, atoport}

-- `close` in a list of the sockets that are open.
unfoldable pub close : ℕ → List ℕ → List ℕ
close fd [] = []
close fd (open_fd ∷ fds) = let rest = close fd fds in if open_fd == fd then rest else open_fd ∷ rest

pub data SocketType : Type 0 where
  stream dgram : SocketType

-- What `fork` does in this process.
pub data Fork : Type 0 where
  fork_failed child parent : Fork

-- What `accept` does, and the `fork` behind it.
pub data Accept : Type 0 where
  failed : (errno : ℕ) → Accept
  accepted : (connected_socket : ℕ) → Fork → Accept

-- How the call ends, with the sockets that are open then and what `*listener` holds: `none` stands
-- for -1. `listening` is a loop that has not ended.
pub data Got : Type 0 where
  exited : List ℕ → Got
  listening : List ℕ → Got
  returned : (fd : ℕ) → (opened : List ℕ) → (listener : Option ℕ) → Got

-- The loop over `accept`.
unfoldable pub accept_loop : (listening_socket : ℕ) → (opened : List ℕ) → List Accept → Got
unfolding close
accept_loop fd opened [] = listening opened
accept_loop fd opened (failed errno ∷ calls) =
    let again = accept_loop fd opened calls in
    if errno == eintr then again else exited (close fd opened)
accept_loop fd opened (accepted c fork_failed ∷ calls) = accept_loop fd (close c (c ∷ opened)) calls
accept_loop fd opened (accepted c parent ∷ calls) = accept_loop fd (close c (c ∷ opened)) calls
accept_loop fd opened (accepted c child ∷ calls) = returned c (close fd (c ∷ opened)) none

-- `socket` gives the new socket, `bound` says whether `bind` works.
unfoldable pub get_connection :
    SocketType → (socket : Option ℕ) → (bound : Bool) → (opened : List ℕ) → List Accept → Got
unfolding accept_loop
get_connection type none bound opened calls = exited opened
get_connection type (some fd) false opened calls = exited (close fd (fd ∷ opened))
get_connection stream (some fd) true opened calls = accept_loop fd (fd ∷ opened) calls
get_connection dgram (some fd) true opened calls = returned fd (fd ∷ opened) (some fd)

-- The name service: an address in dots, where -1 is both an error and 255.255.255.255, or a name.
pub record NameService : Type 0 where
  pub inet_addr : String → ℕ
  pub gethostbyname : String → Option ℕ

unfoldable pub atoaddr : NameService → String → Option ℕ
atoaddr names address =
    if names.inet_addr address == 2 ^ 32 - 1
    then names.gethostbyname address
    else some (names.inet_addr address)

-- The status that is returned, the address and the port of the connection, and the open sockets.
pub record Made : Type 0 where
  pub status : ℤ
  pub peer : Option (ℕ × ℕ)
  pub opened : List ℕ

abbrev refused : List ℕ → Made
refused opened = record { status = negsuc 0; peer = none; opened = opened }

-- `socket` is not checked: without one, `connect` fails, and for UDP -1 is the result. A socket whose
-- `connect` fails stays open.
abbrev pub connect_to :
    SocketType → (socket : Option ℕ) → (has_connected : Bool) → (addr port : ℕ) → List ℕ → Made
connect_to type none has_connected addr port opened = refused opened
connect_to stream (some fd) false addr port opened = refused (fd ∷ opened)
connect_to stream (some fd) true addr port opened = record {
  status = pos fd;
  peer = some (addr, port);
  opened = fd ∷ opened;
}
connect_to dgram (some fd) has_connected addr port opened = record {
  status = pos fd;
  peer = some (addr, port);
  opened = fd ∷ opened;
}

-- `service` and the look-up of its name for the protocol of the type are those of `atoport`.
unfoldable pub make_connection :
    NameService
    → (getservbyname : SocketType → ℤ → Option ℕ) → (service : ℤ) → SocketType
    → (netaddress : String) → (socket : Option ℕ) → (has_connected : Bool) → (opened : List ℕ)
    → Made
make_connection names getservbyname service type netaddress socket has_connected opened =
    elim (atoport (getservbyname type) service) [
      | negsuc _ ↦ refused opened
      | pos port ↦ elim (atoaddr names netaddress) [
        | none ↦ refused opened
        | some addr ↦ connect_to type socket has_connected addr port opened
      ]
    ]
