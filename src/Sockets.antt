-- ===== src/Sockets.antt =====
-- controller/sockhelp.c: reads and writes over sockets. A script lists what the system calls on the
-- socket do, one entry for each call, so a call that waits longer than the script has no status.
-- Byte counts stay below 2 ^ 31 (the callers pass 1 MiB at most), where C's `int` holds them.
pub mod Write
pub mod Read
pub mod Gets
pub mod Port
pub mod Connection
use a2pm.Common.{
  ℕ, suc, ◌+◌, ◌-◌, ◌*◌, ◌/◌, ◌%◌, min, ◌≡◌, Bool, true, false, ◌&&◌, ◌||◌, Option, none, some,
  List, [], ◌∷◌, ◌++◌, not, ltb, ◌==◌, if◌then◌else◌, length, take, drop,
}
use a2pm.Common.Int.{ℤ, pos, negsuc}

abbrev pub eintr : ℕ
eintr = 4

abbrev pub ewouldblock : ℕ
ewouldblock = 11

abbrev pub not_available : ℤ
not_available = negsuc 70

abbrev pub global_controller_port : ℕ
global_controller_port = 4567

-- What one `write` or `sendto` does: it takes at most so many bytes, or fails with an errno.
pub data Outcome : Type 0 where
  moved : ℕ → Outcome
  failed : ℕ → Outcome

-- The status that was returned, the bytes that the system took, and the script that is left.
pub record Wrote : Type 0 where
  pub status : Option ℤ
  pub sent : List ℕ
  pub rest : List Outcome

abbrev returns : ℤ → List Outcome → Wrote
returns status rest = record { status = some status; sent = []; rest = rest }

abbrev before : List ℕ → Wrote → Wrote
before bytes w = record w { sent = bytes ++ w.sent }

-- The loop of `sock_write`. `buf` is what its advanced pointer points at.
write_loop : (count : ℕ) → List Outcome → (bytes_sent : ℕ) (buf : List ℕ) → Wrote
write_loop count [] bytes_sent buf =
    if ltb bytes_sent count
    then record { status = none; sent = []; rest = [] }
    else returns (pos count) []
write_loop count (moved k ∷ script) bytes_sent buf =
    let this_write = min k (count - bytes_sent) in
    let continued =
      before (take this_write buf)
        (write_loop count script (bytes_sent + this_write) (drop this_write buf)) in
    if ltb bytes_sent count
    then (if this_write == 0 then returns (pos 0) script else continued)
    else returns (pos count) (moved k ∷ script)
write_loop count (failed errno ∷ script) bytes_sent buf =
    let again = write_loop count script bytes_sent buf in
    if ltb bytes_sent count
    then (if errno == eintr then again else returns (negsuc 0) script)
    else returns (pos count) (failed errno ∷ script)

unfoldable pub sock_write : List Outcome → (buf : List ℕ) (count : ℕ) → Wrote
unfolding write_loop
sock_write script buf count = write_loop count script 0 buf

-- The same loop around `sendto`, with the address that each datagram carries.
unfoldable pub sock_write_udp :
    List Outcome → (buf : List ℕ) (count : ℕ) {Ip : Type 0} (ip : Ip) → Wrote × Ip × ℕ
unfolding write_loop
sock_write_udp script buf count ip = (write_loop count script 0 buf, ip, global_controller_port)

-- `str` without its terminator
unfoldable pub sock_puts : List Outcome → (str : List ℕ) → Wrote
unfolding sock_write
sock_puts script str = sock_write script str (length str)

-- What one `read` or `recvfrom` finds: bytes (none at the end of the stream), or an errno.
pub data Arrival : Type 0 where
  arrived : List ℕ → Arrival
  failed : ℕ → Arrival

pub record Readout : Type 0 where
  pub status : Option ℤ
  pub received : List ℕ
  pub rest : List Arrival

-- A stream keeps the bytes that one call does not fetch.
abbrev keep : List ℕ → List Arrival → List Arrival
keep [] script = script
keep (b ∷ bytes) script = arrived (b ∷ bytes) ∷ script

unfoldable pub sock_read : List Arrival → (count : ℕ) → Readout
sock_read [] count = record { status = none; received = []; rest = [] }
sock_read (arrived bytes ∷ script) count =
    let got = take count bytes in
    record {
      status = some (pos (length got));
      received = got;
      rest = keep (drop count bytes) script;
    }
sock_read (failed errno ∷ script) count =
    let again = sock_read script count in
    if errno == eintr
    then again
    else (if errno == ewouldblock
        then record { status = some not_available; received = []; rest = script }
        else record { status = some (negsuc 0); received = []; rest = script })

-- The same around `recvfrom`: what does not fit of a datagram is lost.
unfoldable pub sock_read_udp : List Arrival → (count : ℕ) → Readout
sock_read_udp [] count = record { status = none; received = []; rest = [] }
sock_read_udp (arrived bytes ∷ script) count =
    let got = take count bytes in
    record { status = some (pos (length got)); received = got; rest = script }
sock_read_udp (failed errno ∷ script) count =
    let again = sock_read_udp script count in
    if errno == eintr
    then again
    else (if errno == ewouldblock
        then record { status = some not_available; received = []; rest = script }
        else record { status = some (negsuc 0); received = []; rest = script })

-- What `read(sockfd, &last_read, 1)` finds: a byte, or a result that is not positive.
pub data ByteRead : Type 0 where
  byte : ℕ → ByteRead
  closed : ByteRead

-- `written` are the bytes stored from `str` on, the terminator included.
pub record Line : Type 0 where
  pub status : Option ℤ
  pub written : List ℕ
  pub rest : List ByteRead

gets_loop : (count : ℕ) → List ByteRead → (total_count : ℕ) (str : List ℕ) → Line
gets_loop count [] total_count str = record { status = none; written = str; rest = [] }
gets_loop count (closed ∷ script) total_count str = record {
  status = some (negsuc 0);
  written = str;
  rest = script;
}
gets_loop count (byte last_read ∷ script) total_count str =
    let kept = ltb total_count count && not (last_read == 10) && not (last_read == 13) in
    let total_count' = if kept then total_count + 1 else total_count in
    let str' = if kept then str ++ last_read ∷ [] else str in
    let more = gets_loop count script total_count' str' in
    if last_read == 10
    then record {
      status = some (pos total_count');
      written = if ltb 0 count then str' ++ 0 ∷ [] else str';
      rest = script;
    }
    else more

unfoldable pub sock_gets : List ByteRead → (count : ℕ) → Line
unfolding gets_loop
sock_gets script count = gets_loop count script 0 []

-- On a little-endian machine.
unfoldable pub htons : ℕ → ℕ
htons x = (x % 256) * 256 + x / 256 % 256

port_number : ℤ → ℤ
unfolding htons
port_number (pos lport) = if ltb lport 1 || ltb 65535 lport then negsuc 0 else pos (htons lport)
port_number (negsuc lport) = negsuc 0

-- `service` is the `int` that the pointer is cast to. The name that is looked up, and then read as
-- a number, is its decimal text. `getservbyname` yields the port of a service in network order.
unfoldable pub atoport : (getservbyname : ℤ → Option ℕ) (service : ℤ) → ℤ
unfolding port_number
atoport getservbyname service = elim (getservbyname service) [
  | some s_port ↦ pos s_port
  | none ↦ port_number service
]
