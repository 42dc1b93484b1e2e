-- ===== src/Sockets/Connection/Opened.antt =====
-- Which sockets `get_connection` and `make_connection` leave open.
use Prim.Native.String.{String}
use a2pm.Common.{
  ℕ, ◌≡◌, ◌⊎◌, refl, ap, inl, inr, arith, Bool, true, false, Option, none, some, List, [], ◌∷◌,
  ◌==◌, ==_iff, Bool-cases, Option-cases,
}
use a2pm.Common.Int.{ℤ, pos, negsuc}
use a2pm.Sockets.{eintr, atoport}
use a2pm.Sockets.Connection.{
  close, SocketType, stream, dgram, fork_failed, child, parent, Accept, failed, accepted, Got,
  exited, listening, returned, accept_loop, get_connection, NameService, atoaddr, Made, connect_to,
  make_connection,
}

abbrev pub IsFree : ℕ → List ℕ → Type 0
IsFree fd [] = Unit {0}
IsFree fd (o ∷ fds) = ((o == fd) ≡ false) × IsFree fd fds

-- `accept` gives numbers that are not in use.
abbrev pub AreNew : List ℕ → List Accept → Type 0
AreNew opened [] = Unit {0}
AreNew opened (failed errno ∷ calls) = AreNew opened calls
AreNew opened (accepted c f ∷ calls) = IsFree c opened × AreNew opened calls

close-IsFree : (fd : ℕ) (fds : List ℕ) → IsFree fd fds → close fd fds ≡ fds
unfolding close
close-IsFree fd [] h = refl
close-IsFree fd (o ∷ fds) h = rw h.0 (ap (λ r. o ∷ r) (close-IsFree fd fds h.1))

close_new : (fd : ℕ) (fds : List ℕ) → IsFree fd fds → close fd (fd ∷ fds) ≡ fds
unfolding close
close_new fd fds h =
    let same : (fd == fd) ≡ true = (==_iff fd fd).1 refl in rw same (close-IsFree fd fds h)

-- Nothing but the socket that is returned is open besides what was open before, and the listener
-- that is kept in `*listener` is the socket that is returned, or closed.
pub IsClean : (fd : ℕ) (before : List ℕ) → Got → Type 0
IsClean fd before (exited opened) = opened ≡ before
IsClean fd before (listening opened) = opened ≡ fd ∷ before
IsClean fd before (returned c opened listener) =
    (opened ≡ c ∷ before) × ((listener ≡ none) ⊎ (listener ≡ some c))

accept_loop-IsClean :
    (fd : ℕ) (before : List ℕ) (calls : List Accept)
    → IsFree fd before
    → AreNew (fd ∷ before) calls
    → IsClean fd before (accept_loop fd (fd ∷ before) calls)
unfolding accept_loop IsClean
accept_loop-IsClean fd before [] free new = refl
accept_loop-IsClean fd before (failed errno ∷ calls) free new = elim (Bool-cases (errno == eintr)) [
  | inl again ↦ rw (again, IsClean) (accept_loop-IsClean fd before calls free new)
  | inr error ↦ rw (error, IsClean) (close_new fd before free)
]
accept_loop-IsClean fd before (accepted c fork_failed ∷ calls) free new =
    rw (close_new c (fd ∷ before) new.0) (accept_loop-IsClean fd before calls free new.1)
accept_loop-IsClean fd before (accepted c parent ∷ calls) free new =
    rw (close_new c (fd ∷ before) new.0) (accept_loop-IsClean fd before calls free new.1)
accept_loop-IsClean fd before (accepted c child ∷ calls) free new =
    let other : (c == fd) ≡ false = ground (arith, new.0.0) in
    (rw other (ap (λ r. c ∷ r) (close_new fd before free)), inl refl)

-- `get_connection` with a socket, whatever the calls do, if the socket and those of `accept` have
-- numbers that are not in use: when it exits, no socket is open but those from before; while it listens, the listening one besides; and when it
-- returns, in the process for a client or at once for UDP, the one that it returns, and `*listener`
-- holds that one or -1.
pub get_connection-IsClean :
    (type : SocketType) (fd : ℕ) (bound : Bool) (before : List ℕ) (calls : List Accept)
    → IsFree fd before
    → AreNew (fd ∷ before) calls
    → IsClean fd before (get_connection type (some fd) bound before calls)
unfolding get_connection IsClean
get_connection-IsClean type fd false before calls free new = close_new fd before free
get_connection-IsClean stream fd true before calls free new =
    accept_loop-IsClean fd before calls free new
get_connection-IsClean dgram fd true before calls free new = (refl, inr refl)

-- What `make_connection` leaves: the socket that it returns; nothing; or a socket whose `connect` has
-- failed, of which the caller does not hear.
abbrev pub Leaves : (socket : Option ℕ) → (has_connected : Bool) → (before : List ℕ) → Made → Type 0
Leaves socket has_connected before m =
    ((fd : ℕ) × (socket ≡ some fd) × (m.status ≡ pos fd) × (m.opened ≡ fd ∷ before))
    ⊎ (((m.status ≡ negsuc 0) × (m.opened ≡ before))
        ⊎ ((fd : ℕ) × (socket ≡ some fd)
            × (has_connected ≡ false)
            × (m.status ≡ negsuc 0)
            × (m.opened ≡ fd ∷ before)))

connect_to-Leaves :
    (type : SocketType) (socket : Option ℕ) (has_connected : Bool) (addr port : ℕ) (before : List ℕ)
    → Leaves socket has_connected before (connect_to type socket has_connected addr port before)
connect_to-Leaves stream none h addr port before = inr (inl (refl, refl))
connect_to-Leaves dgram none h addr port before = inr (inl (refl, refl))
connect_to-Leaves stream (some fd) false addr port before = inr (inr (fd, refl, refl, refl, refl))
connect_to-Leaves stream (some fd) true addr port before = inl (fd, refl, refl, refl)
connect_to-Leaves dgram (some fd) h addr port before = inl (fd, refl, refl, refl)

pub ℤ-cases : (z : ℤ) → ((n : ℕ) × (z ≡ pos n)) ⊎ ((n : ℕ) × (z ≡ negsuc n))
ℤ-cases (pos n) = inl (n, refl)
ℤ-cases (negsuc n) = inr (n, refl)

-- `make_connection` returns the socket, which is then open besides those from before, or -1, and then
-- no other socket is open, or one that the caller cannot close, because `connect` has failed.
pub make_connection-Leaves :
    (names : NameService) (getservbyname : SocketType → ℤ → Option ℕ) (service : ℤ)
    (type : SocketType) (netaddress : String) (socket : Option ℕ) (has_connected : Bool)
    (before : List ℕ)
    → Leaves socket has_connected before
        (make_connection names getservbyname service type netaddress socket has_connected before)
unfolding make_connection
make_connection-Leaves names getservbyname service type netaddress socket h before =
    elim (ℤ-cases (atoport (getservbyname type) service)) [
      | inr (k, e) ↦ rw (e, make_connection) (inr (inl (refl, refl)))
      | inl (port, e) ↦ elim (Option-cases (atoaddr names netaddress)) [
        | inl f ↦ rw (e, f, make_connection) (inr (inl (refl, refl)))
        | inr (addr, f) ↦
            rw (e, f, make_connection) (connect_to-Leaves type socket h addr port before)
      ]
    ]

-- Without an address the status is -1.
pub make_connection-unknown :
    (names : NameService) (getservbyname : SocketType → ℤ → Option ℕ) (service : ℤ)
    (type : SocketType) (netaddress : String) (socket : Option ℕ) (has_connected : Bool)
    (before : List ℕ)
    → atoaddr names netaddress ≡ none
    → (make_connection names getservbyname service type netaddress socket has_connected
        before).status
      ≡ negsuc 0
unfolding make_connection
make_connection-unknown names getservbyname service type netaddress socket h before unknown =
    elim (ℤ-cases (atoport (getservbyname type) service)) [
      | inr (k, e) ↦ rw (e, make_connection) refl
      | inl (port, e) ↦ rw (e, unknown, make_connection) refl
    ]
