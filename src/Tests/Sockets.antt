-- ===== src/Tests/Sockets.antt =====
-- Runs of controller/sockhelp.c.
use a2pm.Common.{ℕ, ◌≡◌, refl, arith, Option, some, none, List, [], ◌∷◌, take}
use a2pm.Common.Int.{ℤ, pos}
use a2pm.Sockets.{Outcome, moved, Arrival, arrived, eintr, byte, sock_write, sock_read, sock_gets}
use a2pm.Sockets.Write.{Exact, sock_write-Exact, sock_write-all}
use a2pm.Sockets.Read.{IsRead, sock_read-IsRead}
use a2pm.Sockets.Gets.{HasNoLf, incoming, line_of, drop_cr, sock_gets-line}

abbrev three_bytes : List ℕ
three_bytes = 71 ∷ 69 ∷ 84 ∷ []

-- A short write, an interrupt, and the rest.
abbrev short_write : List Outcome
short_write = moved 1 ∷ Outcome.failed eintr ∷ moved 5 ∷ []

sock_write-Exact_example : Exact 3 three_bytes (sock_write short_write three_bytes 3)
sock_write-Exact_example = sock_write-Exact short_write three_bytes 3 refl

sock_write-all_example :
    ((sock_write short_write three_bytes 3).status ≡ some (pos 3))
    × ((sock_write short_write three_bytes 3).sent ≡ three_bytes)
sock_write-all_example =
    sock_write-all short_write three_bytes 3 refl (omega arith)
      (omega arith, (refl, (omega arith, tt))) (omega arith)

abbrev two_arrivals : List Arrival
two_arrivals = Arrival.failed eintr ∷ arrived three_bytes ∷ arrived (80 ∷ []) ∷ []

sock_read-IsRead_example : IsRead 2 two_arrivals (sock_read two_arrivals 2)
sock_read-IsRead_example = sock_read-IsRead two_arrivals 2

-- A line with its carriage return.
abbrev crlf_line : List ℕ
crlf_line = 71 ∷ 69 ∷ 84 ∷ 13 ∷ []

crlf_line-HasNoLf : HasNoLf crlf_line
crlf_line-HasNoLf = ground arith

sock_gets-line_example :
    sock_gets (incoming crlf_line (byte 80 ∷ [])) 8
    ≡ line_of (take 8 (drop_cr crlf_line)) (byte 80 ∷ [])
sock_gets-line_example = sock_gets-line crlf_line (byte 80 ∷ []) 8 crlf_line-HasNoLf (omega arith)

abbrev no_services : ℤ → Option ℕ
no_services _ = none
