-- ===== src/Balancer/Relay/Faults.antt =====
-- What `deal_with_data` does when a write fails or `realloc` moves a block.
use a2pm.Common.{
  ℕ, ◌+◌, ◌<◌, ◌≤◌, ◌≡◌, ◌≢◌, refl, arith, Bool, true, false, Option, none, some, List, [], ◌∷◌,
  ◌++◌, ltb, leb, if◌then◌else◌, length, length-append, lt→ltb,
}
use a2pm.Common.Int.{negsuc}
use a2pm.Sockets.{failed, eintr, ewouldblock, Arrival, sock_write, sock_read}
use a2pm.Sockets.Write.{sock_write-fails}
use a2pm.Balancer.Relay.{
  forward_buffer_size, Realloc, moved, Buffer, grown, with_times, append_buffer, Ready, Served,
  fault, going, receive, serve,
}

HasMoved : Buffer → List ℕ → Option (Buffer × ℕ) → Type 0
HasMoved b aux none = Unit {0}
HasMoved b aux (some (b', times)) = (b'.dangling ≡ true) × (b'.bytes ≡ b.bytes ++ aux)

append_buffer-HasMoved :
    (b : Buffer) (aux : List ℕ) (times : ℕ)
    → leb forward_buffer_size (length b.bytes + length aux) ≡ true
    → HasMoved b aux (append_buffer moved b aux times)
unfolding append_buffer grown with_times HasMoved
append_buffer-HasMoved b aux times large = ground arith

-- Any write from the buffer and any append to it is a fault.
pub IsLost : Option (Buffer × ℕ) → Type 0
IsLost none = Unit {0}
IsLost (some (b, times)) =
    ((ready : Ready) (into : Buffer) (n : ℕ) → serve ready b into n ≡ fault)
    × ((realloc : Realloc) (more : List ℕ) (n : ℕ) → append_buffer realloc b more n ≡ none)

-- An append that makes `realloc` move the block faults, or leaves the thread with a pointer to the old
-- one: the next time the thread writes from that buffer or appends to it, it uses memory that was
-- freed.
pub append_buffer-moved :
    (b : Buffer) (aux : List ℕ) (times : ℕ)
    → forward_buffer_size ≤ length b.bytes + length aux
    → IsLost (append_buffer moved b aux times)
unfolding append_buffer serve HasMoved IsLost
append_buffer-moved b aux times large =
    let past : leb forward_buffer_size (length b.bytes + length aux) ≡ true = ground arith in
    go (append_buffer moved b aux times) (append_buffer-HasMoved b aux times past)
  where
    go : (r : Option (Buffer × ℕ)) → HasMoved b aux r → IsLost r
    go none h = tt
    go (some (b', times')) (away, all) =
        let some_bytes : ltb 0 (length b'.bytes) ≡ true =
          lt→ltb _ _ (rw all (omega (arith, length-append b.bytes aux))) in
        ((λ ready into n. rw (some_bytes, away) refl), (λ realloc more n. rw away refl))

receive-quiet :
    (ready : Ready) (out into : Buffer) (times : ℕ)
    → ready.reads ≡ Arrival.failed ewouldblock ∷ []
    → receive ready [] out into times ≡ going [] [] out into times
unfolding receive sock_read
receive-quiet ready out into times quiet = rw (receive, quiet) refl

-- When the write fails, the thread forgets the bytes: the system took none of them, and the buffer is
-- empty after it.
pub serve-failed_write :
    (ready : Ready) (out into : Buffer) (times errno : ℕ)
    → out.dangling ≡ false
    → 0 < length out.bytes
    → ready.writes ≡ failed errno ∷ []
    → errno ≢ eintr
    → ready.reads ≡ Arrival.failed ewouldblock ∷ []
    → serve ready out into times ≡ going [] [] (record out { bytes = [] }) into times
unfolding serve receive
serve-failed_write ready out into times errno live more fails hard quiet =
    let some_bytes = lt→ltb 0 (length out.bytes) more in
    let (status, sent) = sock_write-fails errno out.bytes more hard in
    let returned : (sock_write ready.writes out.bytes (length out.bytes)).status ≡ some (negsuc 0) =
      rw fails status in
    let nothing : (sock_write ready.writes out.bytes (length out.bytes)).sent ≡ [] =
      rw fails sent in
    rw some_bytes (
      passes out.dangling live
        (rw (returned, nothing) (receive-quiet ready (record out { bytes = [] }) into times quiet)))
  where
    passes : (d : Bool) → d ≡ false → {s t : Served} → s ≡ t → (if d then fault else s) ≡ t
    passes d e h = rw e h
