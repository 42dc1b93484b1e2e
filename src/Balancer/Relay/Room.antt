-- ===== src/Balancer/Relay/Room.antt =====
-- One block of the loop of `deal_with_data`: the room in its buffers, while `realloc` grows in place.
use a2pm.Common.{
  ℕ, ◌+◌, ◌*◌, ◌^◌, ◌<◌, ◌≤◌, ◌≡◌, ◌⊎◌, inl, inr, refl, arith, true, false, Option, none, some,
  List, [], ◌++◌, ltb, leb, ◌==◌, length, length-append, Bool-cases, Option-cases,
}
use a2pm.Common.Int.{pos, negsuc}
use a2pm.Sockets.{sock_write, sock_read}
use a2pm.Sockets.Read.{sock_read-IsRead}
use a2pm.Balancer.Relay.{
  forward_buffer_size, in_place, Buffer, grown, with_times, append_buffer, Ready, Served, fault,
  blocked, ended, going, receive, serve,
}

-- The thread's pointer is good, the bytes are within the block, and so many more fit in the block
-- that the next call of `realloc` makes.
pub record Fits (b : Buffer) (times : ℕ) : Type 0 where
  pub live : b.dangling ≡ false
  pub inside : length b.bytes ≤ b.capacity
  pub room : forward_buffer_size ≤ b.capacity
  pub started : 2 ≤ times
  pub next : length b.bytes + forward_buffer_size ≤ times * forward_buffer_size

Fits-more : (b : Buffer) (times : ℕ) → Fits b times → Fits b (times + 1)
Fits-more b times f = record {
  live = f.live;
  inside = f.inside;
  room = f.room;
  started = omega (arith, f.started);
  next = omega (arith, f.next);
}

IsGrown : ℕ → Option (Buffer × ℕ) → Type 0
IsGrown times none = ⊥
IsGrown times (some (b, times')) = Fits b times' × ((times' ≡ times) ⊎ (times' ≡ times + 1))

append_buffer-IsGrown :
    (b : Buffer) (aux : List ℕ) (times : ℕ)
    → Fits b times
    → length aux ≤ forward_buffer_size
    → times < 2048
    → IsGrown times (append_buffer in_place b aux times)
unfolding append_buffer grown with_times IsGrown
append_buffer-IsGrown b aux times f small few =
    rw f.live (elim (Bool-cases (leb forward_buffer_size (length b.bytes + length aux))) [
      | inl more ↦
          let total = length-append b.bytes aux in
          let fits : leb (length (b.bytes ++ aux)) (times * forward_buffer_size) ≡ true =
            ground (arith, f.next, total) in
          let int : ltb (times * forward_buffer_size) (2 ^ 31) ≡ true = ground arith in
          rw more (
            rw int (
              rw fits (
                record {
                  live = refl;
                  inside = omega (arith, total, f.next);
                  room = omega (arith, f.next);
                  started = omega (arith, f.started);
                  next = omega (arith, total, f.next);
                },
                inr refl,
              )))
      | inr less ↦
          let total = length-append b.bytes aux in
          let fits : leb (length (b.bytes ++ aux)) b.capacity ≡ true =
            ground (arith, f.room, total) in
          let within : length b.bytes + length aux < forward_buffer_size = ground arith in
          rw less (
            rw fits (
              record {
                live = refl;
                inside = omega (arith, total, f.room);
                room = f.room;
                started = f.started;
                next = omega (arith, total, within, f.started);
              },
              inl refl,
            ))
    ])

Fits-flushed : (b : Buffer) (times : ℕ) → Fits b times → Fits (record b { bytes = [] }) times
Fits-flushed b times f = record {
  live = f.live;
  inside = omega arith;
  room = f.room;
  started = f.started;
  next = omega (arith, f.started);
}

unfoldable pub IsSafe : ℕ → Served → Type 0
IsSafe times fault = ⊥
IsSafe times blocked = Unit {0}
IsSafe times (ended sent out into kept) = Unit {0}
IsSafe times (going sent got out into times') =
    Fits out times' × Fits into times' × ((times' ≡ times) ⊎ (times' ≡ times + 1))

received-IsSafe :
    (sent got : List ℕ) (out : Buffer) (times : ℕ)
    → Fits out times
    → (x : Option (Buffer × ℕ)) → IsGrown times x
    → IsSafe times
        (elim x [ none ↦ fault | some (into', times') ↦ going sent got out into' times' ])
unfolding IsGrown IsSafe
received-IsSafe sent got out times f none h = h
received-IsSafe sent got out times f (some (into', times')) (g, inl e) = (rw e f, g, inl e)
received-IsSafe sent got out times f (some (into', times')) (g, inr e) =
    (rw e (Fits-more out times f), g, inr e)

receive-IsSafe :
    (ready : Ready) (sent : List ℕ) (out into : Buffer) (times : ℕ)
    → ready.realloc ≡ in_place
    → Fits out times
    → Fits into times
    → times < 2048
    → IsSafe times (receive ready sent out into times)
unfolding receive IsSafe
receive-IsSafe ready sent out into times place f g few =
    let r = sock_read-IsRead ready.reads forward_buffer_size in
    let got = (sock_read ready.reads forward_buffer_size).received in
    let grew = append_buffer-IsGrown into got times g r.fits few in
    let next = received-IsSafe sent got out times f (append_buffer in_place into got times) grew in
    elim (Option-cases (sock_read ready.reads forward_buffer_size).status) [
      | inl e ↦ rw (IsSafe, e) tt
      | inr (negsuc n, e) ↦ rw (IsSafe, e) (f, g, inl refl)
      | inr (pos n, e) ↦ elim (Bool-cases (n == 0)) [
        | inl last ↦ rw (IsSafe, e) (rw last (rw (f.live, g.live) tt))
        | inr something ↦ rw (IsSafe, e) (rw something (rw place next))
      ]
    ]

pub serve-IsSafe :
    (ready : Ready) (out into : Buffer) (times : ℕ)
    → ready.realloc ≡ in_place
    → Fits out times
    → Fits into times
    → times < 2048
    → IsSafe times (serve ready out into times)
unfolding serve IsSafe
serve-IsSafe ready out into times place f g few = elim (Bool-cases (ltb 0 (length out.bytes))) [
  | inl more ↦
      rw (more, f.live)
        (elim (Option-cases (sock_write ready.writes out.bytes (length out.bytes)).status) [
          | inl e ↦ rw (IsSafe, e) tt
          | inr (n, e) ↦
              rw (IsSafe, e)
                (receive-IsSafe ready _ _ into times place (Fits-flushed out times f) g few)
        ])
  | inr less ↦ rw less (receive-IsSafe ready [] out into times place f g few)
]
