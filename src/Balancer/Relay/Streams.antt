-- ===== src/Balancer/Relay/Streams.antt =====
-- The bytes through `deal_with_data`: none is lost, doubled or reordered while the writes succeed.
use mathlib.Core.List.{append_assoc, append-nil}
use a2pm.Common.{
  ℕ, ◌+◌, ◌*◌, ◌≡◌, inl, inr, refl, ap, sym, ◌∙◌, arith, Bool, true, false, Option, none, some,
  List, [], ◌∷◌, ◌++◌, ◌==◌, ◌||◌, ltb, length, Bool-cases, Option-cases, ltb→lt,
}
use a2pm.Common.Int.{pos, negsuc}
use a2pm.Sockets.{sock_read}
use a2pm.Sockets.Write.{IsHealthy, sock_write-healthy}
use a2pm.Balancer.Relay.{
  forward_buffer_size, Realloc, in_place, moved, refused, Buffer, grown, with_times, append_buffer,
  Ready, Served, fault, blocked, ended, going, receive, serve, Relay, Traffic, Turn, client_turn,
  vm_turn, client_part, vm_part, later, and_then, relay_turn, deal_with_data,
}

IsAppended : Buffer → List ℕ → Option (Buffer × ℕ) → Type 0
IsAppended b aux none = Unit {0}
IsAppended b aux (some (b', times)) = b'.bytes ≡ b.bytes ++ aux

grown-IsAppended :
    (b : Buffer) (aux : List ℕ) (capacity times : ℕ) (moved_away : Bool)
    → IsAppended b aux (with_times times (grown b aux capacity moved_away))
unfolding grown with_times IsAppended
grown-IsAppended b aux capacity times moved_away = ground arith

append_buffer-IsAppended :
    (realloc : Realloc) (b : Buffer) (aux : List ℕ) (times : ℕ)
    → IsAppended b aux (append_buffer realloc b aux times)
unfolding append_buffer IsAppended
append_buffer-IsAppended in_place b aux times = ground (
  arith,
  grown-IsAppended b aux (times * forward_buffer_size) (times + 1) false,
  grown-IsAppended b aux b.capacity times false,
)
append_buffer-IsAppended moved b aux times = ground (
  arith,
  grown-IsAppended b aux (times * forward_buffer_size) (times + 1) true,
  grown-IsAppended b aux b.capacity times false,
)
append_buffer-IsAppended refused b aux times =
    ground (arith, grown-IsAppended b aux b.capacity times false)

-- The block for one socket sends all of `out` and appends what it gets to `into`.
IsPassed : (out into : Buffer) → Served → Type 0
IsPassed out into (going sent got out' into' times) =
    (out.bytes ≡ sent) × (out'.bytes ≡ []) × (into'.bytes ≡ into.bytes ++ got)
IsPassed out into (ended sent out' into' times) =
    (out.bytes ≡ sent) × (out'.bytes ≡ []) × (into'.bytes ≡ into.bytes)
IsPassed out into s = Unit {0}

received-IsPassed :
    (sent got : List ℕ) (out out' into : Buffer)
    → out.bytes ≡ sent
    → out'.bytes ≡ []
    → (x : Option (Buffer × ℕ)) → IsAppended into got x
    → IsPassed out into
        (elim x [ none ↦ fault | some (into', times) ↦ going sent got out' into' times ])
unfolding IsAppended IsPassed
received-IsPassed sent got out out' into flushed empty none h = tt
received-IsPassed sent got out out' into flushed empty (some (into', times)) h = (flushed, empty, h)

receive-IsPassed :
    (ready : Ready) (sent : List ℕ) (out out' into : Buffer) (times : ℕ)
    → out.bytes ≡ sent
    → out'.bytes ≡ []
    → IsPassed out into (receive ready sent out' into times)
unfolding receive IsPassed
receive-IsPassed ready sent out out' into times flushed empty =
    let got = (sock_read ready.reads forward_buffer_size).received in
    let appended =
      received-IsPassed sent got out out' into flushed empty
        (append_buffer ready.realloc into got times)
        (append_buffer-IsAppended ready.realloc into got times) in
    elim (Option-cases (sock_read ready.reads forward_buffer_size).status) [
      | inl e ↦ rw (IsPassed, e) tt
      | inr (pos n, e) ↦ elim (Bool-cases (n == 0)) [
        | inr some_bytes ↦ rw (IsPassed, e, some_bytes) appended
        | inl closed ↦ elim (Bool-cases (out'.dangling || into.dangling)) [
          | inl freed ↦ rw (IsPassed, e, closed, freed) tt
          | inr live ↦ rw (IsPassed, e, closed, live) (flushed, empty, refl)
        ]
      ]
      | inr (negsuc n, e) ↦ rw (IsPassed, e) (flushed, empty, sym (append-nil into.bytes))
    ]

serve-IsPassed :
    (ready : Ready) (out into : Buffer) (times : ℕ)
    → IsHealthy ready.writes
    → IsPassed out into (serve ready out into times)
unfolding serve IsPassed
serve-IsPassed ready out into times ok = elim (Bool-cases (ltb 0 (length out.bytes))) [
  | inl more ↦ rw more (elim (Bool-cases out.dangling) [
    | inl freed ↦ rw freed tt
    | inr live ↦ rw live (elim (sock_write-healthy ready.writes out.bytes (ltb→lt _ _ more) ok) [
      | inl wait ↦ rw (IsPassed, wait) tt
      | inr (done, all) ↦
          rw (IsPassed, done)
            (receive-IsPassed ready _ out (record out { bytes = [] }) into times (sym all) refl)
    ])
  ])
  | inr less ↦
      rw less
        (receive-IsPassed ready [] out out into times (empty out.bytes less) (empty out.bytes less))
]
  where
    empty : (bytes : List ℕ) → ltb 0 (length bytes) ≡ false → bytes ≡ []
    empty [] h = refl
    empty (b ∷ bytes) h = absurd (ground arith)

-- In each direction, the bytes pending before and those read are the bytes sent and those pending
-- after, in this order; where the thread ends, the pending ones are lost with its buffers. Nothing is
-- said of a run that faults or waits.
pub IsConserved : Relay → Turn → Type 0
IsConserved r (ended t r') =
    (r.to_vm.bytes ++ t.from_client ≡ t.to_vm ++ r'.to_vm.bytes)
    × (r.to_client.bytes ++ t.from_vm ≡ t.to_client ++ r'.to_client.bytes)
IsConserved r (going t r') =
    (r.to_vm.bytes ++ t.from_client ≡ t.to_vm ++ r'.to_vm.bytes)
    × (r.to_client.bytes ++ t.from_vm ≡ t.to_client ++ r'.to_client.bytes)
IsConserved r turn = Unit {0}

abbrev pub IsHealthyReady : Option Ready → Type 0
IsHealthyReady none = Unit {0}
IsHealthyReady (some ready) = IsHealthy ready.writes

abbrev pub AreHealthy : List (Option Ready × Option Ready) → Type 0
AreHealthy [] = Unit {0}
AreHealthy ((client, vm) ∷ events) = (IsHealthyReady client × IsHealthyReady vm) × AreHealthy events

client_part-IsConserved :
    (client : Option Ready) (r : Relay)
    → IsHealthyReady client
    → IsConserved r (client_part client r)
unfolding client_part client_turn IsPassed IsConserved
client_part-IsConserved none r ok = (append-nil r.to_vm.bytes, append-nil r.to_client.bytes)
client_part-IsConserved (some ready) r ok =
    go r _ (serve-IsPassed ready r.to_client r.to_vm r.times ok)
  where
    go : (r : Relay) (s : Served) → IsPassed r.to_client r.to_vm s → IsConserved r (client_turn s)
    go r fault h = tt
    go r blocked h = tt
    go r (ended sent out into times) (flushed, empty, kept) = (
      append-nil _ ∙ sym kept,
      append-nil _ ∙ (flushed ∙ (sym (append-nil sent) ∙ ap (λ b. sent ++ b) (sym empty))),
    )
    go r (going sent got out into times) (flushed, empty, appended) = (
      sym appended,
      append-nil _ ∙ (flushed ∙ (sym (append-nil sent) ∙ ap (λ b. sent ++ b) (sym empty))),
    )

vm_part-IsConserved :
    (vm : Option Ready) (r : Relay) → IsHealthyReady vm → IsConserved r (vm_part vm r)
unfolding vm_part vm_turn IsPassed IsConserved
vm_part-IsConserved none r ok = (append-nil r.to_vm.bytes, append-nil r.to_client.bytes)
vm_part-IsConserved (some ready) r ok = go r _ (serve-IsPassed ready r.to_vm r.to_client r.times ok)
  where
    go : (r : Relay) (s : Served) → IsPassed r.to_vm r.to_client s → IsConserved r (vm_turn s)
    go r fault h = tt
    go r blocked h = tt
    go r (ended sent out into times) (flushed, empty, kept) = (
      append-nil _ ∙ (flushed ∙ (sym (append-nil sent) ∙ ap (λ b. sent ++ b) (sym empty))),
      append-nil _ ∙ sym kept,
    )
    go r (going sent got out into times) (flushed, empty, appended) = (
      append-nil _ ∙ (flushed ∙ (sym (append-nil sent) ∙ ap (λ b. sent ++ b) (sym empty))),
      sym appended,
    )

-- Two steps of a conserved stream make one.
streams :
    (p g s q g' s' q' : List ℕ)
    → p ++ g ≡ s ++ q
    → q ++ g' ≡ s' ++ q'
    → p ++ (g ++ g') ≡ (s ++ s') ++ q'
streams p g s q g' s' q' h k =
    sym (append_assoc p g g')
    ∙ (ap (λ l. l ++ g') h
        ∙ (append_assoc s q g' ∙ (ap (λ l. s ++ l) k ∙ sym (append_assoc s s' q'))))

and_then-IsConserved :
    (r : Relay) (turn : Turn) (next : Relay → Turn)
    → IsConserved r turn
    → ((r' : Relay) → IsConserved r' (next r'))
    → IsConserved r (and_then turn next)
unfolding and_then later IsConserved
and_then-IsConserved r fault next h k = tt
and_then-IsConserved r blocked next h k = tt
and_then-IsConserved r (ended s r1) next h k = h
and_then-IsConserved r (going s r1) next h k = go r s r1 (next r1) h (k r1)
  where
    go :
        (r : Relay) (s : Traffic) (r1 : Relay) (turn : Turn)
        → IsConserved r (going s r1)
        → IsConserved r1 turn
        → IsConserved r (later s turn)
    go r s r1 fault h k = tt
    go r s r1 blocked h k = tt
    go r s r1 (ended t r2) (up, down) (up', down') = (
      streams _ s.from_client s.to_vm r1.to_vm.bytes t.from_client t.to_vm _ up up',
      streams _ s.from_vm s.to_client r1.to_client.bytes t.from_vm t.to_client _ down down',
    )
    go r s r1 (going t r2) (up, down) (up', down') = (
      streams _ s.from_client s.to_vm r1.to_vm.bytes t.from_client t.to_vm _ up up',
      streams _ s.from_vm s.to_client r1.to_client.bytes t.from_vm t.to_client _ down down',
    )

-- Over any run of the loop of `deal_with_data`, from any state, while every write takes bytes or is
-- interrupted: in each direction, the bytes pending at the start followed by those read are those
-- sent followed by those pending at the end. Where a peer has closed its connection the thread ends,
-- and exactly the pending bytes are lost. Nothing is said of a run that faults or waits.
pub deal_with_data-IsConserved :
    (events : List (Option Ready × Option Ready)) (r : Relay)
    → AreHealthy events
    → IsConserved r (deal_with_data events r)
unfolding deal_with_data relay_turn IsConserved
deal_with_data-IsConserved [] r ok = (append-nil r.to_vm.bytes, append-nil r.to_client.bytes)
deal_with_data-IsConserved ((client, vm) ∷ events) r ((ok, ok'), rest) =
    and_then-IsConserved r _ (deal_with_data events)
      (and_then-IsConserved r _ (vm_part vm) (client_part-IsConserved client r ok)
        (λ r'. vm_part-IsConserved vm r' ok'))
      (λ r'. deal_with_data-IsConserved events r' rest)
