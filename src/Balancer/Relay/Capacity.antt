-- ===== src/Balancer/Relay/Capacity.antt =====
-- The buffers of `deal_with_data`: no write behind the end of one, while `realloc` grows in place.
use a2pm.Common.{
  ℕ, suc, ◌+◌, ◌*◌, ◌<◌, ◌≤◌, ◌≡◌, refl, arith, Option, none, some, List, [], ◌∷◌, length,
}
use a2pm.Balancer.Relay.{
  in_place, Ready, Served, fault, blocked, ended, going, Relay, Traffic, Turn, client_turn, vm_turn,
  client_part, vm_part, later, and_then, relay_turn, deal_with_data, new_relay, empty_buffer,
}
use a2pm.Balancer.Relay.Room.{Fits, IsSafe, serve-IsSafe}

-- Both buffers of the thread fit.
pub record IsFitting (r : Relay) : Type 0 where
  pub vm : Fits r.to_vm r.times
  pub client : Fits r.to_client r.times

-- No fault; and, if the loop goes on, buffers that fit, after at most `n` calls of `realloc`.
pub IsSafeTurn : (times n : ℕ) → Turn → Type 0
IsSafeTurn times n fault = ⊥
IsSafeTurn times n blocked = Unit {0}
IsSafeTurn times n (ended t r) = Unit {0}
IsSafeTurn times n (going t r) = IsFitting r × (r.times ≤ times + n)

abbrev pub IsInPlace : Option Ready → Type 0
IsInPlace none = Unit {0}
IsInPlace (some ready) = ready.realloc ≡ in_place

abbrev pub AreInPlace : List (Option Ready × Option Ready) → Type 0
AreInPlace [] = Unit {0}
AreInPlace ((client, vm) ∷ events) = (IsInPlace client × IsInPlace vm) × AreInPlace events

client_part-IsSafeTurn :
    (client : Option Ready) (r : Relay)
    → IsInPlace client
    → IsFitting r
    → r.times < 2048
    → IsSafeTurn r.times 1 (client_part client r)
unfolding client_part client_turn IsSafe IsSafeTurn
client_part-IsSafeTurn none r place f few = (f, omega arith)
client_part-IsSafeTurn (some ready) r place f few =
    go r.times _ (serve-IsSafe ready r.to_client r.to_vm r.times place f.client f.vm few)
  where
    go : (times : ℕ) (s : Served) → IsSafe times s → IsSafeTurn times 1 (client_turn s)
    go times fault h = h
    go times blocked h = tt
    go times (ended sent out into kept) h = tt
    go times (going sent got out into times') (f, g, step) =
        (record { vm = g; client = f }, ground (arith, step))

vm_part-IsSafeTurn :
    (vm : Option Ready) (r : Relay)
    → IsInPlace vm
    → IsFitting r
    → r.times < 2048
    → IsSafeTurn r.times 1 (vm_part vm r)
unfolding vm_part vm_turn IsSafe IsSafeTurn
vm_part-IsSafeTurn none r place f few = (f, omega arith)
vm_part-IsSafeTurn (some ready) r place f few =
    go r.times _ (serve-IsSafe ready r.to_vm r.to_client r.times place f.vm f.client few)
  where
    go : (times : ℕ) (s : Served) → IsSafe times s → IsSafeTurn times 1 (vm_turn s)
    go times fault h = h
    go times blocked h = tt
    go times (ended sent out into kept) h = tt
    go times (going sent got out into times') (f, g, step) =
        (record { vm = f; client = g }, ground (arith, step))

and_then-IsSafeTurn :
    (times n m : ℕ) (turn : Turn) (next : Relay → Turn)
    → IsSafeTurn times n turn
    → ((r : Relay) → IsFitting r → r.times ≤ times + n → IsSafeTurn r.times m (next r))
    → IsSafeTurn times (n + m) (and_then turn next)
unfolding and_then later IsSafeTurn
and_then-IsSafeTurn times n m fault next h k = h
and_then-IsSafeTurn times n m blocked next h k = tt
and_then-IsSafeTurn times n m (ended s r) next h k = tt
and_then-IsSafeTurn times n m (going s r) next (f, few) k = go s r few (next r) (k r f few)
  where
    go :
        (s : Traffic) (r : Relay)
        → r.times ≤ times + n
        → (turn : Turn) → IsSafeTurn r.times m turn
        → IsSafeTurn times (n + m) (later s turn)
    go s r few fault h = h
    go s r few blocked h = tt
    go s r few (ended t end) h = tt
    go s r few (going t r') (f, less) = (f, omega arith)

-- A run of the loop of `deal_with_data` from buffers that fit, in which `realloc` never moves a block
-- or runs out of memory, and too short for its size to leave `int`, has no fault; if it goes on,
-- its buffers fit again.
pub deal_with_data-IsSafeTurn :
    (events : List (Option Ready × Option Ready)) (r : Relay)
    → AreInPlace events
    → IsFitting r
    → r.times + length events * 2 ≤ 2048
    → IsSafeTurn r.times (length events * 2) (deal_with_data events r)
unfolding deal_with_data relay_turn IsSafeTurn
deal_with_data-IsSafeTurn [] r place f few = (f, omega arith)
deal_with_data-IsSafeTurn ((client, vm) ∷ events) r ((place, place'), rest) f few =
    let turn =
      and_then-IsSafeTurn r.times 1 1 (client_part client r) (vm_part vm)
        (client_part-IsSafeTurn client r place f (omega arith))
        (λ r1 f1 few1. vm_part-IsSafeTurn vm r1 place' f1 (omega arith)) in
    let count : suc (length events) * 2 ≡ 2 + length events * 2 = omega arith in
    rw count (
      and_then-IsSafeTurn r.times 2 (length events * 2) (relay_turn (client, vm) r)
        (deal_with_data events) turn
        (λ r2 f2 few2. deal_with_data-IsSafeTurn events r2 rest f2 (omega arith)))

-- The state that the thread starts in fits.
pub new_relay-IsFitting : IsFitting new_relay
new_relay-IsFitting = record { vm = empty; client = empty }
  where
    empty : Fits empty_buffer 2
    empty = record {
      live = refl;
      inside = omega arith;
      room = omega arith;
      started = omega arith;
      next = omega arith;
    }
