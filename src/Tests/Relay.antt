-- ===== src/Tests/Relay.antt =====
-- Runs of `deal_with_data` of controller/balancer.c.
use a2pm.Common.{
  ℕ, ◌+◌, ◌≤◌, ◌≡◌, refl, arith, false, Option, some, none, List, [], ◌∷◌, length, replicate, zero,
  suc, ap,
}
use a2pm.Sockets.{Outcome, moved, Arrival, arrived, ewouldblock}
use a2pm.Balancer.Relay.{in_place, Buffer, forward_buffer_size, Ready, new_relay, deal_with_data}
use a2pm.Balancer.Relay.Streams.{IsConserved, deal_with_data-IsConserved}
use a2pm.Balancer.Relay.Capacity.{
  IsSafeTurn, new_relay-IsFitting, deal_with_data-IsSafeTurn, AreInPlace,
}

abbrev reads_only : List ℕ → Ready
reads_only bytes = record { writes = []; reads = arrived bytes ∷ []; realloc = in_place }

abbrev writes_only : ℕ → Ready
writes_only k = record {
  writes = moved k ∷ [];
  reads = Arrival.failed ewouldblock ∷ [];
  realloc = in_place;
}

-- The client sends two bytes; then the VM takes them.
abbrev request : List (Option Ready × Option Ready)
request = (some (reads_only (1 ∷ 2 ∷ [])), none) ∷ (none, some (writes_only 2)) ∷ []

deal_with_data-IsConserved_example : IsConserved new_relay (deal_with_data request new_relay)
deal_with_data-IsConserved_example =
    deal_with_data-IsConserved request new_relay ((tt, tt), ((tt, (omega arith, tt)), tt))

request-AreInPlace : AreInPlace request
request-AreInPlace = ((refl, tt), ((tt, refl), tt))

deal_with_data-IsSafeTurn_example : IsSafeTurn 2 4 (deal_with_data request new_relay)
deal_with_data-IsSafeTurn_example =
    deal_with_data-IsSafeTurn request new_relay request-AreInPlace new_relay-IsFitting (omega arith)

abbrev pending_buffer : Buffer
pending_buffer = record { bytes = 1 ∷ 2 ∷ []; capacity = forward_buffer_size; dangling = false }

abbrev broken_pipe : Ready
broken_pipe = record {
  writes = Outcome.failed 32 ∷ [];
  reads = Arrival.failed ewouldblock ∷ [];
  realloc = in_place;
}

abbrev one_byte : List ℕ
one_byte = 7 ∷ []

length-replicate : (n : ℕ) → length {A = ℕ} (replicate n 0) ≡ n
length-replicate zero = refl
length-replicate (suc n) = ap suc (length-replicate n)

-- A buffer with one byte less than 1 MiB, which one more byte makes the thread enlarge.
unfoldable filled : ℕ → Buffer
filled n = record { bytes = replicate n 0; capacity = forward_buffer_size; dangling = false }

length-filled : (n : ℕ) → length (filled n).bytes ≡ n
unfolding filled
length-filled n = length-replicate n

filled_enough :
    (n : ℕ)
    → forward_buffer_size ≤ n + 1
    → forward_buffer_size ≤ length (filled n).bytes + length one_byte
filled_enough n h = omega (arith, length-filled n)
