-- ===== src/Tests/Broadcast.antt =====
-- Runs of controller/broadcast.c with two controllers.
use a2pm.Common.{ℕ, ◌≡◌, refl, arith, true, false, some, [], ◌∷◌, map, take, ◌==◌, if◌then◌else◌}
use Prim.Native.String.{String}
use a2pm.Common.Int.{ℤ, pos}
use a2pm.Broadcast.{
  Connection, Bus, Callbacks, Handler, broadcast, broadcast_round, timeout, register_callback,
  call_function, empty_slot,
}
use a2pm.Broadcast.Dispatch.{AreSlots, call_function-register}
use a2pm.Broadcast.Delivery.{addressed, message, broadcast-latest}

abbrev peer : String → ℕ → Connection
peer ip socket = record { ip = ip; socket = pos socket; value = pos 0 }

abbrev two_peers : Bus
two_peers = record {
  connections = peer "10.0.0.1" 4 ∷ peer "10.0.0.2" 5 ∷ peer "" 0 ∷ [];
  last_controller_socket = 2;
  msg_temp = message 0 0 (pos 0);
  new_bcast_message = false;
}

abbrev holding_message : ℕ → Bus
holding_message type = record two_peers {
  msg_temp = message type 8 (pos 9);
  new_bcast_message = true;
}

-- The state of the callbacks is the last content.
abbrev store : Handler ℤ
store sock content size s = content

abbrev one_callback : Callbacks ℤ
one_callback = record {
  callbacks = record { type = 20000; callback = some store } ∷ empty_slot ∷ [];
  last_callback = 1;
}

abbrev two_callbacks : Callbacks ℤ
two_callbacks = record {
  callbacks =
      record { type = 20000; callback = some store }
      ∷ record { type = 20001; callback = some store }
      ∷ [];
  last_callback = 2;
}

broadcast-latest_example :
    (broadcast_round one_callback true timeout (holding_message 20001, pos 3)
      ≡ some (
        map (addressed (message 20001 8 (pos 9))) (take 2 two_peers.connections),
        record (holding_message 20001) { new_bcast_message = false },
        pos 3,
      ))
    × (broadcast_round one_callback false timeout
          (record (holding_message 20001) { new_bcast_message = false }, pos 3)
        ≡ some ([], record (holding_message 20001) { new_bcast_message = false }, pos 3))
unfolding broadcast
broadcast-latest_example =
    broadcast-latest one_callback (pos 3) two_peers (holding_message 20000) (holding_message 20001)
      20000 20001 8 8 (pos 9) (pos 9) (omega arith) refl refl

call_function-register_example :
    call_function two_callbacks (pos 4) (message 20001 8 (pos 9)) (pos 3) ≡ (
      if 20001 == 20001
      then some (store (pos 4) (pos 9) 8 (pos 3))
      else call_function one_callback (pos 4) (message 20001 8 (pos 9)) (pos 3))
unfolding register_callback
call_function-register_example =
    call_function-register one_callback two_callbacks 20001 store (pos 4) (message 20001 8 (pos 9))
      (pos 3) one_callback-AreSlots (ground arith) (ground arith) refl
  where
    one_callback-AreSlots : AreSlots 1 one_callback.callbacks
    one_callback-AreSlots = ground arith
