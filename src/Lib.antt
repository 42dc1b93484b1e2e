-- ===== src/Lib.antt =====
-- Verification of A2PM: the controller that watches virtual machines and has them rejuvenated before
-- they fail, the load balancer in front of them, the client on each machine, and the program that
-- aggregates their datapoints for the model builder.
--
-- The parts and their files (paths from the root of the repository):
--   Atomic      controller/atomic.c: the atomic operations and the spinlock on them. Each x86
--               instruction is a function from the cell to a result and the new cell, on 32-bit words
--               with wrap-around; Atomic/SpinLock interleaves any number of threads, one operation
--               at a time.
--   Thread      controller/thread.c: thread numbers by compare-and-swap on `thread_counter`, and the
--               argument blocks that the threads free. The load and the compare-and-swap are two
--               steps of `helper_step`.
--   Sockets     controller/sockhelp.c: `sock_write`, `sock_read`, `sock_gets`, `sock_puts` and
--               `atoport`. A script lists what the system calls do (bytes taken or given, or an
--               errno); a loop that is longer than its script has not returned, and the theorems
--               that need a result say how long a script is enough. Sockets/Connection has
--               `get_connection` and `make_connection`, with the list of the open sockets.
--   Broadcast   controller/broadcast.c: the pending message, the slots of the other controllers and
--               the table of callbacks. The state that the callbacks change is a parameter.
--               Broadcast/Startup is `initialize_broadcast`, which uses `make_connection`.
--   Leader      controller/leader.c: the state of the election, its callbacks (called by Broadcast),
--               the rounds of its loop, and `send_to_leader` (which uses Sockets).
--   Balancer    controller/balancer.c: Balancer/Vms are the tables that `controller_thread` keeps from
--               the controller's messages; Balancer/Startup is `main` up to its loop, and
--               Balancer/Handoff the loop over `accept` with the struct that it hands to its threads,
--               interleaved store by store; Balancer/Clients is the choice of a VM for a client
--               (`get_current_socket`); Balancer/Relay is the loop of `deal_with_data`, which passes
--               bytes both ways with `sock_read` and `sock_write`, and `build_select_list`.
--   Controller  controller/server.c: the VM table, `communication_thread` for each VM
--               (Controller/Communication), `accept_new_client` (Controller/Accept), `mttf_thread`
--               (Controller/Rates), and the message box to the balancer, whose messages are those
--               that Balancer/Vms handles. Controller/Startup is `main` up to its loop, which uses
--               Broadcast and Leader; Controller/System interleaves that loop and the threads, turn
--               by turn.
--   Network     controller/server.c and controller/balancer.c together: both starts, the
--               steps of Controller/System, the messages on the connection to the balancer, the
--               tables of Balancer/Vms, and the client threads, which use them by
--               `get_current_socket`. A `recv` that fails or gives nothing handles the last message
--               again, as the code does.
--   Predictions controller/ml_model.c: the linear models that `communication_thread` uses; the
--               memory of the struct that they fill in part is an argument.
--   Client      controller/client.c: the arguments, `connect_to_server`, `get_features` and the loop
--               that sends datapoints and obeys commands. Client/Handshake runs the handshake of the
--               client against that of `accept_new_client`.
--   Datapoints  model_build/list.c: the linked list of datapoints, its nodes in a heap. `rounds`
--               bounds the search of `insertNext` and `deleteNode`; one round for each node is enough.
--   Aggregation model_build/aggregate.c: Aggregation/Database is `read_db_file`, which reads the lines
--               that the client writes; Aggregation has `aggregate`, a fold over the datapoints of
--               each run; Aggregation/Program is `write_aggregated_file` and `main`, and
--               Aggregation/Columns a reader of its output. The lists that the program builds by
--               `insertRear` are lists here; Datapoints/Runs has how it links them.
--   Common      Shared names, Boolean tests, lists, families indexed by numbers, integers, texts, and
--               the conversions of `sprintf` and `sscanf`.
--   Tests       The theorems at concrete inputs.
--
-- State is a record that each operation takes and returns. An access outside an array, a use of
-- freed memory and the end of the process are `none` or a constructor `fault`; a call that does not
-- return is `none` or `blocked`, as each file says. Numbers are unbounded where the code's bounds are
-- not reached, and words, `int` sizes and conversions are written out where they are. Loops over
-- tables recur on the number of rounds left, which is the loop's own bound, so no fuel is chosen.
-- What `malloc` finds in memory, what `realloc` does, what `select`, the sockets, the name service,
-- `getifaddrs`, /proc and the clock return are parameters. A `float` or `double` is of an abstract type
-- with the operations that the code uses, in a record for each program; the laws that a theorem needs
-- of them are its hypotheses (`IsReal`, `AreFormats`). An `int` of a datapoint is its bit
-- pattern of 32 bits.
--
-- Taken for granted: a message arrives whole; where it is not said otherwise `malloc` and `realloc`
-- give memory; the doubled sizes of tables, the time differences and the datapoints of one window are
-- in the range of their types. `append_buffer` has its `realloc` and its `int` sizes written out.
--
-- Not modelled: `setnonblocking`, which only calls the system; addresses that are longer than the
-- array they are copied to; utilities (load generators that never give a result); and a third-party
-- Lasso toolbox. A turn of a thread of the controller is one step: what happens when two of them change
-- the VM table at the same time is not modelled.
pub mod Aggregation
pub mod Atomic
pub mod Balancer
pub mod Broadcast
pub mod Client
pub mod Common
pub mod Controller
pub mod Datapoints
pub mod Leader
pub mod Network
pub mod Predictions
pub mod Sockets
pub mod Tests
pub mod Thread
