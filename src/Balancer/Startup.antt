-- ===== src/Balancer/Startup.antt =====
-- controller/balancer.c: `main` up to its loop over `accept`. It connects to the controller, starts
-- `controller_thread`, and then listens for clients. What the system calls do is input.
use std.Path.{subst}
use a2pm.Common.{
  sym, ap, ◌∙◌, inl, inr, arith, Bool-cases, Option-cases, ℕ, ◌≡◌, Bool, true, false, Option, none,
  some, List, [], ◌∷◌, if◌then◌else◌,
}
use a2pm.Common.Int.{ℤ, low_16}
use a2pm.Sockets.{atoport}
use a2pm.Balancer.Vms.{Group, create_system_image}
use a2pm.Balancer.Handoff.{ArgThread, Handoff, accepting, Reach, start}

-- What the system does in `main`. `getservbyname` looks up the text of the argument; `service` is the
-- `int` that the pointer to that text is cast to.
pub record Machine : Type 0 where
  pub controller_socket : Option ℕ
  pub connects : Bool
  pub client_socket : Option ℕ
  pub getservbyname : ℤ → Option ℕ
  pub service : ℤ
  pub binds : Bool
  pub memory : ArgThread

-- The state in which `main` begins to accept clients. `controller_thread` runs with `sockfd_controller`,
-- and its tables are those that `main` has made before; `sin_port` is in network order.
pub record Running : Type 0 where
  pub sockfd_controller : ℕ
  pub tables : List Group
  pub sock : ℕ
  pub sin_port : ℕ
  pub handoff : Handoff

-- Behind the connection to the controller. `port` is a `short`, and an unknown service is not told
-- from a port.
unfoldable pub listen_for_clients : (sockfd_controller : ℕ) → Machine → Option Running
listen_for_clients sockfd_controller m = elim m.client_socket [
  | none ↦ none
  | some sock ↦
      if m.binds
      then some (record {
        sockfd_controller = sockfd_controller;
        tables = create_system_image;
        sock = sock;
        sin_port = low_16 (atoport m.getservbyname m.service);
        handoff = record {
          mutex = false;
          vm_client = m.memory;
          at = accepting;
          fresh = 0;
          copied = [];
        };
      })
      else none
]

-- `main` without the name of the program; `none` is the end of the process. The texts of the arguments
-- only reach the system.
unfoldable pub start_balancer : List (List ℕ) → Machine → Option Running
unfolding listen_for_clients
start_balancer (service_name ∷ ip_controller ∷ port_controller ∷ []) m = elim m.controller_socket [
  | none ↦ none
  | some fd ↦ if m.connects then listen_for_clients fd m else none
]
start_balancer arguments m = none

running_inj : {r r' : Running} → some r ≡ some r' → r ≡ r'
running_inj e = cc

listen_for_clients-Reach :
    (fd : ℕ) (m : Machine) (r : Running)
    → listen_for_clients fd m ≡ some r
    → (r.sockfd_controller ≡ fd) × (r.tables ≡ create_system_image) × Reach [] [] r.handoff
unfolding listen_for_clients
listen_for_clients-Reach fd m r e = elim (Option-cases m.client_socket) [
  | inl f ↦
      let wrong : none ≡ some r = rw (f, listen_for_clients) at e in absurd (ground (arith, wrong))
  | inr (sock, f) ↦ elim (Bool-cases m.binds) [
    | inr g ↦
        let wrong : none ≡ some r = rw (f, g, listen_for_clients) at e in
        absurd (ground (arith, wrong))
    | inl g ↦
        let made : Running = record {
          sockfd_controller = fd;
          tables = create_system_image;
          sock = sock;
          sin_port = low_16 (atoport m.getservbyname m.service);
          handoff = record {
            mutex = false;
            vm_client = m.memory;
            at = accepting;
            fresh = 0;
            copied = [];
          };
        } in
        let read : some made ≡ some r = rw (f, g, listen_for_clients) at e in
        let same : made ≡ r = running_inj read in
        (
          sym (ap (λ x. x.sockfd_controller) same),
          sym (ap (λ x. x.tables) same),
          subst (λ x. Reach [] [] x.handoff) same (start m.memory),
        )
  ]
]

-- When `main` comes to its loop, it is connected to the controller; the tables are those of
-- `create_system_image`, and no client waits for the struct that threads are given.
pub start_balancer-Reach :
    (arguments : List (List ℕ)) (m : Machine) (r : Running)
    → start_balancer arguments m ≡ some r
    → (m.controller_socket ≡ some r.sockfd_controller)
      × (m.connects ≡ true)
      × (r.tables ≡ create_system_image)
      × Reach [] [] r.handoff
unfolding start_balancer
start_balancer-Reach [] m r e = absurd (ground (arith, e))
start_balancer-Reach (service ∷ []) m r e = absurd (ground (arith, e))
start_balancer-Reach (service ∷ ip ∷ []) m r e = absurd (ground (arith, e))
start_balancer-Reach (service ∷ ip ∷ port ∷ x ∷ xs) m r e = absurd (ground (arith, e))
start_balancer-Reach (service ∷ ip ∷ port ∷ []) m r e = elim (Option-cases m.controller_socket) [
  | inl f ↦
      let wrong : none ≡ some r = rw (f, start_balancer) at e in absurd (ground (arith, wrong))
  | inr (fd, f) ↦ elim (Bool-cases m.connects) [
    | inr g ↦
        let wrong : none ≡ some r = rw (f, g, start_balancer) at e in absurd (ground (arith, wrong))
    | inl g ↦
        let on : listen_for_clients fd m ≡ some r = rw (f, g, start_balancer) at e in
        let (its_fd, tables, reach) = listen_for_clients-Reach fd m r on in
        (f ∙ ap (λ x. some x) (sym its_fd), g, tables, reach)
  ]
]
