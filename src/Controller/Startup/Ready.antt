-- ===== src/Controller/Startup/Ready.antt =====
-- What holds when `main` begins to accept VMs.
use std.Path.{subst}
use a2pm.Common.{
  ℕ, ◌≡◌, ◌≢◌, refl, length, ap, sym, ◌∙◌, inl, inr, arith, true, false, Option, none, some, List,
  [], ◌∷◌, ◌&&◌, Bool-cases, Option-cases,
}
use a2pm.Common.Int.{ℤ, pos, ltb_ℤ, eqb_ℤ}
use a2pm.Sockets.Connection.{SocketType, NameService}
use a2pm.Broadcast.{Bus}
use a2pm.Broadcast.Startup.{Line, ready, initialize_broadcast}
use a2pm.Leader.{Leader, minus_one, initialize_leader}
use a2pm.Controller.Table.{AreWellFormed}
use a2pm.Controller.Communication.{Models}
use a2pm.Controller.Rates.{Average}
use a2pm.Controller.Accept.{initial}
use a2pm.Controller.System.{System, Reach, system-IsSound}
use a2pm.Controller.Startup.{
  atoi, port_of, Listen, Listener, start_server, Machine, Running, ended, running, with_listeners,
  start_controller, with_leader, accept_load_balancer,
}
use a2pm.Controller.Startup.Listening.{state, IsBalanced, IsKnown, with_listeners-IsListening}

eqb_ℤ-false : (a b : ℤ) → eqb_ℤ a b ≡ false → a ≢ b
eqb_ℤ-false a b f e = let g : eqb_ℤ b b ≡ false = rw e at f in ground (arith, g)

start_server-some :
    (call : Listen) (port : ℤ) (l : Listener)
    → start_server call port ≡ some l
    → (call.socket ≡ some l.sockfd)
      × (l.port ≡ port_of port)
      × (call.binds ≡ true)
      × (call.listens ≡ true)
unfolding start_server
start_server-some call port l e = elim (Option-cases call.socket) [
  | inl f ↦ let wrong : none ≡ some l = rw (f, start_server) at e in absurd (ground (arith, wrong))
  | inr (fd, f) ↦ elim (Bool-cases (call.binds && call.listens)) [
    | inr g ↦
        let wrong : none ≡ some l = rw (f, g, start_server) at e in absurd (ground (arith, wrong))
    | inl g ↦
        let same : some (record { sockfd = fd; port = port_of port }) ≡ some l =
          rw (f, g, start_server) at e in
        let at : record { sockfd = fd; port = port_of port } ≡ l = cc in
        (
          f ∙ ap (λ k. some k.sockfd) at,
          sym (ap (λ k. k.port) at),
          ground (arith, g),
          ground (arith, g),
        )
  ]
]

-- A socket with this descriptor that can be bound and listens.
abbrev pub listens_on : ℕ → Listen
listens_on fd = record { socket = some fd; binds = true; listens = true }

-- What `initialize_leader` makes of the lines of the file.
abbrev counting : (now : ℕ) → List Line → Leader
counting now lines = record {
  controllers = length lines;
  leader_socket = minus_one;
  am_i_leader = false;
  heartbeat = now;
  leader_propose_timer = 0;
  agreement_running = false;
  leader_proposals = λ _. pos 0;
  leader_proposals_sockets = λ _. pos 0;
  last_proposal = 0;
}

module _ {F R : Type 0} where
  -- What the arguments and the two calls of `start_server` give.
  pub record IsOpened (vm_port balancer_port model : List ℕ) (m : Machine F R) (r : Running F R)
      : Type 0 where
    pub distinct : atoi vm_port ≢ atoi balancer_port
    pub vm_socket : m.vm_server.socket ≡ some r.listener.sockfd
    pub vm_binds : m.vm_server.binds ≡ true
    pub vm_listens : m.vm_server.listens ≡ true
    pub vm_bound : r.listener.port ≡ port_of (atoi vm_port)
    pub balancer_socket : m.balancer_server.socket ≡ some r.balancer_listener.sockfd
    pub balancer_binds : m.balancer_server.binds ≡ true
    pub balancer_listens : m.balancer_server.listens ≡ true
    pub balancer_bound : r.balancer_listener.port ≡ port_of (atoi balancer_port)
    pub chosen : r.ml_model ≡ atoi model

  abbrev pub IsReady : List (List ℕ) → Machine F R → Running F R → Type 0
  IsReady (vm_port ∷ balancer_port ∷ model ∷ []) m r =
      IsOpened vm_port balancer_port model m r × IsKnown m r × IsBalanced m r.balancer
  IsReady arguments m r = ⊥

module _ {F R : Type 0} (names : NameService) (getservbyname : SocketType → ℤ → Option ℕ) where
  pub start_controller-IsListening :
      (arguments : List (List ℕ)) (m : Machine F R) (r : Running F R)
      → start_controller names getservbyname arguments m ≡ running r
      → IsReady arguments m r
        × (r.system ≡ record { server = initial m.memory m.rates m.zeroed; threads = [] })
  unfolding start_controller
  start_controller-IsListening [] m r e = absurd (ground (arith, e))
  start_controller-IsListening (p ∷ []) m r e = absurd (ground (arith, e))
  start_controller-IsListening (p ∷ q ∷ []) m r e = absurd (ground (arith, e))
  start_controller-IsListening (p ∷ q ∷ model ∷ x ∷ xs) m r e = absurd (ground (arith, e))
  start_controller-IsListening (p ∷ q ∷ model ∷ []) m r e =
      elim (Bool-cases (eqb_ℤ (atoi p) (atoi q))) [
        | inl f ↦
            let wrong : ended ≡ running r = rw (f, start_controller) at e in
            absurd (ground (arith, wrong))
        | inr f ↦ elim (Option-cases (start_server m.vm_server (atoi p))) [
          | inl g ↦
              let wrong : ended ≡ running r = rw (f, g, start_controller) at e in
              absurd (ground (arith, wrong))
          | inr (l, g) ↦ elim (Option-cases (start_server m.balancer_server (atoi q))) [
            | inl k ↦
                let wrong : ended ≡ running r = rw (f, g, k, start_controller) at e in
                absurd (ground (arith, wrong))
            | inr (b, k) ↦
                let on : with_listeners names getservbyname l b (atoi model) m ≡ running r =
                  rw (f, g, k, start_controller) at e in
                let w = with_listeners-IsListening names getservbyname l b (atoi model) m r on in
                let (vm_socket, vm_port, vm_binds, vm_listens) =
                  start_server-some m.vm_server (atoi p) l g in
                let (balancer_socket, balancer_port, balancer_binds, balancer_listens) =
                  start_server-some m.balancer_server (atoi q) b k in
                let its_l : r.listener ≡ l = ap (λ x. x.listener) w.made in
                let its_b : r.balancer_listener ≡ b = ap (λ x. x.balancer_listener) w.made in
                (
                  (
                    record {
                      distinct = eqb_ℤ-false (atoi p) (atoi q) f;
                      vm_socket = vm_socket ∙ ap (λ x. some x.sockfd) (sym its_l);
                      vm_binds = vm_binds;
                      vm_listens = vm_listens;
                      vm_bound = ap (λ x. x.port) its_l ∙ vm_port;
                      balancer_socket = balancer_socket ∙ ap (λ x. some x.sockfd) (sym its_b);
                      balancer_binds = balancer_binds;
                      balancer_listens = balancer_listens;
                      balancer_bound = ap (λ x. x.port) its_b ∙ balancer_port;
                      chosen = ap (λ x. x.ml_model) w.made;
                    },
                    w.known,
                    w.balanced,
                  ),
                  ap (λ x. x.system) w.made,
                )
          ]
        ]
      ]

  -- What `main` needs to come to its loop, with what Broadcast makes of the file of controllers.
  pub record CanStart (vm_port balancer_port : List ℕ) (m : Machine F R) (bus : Bus) : Type 0 where
    pub differs : eqb_ℤ (atoi vm_port) (atoi balancer_port) ≡ false
    pub vm_fd : ℕ
    pub vm_server : m.vm_server ≡ listens_on vm_fd
    pub balancer_fd : ℕ
    pub balancer_server : m.balancer_server ≡ listens_on balancer_fd
    pub lines : List Line
    pub file : m.controllers ≡ some lines
    pub connects : initialize_broadcast names getservbyname m.udp_listens m.controllers ≡ ready bus
    pub fd : ℕ
    pub accepted : m.accepted ≡ some fd
    pub created : m.created ≡ true
    pub left : ltb_ℤ m.left (pos 0) ≡ false

  start_controller-starts :
      (p q model : List ℕ) (m : Machine F R) (bus : Bus)
      → CanStart p q m bus
      → (r : Running F R) × (start_controller names getservbyname (p ∷ q ∷ model ∷ []) m
          ≡ running r)
  unfolding start_controller start_server with_listeners with_leader accept_load_balancer
      initialize_leader
  start_controller-starts p q model m bus c =
      let l : Listener = record { sockfd = c.vm_fd; port = port_of (atoi p) } in
      let b : Listener = record { sockfd = c.balancer_fd; port = port_of (atoi q) } in
      let leads : initialize_leader m.now m.controllers ≡ some (counting m.now c.lines) =
        rw (c.file, initialize_leader) refl in
      let first : start_server m.vm_server (atoi p) ≡ some l =
        ap (λ call. start_server call (atoi p)) c.vm_server in
      let second : start_server m.balancer_server (atoi q) ≡ some b =
        ap (λ call. start_server call (atoi q)) c.balancer_server in
      let last : with_leader l b (atoi model) bus (counting m.now c.lines) m
          ≡ running (state l b (atoi model) bus (counting m.now c.lines) (some c.fd) m) =
        rw (with_leader, c.accepted, c.created, accept_load_balancer, c.left) refl in
      (
        state l b (atoi model) bus (counting m.now c.lines) (some c.fd) m,
        rw (start_controller, c.differs, first, second, with_listeners, c.connects, leads) last,
      )

  -- `main` comes to its loop whenever there are three arguments with two different port numbers, both
  -- sockets are made, bound and listening, Broadcast connects to all controllers of the file, and the
  -- load balancer is accepted, its thread is created, and what `accept_load_balancer` leaves as its
  -- result is not negative. When it comes there, the arguments were such; both sockets are bound to
  -- the low 16 bits of the numbers and listen; Broadcast has a slot and Leader a count of one for each
  -- line of the file; and the thread of the load balancer has its socket. From the state that it
  -- starts with, the VM table stays well formed.
  pub start_controller-IsReady :
      (ml : Models F R) (parse : List ℕ → F) ⦃a : Average R⦄ (m : Machine F R)
      → ((p q model : List ℕ) (bus : Bus)
          → CanStart p q m bus
          → (r : Running F R) × (start_controller names getservbyname (p ∷ q ∷ model ∷ []) m
              ≡ running r))
        × ((arguments : List (List ℕ)) (r : Running F R)
            → start_controller names getservbyname arguments m ≡ running r
            → IsReady arguments m r
              × ((s : System F R) → Reach ml parse r.system s → AreWellFormed s.server))
  start_controller-IsReady ml parse m = (
    λ p q model bus. start_controller-starts p q model m bus,
    λ arguments r e.
        let (is_ready, begins) = start_controller-IsListening arguments m r e in
        (
          is_ready,
          λ s reach.
              (system-IsSound ml parse m.memory m.rates m.zeroed s
                (subst (λ from. Reach ml parse from s) begins reach)).0,
        ),
  )
