-- ===== src/Controller/Startup/Listening.antt =====
-- The start of `main` behind `start_server`: the other controllers and the load balancer.
use a2pm.Common.{
  ℕ, ◌≡◌, refl, ap, sym, ◌∙◌, inl, inr, arith, Bool, true, false, Option, none, some, List, [],
  Bool-cases, Option-cases, length,
}
use a2pm.Common.Int.{ℤ, pos, ltb_ℤ}
use a2pm.Sockets.Connection.{SocketType, NameService}
use a2pm.Broadcast.{Bus}
use a2pm.Broadcast.Startup.{Line, Initialized, exited, stuck, crashed, ready, initialize_broadcast}
use a2pm.Broadcast.Startup.Controllers.{initialize_broadcast-slots}
use a2pm.Leader.{Leader, initialize_leader}
use a2pm.Controller.Accept.{initial}
use a2pm.Controller.Startup.{
  Listener, accept_load_balancer, Machine, Running, ended, loops, fault, running, with_leader,
  with_listeners,
}

leader_counts :
    (now : ℕ) (lines : List Line) (leader : Leader)
    → initialize_leader now (some lines) ≡ some leader
    → leader.controllers ≡ length lines
unfolding initialize_leader
leader_counts now lines leader e = ground (arith, e)

module _ (names : NameService) (getservbyname : SocketType → ℤ → Option ℕ) where
  bus_slots :
      (listens : Bool) (lines : Option (List Line)) (bus : Bus)
      → initialize_broadcast names getservbyname listens lines ≡ ready bus
      → (known : List Line) × (lines ≡ some known) × (bus.last_controller_socket ≡ length known)
  unfolding initialize_broadcast
  bus_slots listens none bus f = absurd (ground (arith, f))
  bus_slots false (some lines) bus f = absurd (ground (arith, f))
  bus_slots true (some lines) bus f =
      (lines, refl, (initialize_broadcast-slots names getservbyname lines bus f).0)

module _ {F R : Type 0} where
  running_inj : {r r' : Running F R} → running r ≡ running r' → r ≡ r'
  running_inj e = cc

  -- The state that `main` has made.
  abbrev pub state :
      (listener balancer_listener : Listener) (ml_model : ℤ)
      → Bus
      → Leader
      → (balancer : Option ℕ) → Machine F R
      → Running F R
  state listener balancer_listener ml_model bus leader balancer m = record {
    listener = listener;
    balancer_listener = balancer_listener;
    ml_model = ml_model;
    bus = bus;
    leader = leader;
    balancer = balancer;
    system = record { server = initial m.memory m.rates m.zeroed; threads = [] };
  }

  -- The load balancer has connected, and its thread runs.
  pub record IsBalanced (m : Machine F R) (balancer : Option ℕ) : Type 0 where
    pub fd : ℕ
    pub accepted : m.accepted ≡ some fd
    pub created : m.created ≡ true
    pub thread : balancer ≡ some fd

  -- Both halves of the start have counted the lines of the file of controllers.
  pub record IsKnown (m : Machine F R) (r : Running F R) : Type 0 where
    pub lines : List Line
    pub file : m.controllers ≡ some lines
    pub slots : r.bus.last_controller_socket ≡ length lines
    pub counted : r.leader.controllers ≡ length lines

  -- What the state has, once both sockets listen.
  pub record IsListening (l b : Listener) (model : ℤ) (m : Machine F R) (r : Running F R)
      : Type 0 where
    pub known : IsKnown m r
    pub balanced : IsBalanced m r.balancer
    pub made : r ≡ state l b model r.bus r.leader r.balancer m

module _ {F R : Type 0} (names : NameService) (getservbyname : SocketType → ℤ → Option ℕ) where
  with_leader-state :
      (l b : Listener) (model : ℤ) (bus : Bus) (leader : Leader) (m : Machine F R) (r : Running F R)
      → with_leader l b model bus leader m ≡ running r
      → IsBalanced m r.balancer × (r ≡ state l b model bus leader r.balancer m)
  unfolding with_leader accept_load_balancer
  with_leader-state l b model bus leader m r e = elim (Option-cases m.accepted) [
    | inl f ↦
        let wrong : ended ≡ running r = rw (f, with_leader, accept_load_balancer) at e in
        absurd (ground (arith, wrong))
    | inr (fd, f) ↦ elim (Bool-cases m.created) [
      | inr g ↦
          let wrong : ended ≡ running r = rw (f, g, with_leader, accept_load_balancer) at e in
          absurd (ground (arith, wrong))
      | inl g ↦ elim (Bool-cases (ltb_ℤ m.left (pos 0))) [
        | inl k ↦
            let wrong : ended ≡ running r = rw (f, g, k, with_leader, accept_load_balancer) at e in
            absurd (ground (arith, wrong))
        | inr k ↦
            let same : running (state l b model bus leader (some fd) m) ≡ running r =
              rw (f, g, k, with_leader, accept_load_balancer) at e in
            let r_is : r ≡ state l b model bus leader (some fd) m = sym (running_inj same) in
            let thread : r.balancer ≡ some fd = ap (λ x. x.balancer) r_is in
            (
              record { fd = fd; accepted = f; created = g; thread = thread },
              r_is ∙ ap (λ x. state l b model bus leader x m) (sym thread),
            )
      ]
    ]
  ]

  started_bus :
      (l b : Listener) (model : ℤ) (m : Machine F R) (r : Running F R) (i : Initialized)
      → initialize_broadcast names getservbyname m.udp_listens m.controllers ≡ i
      → with_listeners names getservbyname l b model m ≡ running r
      → (bus : Bus) × (initialize_broadcast names getservbyname m.udp_listens m.controllers
          ≡ ready bus)
  unfolding with_listeners
  started_bus l b model m r exited f e =
      let wrong : ended ≡ running r = rw (f, with_listeners) at e in absurd (ground (arith, wrong))
  started_bus l b model m r stuck f e =
      let wrong : loops ≡ running r = rw (f, with_listeners) at e in absurd (ground (arith, wrong))
  started_bus l b model m r crashed f e =
      let wrong : fault ≡ running r = rw (f, with_listeners) at e in absurd (ground (arith, wrong))
  started_bus l b model m r (ready bus) f e = (bus, f)

  pub with_listeners-IsListening :
      (l b : Listener) (model : ℤ) (m : Machine F R) (r : Running F R)
      → with_listeners names getservbyname l b model m ≡ running r
      → IsListening l b model m r
  unfolding with_listeners initialize_leader
  with_listeners-IsListening l b model m r e =
      let broadcast = initialize_broadcast names getservbyname m.udp_listens m.controllers in
      let (bus, f) = started_bus l b model m r broadcast refl e in
      let (lines, file, slots) = bus_slots names getservbyname m.udp_listens m.controllers bus f in
      elim (Option-cases (initialize_leader m.now m.controllers)) [
        | inl g ↦
            let wrong : ended ≡ running r = rw (f, g, with_listeners) at e in
            absurd (ground (arith, wrong))
        | inr (leader, g) ↦
            let on : with_leader l b model bus leader m ≡ running r =
              rw (f, g, with_listeners) at e in
            let counts : leader.controllers ≡ length lines =
              leader_counts m.now lines leader
                (sym (ap (λ c. initialize_leader m.now c) file) ∙ g) in
            let (balanced, made) = with_leader-state l b model bus leader m r on in
            let its_bus : r.bus ≡ bus = ap (λ x. x.bus) made in
            let its_leader : r.leader ≡ leader = ap (λ x. x.leader) made in
            record {
              known = record {
                lines = lines;
                file = file;
                slots = ap (λ x. x.last_controller_socket) its_bus ∙ slots;
                counted = ap (λ x. x.controllers) its_leader ∙ counts;
              };
              balanced = balanced;
              made =
                  made
                  ∙ (ap (λ x. state l b model x leader r.balancer m) (sym its_bus)
                      ∙ ap (λ x. state l b model r.bus x r.balancer m) (sym its_leader));
            }
      ]
