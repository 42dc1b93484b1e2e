-- ===== src/Controller/Communication.antt =====
-- controller/server.c: `communication_thread`, which listens to one VM.
pub mod Addressed
pub mod Features
use Prim.Native.String.{String}
use a2pm.Common.{
  ℕ, zero, suc, ◌+◌, ◌-◌, ◌*◌, Bool, true, false, Option, none, some, List, [], ◌∷◌, ltb, leb, ◌==◌,
  if◌then◌else◌,
}
use a2pm.Common.Family.{update}
use a2pm.Sockets.{htons}
use a2pm.Balancer.Vms.{VirtualMachine, Operation, delete, rej}
use a2pm.Controller.{
  VmState, active, VmService, VmData, Group, Server, is_active, manage_disconnected_vms,
  switch_active_machine, announce,
}

-- ml_models.c with the model that `ml_model` selects: 1 over the predicted mean time to fail, and
-- whether the predicted time to crash is below `TTC_THRESHOLD`.
pub record Models (Features Rate : Type 0) : Type 0 where
  pub rejection_rate : (last current init : Features) → Rate
  pub crashes_soon : (last current : Features) → Bool

-- What `recv` does.
pub data Inbound : Type 0 where
  failed disconnected : Inbound
  received : List ℕ → Inbound

-- The locals of the thread. `current_features` is never written, see `get_feature`.
pub record Local (Features : Type 0) : Type 0 where
  pub vm : VmData Features
  pub current_features : Features
  pub init_features : Features
  pub flag_init_features : Bool

-- A fault, a wait for the mutex of the message box, the end of the thread with the socket it closes,
-- or the next turn.
pub data Turn (Features Rate : Type 0) : Type 0 where
  fault waiting : Turn Features Rate
  finished : Server Features Rate → (closed : ℕ) → Turn Features Rate
  going : Local Features → Server Features Rate → Turn Features Rate

-- The message on a VM: the port is always 8080, in network order.
abbrev pub message : {Features : Type 0} → Operation → VmData Features → VirtualMachine
message op vm = record {
  ip = vm.ip_address;
  port = htons 8080;
  service = vm.service_info.service;
  op = op;
}

-- `sscanf` fills the parameter, which is a copy of the caller's struct; the caller keeps its own.
unfoldable pub get_feature :
    {Features : Type 0}
    → (parse : List ℕ → Features) → (features : List ℕ) (current_features : Features) → Features
get_feature parse features current_features = let copy = parse features in current_features

module _ {Features Rate : Type 0} where
  -- A store to `rej_rate`, whose entries take 4 bytes each.
  unfoldable pub push_rate : Rate → Server Features Rate → Option (Server Features Rate)
  push_rate rate s =
      if leb ((s.index_rej_rate + 1) * 4) s.rej_bytes
      then some (record s {
        rej_rate = update s.rej_rate s.index_rej_rate rate;
        index_rej_rate = s.index_rej_rate + 1;
      })
      else none

  -- The end of the thread.
  unfoldable pub finish : Local Features → Server Features Rate → Turn Features Rate
  finish l s = elim (announce (message delete l.vm) s) [
    | none ↦ waiting
    | some s' ↦ finished (manage_disconnected_vms l.vm s') l.vm.socket
  ]

  -- The features are stored and the CONTINUE command is sent.
  keep_on : (sent : Bool) → Local Features → Server Features Rate → Turn Features Rate
  unfolding finish
  keep_on sent l s =
      let vm = record l.vm {
        last_features = l.current_features;
        last_system_features_stored = true;
      } in
      let l' = record l { vm = vm } in if sent then going l' s else finish l' s

  -- The VM is told to rejuvenate and the balancer not to use it.
  replace : (sent : Bool) → Local Features → Server Features Rate → Turn Features Rate
  replace sent l s = elim (announce (message rej l.vm) (switch_active_machine sent l.vm s)) [
    | none ↦ waiting
    | some s' ↦ going l s'
  ]

  -- Behind the features.
  judge :
      Models Features Rate
      → (sent : Bool) → Local Features
      → Server Features Rate
      → Turn Features Rate
  unfolding push_rate keep_on replace
  judge ml sent l s =
      if l.vm.last_system_features_stored
      then (elim (push_rate
          (ml.rejection_rate l.vm.last_features l.current_features l.init_features) s) [
            | none ↦ fault
            | some s' ↦
                if ml.crashes_soon l.vm.last_features l.current_features
                then replace sent l s'
                else keep_on sent l s'
          ])
      else keep_on sent l s

  -- One turn of the loop. A thread whose VM is not active turns idly. `sent` says whether the command
  -- to the VM can be sent.
  unfoldable pub communication_turn :
      Models Features Rate
      → (parse : List ℕ → Features) → Inbound
      → (sent : Bool) → Local Features
      → Server Features Rate
      → Turn Features Rate
  unfolding get_feature finish judge
  communication_turn ml parse failed sent l s =
      if is_active l.vm.service_info.state then finish l s else going l s
  communication_turn ml parse disconnected sent l s =
      if is_active l.vm.service_info.state then finish l s else going l s
  communication_turn ml parse (received recv_buff) sent l s =
      let current = get_feature parse recv_buff l.current_features in
      let init = if l.flag_init_features then l.init_features else current in
      let l' = record l {
        current_features = current;
        init_features = init;
        flag_init_features = true;
      } in
      if is_active l.vm.service_info.state then judge ml sent l' s else going l s

-- The start of the thread: a copy of the slot, and locals with what the memory holds.
abbrev pub start : {Features : Type 0} → VmData Features → (memory : Features) → Local Features
start vm memory = record {
  vm = vm;
  current_features = memory;
  init_features = memory;
  flag_init_features = false;
}
