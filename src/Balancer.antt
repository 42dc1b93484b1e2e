-- ===== src/Balancer.antt =====
-- controller/balancer.c: the load balancer. `Vms` keeps the connected VMs of each service as the
-- controller announces them, `Clients` chooses a VM for a client, `Relay` passes the bytes on.
pub mod Handoff
pub mod Startup
pub mod Vms
pub mod Clients
pub mod Relay
