-- ===== src/Controller/Accept/Handshake.antt =====
-- The handshake of `accept_new_client`: only a service that exists gets through.
use a2pm.Common.{
  ℕ, ◌≤◌, ◌<◌, ◌≡◌, sym, inl, inr, arith, Option, none, some, List, [], ◌∷◌, replicate, suc, zero,
  ltb, ltb→lt, if◌then◌else◌, Bool-cases,
}
use a2pm.Balancer.Vms.{number_groups}
use a2pm.Controller.{VmService}
use a2pm.Controller.Accept.{Answer, failed, disconnected, service_info, handshake}

let_through :
    (s s' : VmService) (rest : Option VmService)
    → (rest ≡ some s' → s'.service < number_groups)
    → (if ltb s.service number_groups then some s else rest) ≡ some s'
    → s'.service < number_groups
let_through s s' rest k h = elim (Bool-cases (ltb s.service number_groups)) [
  | inl known ↦
      let e : some s ≡ some s' = rw known at h in
      let same : s ≡ s' = cc in rw (sym same) (ltb→lt _ _ known)
  | inr unknown ↦ let later : rest ≡ some s' = rw unknown at h in k later
]

-- A service that the handshake lets through is one of the three, whatever was received before.
pub handshake-service :
    (s s' : VmService) (answers : List Answer)
    → handshake s answers ≡ some s'
    → s'.service < number_groups
unfolding handshake
handshake-service s s' [] h = let_through s s' none (λ e. ground (arith, e)) h
handshake-service s s' (failed ∷ answers) h =
    let_through s s' (handshake s answers) (handshake-service s s' answers) h
handshake-service s s' (disconnected ∷ answers) h =
    let_through s s' (handshake s answers) (handshake-service s s' answers) h
handshake-service s s' (service_info info ∷ answers) h =
    let_through s s' (handshake info answers) (handshake-service info s' answers) h

-- After a service that does not exist, a VM that has gone keeps the loop going, however often `recv`
-- reports it.
pub handshake-gone :
    (s : VmService) (n : ℕ)
    → number_groups ≤ s.service
    → handshake s (replicate n disconnected) ≡ none
unfolding handshake
handshake-gone s zero h = ground arith
handshake-gone s (suc n) h = ground (arith, handshake-gone s n h)
