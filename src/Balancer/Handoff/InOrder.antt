-- ===== src/Balancer/Handoff/InOrder.antt =====
-- Every thread of the balancer gets the client for which it was created.
use a2pm.Common.{
  ℕ, suc, ◌+◌, ◌≡◌, ◌≢◌, refl, sym, ap, ◌∙◌, arith, true, false, List, [], ◌∷◌, ◌++◌, ◌⊎◌, inl, inr,
}
use a2pm.Balancer.Handoff.{
  ArgThread, Main, accepting, locked, has_socket, has_ip, filled, Handoff, Reach, start, locks,
  writes_socket, writes_ip, writes_port, creates, cannot_create, copies, unlocks,
}

-- What the struct holds while `main` fills it.
IsFilling : Main → ArgThread → Type 0
IsFilling accepting slot = ⊥
IsFilling (locked client) slot = Unit {0}
IsFilling (has_socket client) slot = slot.socket ≡ client.socket
IsFilling (has_ip client) slot =
    (slot.socket ≡ client.socket) × (slot.ip_address ≡ client.ip_address)
IsFilling (filled client) slot = slot ≡ client

-- The mutex is free; or `main` holds it; or it is held for the one thread that was created last,
-- before its copy or behind it.
data Phase (created served : List ArgThread) (s : Handoff) : Type 0 where
  free :
      s.mutex ≡ false
      → s.at ≡ accepting
      → s.fresh ≡ 0
      → s.copied ≡ []
      → created ≡ served
      → Phase created served s
  filling :
      s.mutex ≡ true
      → IsFilling s.at s.vm_client
      → s.fresh ≡ 0
      → s.copied ≡ []
      → created ≡ served
      → Phase created served s
  handed :
      s.mutex ≡ true
      → s.at ≡ accepting
      → s.fresh ≡ 1
      → s.copied ≡ []
      → created ≡ served ++ s.vm_client ∷ []
      → Phase created served s
  taken :
      (arg : ArgThread)
      → s.mutex ≡ true
      → s.at ≡ accepting
      → s.fresh ≡ 0
      → s.copied ≡ arg ∷ []
      → created ≡ served ++ arg ∷ []
      → Phase created served s

Phase-locks :
    (client : ArgThread) {created served : List ArgThread} {s : Handoff}
    → Phase created served s
    → s.at ≡ accepting
    → s.mutex ≡ false
    → Phase created served (record s { mutex = true; at = locked client })
unfolding IsFilling
Phase-locks client (free m a f c o) e l = filling refl tt f c o
Phase-locks client (filling m a f c o) e l = cc
Phase-locks client (handed m a f c o) e l = cc
Phase-locks client (taken arg m a f c o) e l = cc

Phase-writes_socket :
    (client : ArgThread) {created served : List ArgThread} {s : Handoff}
    → Phase created served s
    → s.at ≡ locked client
    → Phase created served (record s {
      vm_client = record s.vm_client { socket = client.socket };
      at = has_socket client;
    })
unfolding IsFilling
Phase-writes_socket client (free m a f c o) e = cc
Phase-writes_socket client (filling m a f c o) e = filling m refl f c o
Phase-writes_socket client (handed m a f c o) e = cc
Phase-writes_socket client (taken arg m a f c o) e = cc

Phase-writes_ip :
    (client : ArgThread) {created served : List ArgThread} {s : Handoff}
    → Phase created served s
    → s.at ≡ has_socket client
    → Phase created served (record s {
      vm_client = record s.vm_client { ip_address = client.ip_address };
      at = has_ip client;
    })
unfolding IsFilling
Phase-writes_ip client (free m a f c o) e = cc
Phase-writes_ip client {s = s} (filling m a f c o) e =
    let k : IsFilling (has_socket client) s.vm_client = rw e at a in filling m (k, refl) f c o
Phase-writes_ip client (handed m a f c o) e = cc
Phase-writes_ip client (taken arg m a f c o) e = cc

Phase-writes_port :
    (client : ArgThread) {created served : List ArgThread} {s : Handoff}
    → Phase created served s
    → s.at ≡ has_ip client
    → Phase created served
        (record s { vm_client = record s.vm_client { port = client.port }; at = filled client })
unfolding IsFilling
Phase-writes_port client (free m a f c o) e = cc
Phase-writes_port client {s = s} (filling m a f c o) e =
    let k : IsFilling (has_ip client) s.vm_client = rw e at a in
    let all : record s.vm_client { port = client.port } ≡ client = ground (arith, k.0, k.1) in
    filling m all f c o
Phase-writes_port client (handed m a f c o) e = cc
Phase-writes_port client (taken arg m a f c o) e = cc

Phase-creates :
    (client : ArgThread) {created served : List ArgThread} {s : Handoff}
    → Phase created served s
    → s.at ≡ filled client
    → Phase (created ++ client ∷ []) served (record s { at = accepting; fresh = s.fresh + 1 })
unfolding IsFilling
Phase-creates client (free m a f c o) e = cc
Phase-creates client {served = served} {s = s} (filling m a f c o) e =
    let k : IsFilling (filled client) s.vm_client = rw e at a in
    handed m refl (omega (arith, f)) c (rw (o, sym k) refl)
Phase-creates client (handed m a f c o) e = cc
Phase-creates client (taken arg m a f c o) e = cc

Phase-cannot_create :
    (client : ArgThread) {created served : List ArgThread} {s : Handoff}
    → Phase created served s
    → s.at ≡ filled client
    → Phase created served (record s { mutex = false; at = accepting })
Phase-cannot_create client (free m a f c o) e = cc
Phase-cannot_create client (filling m a f c o) e = free refl refl f c o
Phase-cannot_create client (handed m a f c o) e = cc
Phase-cannot_create client (taken arg m a f c o) e = cc

Phase-copies :
    (fresh : ℕ) {created served : List ArgThread} {s : Handoff}
    → Phase created served s
    → s.fresh ≡ suc fresh
    → Phase created served (record s { fresh = fresh; copied = s.vm_client ∷ s.copied })
Phase-copies fresh (free m a f c o) e = absurd (omega (arith, e, f))
Phase-copies fresh (filling m a f c o) e = absurd (omega (arith, e, f))
Phase-copies fresh {s = s} (handed m a f c o) e =
    taken s.vm_client m a (omega (arith, e, f)) (ap (λ r. s.vm_client ∷ r) c) o
Phase-copies fresh (taken arg m a f c o) e = absurd (omega (arith, e, f))

nothing_copied : (before after : List ArgThread) (arg : ArgThread) → [] ≢ before ++ arg ∷ after
nothing_copied [] after arg e = cc
nothing_copied (b ∷ before) after arg e = cc

one_copied :
    (x : ArgThread) (before after : List ArgThread) (arg : ArgThread)
    → x ∷ [] ≡ before ++ arg ∷ after
    → (before ++ after ≡ []) × (x ≡ arg)
one_copied x [] after arg e = (cc, cc)
one_copied x (b ∷ before) after arg e =
    let rest : [] ≡ before ++ arg ∷ after = cc in absurd (nothing_copied before after arg rest)

Phase-unlocks :
    (before after : List ArgThread) (arg : ArgThread) {created served : List ArgThread}
    {s : Handoff}
    → Phase created served s
    → s.copied ≡ before ++ arg ∷ after
    → Phase created (served ++ arg ∷ []) (record s { mutex = false; copied = before ++ after })
Phase-unlocks before after arg (free m a f c o) e =
    absurd (nothing_copied before after arg (sym c ∙ e))
Phase-unlocks before after arg (filling m a f c o) e =
    absurd (nothing_copied before after arg (sym c ∙ e))
Phase-unlocks before after arg (handed m a f c o) e =
    absurd (nothing_copied before after arg (sym c ∙ e))
Phase-unlocks before after arg {served = served} (taken x m a f c o) e =
    let (none_left, same) = one_copied x before after arg (sym c ∙ e) in
    free refl a f none_left (o ∙ ap (λ y. served ++ y ∷ []) same)

Reach-Phase :
    {created served : List ArgThread} {s : Handoff}
    → Reach created served s
    → Phase created served s
Reach-Phase (start memory) = free refl refl refl refl refl
Reach-Phase (locks client r e l) = Phase-locks client (Reach-Phase r) e l
Reach-Phase (writes_socket client r e) = Phase-writes_socket client (Reach-Phase r) e
Reach-Phase (writes_ip client r e) = Phase-writes_ip client (Reach-Phase r) e
Reach-Phase (writes_port client r e) = Phase-writes_port client (Reach-Phase r) e
Reach-Phase (creates client r e) = Phase-creates client (Reach-Phase r) e
Reach-Phase (cannot_create client r e) = Phase-cannot_create client (Reach-Phase r) e
Reach-Phase (copies fresh r e) = Phase-copies fresh (Reach-Phase r) e
Reach-Phase (unlocks before after arg r e) = Phase-unlocks before after arg (Reach-Phase r) e

-- In every order of the steps, the copies with which the threads go on are the clients for which they
-- were created, each once and in the order in which they were accepted. At most the last of them is
-- still on its way: in the struct, for the one thread that has not copied it, or in the copy of the
-- one thread that holds the mutex.
pub handoff-in_order :
    {created served : List ArgThread} {s : Handoff}
    → Reach created served s
    → (created ≡ served)
      ⊎ ((client : ArgThread) × (created ≡ served ++ client ∷ [])
          × (((s.fresh ≡ 1) × (s.copied ≡ []) × (s.vm_client ≡ client))
              ⊎ ((s.fresh ≡ 0) × (s.copied ≡ client ∷ []))))
handoff-in_order {s = s} r = elim (Reach-Phase r) [
  | free m a f c o ↦ inl o
  | filling m a f c o ↦ inl o
  | handed m a f c o ↦ inr (s.vm_client, o, inl (f, c, refl))
  | taken arg m a f c o ↦ inr (arg, o, inr (f, c))
]
