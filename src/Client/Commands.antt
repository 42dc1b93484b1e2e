-- ===== src/Client/Commands.antt =====
-- The loop of client.c: when the VM reboots, and what has been sent by then.
use mathlib.Core.List.{append_assoc}
use a2pm.Common.{
  ℕ, ◌≡◌, ◌↔◌, refl, sym, ap, ◌∙◌, inl, inr, Bool, true, false, some, List, [], ◌∷◌, ◌++◌, ◌==◌,
  Bool-cases, Option-cases,
}
use a2pm.Client.{
  buffer_of, rejuvenate, command_of, Turn, Served, stopped, closed, rebooted, going, has_failed,
  obey,
}

-- A turn in which the datapoint is collected and sent and a command comes.
pub record HasCommand (t : Turn) (datapoint : List ℕ) (rejuvenates : Bool) : Type 0 where
  pub collects : t.datapoint ≡ some datapoint
  pub sends : t.is_sent ≡ true
  pub receives : has_failed t.reply ≡ false
  pub command : (command_of (buffer_of t.reply) == rejuvenate) ≡ rejuvenates

-- Turns with other commands, and then one with REJUVENATE; and the datapoints that are sent.
pub data ToReboot : List Turn → List (List ℕ) → Type 0 where
  last :
      {t : Turn} {datapoint : List ℕ} (turns : List Turn)
      → HasCommand t datapoint true
      → ToReboot (t ∷ turns) (datapoint ∷ [])
  calm :
      {t : Turn} {datapoint : List ℕ} {turns : List Turn} {datapoints : List (List ℕ)}
      → HasCommand t datapoint false
      → ToReboot turns datapoints
      → ToReboot (t ∷ turns) (datapoint ∷ datapoints)

obey-reboots :
    {turns : List Turn} {datapoints : List (List ℕ)} (sent : List (List ℕ))
    → ToReboot turns datapoints
    → obey sent turns ≡ rebooted (sent ++ datapoints)
unfolding obey
obey-reboots sent (last turns h) = rw (h.collects, h.sends, h.receives, h.command) refl
obey-reboots sent (calm {t = t} {datapoint = x} {turns = turns} {datapoints = xs} h more) =
    rw (h.collects, h.sends, h.receives, h.command)
      (obey-reboots (sent ++ x ∷ []) more ∙ ap rebooted (append_assoc sent (x ∷ []) xs))

IsRebooted : Served → Type 0
IsRebooted (stopped sent) = ⊥
IsRebooted (closed sent) = ⊥
IsRebooted (rebooted sent) = Unit {0}
IsRebooted (going sent) = ⊥

reboots-obey :
    (turns : List Turn) (sent : List (List ℕ))
    → IsRebooted (obey sent turns)
    → (datapoints : List (List ℕ)) × ToReboot turns datapoints
unfolding obey IsRebooted
reboots-obey [] sent h = absurd h
reboots-obey (t ∷ turns) sent h = elim (Option-cases t.datapoint) [
  | inl e ↦ absurd (rw e at h)
  | inr (x, e) ↦ elim (Bool-cases t.is_sent) [
    | inr f ↦ absurd (rw (e, f) at h)
    | inl f ↦ elim (Bool-cases (has_failed t.reply)) [
      | inl g ↦ absurd (rw (e, f, g) at h)
      | inr g ↦ elim (Bool-cases (command_of (buffer_of t.reply) == rejuvenate)) [
        | inl c ↦
            (x ∷ [], last turns (record { collects = e; sends = f; receives = g; command = c }))
        | inr c ↦
            let (xs, more) = reboots-obey turns (sent ++ x ∷ []) (rw (e, f, g, c) at h) in
            (x ∷ xs, calm (record { collects = e; sends = f; receives = g; command = c }) more)
      ]
    ]
  ]
]

-- The VM reboots exactly at the first command REJUVENATE, if every turn before it, and its own, has
-- collected and sent a datapoint and has received a command; and it has then sent these datapoints,
-- in their order, and nothing else.
pub obey-ToReboot :
    (turns : List Turn) (datapoints : List (List ℕ))
    → (obey [] turns ≡ rebooted datapoints) ↔ ToReboot turns datapoints
unfolding IsRebooted
obey-ToReboot turns datapoints = (
  λ e.
      let (xs, way) = reboots-obey turns [] (rw (e, IsRebooted) tt) in
      let found : rebooted xs ≡ rebooted datapoints = sym (obey-reboots [] way) ∙ e in
      let same : xs ≡ datapoints = cc in rw (sym same) way,
  obey-reboots [],
)
