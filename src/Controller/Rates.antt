-- ===== src/Controller/Rates.antt =====
-- controller/server.c: `mttf_thread`, which averages the rejection rates that the threads of the VMs
-- have stored, and empties the array.
pub mod Pending
use a2pm.Common.{
  ℕ, zero, suc, ◌+◌, ◌*◌, Bool, true, false, Option, none, some, List, [], ◌∷◌, leb, ◌==◌,
  if◌then◌else◌,
}
use a2pm.Controller.{Server}
use a2pm.Controller.Communication.{push_rate}

-- All that the code does with the rates.
pub record Average (Rate : Type 0) : Type 0 where
  pub nought : Rate
  pub plus : Rate → Rate → Rate
  pub over : Rate → ℕ → Rate

-- What happens to the array: a thread stores a rate, or `mttf_thread` makes a round.
pub data Event (Rate : Type 0) : Type 0 where
  stored : Rate → Event Rate
  averaged : Event Rate

-- An average is printed before those of later.
abbrev pub printing :
    {State Rate : Type 0} → Rate → Option (State × List Rate) → Option (State × List Rate)
printing avg none = none
printing avg (some (end, more)) = some (end, avg ∷ more)

abbrev pub after_store :
    {State Result : Type 0} → Option State → (State → Option Result) → Option Result
after_store none next = none
after_store (some s) next = next s

abbrev pub after_round :
    {State Rate : Type 0}
    → State × Option Rate
    → (State → Option (State × List Rate))
    → Option (State × List Rate)
after_round (s, none) next = next s
after_round (s, some avg) next = printing avg (next s)

module _ {Rate : Type 0} ⦃a : Average Rate⦄ where
  -- The loop over `index`, with the rounds left.
  unfoldable pub sum_loop : (rounds index : ℕ) → (ℕ → Rate) → Rate → Rate
  sum_loop zero index rej_rate avg = avg
  sum_loop (suc rounds) index rej_rate avg =
      sum_loop rounds (index + 1) rej_rate (a.plus avg (rej_rate index))

module _ {Features Rate : Type 0} ⦃a : Average Rate⦄ where
  -- A round; without a rate it only turns.
  unfoldable pub mttf_round : Server Features Rate → Server Features Rate × Option Rate
  unfolding sum_loop
  mttf_round s = if s.index_rej_rate == 0 then (s, none) else (
    record s { index_rej_rate = 0 },
    some (a.over (sum_loop s.index_rej_rate 0 s.rej_rate a.nought) s.index_rej_rate),
  )

  -- The events in their order, with the averages that are printed. A store behind the block is a
  -- fault.
  unfoldable pub array_run :
      List (Event Rate) → Server Features Rate → Option (Server Features Rate × List Rate)
  array_run [] s = some (s, [])
  array_run (stored r ∷ events) s = after_store (push_rate r s) (array_run events)
  array_run (averaged ∷ events) s = after_round (mttf_round s) (array_run events)
