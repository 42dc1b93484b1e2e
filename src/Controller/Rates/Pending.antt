-- ===== src/Controller/Rates/Pending.antt =====
-- The array of rates against its abstract view: the list of the rates since the last average.
use a2pm.Common.{
  ℕ, zero, suc, ◌+◌, ◌*◌, ◌<◌, ◌≡◌, ◌≢◌, refl, sym, ap, ◌∙◌, inl, inr, arith, false, Option, none,
  some, List, [], ◌∷◌, ◌++◌, leb, ◌==◌, ==_iff, if◌then◌else◌, Bool-cases, length,
}
use a2pm.Common.Family.{update, update_self, update_other}
use a2pm.Controller.{Server}
use a2pm.Controller.Communication.{push_rate}
use a2pm.Controller.Rates.{
  Average, sum_loop, mttf_round, Event, stored, averaged, printing, array_run,
}

module _ {Rate : Type 0} where
  -- The entries from `index` on.
  entries : (count index : ℕ) → (ℕ → Rate) → List Rate
  entries zero index f = []
  entries (suc count) index f = f index ∷ entries count (index + 1) f

  length-entries : (count index : ℕ) (f : ℕ → Rate) → length (entries count index f) ≡ count
  unfolding entries
  length-entries zero index f = refl
  length-entries (suc count) index f = ap suc (length-entries count (index + 1) f)

  entries-update :
      (count index : ℕ) (f : ℕ → Rate) (r : Rate)
      → entries (suc count) index (update f (index + count) r) ≡ entries count index f ++ r ∷ []
  unfolding entries
  entries-update zero index f r =
      let here : index + 0 ≡ index = omega arith in rw here (rw (update_self f index r) refl)
  entries-update (suc count) index f r =
      let there : index + suc count ≡ index + 1 + count = omega arith in
      let other : index + 1 + count ≢ index = λ e. omega (arith, e) in
      rw there (
        rw (update_other f (index + 1 + count) index r other)
          (ap (λ rest. f index ∷ rest) (entries-update count (index + 1) f r)))

module _ {Rate : Type 0} ⦃a : Average Rate⦄ where
  abbrev pub total : Rate → List Rate → Rate
  total acc [] = acc
  total acc (r ∷ rs) = total (a.plus acc r) rs

  sum_loop-entries :
      (count index : ℕ) (f : ℕ → Rate) (acc : Rate)
      → sum_loop count index f acc ≡ total acc (entries count index f)
  unfolding sum_loop entries
  sum_loop-entries zero index f acc = refl
  sum_loop-entries (suc count) index f acc =
      sum_loop-entries count (index + 1) f (a.plus acc (f index))

  abbrev pub mean : List Rate → Rate
  mean rs = a.over (total a.nought rs) (length rs)

  -- The specification: a store puts the rate behind the pending ones, within the bytes of the block,
  -- and an average is the mean of the pending rates, of which none is left.
  unfoldable pub pending_run :
      (bytes : ℕ) → List (Event Rate) → List Rate → Option (List Rate × List Rate)
  pending_run bytes [] pending = some (pending, [])
  pending_run bytes (stored r ∷ events) pending =
      let rest = pending_run bytes events (pending ++ r ∷ []) in
      if leb ((length pending + 1) * 4) bytes then rest else none
  pending_run bytes (averaged ∷ events) [] = pending_run bytes events []
  pending_run bytes (averaged ∷ events) (r ∷ pending) =
      printing (mean (r ∷ pending)) (pending_run bytes events [])

  pending_run-averaged :
      (bytes : ℕ) (events : List (Event Rate)) (pending : List Rate)
      → 0 < length pending
      → pending_run bytes (averaged ∷ events) pending
        ≡ printing (mean pending) (pending_run bytes events [])
  unfolding pending_run
  pending_run-averaged bytes events [] h = absurd (omega arith)
  pending_run-averaged bytes events (r ∷ pending) h = refl

module _ {Features Rate : Type 0} ⦃a : Average Rate⦄ where
  unfoldable pub pending : Server Features Rate → List Rate
  unfolding entries
  pending s = entries s.index_rej_rate 0 s.rej_rate

  abbrev pub view : Option (Server Features Rate × List Rate) → Option (List Rate × List Rate)
  view none = none
  view (some (s, printed)) = some (pending s, printed)

  view-printing :
      (avg : Rate) (r : Option (Server Features Rate × List Rate))
      → view (printing avg r) ≡ printing avg (view r)
  view-printing avg none = refl
  view-printing avg (some (s, more)) = refl

  pending-push_rate :
      (r : Rate) (s : Server Features Rate)
      → entries (s.index_rej_rate + 1) 0 (update s.rej_rate s.index_rej_rate r)
        ≡ pending s ++ r ∷ []
  unfolding pending
  pending-push_rate r s =
      let more : s.index_rej_rate + 1 ≡ suc s.index_rej_rate = omega arith in
      let place : 0 + s.index_rej_rate ≡ s.index_rej_rate = omega arith in
      ap (λ (n : ℕ). entries n 0 (update s.rej_rate s.index_rej_rate r)) more
      ∙ ap (λ (i : ℕ). entries (suc s.index_rej_rate) 0 (update s.rej_rate i r)) (sym place)
      ∙ entries-update s.index_rej_rate 0 s.rej_rate r

  push_rate-room :
      (r : Rate) (s : Server Features Rate)
      → push_rate r s ≡ (
          if leb ((length (pending s) + 1) * 4) s.rej_bytes
          then some (record s {
            rej_rate = update s.rej_rate s.index_rej_rate r;
            index_rej_rate = s.index_rej_rate + 1;
          })
          else none)
  unfolding push_rate pending
  push_rate-room r s = rw (length-entries s.index_rej_rate 0 s.rej_rate) refl

  mttf_round-mean :
      (s : Server Features Rate)
      → 0 < length (pending s)
      → mttf_round s ≡ (record s { index_rej_rate = 0 }, some (mean (pending s)))
  unfolding mttf_round pending
  mttf_round-mean s h =
      let counted = length-entries s.index_rej_rate 0 s.rej_rate in
      let some_rates : (s.index_rej_rate == 0) ≡ false = ground (arith, counted) in
      rw some_rates
        (rw (sum_loop-entries s.index_rej_rate 0 s.rej_rate a.nought) (rw (counted, mean) refl))

  -- The array with its index, filled by the threads of the VMs and emptied by `mttf_thread` in any
  -- order, behaves as the list of the rates since the last average: the same averages are printed,
  -- the same rates are left, and the same store is the first behind the end of the block.
  pub array_run-pending_run :
      (events : List (Event Rate)) (s : Server Features Rate)
      → view (array_run events s) ≡ pending_run s.rej_bytes events (pending s)
  unfolding array_run pending_run pending
  array_run-pending_run [] s = refl
  array_run-pending_run (stored r ∷ events) s =
      elim (Bool-cases (leb ((length (pending s) + 1) * 4) s.rej_bytes)) [
        | inr full ↦
            let e : push_rate r s ≡ none = push_rate-room r s ∙ rw full refl in rw (e, full) refl
        | inl room ↦
            let s' : Server Features Rate = record s {
              rej_rate = update s.rej_rate s.index_rej_rate r;
              index_rej_rate = s.index_rej_rate + 1;
            } in
            let e : push_rate r s ≡ some s' = push_rate-room r s ∙ rw room refl in
            let same : pending s' ≡ pending s ++ r ∷ [] = unfold pending in pending-push_rate r s in
            rw (e, room)
              (array_run-pending_run events s' ∙ ap (pending_run s.rej_bytes events) same)
      ]
  array_run-pending_run (averaged ∷ events) s = elim (Bool-cases (s.index_rej_rate == 0)) [
    | inl empty ↦
        let e : mttf_round s ≡ (s, none) = unfold mttf_round in rw empty refl in
        let nothing : pending s ≡ [] =
          let none_stored : s.index_rej_rate ≡ 0 = (==_iff s.index_rej_rate 0).0 empty in
          unfold pending entries in ap (λ (n : ℕ). entries n 0 s.rej_rate) none_stored in
        rw (e, nothing)
          (array_run-pending_run events s ∙ ap (pending_run s.rej_bytes events) nothing)
    | inr filled ↦
        let s' : Server Features Rate = record s { index_rej_rate = 0 } in
        let h : 0 < length (pending s) =
          unfold pending in ground (arith, length-entries s.index_rej_rate 0 s.rej_rate) in
        rw (mttf_round-mean s h, pending_run-averaged s.rej_bytes events (pending s) h)
          (view-printing (mean (pending s)) (array_run events s')
            ∙ ap (printing (mean (pending s))) (array_run-pending_run events s'))
  ]
