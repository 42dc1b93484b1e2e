-- ===== src/Broadcast/Dispatch.antt =====
-- `register_callback` and `call_function`: which callback a message reaches.
use a2pm.Common.{
  ltb, refl, ◌⊎◌, inl, inr, Bool-cases, ℕ, zero, suc, ◌+◌, ◌≤◌, ◌<◌, ◌≡◌, ◌≢◌, arith, none, some,
  List, [], ◌∷◌, ◌==◌, ltb→lt, if◌then◌else◌, length, set, length-set,
}
use native.Mathlib.Numerals.{add-one}
use a2pm.Common.Int.{ℤ}
use a2pm.Broadcast.{
  Message, Handler, Callback, Callbacks, register_callback, call_loop, call_function,
}

module _ {S : Type 0} where
  -- The first `n` slots are registered and have types other than 0; the others are empty.
  abbrev pub AreSlots : ℕ → List (Callback S) → Type 0
  AreSlots n [] = n ≡ 0
  AreSlots zero (c ∷ cs) = (c.type ≡ 0) × AreSlots zero cs
  AreSlots (suc n) (c ∷ cs) = (c.type ≢ 0) × AreSlots n cs

  abbrev pub NotIn : ℕ → List (Callback S) → Type 0
  NotIn t [] = Unit {0}
  NotIn t (c ∷ cs) = (c.type ≢ t) × NotIn t cs

  -- A message of type `t` meets the slot `n`, which now holds `f` for `t`.
  call_loop-set :
      (cs : List (Callback S)) (n t : ℕ) (f : Handler S) (sock : ℤ) (msg : Message) (s : S)
      → AreSlots n cs
      → n < length cs
      → t ≢ 0
      → NotIn t cs
      → call_loop (set cs n (record { type = t; callback = some f })) sock msg s
        ≡ (if msg.type == t then some (f sock msg.payload msg.size s) else call_loop cs sock msg s)
  unfolding call_loop
  call_loop-set [] n t f sock msg s slots h ne out = absurd (omega arith)
  call_loop-set (c ∷ cs) zero t f sock msg s slots h ne out = ground arith
  call_loop-set (c ∷ cs) (suc n) t f sock msg s slots h ne out =
      ground (arith, call_loop-set cs n t f sock msg s slots.1 (omega arith) ne out.1)

  -- After a callback is registered for a type that is not 0 and was not registered, messages of that
  -- type reach it and all others reach what they reached before.
  pub call_function-register :
      (c c' : Callbacks S) (t : ℕ) (f : Handler S) (sock : ℤ) (msg : Message) (s : S)
      → AreSlots c.last_callback c.callbacks
      → t ≢ 0
      → NotIn t c.callbacks
      → register_callback t f c ≡ some c'
      → call_function c' sock msg s ≡ (
          if msg.type == t
          then some (f sock msg.payload msg.size s)
          else call_function c sock msg s)
  unfolding register_callback call_function
  call_function-register c c' t f sock msg s slots ne out e =
      ground (arith, call_loop-set c.callbacks c.last_callback t f sock msg s slots)

  set-AreSlots :
      (cs : List (Callback S)) (n : ℕ) (c : Callback S)
      → AreSlots n cs
      → n < length cs
      → c.type ≢ 0
      → AreSlots (suc n) (set cs n c)
  set-AreSlots [] n c slots h ne = absurd (omega arith)
  set-AreSlots (x ∷ cs) zero c slots h ne = (ne, slots.1)
  set-AreSlots (x ∷ cs) (suc n) c slots h ne =
      (slots.0, set-AreSlots cs n c slots.1 (omega arith) ne)

  -- Registering with room succeeds and keeps the slots in order and their number; without room it
  -- faults.
  pub register_callback-AreSlots :
      (c : Callbacks S) (t : ℕ) (f : Handler S)
      → AreSlots c.last_callback c.callbacks
      → t ≢ 0
      → ((c.last_callback < length c.callbacks)
          × (c' : Callbacks S) × (register_callback t f c ≡ some c')
          × AreSlots c'.last_callback c'.callbacks
          × (length c'.callbacks ≡ length c.callbacks))
        ⊎ ((length c.callbacks ≤ c.last_callback) × (register_callback t f c ≡ none))
  unfolding register_callback
  register_callback-AreSlots c t f slots ne =
      elim (Bool-cases (ltb c.last_callback (length c.callbacks))) [
        | inr full ↦ inr (ground arith, ground arith)
        | inl room ↦
            let h = ltb→lt c.last_callback (length c.callbacks) room in
            inl (
              h,
              record {
                callbacks =
                    set c.callbacks c.last_callback (record { type = t; callback = some f });
                last_callback = c.last_callback + 1;
              },
              rw room refl,
              rw add-one (set-AreSlots c.callbacks c.last_callback _ slots h ne),
              length-set c.callbacks c.last_callback _,
            )
      ]
