-- ===== src/Network/Tables.antt =====
-- The tables of the balancer, step by step.
use std.Path.{subst}
use Prim.Native.String.{String}
use a2pm.Common.{
  zero, suc, length, get_elem?, set, ℕ, ◌<◌, ◌≡◌, refl, sym, ap, ◌∙◌, inl, inr, arith, Bool, true,
  false, Option, none, some, List, [], ◌∷◌, ◌++◌, Option-cases,
}
use a2pm.Balancer.Vms.{
  Group, VirtualMachine, controller_message, controller_messages, create_system_image,
  number_groups,
}
use a2pm.Balancer.Clients.Kept.{Keeps}
use a2pm.Balancer.Vms.Members.{occurrences, IsValid}
use a2pm.Balancer.Vms.History.{
  InServices, AreValid, empty_group-IsValid, controller_messages-valid_from,
}
use a2pm.Balancer.Vms.Census.{
  Census, no_vms, census_message, census_messages, Represents, census_from,
  create_system_image-Represents,
}
use a2pm.Controller.System.Addressed.{MessageAddressed}
use a2pm.Network.{delivered}

controller_messages-one :
    (m : VirtualMachine) (groups after : List Group)
    → controller_messages (m ∷ []) groups ≡ some after
    → controller_message m groups ≡ some after
unfolding controller_messages
controller_messages-one m groups after e = elim (Option-cases (controller_message m groups)) [
  | inl f ↦
      let wrong : none ≡ some after = rw (f, controller_messages) at e in
      absurd (ground (arith, wrong))
  | inr (next, f) ↦ let same : some next ≡ some after = rw (f, controller_messages) at e in f ∙ same
]

pub InServices-append :
    (xs ys : List VirtualMachine)
    → InServices number_groups xs
    → InServices number_groups ys
    → InServices number_groups (xs ++ ys)
InServices-append [] ys h k = k
InServices-append (x ∷ xs) ys h k = (h.0, InServices-append xs ys h.1 k)

InServices-last :
    (xs : List VirtualMachine) (m : VirtualMachine) (ys : List VirtualMachine)
    → InServices number_groups (xs ++ m ∷ ys)
    → m.service < number_groups
InServices-last [] m ys h = h.0
InServices-last (x ∷ xs) m ys h = InServices-last xs m ys h.1

pub delivered-InServices :
    (arrives : Bool) (message : Option VirtualMachine)
    → MessageAddressed message
    → InServices number_groups (delivered arrives message)
delivered-InServices arrives none h = tt
delivered-InServices false (some m) h = tt
delivered-InServices true (some m) h = (h, tt)

census_messages-snoc :
    (vms : List VirtualMachine) (m : VirtualMachine) (c : Census)
    → census_messages (vms ++ m ∷ []) c ≡ census_message m (census_messages vms c)
unfolding census_messages
census_messages-snoc [] m c = refl
census_messages-snoc (vm ∷ vms) m c = census_messages-snoc vms m (census_message vm c)

-- The tables are valid, one for each service, and represent the count.
pub record AreCounted (tables : List Group) (c : Census) : Type 0 where
  pub valid : AreValid tables
  pub all : length tables ≡ number_groups
  pub represents : Represents tables c

-- A message for a service that exists is handled.
pub handled-AreCounted :
    (m : VirtualMachine) (tables : List Group) (c : Census)
    → m.service < number_groups
    → AreCounted tables c
    → (after : List Group) × (controller_message m tables ≡ some after)
      × AreCounted after (census_message m c)
unfolding census_messages
handled-AreCounted m tables c lt w =
    let inside : InServices (length tables) (m ∷ []) = (rw w.all lt, tt) in
    let (after, e, valid, all) = controller_messages-valid_from (m ∷ []) tables w.valid inside in
    let (after', e', represents) = census_from (m ∷ []) tables c w.valid inside w.represents in
    let read : some after' ≡ some after = sym e' ∙ e in
    let same : after' ≡ after = cc in
    (
      after,
      controller_messages-one m tables after e,
      record {
        valid = valid;
        all = all ∙ w.all;
        represents = subst (λ t. Represents t (census_message m c)) same represents;
      },
    )

same_tables : {x y : List Group} → some x ≡ some y → x ≡ y
same_tables e = cc

pub step-AreCounted :
    (m : VirtualMachine) (tables after : List Group) (handled : List VirtualMachine)
    → m.service < number_groups
    → AreCounted tables (census_messages handled no_vms)
    → controller_message m tables ≡ some after
    → AreCounted after (census_messages (handled ++ m ∷ []) no_vms)
step-AreCounted m tables after handled lt w e =
    let (after', e', w') = handled-AreCounted m tables (census_messages handled no_vms) lt w in
    let same : after' ≡ after = same_tables (sym e' ∙ e) in
    rw (census_messages-snoc handled m no_vms, sym same) w'

get_elem?-inside : (gs : List Group) (i : ℕ) (g : Group) → get_elem? gs i ≡ some g → i < length gs
get_elem?-inside [] i g e = absurd (ground (arith, e))
get_elem?-inside (x ∷ gs) zero g e = omega arith
get_elem?-inside (x ∷ gs) (suc i) g e = omega (arith, get_elem?-inside gs i g e)

-- Only a message for a service that exists is handled without a fault.
pub handled-service :
    (m : VirtualMachine) (tables after : List Group)
    → controller_message m tables ≡ some after
    → m.service < length tables
unfolding controller_message
handled-service m tables after e = elim (Option-cases (get_elem? tables m.service)) [
  | inl f ↦
      let wrong : none ≡ some after = rw (f, controller_message) at e in
      absurd (ground (arith, wrong))
  | inr (g, f) ↦ get_elem?-inside tables m.service g f
]

pub asks-AreCounted :
    (tables : List Group) (g g' : Group) (c : Census)
    → get_elem? tables 0 ≡ some g
    → Keeps g g'
    → AreCounted tables c
    → AreCounted (set tables 0 g') c
asks-AreCounted [] g g' c at k w = absurd (ground (arith, at))
asks-AreCounted (x ∷ tables) g g' c at k w =
    let same : x ≡ g = cc in
    let valid : IsValid g = rw same at w.valid.0 in
    record {
      valid = (k.valid valid, w.valid.1);
      all = w.all;
      represents = λ service h e a. go service h e a;
    }
  where
    go :
        (service : ℕ) (h : Group)
        → get_elem? (g' ∷ tables) service ≡ some h
        → (a : String × ℕ) → occurrences h a ≡ c service a
    go zero h e a =
        let is_g : g' ≡ h = cc in
        let before = w.represents zero g at a in
        subst (λ z. occurrences z a ≡ c zero a) is_g (k.members a ∙ before)
    go (suc service) h e a = w.represents (suc service) h e a

pub front_service :
    (sent received transit : List VirtualMachine) (m : VirtualMachine) (rest : List VirtualMachine)
    → sent ≡ received ++ transit
    → transit ≡ m ∷ rest
    → InServices number_groups sent
    → m.service < number_groups
front_service sent received transit m rest order front services =
    let whole : sent ≡ received ++ m ∷ rest = order ∙ ap (λ l. received ++ l) front in
    InServices-last received m rest (rw whole at services)

-- At the start nothing is counted.
pub initial_tables : AreCounted create_system_image no_vms
unfolding create_system_image
initial_tables = record {
  valid = (empty_group-IsValid, (empty_group-IsValid, (empty_group-IsValid, tt)));
  all = refl;
  represents = create_system_image-Represents;
}
