-- ===== src/Balancer/Clients/Entries.antt =====
-- The list of clients of a VM, and how `check_already_connected` enters one.
use text.Mathlib.Text.{◌==◌ as str_eq}
use text.Mathlib.TextEquality.{eq_iff}
use text.Mathlib.TextPositions.{eq_refl}
use Prim.Native.String.{String}
use a2pm.Common.{
  ℕ, suc, ◌+◌, ◌-◌, ◌≤◌, ◌<◌, ◌≡◌, refl, sym, ◌∙◌, inl, inr, arith, Bool, true, false, none, some,
  List, [], ◌∷◌, ◌++◌, ap, ltb, if◌then◌else◌, Bool-cases, length, set, length-set,
}
use a2pm.Balancer.Vms.{VmData}
use a2pm.Balancer.Vms.Members.{IsListed}
use a2pm.Balancer.Clients.{free_entry, search_loop, enter}

abbrev pub contains : List String → String → Bool
contains [] ip = false
contains (c ∷ cs) ip = if str_eq c ip then true else contains cs ip

unfoldable pub has_client : VmData → String → Bool
has_client vm ip = elim vm.connected_clients [ none ↦ false | some cs ↦ contains cs ip ]

-- The place is positive exactly if the list has the address, and counts from 1.
pub search_loop_lem :
    (cs : List String) (index : ℕ) (ip : String)
    → (ltb 0 (search_loop cs index ip) ≡ contains cs ip)
      × (contains cs ip ≡ true
          → (index < search_loop cs index ip) × (search_loop cs index ip ≤ index + length cs))
unfolding search_loop
search_loop_lem [] index ip = (refl, λ e. cc)
search_loop_lem (c ∷ cs) index ip =
    let (agree, bounds) = search_loop_lem cs (index + 1) ip in ground (arith, agree, bounds)

contains-middle :
    (before : List String) (c : String) (after : List String) (ip : String)
    → str_eq c ip ≡ true
    → contains (before ++ c ∷ after) ip ≡ true
contains-middle [] c after ip e = rw e refl
contains-middle (b ∷ before) c after ip e = ground (arith, contains-middle before c after ip e)

-- The first free entry of a list, and the list once it is overwritten.
record Place (cs : List String) (index : ℕ) (ip : String) : Type 0 where
  before : List String
  entry : String
  after : List String
  was : cs ≡ before ++ entry ∷ after
  free : str_eq entry free_entry ≡ true
  earlier_taken : contains before free_entry ≡ false
  now : set cs (search_loop cs index free_entry - index - 1) ip ≡ before ++ ip ∷ after

first_entry :
    (cs : List String) (index : ℕ) (ip : String) → contains cs free_entry ≡ true → Place cs index ip
unfolding search_loop
first_entry [] index ip h = cc
first_entry (c ∷ cs) index ip h = elim (Bool-cases (str_eq c free_entry)) [
  | inl free ↦
      let first : index + 1 - index - 1 ≡ 0 = omega arith in
      record {
        before = [];
        entry = c;
        after = cs;
        was = refl;
        free = free;
        earlier_taken = refl;
        now = rw free (rw first refl);
      }
  | inr taken ↦
      let place = search_loop cs (index + 1) free_entry in
      let there : contains cs free_entry ≡ true = rw taken at h in
      let (later, _) = (search_loop_lem cs (index + 1) free_entry).1 there in
      let next : place - index - 1 ≡ suc (place - (index + 1) - 1) = omega (arith, later) in
      let rest = first_entry cs (index + 1) ip there in
      record {
        before = c ∷ rest.before;
        entry = rest.entry;
        after = rest.after;
        was = ap (λ l. c ∷ l) rest.was;
        free = rest.free;
        earlier_taken = rw taken rest.earlier_taken;
        now = rw taken (rw next (ap (λ l. c ∷ l) rest.now));
      }
]

-- The list of `vm` with the address in the place of its first free entry, and nothing else changed.
pub record Entered (vm vm' : VmData) (ip : String) : Type 0 where
  pub before : List String
  pub entry : String
  pub after : List String
  pub was : vm.connected_clients ≡ some (before ++ entry ∷ after)
  pub free : str_eq entry free_entry ≡ true
  pub earlier_taken : contains before free_entry ≡ false
  pub now : vm'.connected_clients ≡ some (before ++ ip ∷ after)
  pub address : vm'.address ≡ vm.address

-- The client is entered in the list of a VM that has a free entry.
pub enter-free :
    (vm : VmData) (ip : String)
    → IsListed vm
    → has_client vm free_entry ≡ true
    → (vm' : VmData) × (enter vm ip ≡ some vm') × IsListed vm' × Entered vm vm' ip
unfolding enter has_client
enter-free vm ip (address, (cs, at, five)) free =
    let there : contains cs free_entry ≡ true = ground arith in
    let placed = (search_loop_lem cs 0 free_entry).0 ∙ there in
    let from_one : search_loop cs 0 free_entry - 0 - 1 ≡ search_loop cs 0 free_entry - 1 =
      omega arith in
    let p = first_entry cs 0 ip there in
    (
      record vm { connected_clients = some (set cs (search_loop cs 0 free_entry - 1) ip) },
      rw (at, enter) (rw placed refl),
      (address, (set cs (search_loop cs 0 free_entry - 1) ip, refl, length-set cs _ ip ∙ five)),
      record {
        before = p.before;
        entry = p.entry;
        after = p.after;
        was = at ∙ ap (λ l. some l) p.was;
        free = p.free;
        earlier_taken = p.earlier_taken;
        now = ap (λ l. some l) (rw from_one at p.now);
        address = refl;
      },
    )

pub Entered-has_client :
    (vm vm' : VmData) (ip : String) → Entered vm vm' ip → has_client vm' ip ≡ true
unfolding has_client
Entered-has_client vm vm' ip e =
    rw (e.now, has_client) (contains-middle e.before ip e.after ip (eq_refl ip))

pub enter-full :
    (vm : VmData) (ip : String)
    → IsListed vm
    → has_client vm free_entry ≡ false
    → enter vm ip ≡ none
unfolding enter has_client
enter-full vm ip (address, (cs, at, five)) full =
    let nowhere : contains cs free_entry ≡ false = ground arith in
    let placed = (search_loop_lem cs 0 free_entry).0 ∙ nowhere in rw (at, enter) (rw placed refl)

contains-other :
    (before : List String) (c : String) (after : List String) (x : String)
    → str_eq c x ≡ false
    → contains (before ++ c ∷ after) x ≡ contains (before ++ after) x
contains-other [] c after x e = rw e refl
contains-other (b ∷ before) c after x e = ground (arith, contains-other before c after x e)

-- A client that is entered evicts none but the free entry.
pub Entered-others :
    (vm vm' : VmData) (ip other : String)
    → Entered vm vm' other
    → str_eq other ip ≡ false
    → str_eq ip free_entry ≡ false
    → has_client vm' ip ≡ has_client vm ip
unfolding has_client
Entered-others vm vm' ip other e differ named =
    let same : e.entry ≡ free_entry = (eq_iff e.entry free_entry).0 e.free in
    let not_free : str_eq e.entry ip ≡ false = elim (Bool-cases (str_eq e.entry ip)) [
      | inr ne ↦ ne
      | inl hit ↦
          let is_ip : e.entry ≡ ip = (eq_iff e.entry ip).0 hit in
          let clash : str_eq ip free_entry ≡ true = rw is_ip at e.free in
          absurd (ground (arith, clash, named))
    ] in
    let gone = contains-other e.before e.entry e.after ip not_free in
    let kept = contains-other e.before other e.after ip differ in
    rw (e.now, has_client) (rw (e.was, has_client) (kept ∙ sym gone))
