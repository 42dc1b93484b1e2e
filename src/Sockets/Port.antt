-- ===== src/Sockets/Port.antt =====
-- `atoport`: the number that it yields, in network order.
use a2pm.Common.{ℕ, Bool-cases, ltb, ◌||◌, inl, inr, refl, ◌≤◌, ◌≡◌, ◌⊎◌, arith, Option, none}
use a2pm.Common.Int.{ℤ, pos, negsuc, ◌≤ℤ◌}
use a2pm.Sockets.{htons, port_number, atoport}

-- Byte order conversion is its own inverse on 16 bits.
pub htons-htons : (x : ℕ) → x ≤ 65535 → htons (htons x) ≡ x
unfolding htons
htons-htons x h = omega arith

-- `x` is a port, and `p` is the one that `ntohs` turns back into it.
abbrev pub IsPortOf : ℤ → ℤ → Type 0
IsPortOf service p =
    (x : ℕ) × (service ≡ pos x)
    × (1 ≤ x)
    × (x ≤ 65535)
    × (p ≡ pos (htons x))
    × (htons (htons x) ≡ x)

port_number_lem :
    (service : ℤ)
    → IsPortOf service (port_number service)
      ⊎ (((service ≤ℤ pos 0) ⊎ (pos 65536 ≤ℤ service)) × (port_number service ≡ negsuc 0))
unfolding port_number
port_number_lem (pos x) = elim (Bool-cases (ltb x 1 || ltb 65535 x)) [
  | inl out ↦ inr (ground arith, ground arith)
  | inr within ↦
      inl (x, refl, ground arith, ground arith, ground arith, htons-htons x (ground arith))
]
port_number_lem (negsuc x) = inr (omega arith, refl)

-- A number that is no service's name yields a port exactly if it is one (1 to 65535), and then the
-- one that `ntohs` turns back into it; any other yields -1.
pub atoport-number :
    (getservbyname : ℤ → Option ℕ) (service : ℤ)
    → getservbyname service ≡ none
    → IsPortOf service (atoport getservbyname service)
      ⊎ (((service ≤ℤ pos 0) ⊎ (pos 65536 ≤ℤ service)) × (atoport getservbyname service ≡ negsuc 0))
unfolding atoport
atoport-number getservbyname service h = rw (h, atoport) (port_number_lem service)
