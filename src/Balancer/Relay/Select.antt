-- ===== src/Balancer/Relay/Select.antt =====
-- controller/balancer.c, `build_select_list`: the sockets that a thread passes to `select`, with the
-- highest number. A cell of the array that holds 0 is skipped.
use a2pm.Common.{
  ℕ, ◌+◌, ◌<◌, ◌≤◌, ◌≡◌, ◌≢◌, ◌⊎◌, refl, sym, inl, inr, arith, true, Option, none, some, List, [],
  ◌∷◌, ltb, ◌==◌, if◌then◌else◌, Bool-cases,
}

-- FD_SETSIZE.
abbrev pub fd_setsize : ℕ
fd_setsize = 1024

pub record Selection : Type 0 where
  pub socks : List ℕ
  pub highsock : ℕ

-- `FD_SET` of a number outside the set is a write outside its array: `none`.
unfoldable pub add_socket : ℕ → Selection → Option Selection
add_socket fd s =
    if fd == 0
    then some s
    else if ltb fd fd_setsize
    then some
        (record { socks = fd ∷ s.socks; highsock = if ltb s.highsock fd then fd else s.highsock })
    else none

unfoldable pub select_loop : List ℕ → Selection → Option Selection
unfolding add_socket
select_loop [] s = some s
select_loop (fd ∷ fds) s = elim (add_socket fd s) [ none ↦ none | some s' ↦ select_loop fds s' ]

-- `highsock` is what the last call has left.
unfoldable pub build_select_list : (connectlist : List ℕ) → (highsock : ℕ) → Option Selection
unfolding select_loop
build_select_list connectlist highsock =
    select_loop connectlist (record { socks = []; highsock = highsock })

abbrev pub Has : ℕ → List ℕ → Type 0
Has fd [] = ⊥
Has fd (x ∷ xs) = (x ≡ fd) ⊎ Has fd xs

abbrev pub AllBelow : ℕ → List ℕ → Type 0
AllBelow n [] = Unit {0}
AllBelow n (x ∷ xs) = (x < n) × AllBelow n xs

AllBelow-le : (m n : ℕ) (xs : List ℕ) → m ≤ n → AllBelow m xs → AllBelow n xs
AllBelow-le m n [] h a = tt
AllBelow-le m n (x ∷ xs) h a = (omega (arith, a.0), AllBelow-le m n xs h a.1)

-- One socket more: which sockets the set has, and that the number that `select` gets is above them.
record Added (fd : ℕ) (s t : Selection) : Type 0 where
  has : (x : ℕ) → Has x t.socks → Has x s.socks ⊎ ((x ≢ 0) × (x ≡ fd))
  keeps : (x : ℕ) → Has x s.socks → Has x t.socks
  gets : fd ≢ 0 → Has fd t.socks
  above : AllBelow (s.highsock + 1) s.socks → AllBelow (t.highsock + 1) t.socks

add_socket-Added :
    (fd : ℕ) (s : Selection)
    → fd < fd_setsize
    → (t : Selection) × (add_socket fd s ≡ some t) × Added fd s t
unfolding add_socket
add_socket-Added fd s lt = elim (Bool-cases (fd == 0)) [
  | inl zero_fd ↦ (
    s,
    rw (zero_fd, add_socket) refl,
    record {
      has = λ x h. inl h;
      keeps = λ x h. h;
      gets = λ ne. absurd (ground arith);
      above = λ h. h;
    },
  )
  | inr ne ↦
      let high = if ltb s.highsock fd then fd else s.highsock in
      let t : Selection = record { socks = fd ∷ s.socks; highsock = high } in
      let room : ltb fd fd_setsize ≡ true = ground (arith, lt) in
      (
        t,
        rw (ne, room, add_socket) refl,
        record {
          has = λ x h. elim h [
            | inl here ↦ inr (ground (arith, here), sym here)
            | inr there ↦ inl there
          ];
          keeps = λ x h. inr h;
          gets = λ apart. inl refl;
          above =
              λ h. (ground arith, AllBelow-le (s.highsock + 1) (high + 1) s.socks (ground arith) h);
        },
      )
]

-- The set of the loop against the list, and the number above all of it.
record Selects (fds : List ℕ) (s t : Selection) : Type 0 where
  has : (x : ℕ) → Has x t.socks → Has x s.socks ⊎ ((x ≢ 0) × Has x fds)
  keeps : (x : ℕ) → Has x s.socks → Has x t.socks
  gets : (x : ℕ) → x ≢ 0 → Has x fds → Has x t.socks
  above : AllBelow (s.highsock + 1) s.socks → AllBelow (t.highsock + 1) t.socks

select_loop-Selects :
    (fds : List ℕ) (s : Selection)
    → AllBelow fd_setsize fds
    → (t : Selection) × (select_loop fds s ≡ some t) × Selects fds s t
unfolding select_loop
select_loop-Selects [] s all = (
  s,
  refl,
  record { has = λ x h. inl h; keeps = λ x h. h; gets = λ x ne h. absurd h; above = λ h. h },
)
select_loop-Selects (fd ∷ fds) s all =
    let (m, e, one) = add_socket-Added fd s all.0 in
    let (t, f, rest) = select_loop-Selects fds m all.1 in
    (
      t,
      rw (e, select_loop) f,
      record {
        has = λ x h. elim (rest.has x h) [
          | inr later ↦ inr (later.0, inr later.1)
          | inl before ↦ elim (one.has x before) [
            | inl first ↦ inl first
            | inr (ne, same) ↦ inr (ne, inl (sym same))
          ]
        ];
        keeps = λ x h. rest.keeps x (one.keeps x h);
        gets = λ x ne h. elim h [
          | inl here ↦ rest.keeps x (rw (sym here) (one.gets (rw (sym here) at ne)))
          | inr later ↦ rest.gets x ne later
        ];
        above = λ h. rest.above (one.above h);
      },
    )

-- With all numbers in the size of a set, `build_select_list` selects the sockets of the list and no
-- other, and the number that `select` is called with is above all of them.
pub build_select_list-Selects :
    (connectlist : List ℕ) (highsock : ℕ)
    → AllBelow fd_setsize connectlist
    → (t : Selection) × (build_select_list connectlist highsock ≡ some t)
      × ((x : ℕ) → Has x t.socks → (x ≢ 0) × Has x connectlist)
      × ((x : ℕ) → x ≢ 0 → Has x connectlist → Has x t.socks)
      × AllBelow (t.highsock + 1) t.socks
unfolding build_select_list
build_select_list-Selects connectlist highsock all =
    let (t, e, w) =
      select_loop-Selects connectlist (record { socks = []; highsock = highsock }) all in
    (
      t,
      e,
      λ x h. elim (w.has x h) [ inl none_before ↦ absurd none_before | inr known ↦ known ],
      w.gets,
      w.above tt,
    )
