-- ===== src/Broadcast/Startup/Controllers.antt =====
-- The table of controllers after `initialize_broadcast`.
use Prim.Native.String.{String}
use a2pm.Common.{
  ℕ, zero, suc, ◌+◌, ◌<◌, ◌≡◌, ◌≢◌, refl, sym, ◌∙◌, inl, inr, arith, true, Option, none, some, List,
  [], ◌∷◌, ltb, ltb→lt, length, get_elem?, set, length-set, get_elem?-set_self, get_elem?-set_ne,
  Bool-cases, Option-cases,
}
use a2pm.Common.Int.{ℤ, pos}
use a2pm.Sockets.{global_controller_port}
use a2pm.Sockets.Connection.{SocketType, dgram, NameService, atoaddr}
use a2pm.Sockets.Connection.Opened.{make_connection-unknown}
use a2pm.Broadcast.{Connection, Bus, max_controllers}
use a2pm.Broadcast.Startup.{
  all_but_last, Line, connect_line, Loaded, fault, trying, loaded, load_loop, no_controllers, ready,
  started, initialize_broadcast,
}

-- The slot of a line.
abbrev pub HasSlot : List Connection → ℕ → Line → Type 0
HasSlot table i line =
    (c : Connection) × (get_elem? table i ≡ some c) × (c.ip ≡ all_but_last line.text)

HasSlot-cons :
    (end : List Connection) (index : ℕ) (line : Line) (lines : List Line)
    → HasSlot end index line
    → ((i : ℕ) (l : Line) → get_elem? lines i ≡ some l → HasSlot end (index + 1 + i) l)
    → (i : ℕ) (l : Line) → get_elem? (line ∷ lines) i ≡ some l
    → HasSlot end (index + i) l
HasSlot-cons end index line lines here later zero l h =
    let same : line ≡ l = cc in
    let place : index + 0 ≡ index = omega arith in rw place (rw (sym same) here)
HasSlot-cons end index line lines here later (suc i) l h =
    let place : index + suc i ≡ index + 1 + i = omega arith in rw place (later i l h)

module _ (names : NameService) (getservbyname : SocketType → ℤ → Option ℕ) where
  -- The slots from `index` on are those of the lines; those before it stay.
  record Loads (index : ℕ) (lines : List Line) (table end : List Connection) (last : ℕ)
      : Type 0 where
    counted : last ≡ index + length lines
    kept : (j : ℕ) → j < index → get_elem? end j ≡ get_elem? table j
    slots : (i : ℕ) (line : Line) → get_elem? lines i ≡ some line → HasSlot end (index + i) line

  load_loop-Loads :
      (index : ℕ) (lines : List Line) (table end : List Connection) (last : ℕ)
      → length table ≡ max_controllers
      → load_loop names getservbyname index lines table ≡ loaded end last
      → Loads index lines table end last
  unfolding load_loop
  load_loop-Loads index [] table end last size e =
      let same : table ≡ end = cc in
      let count : index ≡ last = cc in
      record {
        counted = omega (arith, count);
        kept = λ j lt. rw same refl;
        slots = λ i line h. absurd (ground (arith, h));
      }
  load_loop-Loads index (line ∷ lines) table end last size e =
      elim (Option-cases (connect_line names getservbyname line.text line.sockets)) [
        | inl f ↦
            let wrong : trying ≡ loaded end last = rw (f, load_loop) at e in
            absurd (ground (arith, wrong))
        | inr (fd, f) ↦ elim (Bool-cases (ltb index max_controllers)) [
          | inr g ↦
              let wrong : fault ≡ loaded end last = rw (f, g, load_loop) at e in
              absurd (ground (arith, wrong))
          | inl g ↦
              let c : Connection = record {
                ip = all_but_last line.text;
                socket = pos fd;
                value = pos 0;
              } in
              let rest : load_loop names getservbyname (index + 1) lines (set table index c)
                  ≡ loaded end last =
                rw (f, g, load_loop) at e in
              let below : index < length table =
                omega (arith, ltb→lt index max_controllers g, size) in
              let ih =
                load_loop-Loads (index + 1) lines (set table index c) end last
                  (length-set table index c ∙ size) rest in
              record {
                counted = omega (arith, ih.counted);
                kept = λ j lt.
                    ih.kept j (omega arith)
                    ∙ get_elem?-set_ne table c (λ same. omega (arith, same));
                slots = λ i l h.
                    HasSlot-cons end index line lines
                      (
                        c,
                        ih.kept index (omega arith) ∙ get_elem?-set_self table index c below,
                        refl,
                      )
                      ih.slots i l h;
              }
        ]
      ]

  started-slots :
      (lines : List Line) (bus : Bus) (r : Loaded)
      → load_loop names getservbyname 0 lines no_controllers ≡ r
      → started r ≡ ready bus
      → (bus.last_controller_socket ≡ length lines)
        × ((i : ℕ) (line : Line) → get_elem? lines i ≡ some line → HasSlot bus.connections i line)
  unfolding started
  started-slots lines bus fault f g = absurd (ground (arith, g))
  started-slots lines bus trying f g = absurd (ground (arith, g))
  started-slots lines bus (loaded table last) f g =
      let loads = load_loop-Loads 0 lines no_controllers table last refl f in
      let count : last ≡ bus.last_controller_socket = ground (arith, g) in
      let same : table ≡ bus.connections = ground (arith, g) in
      (
        omega (arith, loads.counted, count),
        λ i line h.
            let place : 0 + i ≡ i = omega arith in
            rw (sym same) (rw (sym place) (loads.slots i line h)),
      )

  -- When `initialize_broadcast` ends well, there are as many controllers as lines in the file, and the
  -- slot of each line has the address that stands in it, without the last character of the line.
  pub initialize_broadcast-slots :
      (lines : List Line) (bus : Bus)
      → initialize_broadcast names getservbyname true (some lines) ≡ ready bus
      → (bus.last_controller_socket ≡ length lines)
        × ((i : ℕ) (line : Line) → get_elem? lines i ≡ some line → HasSlot bus.connections i line)
  unfolding initialize_broadcast
  initialize_broadcast-slots lines bus e =
      started-slots lines bus (load_loop names getservbyname 0 lines no_controllers) refl e

  connect_line-unknown :
      (text : String) (sockets : List (Option ℕ))
      → atoaddr names text ≡ none
      → connect_line names getservbyname text sockets ≡ none
  unfolding connect_line
  connect_line-unknown text [] unknown = refl
  connect_line-unknown text (socket ∷ sockets) unknown =
      let e =
        make_connection-unknown names getservbyname (pos global_controller_port) dgram text socket
          true [] unknown in
      rw (e, connect_line) (connect_line-unknown text sockets unknown)

  load_loop-unknown :
      (i index : ℕ) (line : Line) (lines : List Line) (table end : List Connection) (last : ℕ)
      → get_elem? lines i ≡ some line
      → atoaddr names line.text ≡ none
      → load_loop names getservbyname index lines table ≢ loaded end last
  unfolding load_loop
  load_loop-unknown i index line [] table end last h unknown e = absurd (ground (arith, h))
  load_loop-unknown zero index line (l ∷ lines) table end last h unknown e =
      let same : line ≡ l = cc in
      let f = connect_line-unknown l.text l.sockets ((rw same at unknown)) in
      let wrong : trying ≡ loaded end last = rw (f, load_loop) at e in cc
  load_loop-unknown (suc i) index line (l ∷ lines) table end last h unknown e =
      elim (Option-cases (connect_line names getservbyname l.text l.sockets)) [
        | inl f ↦ let wrong : trying ≡ loaded end last = rw (f, load_loop) at e in cc
        | inr (fd, f) ↦ elim (Bool-cases (ltb index max_controllers)) [
          | inr g ↦ let wrong : fault ≡ loaded end last = rw (f, g, load_loop) at e in cc
          | inl g ↦
              load_loop-unknown i (index + 1) line lines
                (set table index
                  (record { ip = all_but_last l.text; socket = pos fd; value = pos 0 }))
                end last h unknown (rw (f, g, load_loop) at e)
        ]
      ]

  started-unknown :
      (r : Loaded) (bus : Bus)
      → ((end : List Connection) (last : ℕ) → r ≢ loaded end last)
      → started r ≢ ready bus
  unfolding started
  started-unknown fault bus h e = cc
  started-unknown trying bus h e = cc
  started-unknown (loaded table last) bus h e = h table last refl

  -- A line whose address is not known, anywhere in the file, keeps `initialize_broadcast` from ending
  -- well, however often it tries.
  pub initialize_broadcast-unknown :
      (i : ℕ) (line : Line) (lines : List Line) (bus : Bus)
      → get_elem? lines i ≡ some line
      → atoaddr names line.text ≡ none
      → initialize_broadcast names getservbyname true (some lines) ≢ ready bus
  unfolding initialize_broadcast
  initialize_broadcast-unknown i line lines bus h unknown =
      started-unknown (load_loop names getservbyname 0 lines no_controllers) bus
        (λ end last. load_loop-unknown i 0 line lines no_controllers end last h unknown)
