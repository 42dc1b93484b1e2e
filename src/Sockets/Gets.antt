-- ===== src/Sockets/Gets.antt =====
-- `sock_gets`: a whole line is consumed, and what is stored of it.
use mathlib.Core.List.{append_assoc, append-nil}
use a2pm.Common.{
  ℕ, zero, suc, ◌+◌, ◌-◌, ◌≤◌, ◌<◌, ◌≡◌, ◌≢◌, refl, ap, ◌∙◌, sym, inl, inr, arith, some, List, [],
  ◌∷◌, ◌++◌, ◌==◌, if◌then◌else◌, Bool-cases, length, take, lt→ltb, ltb→lt, false, length-append,
  ltb,
}
use a2pm.Common.Int.{pos}
use a2pm.Sockets.{ByteRead, byte, Line, gets_loop, sock_gets}

-- The line without its carriage returns.
abbrev pub drop_cr : List ℕ → List ℕ
drop_cr [] = []
drop_cr (b ∷ bs) = if b == 13 then drop_cr bs else b ∷ drop_cr bs

abbrev pub HasNoLf : List ℕ → Type 0
HasNoLf [] = Unit {0}
HasNoLf (b ∷ bs) = (b ≢ 10) × HasNoLf bs

-- The line as it comes in, and what comes after it.
abbrev pub incoming : List ℕ → List ByteRead → List ByteRead
incoming [] rest = byte 10 ∷ rest
incoming (b ∷ bs) rest = byte b ∷ incoming bs rest

abbrev pub stored : ℕ → List ℕ → List ℕ
stored count line = take count (drop_cr line)

abbrev pub line_of : List ℕ → List ByteRead → Line
line_of str rest = record { status = some (pos (length str)); written = str ++ 0 ∷ []; rest = rest }

take-step :
    (n : ℕ) (b : ℕ) (bs : List ℕ) (m : ℕ)
    → m < n
    → take (n - m) (b ∷ bs) ≡ b ∷ take (n - (m + 1)) bs
take-step n b bs m h = let e : n - m ≡ suc (n - (m + 1)) = omega arith in rw e

take-none : (n : ℕ) (bs : List ℕ) (m : ℕ) → n ≤ m → take (n - m) bs ≡ []
take-none n bs m h = let e : n - m ≡ 0 = omega arith in rw e

take-empty : (n : ℕ) → take {A = ℕ} n [] ≡ []
take-empty zero = refl
take-empty (suc n) = refl

length-take_of_le : (n : ℕ) (xs : List ℕ) → n ≤ length xs → length (take n xs) ≡ n
length-take_of_le zero xs h = refl
length-take_of_le (suc n) [] h = absurd (omega arith)
length-take_of_le (suc n) (x ∷ xs) h = omega (arith, length-take_of_le n xs)

gets_loop_lem :
    (count : ℕ) (line : List ℕ) (rest : List ByteRead) (total_count : ℕ) (str : List ℕ)
    → HasNoLf line
    → 0 < count
    → total_count ≡ length str
    → gets_loop count (incoming line rest) total_count str
      ≡ line_of (str ++ take (count - total_count) (drop_cr line)) rest
unfolding gets_loop
gets_loop_lem count [] rest n str ok h e =
    let nothing =
      ap (λ t. line_of t rest)
        (sym (append-nil str) ∙ ap (λ t. str ++ t) (sym (take-empty (count - n)))) in
    rw (lt→ltb 0 count h) (elim (Bool-cases (ltb n count)) [
      | inl room ↦ rw (room, e) (rw e at nothing)
      | inr full ↦ rw (full, e) (rw e at nothing)
    ])
gets_loop_lem count (b ∷ line) rest n str ok h e =
    let other : (b == 10) ≡ false = ground (arith, ok.0) in
    rw other (elim (Bool-cases (ltb n count)) [
      | inl room ↦ rw room (elim (Bool-cases (b == 13)) [
        | inl cr ↦ rw cr (gets_loop_lem count line rest n str ok.1 h e)
        | inr kept ↦ rw kept (
            gets_loop_lem count line rest (n + 1) (str ++ b ∷ []) ok.1 h
              (omega (arith, length-append str (b ∷ [])))
            ∙ ap (λ t. line_of t rest)
                (append_assoc str (b ∷ []) (take (count - (n + 1)) (drop_cr line))
                  ∙ ap (λ t. str ++ t)
                      (sym (take-step count b (drop_cr line) n (ltb→lt n count room)))))
      ])
      | inr full ↦ rw full (
          gets_loop_lem count line rest n str ok.1 h e
          ∙ ap (λ t. line_of (str ++ t) rest)
              (take-none count (drop_cr line) n (ground arith)
                ∙ sym (take-none count (drop_cr (b ∷ line)) n (ground arith))))
    ])

-- A line that the other side ends by a line feed is consumed whole and nothing after it; what is
-- stored is the line without its carriage returns, cut to `count` bytes, and a terminator, and the
-- status is the number of bytes before the terminator.
pub sock_gets-line :
    (line : List ℕ) (rest : List ByteRead) (count : ℕ)
    → HasNoLf line
    → 0 < count
    → sock_gets (incoming line rest) count ≡ line_of (take count (drop_cr line)) rest
unfolding sock_gets
sock_gets-line line rest count ok h =
    gets_loop_lem count line rest 0 [] ok h refl
    ∙ (let whole : count - 0 ≡ count = omega arith in
        ap (λ n. line_of (take n (drop_cr line)) rest) whole)

-- On a buffer of `count` bytes, a line of `count` bytes or more (carriage returns not counted) makes
-- `sock_gets` store `count + 1` bytes: the terminator goes past the end.
pub sock_gets-overflow :
    (line : List ℕ) (rest : List ByteRead) (count : ℕ)
    → HasNoLf line
    → 0 < count
    → count ≤ length (drop_cr line)
    → length (sock_gets (incoming line rest) count).written ≡ count + 1
sock_gets-overflow line rest count ok h long = rw (sock_gets-line line rest count ok h) (
    omega (
      arith,
      length-append (take count (drop_cr line)) (0 ∷ []),
      length-take_of_le count (drop_cr line) long,
    ))
