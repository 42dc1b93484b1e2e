-- ===== src/Sockets/Read.antt =====
-- `sock_read`: no byte of the stream is lost or read twice.
use mathlib.Core.List.{append_assoc}
use a2pm.Common.{
  ℕ, ◌≤◌, ◌≡◌, ◌⊎◌, refl, ap, ◌∙◌, sym, inl, inr, arith, some, none, List, [], ◌∷◌, ◌++◌, ◌==◌,
  Bool-cases, length, take, drop, take-append-drop, zero, suc,
}
use a2pm.Common.Int.{pos, negsuc}
use a2pm.Sockets.{
  Arrival, arrived, failed, Readout, eintr, ewouldblock, not_available, keep, sock_read,
}

-- The bytes that the other side sends in all.
abbrev pub stream : List Arrival → List ℕ
stream [] = []
stream (arrived bytes ∷ script) = bytes ++ stream script
stream (failed errno ∷ script) = stream script

-- The status counts the bytes received, or says that nothing was, for want of data or by an error.
pub record IsRead (count : ℕ) (script : List Arrival) (r : Readout) : Type 0 where
  pub conserved : r.received ++ stream r.rest ≡ stream script
  pub fits : length r.received ≤ count
  pub counted :
      (r.status ≡ some (pos (length r.received)))
      ⊎ ((r.received ≡ [])
          × ((r.status ≡ none) ⊎ ((r.status ≡ some not_available) ⊎ (r.status ≡ some (negsuc 0)))))

stream-keep :
    (bytes : List ℕ) (script : List Arrival) → stream (keep bytes script) ≡ bytes ++ stream script
stream-keep [] script = refl
stream-keep (b ∷ bytes) script = refl

length-take_le : (n : ℕ) (xs : List ℕ) → length (take n xs) ≤ n
length-take_le zero xs = omega arith
length-take_le (suc n) [] = omega arith
length-take_le (suc n) (x ∷ xs) = omega (arith, length-take_le n xs)

-- On every branch of `sock_read`, interrupted calls included: what was received, followed by what is
-- left to read, is the stream as it was; at most `count` bytes are received, and the status is their
-- number, or says that there were none.
pub sock_read-IsRead :
    (script : List Arrival) (count : ℕ) → IsRead count script (sock_read script count)
unfolding sock_read
sock_read-IsRead [] count = record {
  conserved = refl;
  fits = omega arith;
  counted = inr (refl, inl refl);
}
sock_read-IsRead (arrived bytes ∷ script) count = record {
  conserved =
      ap (λ r. take count bytes ++ r) (stream-keep (drop count bytes) script)
      ∙ (sym (append_assoc (take count bytes) (drop count bytes) (stream script))
          ∙ ap (λ r. r ++ stream script) (take-append-drop count bytes));
  fits = length-take_le count bytes;
  counted = inl refl;
}
sock_read-IsRead (failed errno ∷ script) count = elim (Bool-cases (errno == eintr)) [
  | inl interrupted ↦ rw interrupted (again (sock_read-IsRead script count))
  | inr broken ↦ rw broken (elim (Bool-cases (errno == ewouldblock)) [
    | inl empty ↦
        rw empty
          (record { conserved = refl; fits = omega arith; counted = inr (refl, inr (inl refl)) })
    | inr error ↦
        rw error
          (record { conserved = refl; fits = omega arith; counted = inr (refl, inr (inr refl)) })
  ])
]
  where
    again :
        IsRead count script (sock_read script count)
        → IsRead count (failed errno ∷ script) (sock_read script count)
    again r = record { conserved = r.conserved; fits = r.fits; counted = r.counted }
