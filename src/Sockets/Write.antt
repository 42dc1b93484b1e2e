-- ===== src/Sockets/Write.antt =====
-- `sock_write`: what has gone out when it returns, and when it does return.
use a2pm.Common.{
  ℕ, ◌+◌, ◌-◌, ◌≤◌, ◌<◌, min, ◌≡◌, ◌≢◌, ◌⊎◌, refl, ap, ◌∙◌, sym, inl, inr, arith, false, Option,
  none, some, List, [], ◌∷◌, ◌++◌, ltb, ◌==◌, Bool-cases, length, take, drop, length-drop,
  take-append-drop,
}
use mathlib.Core.List.{append_assoc, append-nil}
use a2pm.Common.Int.{ℤ, pos, negsuc}
use a2pm.Sockets.{Outcome, moved, failed, Wrote, eintr, write_loop, sock_write}

-- The system took a prefix of the buffer; all of it, if the status is the full count.
pub record Exact (count : ℕ) (buf : List ℕ) (w : Wrote) : Type 0 where
  pub unsent : List ℕ
  pub prefix : w.sent ++ unsent ≡ buf
  pub whole : w.status ≡ some (pos count) → 0 < count → unsent ≡ []

nil_of_length : (buf : List ℕ) (n m : ℕ) → length buf + n ≡ m → ltb n m ≡ false → buf ≡ []
nil_of_length [] n m h e = refl
nil_of_length (b ∷ buf) n m h e = absurd (ground arith)

Exact-nothing :
    {count : ℕ} {buf : List ℕ} {status : Option ℤ} {rest : List Outcome}
    → (status ≢ some (pos count)) ⊎ (buf ≡ [])
    → Exact count buf (record { status = status; sent = []; rest = rest })
Exact-nothing {buf} (inl other) = record {
  unsent = buf;
  prefix = refl;
  whole = λ e h. absurd (other e);
}
Exact-nothing {buf} (inr e) = record { unsent = buf; prefix = refl; whole = λ _ h. e }

Exact-before :
    (n : ℕ) {count : ℕ} {buf : List ℕ} {w : Wrote}
    → Exact count (drop n buf) w
    → Exact count buf (record w { sent = take n buf ++ w.sent })
Exact-before n {buf} {w} x = record {
  unsent = x.unsent;
  prefix =
      append_assoc (take n buf) w.sent x.unsent
      ∙ (ap (λ r. take n buf ++ r) x.prefix ∙ take-append-drop n buf);
  whole = x.whole;
}

write_loop-Exact :
    (count : ℕ) (script : List Outcome) (bytes_sent : ℕ) (buf : List ℕ)
    → length buf + bytes_sent ≡ count
    → Exact count buf (write_loop count script bytes_sent buf)
unfolding write_loop
write_loop-Exact count [] n buf h = elim (Bool-cases (ltb n count)) [
  | inl more ↦ rw more (Exact-nothing (inl (λ e. cc)))
  | inr over ↦ rw over (Exact-nothing (inr (nil_of_length buf n count h over)))
]
write_loop-Exact count (moved k ∷ script) n buf h = elim (Bool-cases (ltb n count)) [
  | inl more ↦ rw more (elim (Bool-cases (min k (count - n) == 0)) [
    | inl stuck ↦ rw stuck (Exact-nothing (inl (λ e. ground arith)))
    | inr some_sent ↦ rw some_sent (
        Exact-before (min k (count - n)) (
          write_loop-Exact count script (n + min k (count - n)) (drop (min k (count - n)) buf)
            (omega (arith, length-drop (min k (count - n)) buf))))
  ])
  | inr over ↦ rw over (Exact-nothing (inr (nil_of_length buf n count h over)))
]
write_loop-Exact count (failed errno ∷ script) n buf h = elim (Bool-cases (ltb n count)) [
  | inl more ↦ rw more (elim (Bool-cases (errno == eintr)) [
    | inl interrupted ↦ rw interrupted (write_loop-Exact count script n buf h)
    | inr broken ↦ rw broken (Exact-nothing (inl (λ e. cc)))
  ])
  | inr over ↦ rw over (Exact-nothing (inr (nil_of_length buf n count h over)))
]

-- Whatever the system calls do, the bytes that `sock_write` has sent of a buffer of `count` bytes
-- are a prefix of it, in order and none twice; they are the whole of it if the status is the
-- (positive) count.
pub sock_write-Exact :
    (script : List Outcome) (buf : List ℕ) (count : ℕ)
    → length buf ≡ count
    → Exact count buf (sock_write script buf count)
unfolding sock_write
sock_write-Exact script buf count h = write_loop-Exact count script 0 buf (omega arith)

abbrev pub IsStatus : ℕ → Option ℤ → Type 0
IsStatus count status =
    (status ≡ none)
    ⊎ ((status ≡ some (pos count)) ⊎ ((status ≡ some (pos 0)) ⊎ (status ≡ some (negsuc 0))))

write_loop-status :
    (count : ℕ) (script : List Outcome) (bytes_sent : ℕ) (buf : List ℕ)
    → IsStatus count (write_loop count script bytes_sent buf).status
unfolding write_loop
write_loop-status count [] n buf = ground arith
write_loop-status count (moved k ∷ script) n buf =
    ground
      (arith, write_loop-status count script (n + min k (count - n)) (drop (min k (count - n)) buf))
write_loop-status count (failed errno ∷ script) n buf =
    ground (arith, write_loop-status count script n buf)

-- `sock_write` returns the count, 0 or -1, if it returns.
pub sock_write-status :
    (script : List Outcome) (buf : List ℕ) (count : ℕ)
    → IsStatus count (sock_write script buf count).status
unfolding sock_write
sock_write-status script buf count = write_loop-status count script 0 buf

pub Exact-sent :
    {count : ℕ} {buf : List ℕ} {w : Wrote}
    → Exact count buf w
    → w.status ≡ some (pos count)
    → 0 < count
    → w.sent ≡ buf
Exact-sent {w = w} x done more =
    sym (append-nil w.sent) ∙ (ap (λ r. w.sent ++ r) (sym (x.whole done more)) ∙ x.prefix)

-- Each call takes at least a byte or is interrupted by a signal.
abbrev pub IsHealthy : List Outcome → Type 0
IsHealthy [] = Unit {0}
IsHealthy (moved k ∷ script) = (0 < k) × IsHealthy script
IsHealthy (failed errno ∷ script) = (errno ≡ eintr) × IsHealthy script

-- The number of bytes that the calls can take.
abbrev pub progress : List Outcome → ℕ
progress [] = 0
progress (moved k ∷ script) = k + progress script
progress (failed errno ∷ script) = progress script

write_loop-returns :
    (count : ℕ) (script : List Outcome) (bytes_sent : ℕ) (buf : List ℕ)
    → IsHealthy script
    → count ≤ progress script + bytes_sent
    → (write_loop count script bytes_sent buf).status ≡ some (pos count)
unfolding write_loop
write_loop-returns count [] n buf ok h = ground arith
write_loop-returns count (moved k ∷ script) n buf ok h = ground (
  arith,
  write_loop-returns count script (n + min k (count - n)) (drop (min k (count - n)) buf) ok.1,
  write_loop-returns count script count (drop (min k (count - n)) buf) ok.1,
)
write_loop-returns count (failed errno ∷ script) n buf ok h =
    ground (arith, write_loop-returns count script n buf ok.1)

-- If every call takes a byte or more or is interrupted, and the calls can take `count` bytes
-- together, `sock_write` returns `count`, with every byte of the buffer sent.
pub sock_write-all :
    (script : List Outcome) (buf : List ℕ) (count : ℕ)
    → length buf ≡ count
    → 0 < count
    → IsHealthy script
    → count ≤ progress script
    → ((sock_write script buf count).status ≡ some (pos count))
      × ((sock_write script buf count).sent ≡ buf)
unfolding sock_write
sock_write-all script buf count h more ok enough =
    let done = write_loop-returns count script 0 buf ok (omega arith) in
    (done, Exact-sent (write_loop-Exact count script 0 buf (omega arith)) done more)

write_loop-healthy :
    (count : ℕ) (script : List Outcome) (bytes_sent : ℕ) (buf : List ℕ)
    → IsHealthy script
    → ((write_loop count script bytes_sent buf).status ≡ none)
      ⊎ ((write_loop count script bytes_sent buf).status ≡ some (pos count))
unfolding write_loop
write_loop-healthy count [] n buf ok = ground arith
write_loop-healthy count (moved k ∷ script) n buf ok = ground (
  arith,
  write_loop-healthy count script (n + min k (count - n)) (drop (min k (count - n)) buf) ok.1,
)
write_loop-healthy count (failed errno ∷ script) n buf ok =
    ground (arith, write_loop-healthy count script n buf ok.1)

-- A healthy script that returns has sent the buffer.
pub sock_write-healthy :
    (script : List Outcome) (buf : List ℕ)
    → 0 < length buf
    → IsHealthy script
    → ((sock_write script buf (length buf)).status ≡ none)
      ⊎ (((sock_write script buf (length buf)).status ≡ some (pos (length buf)))
          × ((sock_write script buf (length buf)).sent ≡ buf))
unfolding sock_write
sock_write-healthy script buf more ok = elim (write_loop-healthy (length buf) script 0 buf ok) [
  | inl wait ↦ inl wait
  | inr done ↦
      inr (done, Exact-sent (write_loop-Exact (length buf) script 0 buf (omega arith)) done more)
]

-- A first call that fails, and not for a signal, sends nothing.
pub sock_write-fails :
    (errno : ℕ) (buf : List ℕ)
    → 0 < length buf
    → errno ≢ eintr
    → ((sock_write (failed errno ∷ []) buf (length buf)).status ≡ some (negsuc 0))
      × ((sock_write (failed errno ∷ []) buf (length buf)).sent ≡ [])
unfolding sock_write write_loop
sock_write-fails errno buf more hard = ground arith
