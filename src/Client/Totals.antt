-- ===== src/Client/Totals.antt =====
-- `get_features` of client.c: the totals of what it writes, and the file that is too long for it.
use a2pm.Common.{
  ℕ, ◌+◌, ◌%◌, ◌^◌, ◌≤◌, ◌≡◌, refl, ap, arith, false, some, List, [], ◌∷◌, ltb, ◌==◌, length,
}
use a2pm.Common.Text.{codes}
use a2pm.Common.Formats.{Formats}
use a2pm.Client.Features.{
  Float, Stat, Features, System, Collected, aborted, exited, crashed, collected, ◌>>=◌, from,
  sub_int, bufsize, up_to_eof, read_meminfo, strstr, features_of, collect, get_features,
}

-- Used and free memory add up to the total, as the machine adds; and so does the swap space.
unfoldable pub IsBalanced : {W : Type 0} → Collected (Features W) → Type 0
IsBalanced aborted = Unit {0}
IsBalanced exited = Unit {0}
IsBalanced crashed = Unit {0}
IsBalanced (collected x) =
    ((x.values.mem_used + x.values.mem_free) % 2 ^ 32 ≡ x.mem_total % 2 ^ 32)
    × ((x.values.swap_used + x.values.swap_free) % 2 ^ 32 ≡ x.swap_total % 2 ^ 32)

sub_int-add : (a b : ℕ) → (sub_int a b + b) % 2 ^ 32 ≡ a % 2 ^ 32
sub_int-add a b = omega arith

>>=-IsBalanced :
    {A W : Type 0} (m : Collected A) (f : A → Collected (Features W))
    → ((x : A) → IsBalanced (f x))
    → IsBalanced (m >>= f)
unfolding IsBalanced
>>=-IsBalanced aborted f h = tt
>>=-IsBalanced exited f h = tt
>>=-IsBalanced crashed f h = tt
>>=-IsBalanced (collected x) f h = h x

module _ {W : Type 0} ⦃w : Float W⦄ where
  features_of-IsBalanced :
      (threads : ℕ) (time : W) (memory swap : List ℕ) (garbage : ℕ) (s1 s2 : Stat)
      → IsBalanced (collected (features_of threads time memory swap garbage s1 s2))
  unfolding IsBalanced features_of
  features_of-IsBalanced threads time memory swap garbage s1 s2 = (sub_int-add _ _, sub_int-add _ _)

  -- Whatever the system says, and whatever the locals held: if a datapoint is collected, its used and
  -- its free memory add up to the total, modulo 2 ^ 32, and its used and free swap space do.
  pub collect-IsBalanced : (sys : System W) → IsBalanced (collect sys)
  unfolding collect
  collect-IsBalanced sys = >>=-IsBalanced (from aborted sys.threads) _ λ threads.
      >>=-IsBalanced (from exited sys.meminfo) _ λ file.
        >>=-IsBalanced (read_meminfo file) _ λ text.
          >>=-IsBalanced (from crashed (strstr text (codes "SwapTotal:"))) _ λ swap.
            >>=-IsBalanced (from exited sys.stat_before) _ λ s1.
              >>=-IsBalanced (from exited sys.stat_after) _ λ s2.
                features_of-IsBalanced threads sys.time (sys.scan_memory text) (sys.scan_swap swap)
                  sys.garbage s1 s2

abbrev pub HasNoEof : List ℕ → Type 0
HasNoEof [] = Unit {0}
HasNoEof (c ∷ s) = ((c == 255) ≡ false) × HasNoEof s

up_to_eof_all : (s : List ℕ) → HasNoEof s → up_to_eof s ≡ s
up_to_eof_all [] h = refl
up_to_eof_all (c ∷ s) h = rw h.0 (ap (λ r. c ∷ r) (up_to_eof_all s h.1))

-- A /proc/meminfo of 4096 bytes or more, none of them 255, is written behind the end of the buffer.
pub get_features-overflow :
    {W : Type 0} ⦃w : Float W⦄ ⦃f : Formats W⦄ (sys : System W) (threads : ℕ) (file : List ℕ)
    → sys.threads ≡ some threads
    → sys.meminfo ≡ some file
    → HasNoEof file
    → bufsize ≤ length file
    → get_features sys ≡ crashed
unfolding get_features collect read_meminfo
get_features-overflow sys threads file e e' plain long =
    let outside : ltb (length file) bufsize ≡ false = ground arith in
    rw (e, e') (rw (up_to_eof_all file plain) (rw outside refl))
