-- ===== src/Tests/Client.antt =====
-- Runs of controller/client.c.
use a2pm.Common.{
  ℕ, zero, suc, ◌-◌, ◌*◌, ◌/◌, ◌≡◌, ◌↔◌, refl, ap, true, none, some, List, [], ◌∷◌, length,
  replicate,
}
use a2pm.Common.Text.{same_text}
use a2pm.Common.Formats.{Formats}
use a2pm.Controller.{active}
use a2pm.Controller.Accept.{handshake}
use a2pm.Client.{VmService, Turn, text, connected, wait_for_ack, rebooted, obey}
use a2pm.Client.Handshake.{
  acknowledge, as_received, rounds, answers, agreed, wait_for_ack-handshake,
}
use a2pm.Client.Commands.{ToReboot, obey-ToReboot}
use a2pm.Client.Features.{Float, Stat, System}
use a2pm.Client.Totals.{HasNoEof}

abbrev seventh : VmService
seventh = record { service = 7; state = active }

wait_for_ack-handshake_example :
    agreed 0 (wait_for_ack seventh (rounds seventh (9 ∷ 2 ∷ [])))
    ≡ handshake (as_received 0 seventh) (answers 0 seventh (9 ∷ 2 ∷ []))
wait_for_ack-handshake_example = wait_for_ack-handshake 0 seventh (9 ∷ 2 ∷ [])

agreed_on_second :
    wait_for_ack seventh (rounds seventh (9 ∷ 2 ∷ [])) ≡ connected (record seventh { service = 2 })
unfolding wait_for_ack same_text acknowledge
agreed_on_second = refl

abbrev turn_with : ℕ → ℕ → Turn
turn_with datapoint command = record {
  datapoint = some (datapoint ∷ []);
  is_sent = true;
  reply = text (command ∷ []);
}

abbrev three_turns : List Turn
three_turns = turn_with 65 1 ∷ turn_with 66 2 ∷ turn_with 67 1 ∷ []

obey-ToReboot_example :
    (obey [] three_turns ≡ rebooted ((65 ∷ []) ∷ (66 ∷ []) ∷ []))
    ↔ ToReboot three_turns ((65 ∷ []) ∷ (66 ∷ []) ∷ [])
obey-ToReboot_example = obey-ToReboot three_turns ((65 ∷ []) ∷ (66 ∷ []) ∷ [])

obey_three : obey [] three_turns ≡ rebooted ((65 ∷ []) ∷ (66 ∷ []) ∷ [])
unfolding obey
obey_three = refl

instance abbrev whole_float : Float ℕ
whole_float = record {
  of_ulong = λ n. n;
  minus = λ a b. a - b;
  hundred_times = λ a. 100 * a;
  over = λ a b. a / b;
}

instance abbrev plain_formats : Formats ℕ
plain_formats = record {
  sscanf_point = λ s. (none, none);
  sscanf_ints = λ n s. [];
  sscanf_doubles = λ n s. [];
  sprintf_double = λ x. x ∷ [];
  sprintf_ints = λ vs. vs;
  sprintf_doubles = λ vs. vs;
  count_line = λ n. n ∷ [];
  rounded = λ x. x;
}

abbrev stat_at : ℕ → Stat
stat_at n = record {
  cpu_user = n;
  cpu_nice = 0;
  cpu_system = n;
  cpu_idle = 2 * n;
  cpu_iowait = 0;
  dummy_a = 0;
  dummy_b = 0;
  cpu_steal = 0;
  dummy_c = 0;
  dummy_d = 0;
}

abbrev system_with : List ℕ → System ℕ
system_with meminfo = record {
  threads = some 120;
  time = 4;
  meminfo = some meminfo;
  stat_before = some (stat_at 10);
  stat_after = some (stat_at 20);
  scan_memory = λ s. 1000 ∷ 300 ∷ 20 ∷ 40 ∷ [];
  scan_swap = λ s. 500 ∷ 500 ∷ [];
  garbage = 9;
}

long_file : ℕ → List ℕ
long_file n = replicate n 65

long_file-HasNoEof : (n : ℕ) → HasNoEof (long_file n)
unfolding long_file
long_file-HasNoEof zero = tt
long_file-HasNoEof (suc n) = (refl, long_file-HasNoEof n)

length-long_file : (n : ℕ) → length (long_file n) ≡ n
unfolding long_file
length-long_file zero = refl
length-long_file (suc n) = ap suc (length-long_file n)
