-- ===== src/Examples/Daemon.antt =====
-- The daemon's queues and its switch at concrete values.
use quadrf_mesh.Base.{
  ℕ, zero, suc, ◌+◌, ◌-◌, ◌^◌, ◌≡◌, ◌≢◌, refl, arith, true, false, inr, some, List, [], ◌∷◌, ◌++◌,
  drop, ◌==◌, if◌then◌else◌,
}
use quadrf_mesh.Base.Words.{u64}
use quadrf_mesh.Daemon.Queues.{max_chunks, ChunkQueue, remember_tx, is_recent_tx_echo}
use quadrf_mesh.Daemon.QueueLaws.{
  push_all, push_all_lem, remember_all, is_recent_tx_echo-remember_all,
}
use quadrf_mesh.Daemon.Switch.{RfDriver, SwitchState, SwitchOptions, mute_tx_rf}
use quadrf_mesh.Daemon.SwitchLaws.{Registers, unmute_times, Sending, Listening, unmute_times-mute}

abbrev numbered_chunks : ℕ → List (List ℕ)
numbered_chunks zero = []
numbered_chunks (suc n) = (n ∷ []) ∷ numbered_chunks n

-- One chunk short of full, and a counter about to wrap.
abbrev nearly_full : ChunkQueue ℕ
nearly_full = record { q = numbered_chunks 31; dropped = 2 ^ 64 - 1 }

abbrev chunks : List (List ℕ)
chunks = (3 ∷ []) ∷ (4 ∷ []) ∷ (5 ∷ []) ∷ []

push_all_lem_example :
    ((push_all chunks nearly_full).q ≡ drop (31 + 3 - max_chunks) (numbered_chunks 31 ++ chunks))
    × ((push_all chunks nearly_full).dropped ≡ u64 (2 ^ 64 - 1 + (31 + 3 - max_chunks)))
push_all_lem_example = push_all_lem chunks nearly_full (omega arith) (omega arith)

is_recent_tx_echo-remember_all_example :
    is_recent_tx_echo (7 ∷ 8 ∷ []) (remember_all chunks (remember_tx (7 ∷ 8 ∷ []) chunks)) ≡ true
is_recent_tx_echo-remember_all_example =
    is_recent_tx_echo-remember_all (7 ∷ 8 ∷ []) chunks chunks (omega arith)

abbrev put_register : ℕ → ℕ → (ℕ → ℕ) → ℕ → ℕ
put_register a v regs c = if c == a then v else regs c

abbrev register_file : RfDriver (ℕ → ℕ)
register_file = record {
  reg_read = λ a regs. some (regs a, regs);
  reg_write = λ a v regs. some (put_register a v regs);
}

register_sets : (a v : ℕ) (regs : ℕ → ℕ) → put_register a v regs a ≡ v
register_sets a v regs = ground arith

register_leaves : (a c v : ℕ) (regs : ℕ → ℕ) → a ≢ c → put_register a v regs c ≡ regs c
register_leaves a c v regs ne = ground (arith, ne)

abbrev registers : Registers register_file
registers = record {
  reg = λ a regs. regs a;
  put = put_register;
  writes = λ a v regs. refl;
  sets = register_sets;
  leaves = register_leaves;
  reads = λ a regs. inr refl;
}

abbrev options : SwitchOptions
options = record { ota = true; rx_only = false; rx_gain = 80 }

abbrev listening : SwitchState (ℕ → ℕ)
listening = record { device = λ a. 24; tx_unmuted = false; rx_gain_restore = 30 }

unmute_times-mute_example :
    let t = unmute_times register_file options 3 listening in
    Sending register_file registers options refl t
    × Listening register_file registers options refl (λ a. 24) (mute_tx_rf register_file options t)
unmute_times-mute_example = unmute_times-mute register_file registers options refl 2 listening refl
