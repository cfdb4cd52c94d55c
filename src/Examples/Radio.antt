-- ===== src/Examples/Radio.antt =====
-- The synthesizers at a bank of registers that answers as the chips do.
use quadrf_mesh.Base.{
  ℕ, ◌+◌, ◌*◌, ◌/◌, ◌%◌, ◌≤◌, ◌<◌, ◌≡◌, ◌≢◌, refl, ap, ◌∙◌, arith, inl, inr, Bool, true, false,
  ◌&&◌, none, some, ltb, ◌==◌, if◌then◌else◌, Bool-cases,
}
use quadrf_mesh.Base.Bits.{bit_or-high_low}
use quadrf_mesh.Radio.Words.{hz, word}
use quadrf_mesh.Radio.Rounding.{word_lem}
use quadrf_mesh.Radio.Access.{rx_chip, leased, Driver, read_command, read_lo, program_lo}
use quadrf_mesh.Daemon.LoFollow.{Following, read_both, poll_lo_follow}
use quadrf_mesh.Daemon.LoFollowLaws.{tx_seen, rx_seen, TunedTo, poll_lo_follow_lem}
use quadrf_mesh.Radio.Access.{
  after_main15, after_main16, after_main17, read_main, write, read, is_plausible, open_transaction,
  attached_ok, address,
}
use quadrf_mesh.Radio.Words.{synth_lo, ref}
use quadrf_mesh.Base.{◌||◌}
use quadrf_mesh.Radio.Chip.{Works, read_lo-program_lo}

record Bank : Type 0 where
  regs : ℕ → ℕ → ℕ
  selected : ℕ → ℕ

-- A word below 0x8000 sets a register, the others select one.
put_word : ℕ → ℕ → Bank → Bank
put_word a v b =
    if ltb v 32768
    then record b { regs = λ c r. if c == a && r == v / 1024 then v % 1024 else b.regs c r }
    else record b { selected = λ c. if c == a then v / 1024 % 32 else b.selected c }

abbrev bank : Driver Bank
bank = record {
  attach = λ b. leased;
  reg_write = λ a v b. some (put_word a v b);
  reg_read = λ a b. some (b.regs a (b.selected a), b);
}

bank-sets : (a q d : ℕ) (b : Bank) → q < 32 → (put_word a (word q d) b).regs a q ≡ d % 1024
unfolding put_word
bank-sets a q d b small =
    let same = word_lem q d (omega arith) in
    let low : ltb (word q d) 32768 ≡ true = ground (arith, same) in
    let hit : (a == a && q == word q d / 1024) ≡ true = ground (arith, same) in
    rw (low, hit) (omega (arith, same))

bank-leaves :
    (a q r d : ℕ) (b : Bank) → q < 32 → q ≢ r → (put_word a (word q d) b).regs a r ≡ b.regs a r
unfolding put_word
bank-leaves a q r d b small ne =
    let same = word_lem q d (omega arith) in
    let low : ltb (word q d) 32768 ≡ true = ground (arith, same) in
    let other : (r == word q d / 1024) ≡ false = elim (Bool-cases (r == word q d / 1024)) [
      | inl e ↦ absurd (ne (ground (arith, e, same)))
      | inr e ↦ e
    ] in
    rw (low, other) (no_hit (a == a))
  where
    no_hit : (c : Bool) → (if c && false then word q d % 1024 else b.regs a r) ≡ b.regs a r
    no_hit true = refl
    no_hit false = refl

command_lem : (q : ℕ) → read_command q ≡ (32 + q % 32) * 1024
unfolding read_command
command_lem q =
    let whole = bit_or-high_low 15 1 (q % 32 * 1024) (omega arith) in omega (arith, whole)

bank-selects :
    (a q : ℕ) (b : Bank)
    → put_word a (read_command q) b
      ≡ record b { selected = λ c. if c == a then q % 32 else b.selected c }
unfolding put_word
bank-selects a q b =
    let same = command_lem q in
    let high : ltb (read_command q) 32768 ≡ false = ground (arith, same) in
    let reg : read_command q / 1024 % 32 ≡ q % 32 = omega (arith, same) in rw (high, reg) refl

bank-reads :
    (a q : ℕ) (b : Bank)
    → q < 32
    → (put_word a (read_command q) b).regs a ((put_word a (read_command q) b).selected a)
      ≡ b.regs a q
bank-reads a q b small =
    let own : (a == a) ≡ true = ground arith in
    let whole : q % 32 ≡ q = omega arith in
    ap (λ (c : Bank). c.regs a (c.selected a)) (bank-selects a q b) ∙ rw (own, whole) refl

abbrev bank-Works : Works bank
bank-Works = record {
  reg = λ a r b. b.regs a r;
  put = put_word;
  under_lease = λ b. refl;
  writes = λ a v b. refl;
  sets = bank-sets;
  leaves = bank-leaves;
  selects = λ a q r b. ap (λ (c : Bank). c.regs a r) (bank-selects a q b);
  reads = λ a q b small dout.
      ap (λ v. some (v, put_word a (read_command q) b)) (bank-reads a q b small);
}

abbrev at_reset : Bank
at_reset = record { regs = λ a r. 0; selected = λ a. 0 }

abbrev channel : ℕ
channel = 5799500000 * hz

read_lo-program_lo_example :
    let r = program_lo bank rx_chip channel (some 10) none at_reset in
    (r.0 ≡ true)
    × ((n : ℕ) × ((read_lo bank rx_chip false r.1).0 ≡ some (n, 0, 0))
        × (n ≤ channel + 40000000)
        × (channel ≤ n + 40000000))
read_lo-program_lo_example =
    read_lo-program_lo bank bank-Works rx_chip channel (some 10) none at_reset (omega arith)

bank-apart : (a c r v : ℕ) (b : Bank) → a ≢ c → (put_word a v b).regs c r ≡ b.regs c r
unfolding put_word
bank-apart a c r v b ne =
    let other : (c == a) ≡ false = ground (arith, ne) in
    elim (Bool-cases (ltb v 32768)) [ inl low ↦ rw (low, other) refl | inr high ↦ rw high refl ]

-- Chips whose registers are all 584: bit 9 set, and an integer part of 72.
abbrev moved_chips : Bank
moved_chips = record { regs = λ a r. 584; selected = λ a. 0 }

abbrev following : Following Bank
following = record {
  follower = record {
    channel = 5800000000 * hz;
    intermediate = 500000 * hz;
    tolerance = 5000 * hz;
    tx_expect = 5800000000 * hz;
    rx_expect = 5799500000 * hz;
  };
  lo_primed = true;
  tx_unmuted = false;
  center_hz = 5800000000;
  device = moved_chips;
}

abbrev lo_seen : ℕ
lo_seen = synth_lo 584 584 584

bank_reads : (read_both bank moved_chips).0 ≡ some (lo_seen, lo_seen, 584, 584)
unfolding read_both read_lo after_main15 after_main16 after_main17 read_main write read is_plausible
    open_transaction attached_ok put_word word read_command address
bank_reads = refl

in_range : (b : Bool) → (if b then lo_seen else lo_seen) + 40000000 < 128 * ref
unfolding synth_lo
in_range true = omega arith
in_range false = omega arith

poll_lo_follow_lem_example :
    let t = poll_lo_follow bank (λ lo. lo / hz) 10 65 following in
    (false ≡ true → t ≡ following)
    × (false ≡ false
        → ((tx_seen following lo_seen || rx_seen following lo_seen) ≡ false
            → t ≡ record following { device = (read_both bank moved_chips).1 })
          × ((tx_seen following lo_seen || rx_seen following lo_seen) ≡ true
              → TunedTo bank
                  (λ lo. lo / hz)
                  (if tx_seen following lo_seen then lo_seen else lo_seen)
                  t))
poll_lo_follow_lem_example =
    poll_lo_follow_lem bank (λ lo. lo / hz) 10 65 bank-Works bank-apart lo_seen lo_seen 584 584
      following refl bank_reads (in_range (tx_seen following lo_seen))
