-- ===== src/Stress/Flash.antt =====
-- The flash accesses of partition_cycle.
use dragon_bench.Common.{
  ℕ, zero, suc, ◌+◌, ◌/◌, ◌%◌, ◌≤◌, ◌^◌, ◌≡◌, ◌≢◌, refl, Bool, true, false, not, ◌==◌, Option, none,
  some, Text, length, arith, ltb, text_eq,
}
use dragon_bench.Prog.{
  Call, Reply, Partition, done, ask, running_partition, erase_range, flash_write, flash_read,
  fill_random, branch, on_option,
}
use dragon_bench.Prog.Protocol.{Protocol, Follows, Follows-branch, Follows-bind, Follows-weaken}
use dragon_bench.Stress.{
  Round, go_on, break_off, on_round, timed_loop, wrap_offset, flash_advance, flash_check,
  flash_body, partition_cycle, Cycle, io_block, flash_erase_block,
}

-- The running application's partition once it was asked for, the offset and the length of what was
-- erased last and not written since, and whether a flash call has failed.
pub record Chip : Type 0 where
  pub running : Option ℕ
  pub erased : Option (ℕ × ℕ)
  pub failed : Bool

-- An access inside a partition that is known not to be the running one.
pub record Inside (s : Chip) (p : Partition) (offset n : ℕ) : Type 0 where
  pub other : (r : ℕ) × (s.running ≡ some r) × (p.id ≢ r)
  pub within : offset + n ≤ p.size

abbrev pub FlashAllowed : Chip → Call → Type 0
FlashAllowed s (erase_range p offset n) = Inside s p offset n × (offset % 4096 ≡ 0)
FlashAllowed s (flash_write p offset block n) =
    Inside s p offset n × (n ≤ length block) × ((m : ℕ) × (s.erased ≡ some (offset, m)) × (n ≤ m))
FlashAllowed s (flash_read p offset n) = Inside s p offset n
FlashAllowed s _ = Unit {0}

abbrev pub or_fails : Bool → Bool → Bool
or_fails failed true = failed
or_fails failed false = true

abbrev pub chip_next : Chip → (c : Call) → Reply c → Chip
chip_next s running_partition r = record s { running = some r.id }
chip_next s (erase_range p offset n) r = record s {
  erased = some (offset, n);
  failed = or_fails s.failed r;
}
chip_next s (flash_write p offset block n) r = record s {
  erased = none;
  failed = or_fails s.failed r;
}
chip_next s (flash_read p offset n) none = record s { failed = true }
chip_next s (flash_read p offset n) (some block) = s
chip_next s _ r = s

-- esp_fill_random fills what it is given.
abbrev pub Filled : (c : Call) → Reply c → Type 0
Filled (fill_random n) block = length block ≡ n
Filled _ r = Unit {0}

abbrev pub flash_protocol : Protocol
flash_protocol = record {
  State = Chip;
  Allowed = FlashAllowed;
  Answers = λ s c r. Filled c r;
  next = chip_next;
  Exhausted = λ s. Unit {0};
}

module _ (p : Partition) (large : 4096 ≤ p.size) (small : p.size ≤ 2 ^ 31) where
  -- What holds between two rounds.
  record Between (c : Cycle) (s : Chip) : Type 0 where
    other : (r : ℕ) × (s.running ≡ some r) × (p.id ≢ r)
    aligned : c.offset % 4096 ≡ 0
    inside : c.offset ≤ p.size
    sound : c.good ≡ true → s.failed ≡ false

  BetweenRound : Round Cycle → Chip → Type 0
  BetweenRound (go_on c) s = Between c s
  BetweenRound (break_off c) s = Between c s

  wrapped :
      (offset : ℕ)
      → offset % 4096 ≡ 0
      → offset ≤ p.size
      → (wrap_offset p offset % 4096 ≡ 0) × (wrap_offset p offset + 4096 ≤ p.size)
  unfolding wrap_offset
  wrapped offset a i = ground arith

  -- A block that is erased and about to be written.
  record Ready (c : Cycle) (s : Chip) : Type 0 where
    other : (r : ℕ) × (s.running ≡ some r) × (p.id ≢ r)
    aligned : c.offset % 4096 ≡ 0
    room : c.offset + 4096 ≤ p.size
    erased : s.erased ≡ some (c.offset, 4096)
    sound : c.good ≡ true → s.failed ≡ false

  stopped :
      (c : Cycle) (s : Chip)
      → (r : ℕ) × (s.running ≡ some r) × (p.id ≢ r)
      → c.offset % 4096 ≡ 0
      → c.offset + 4096 ≤ p.size
      → Between (record c { good = false }) s
  stopped c s o a r = record { other = o; aligned = a; inside = omega arith; sound = λ e. cc }

  advanced :
      (c : Cycle) (s : Chip)
      → Ready c s
      → Between
          (record c { offset = (c.offset + 4096) % 2 ^ 32; bytes = (c.bytes + 4096) % 2 ^ 64 })
          (record s { erased = none })
  advanced c s r = record {
    other = r.other;
    aligned = omega (arith, r.aligned);
    inside = omega (arith, r.room);
    sound = r.sound;
  }

  flash_check_lem :
      (c : Cycle) (s : Chip) → Ready c s → Follows flash_protocol (flash_check p c) s BetweenRound
  unfolding flash_check branch on_option BetweenRound
  flash_check_lem c s r = (
    tt,
    λ block filled.
        ((inside, omega (arith, filled), (4096, r.erased, omega arith)), after_write block),
  )
    where
      inside : Inside s p c.offset 4096
      inside = record { other = r.other; within = r.room }

      written : Chip
      written = record s { erased = none }

      after_read :
          (block : Text) (back : Option Text)
          → Unit {0}
          → Follows flash_protocol
              (on_option back (done (break_off (record c { good = false }))) λ b.
                branch
                  (text_eq block b)
                  (flash_advance c)
                  (done (break_off (record c { good = false }))))
              (chip_next (record s { erased = none }) (flash_read p c.offset io_block) back)
              BetweenRound
      after_read block none _ =
          stopped c (record s { erased = none; failed = true }) r.other r.aligned r.room
      after_read block (some b) _ =
          Follows-branch flash_protocol (text_eq block b) _ _ (record s { erased = none })
            BetweenRound (λ e. (tt, λ _ _. advanced c s r))
            (λ e. stopped c (record s { erased = none }) r.other r.aligned r.room)

      after_write :
          (block : Text) (ok : Bool)
          → Unit {0}
          → Follows flash_protocol
              (branch ok
                (ask (flash_read p c.offset io_block) λ back.
                  on_option back (done (break_off (record c { good = false }))) λ b.
                    branch
                      (text_eq block b)
                      (flash_advance c)
                      (done (break_off (record c { good = false }))))
                (done (break_off (record c { good = false }))))
              (chip_next s (flash_write p c.offset block io_block) ok)
              BetweenRound
      after_write block true _ = (record { other = r.other; within = r.room }, after_read block)
      after_write block false _ =
          stopped c (record s { erased = none; failed = true }) r.other r.aligned r.room

  flash_body_lem :
      (c : Cycle) (s : Chip) → Between c s → Follows flash_protocol (flash_body p c) s BetweenRound
  unfolding flash_body BetweenRound
  flash_body_lem c s b =
      Follows-branch flash_protocol (wrap_offset p c.offset % flash_erase_block == 0) _ _ s
        BetweenRound (λ e. ((record { other = b.other; within = at.1 }, at.0), after_erase))
        (λ e. absurd (ground (arith, at.0)))
    where
      at : (wrap_offset p c.offset % 4096 ≡ 0) × (wrap_offset p c.offset + 4096 ≤ p.size)
      at = wrapped c.offset b.aligned b.inside

      c' : Cycle
      c' = record c { offset = wrap_offset p c.offset }

      after_erase :
          (ok : Bool)
          → Unit {0}
          → Follows flash_protocol
              (branch ok (flash_check p c') (done (break_off (record c' { good = false }))))
              (chip_next s (erase_range p (wrap_offset p c.offset) flash_erase_block) ok)
              BetweenRound
      after_erase true _ =
          Follows-branch flash_protocol true _ _
            (record s { erased = some (wrap_offset p c.offset, 4096) }) BetweenRound
            (λ _.
              flash_check_lem c' (record s { erased = some (wrap_offset p c.offset, 4096) })
                (record {
                  other = b.other;
                  aligned = at.0;
                  room = at.1;
                  erased = refl;
                  sound = b.sound;
                }))
            (λ e. cc)
      after_erase false _ =
          Follows-branch flash_protocol false _ _
            (record s { erased = some (wrap_offset p c.offset, 4096); failed = true }) BetweenRound
            (λ e. cc)
            (λ _.
              stopped c' (record s { erased = some (wrap_offset p c.offset, 4096); failed = true })
                b.other at.0 at.1)

  next_round :
      (fuel deadline : ℕ)
      → ((c : Cycle) (t : Chip)
          → Between c t
          → Follows flash_protocol (timed_loop fuel deadline (flash_body p) c) t Between)
      → (round : Round Cycle) (t : Chip) → BetweenRound round t
      → Follows flash_protocol
          (on_round round (λ c. timed_loop fuel deadline (flash_body p) c) done)
          t
          Between
  unfolding on_round BetweenRound
  next_round fuel deadline h (go_on c) t b = h c t b
  next_round fuel deadline h (break_off c) t b = b

  timed_loop_lem :
      (fuel deadline : ℕ) (c : Cycle) (s : Chip)
      → Between c s
      → Follows flash_protocol (timed_loop fuel deadline (flash_body p) c) s Between
  unfolding timed_loop
  timed_loop_lem zero deadline c s b = tt
  timed_loop_lem (suc fuel) deadline c s b = (
    tt,
    λ us _.
        Follows-branch flash_protocol (ltb (us / 1000) deadline) _ _ s Between
          (λ _. (
            tt,
            λ _ _. (
              tt,
              λ run _. (
                tt,
                λ _ _.
                    Follows-branch flash_protocol run.abort_requested _ _ s Between (λ _. b)
                      (λ _. Follows-bind flash_protocol (flash_body p c) _ s Between (
                        Follows-weaken flash_protocol (flash_body p c) s BetweenRound _
                          (next_round fuel deadline (timed_loop_lem fuel deadline))
                          (flash_body_lem c s b))),
              ),
            ),
          ))
          (λ _. b),
  )

  -- Where esp_fill_random fills the buffer that it is given: outside the running partition, of at
  -- least one block and at most 2^31 bytes, every erase, write and read of partition_cycle lies with
  -- its whole length inside the partition it was given and not in the running one, every erase starts
  -- at a block boundary, every write takes no more than its buffer holds and starts and stays in what
  -- was erased last and not written since, and the result is true only if no flash call failed.
  pub partition_cycle-flash :
      (fuel duration bytes : ℕ) (s : Chip)
      → s.failed ≡ false
      → Follows flash_protocol
          (partition_cycle fuel (some p) duration bytes)
          s
          (λ r t. r.0 ≡ true → t.failed ≡ false)
  unfolding partition_cycle
  partition_cycle-flash fuel duration bytes s clear = (
    tt,
    λ run _.
        let t : Chip = record s { running = some run.id } in
        Follows-branch flash_protocol (p.id == run.id) _ _ t _ (λ _ e. cc)
          (λ ne. (
            tt,
            λ buffers _.
                Follows-branch flash_protocol (not buffers) _ _ t _ (λ _ e. cc)
                  (λ _. (
                    tt,
                    λ us _.
                        Follows-bind flash_protocol
                          (timed_loop fuel ((us / 1000 + duration) % 2 ^ 64) (flash_body p) start) _
                          t _
                          (Follows-weaken flash_protocol _ t Between _
                            (λ c u b. (
                              tt,
                              λ _ _.
                                  (tt, λ r _. (tt, λ _ _. (tt, λ _ _ e. b.sound (ground arith)))),
                            ))
                            (timed_loop_lem fuel _ start t (record {
                              other = (run.id, refl, λ e. ground arith);
                              aligned = refl;
                              inside = omega arith;
                              sound = λ _. clear;
                            }))),
                  )),
          )),
  )
    where
      start : Cycle
      start = record { offset = 0; bytes = 0; good = true }
