-- ===== src/Http/Statics.antt =====
-- The reads of the network's statics by status_get keep what a call apart keeps.
use dragon_bench.Common.{false}
use dragon_bench.Prog.{Prog}
use dragon_bench.Prog.Locks.{KeepsLock}
use dragon_bench.Prog.Slot.{nothing, KeepsSlot}
use dragon_bench.Prog.Duties.{Duties, Settles}
use dragon_bench.Prog.Apart.{Rules, KeepsLock-Rules, KeepsSlot-Rules, Settles-Rules}
use dragon_bench.Http.Pages.{Reading, read_statics}

module _ (P : (A : Type 0) → Prog A → Type 0) (rules : Rules P) where
  open rules use {at_done, at_call, at_bind, at_branch}

  read_statics-rule : P Reading read_statics
  unfolding read_statics
  read_statics-rule = at_call _ _ _ tt λ _. at_call _ _ _ tt λ _. at_call _ _ _ tt λ _.
      at_call _ _ _ tt λ _. at_call _ _ _ tt λ _. at_call _ _ _ tt λ _. at_call _ _ _ tt λ _.
        at_call _ _ _ tt λ _. at_call _ _ _ tt λ _. at_call _ _ _ tt λ _. at_call _ _ _ tt λ _.
          at_call _ _ _ tt λ _. at_call _ _ _ tt λ _.
            at_bind _ _ _ _ (at_branch _ _ _ _ (at_call _ _ _ tt λ _. at_done _ _) (at_done _ _))
              (λ _. at_done _ _)

pub read_statics-KeepsLock : KeepsLock false read_statics
read_statics-KeepsLock = read_statics-rule (λ A m. KeepsLock false m) KeepsLock-Rules

pub read_statics-KeepsSlot : KeepsSlot nothing read_statics
read_statics-KeepsSlot = read_statics-rule (λ A m. KeepsSlot nothing m) KeepsSlot-Rules

pub read_statics-Settles : (d : Duties) → Settles d d read_statics
read_statics-Settles d = read_statics-rule (λ A m. Settles d d m) (Settles-Rules d)
