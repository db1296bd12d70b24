-- ===== src/Prog/Apart.antt =====
-- Calls that no protocol of the tasks looks at, and the rules by which a property of programs holds
-- of what makes only such calls beside known parts.
use dragon_bench.Common.{◌≡◌, refl, Bool, false, Option}
use dragon_bench.Prog
use dragon_bench.Prog.{
  Call, Reply, Prog, done, out_of_fuel, ask, ◌>>=◌, branch, on_option, take_lock, give_lock,
  get_run, put_run, get_log, put_log, bump_run_counter, create_workload_task, malloc, free,
  new_tree, delete_tree, new_text, free_text, nvs_open, nvs_get_str, nvs_set_str, nvs_set_blob,
  nvs_commit, nvs_erase_key, nvs_close, getaddrinfo, freeaddrinfo, open_socket, connect, send, recv,
  shutdown, close,
}
use dragon_bench.Prog.Locks.{
  need, Meets, after_call, KeepsLock, KeepsLock-done, KeepsLock-out_of_fuel, KeepsLock-ask,
  KeepsLock-bind, KeepsLock-branch, KeepsLock-on_option,
}
use dragon_bench.Prog.Slot.{
  nothing, SlotAllowed, slot_next, KeepsSlot, KeepsSlot-done, KeepsSlot-out_of_fuel, KeepsSlot-ask,
  KeepsSlot-bind, KeepsSlot-branch, KeepsSlot-on_option,
}
use dragon_bench.Prog.Duties.{
  Duties, MayUse, duty_next, Settles, Settles-done, Settles-out_of_fuel, Settles-ask, Settles-bind,
  Settles-branch, Settles-on_option,
}

-- No lock, nothing that it protects, no memory, storage or socket, and no new task of a run.
abbrev pub IsApart : Call → Type 0
IsApart take_lock = ⊥
IsApart give_lock = ⊥
IsApart get_run = ⊥
IsApart (put_run r) = ⊥
IsApart get_log = ⊥
IsApart (put_log l) = ⊥
IsApart bump_run_counter = ⊥
IsApart create_workload_task = ⊥
IsApart (malloc n) = ⊥
IsApart free = ⊥
IsApart new_tree = ⊥
IsApart delete_tree = ⊥
IsApart new_text = ⊥
IsApart free_text = ⊥
IsApart (nvs_open name write) = ⊥
IsApart (nvs_get_str h key n) = ⊥
IsApart (nvs_set_str h key v) = ⊥
IsApart (nvs_set_blob h key v) = ⊥
IsApart (nvs_commit h) = ⊥
IsApart (nvs_erase_key h key) = ⊥
IsApart (nvs_close h) = ⊥
IsApart (getaddrinfo host service) = ⊥
IsApart freeaddrinfo = ⊥
IsApart (open_socket address) = ⊥
IsApart (connect fd address) = ⊥
IsApart (send fd block) = ⊥
IsApart (recv fd n) = ⊥
IsApart (shutdown fd) = ⊥
IsApart (close fd) = ⊥
IsApart _ = Unit {0}

pub record Rules (P : (A : Type 0) → Prog A → Type 0) : Type 1 where
  pub at_done : (A : Type 0) (a : A) → P A (done a)
  pub at_out_of_fuel : (A : Type 0) → P A out_of_fuel
  pub at_call :
      (A : Type 0) (c : Call) (k : Reply c → Prog A)
      → IsApart c
      → ((r : Reply c) → P A (k r))
      → P A (ask c k)
  pub at_bind :
      (A B : Type 0) (m : Prog A) (f : A → Prog B) → P A m → ((a : A) → P B (f a)) → P B (m >>= f)
  pub at_branch : (A : Type 0) (t : Bool) (x y : Prog A) → P A x → P A y → P A (branch t x y)
  pub at_option :
      (A B : Type 0) (o : Option A) (x : Prog B) (y : A → Prog B)
      → P B x
      → ((a : A) → P B (y a))
      → P B (on_option o x y)

apart_lock : (c : Call) → IsApart c → Meets (need c) false × (after_call false c ≡ false)
apart_lock take_lock q = absurd q
apart_lock give_lock q = absurd q
apart_lock get_run q = absurd q
apart_lock (put_run r) q = absurd q
apart_lock get_log q = absurd q
apart_lock (put_log l) q = absurd q
apart_lock bump_run_counter q = absurd q
apart_lock Prog.timer q = (tt, refl)
apart_lock new_tree q = absurd q
apart_lock _ q = (refl, refl)

apart_slot :
    (c : Call)
    → IsApart c
    → SlotAllowed nothing c × ((r : Reply c) → slot_next nothing c r ≡ nothing)
apart_slot take_lock q = absurd q
apart_slot give_lock q = absurd q
apart_slot get_run q = absurd q
apart_slot (put_run r') q = absurd q
apart_slot get_log q = absurd q
apart_slot (put_log l) q = absurd q
apart_slot _ q = (tt, λ r. refl)

apart_duties :
    (d : Duties) (c : Call) → IsApart c → MayUse d c × ((r : Reply c) → duty_next d c r ≡ d)
apart_duties d (put_run r') q = absurd q
apart_duties d create_workload_task q = absurd q
apart_duties d (malloc n) q = absurd q
apart_duties d free q = absurd q
apart_duties d new_tree q = absurd q
apart_duties d delete_tree q = absurd q
apart_duties d new_text q = absurd q
apart_duties d free_text q = absurd q
apart_duties d (nvs_open name write) q = absurd q
apart_duties d (nvs_get_str h key n) q = absurd q
apart_duties d (nvs_set_str h key v) q = absurd q
apart_duties d (nvs_set_blob h key v) q = absurd q
apart_duties d (nvs_commit h) q = absurd q
apart_duties d (nvs_erase_key h key) q = absurd q
apart_duties d (nvs_close h) q = absurd q
apart_duties d (getaddrinfo host service) q = absurd q
apart_duties d freeaddrinfo q = absurd q
apart_duties d (open_socket address) q = absurd q
apart_duties d (connect fd address) q = absurd q
apart_duties d (send fd block) q = absurd q
apart_duties d (recv fd n) q = absurd q
apart_duties d (shutdown fd) q = absurd q
apart_duties d (close fd) q = absurd q
apart_duties d _ q = (tt, λ r. refl)

pub KeepsLock-Rules : Rules (λ A m. KeepsLock false m)
KeepsLock-Rules = record {
  at_done = λ A a. KeepsLock-done a;
  at_out_of_fuel = KeepsLock-out_of_fuel;
  at_call =
      λ A c k q h. KeepsLock-ask false c k (apart_lock c q).0 (λ r. rw (apart_lock c q).1 (h r));
  at_bind = λ A B m f h k. KeepsLock-bind m f h k;
  at_branch = λ A t x y h k. KeepsLock-branch false t x y h k;
  at_option = λ A B o x y h k. KeepsLock-on_option false o x y h k;
}

pub KeepsSlot-Rules : Rules (λ A m. KeepsSlot nothing m)
KeepsSlot-Rules = record {
  at_done = λ A a. KeepsSlot-done a;
  at_out_of_fuel = λ A. KeepsSlot-out_of_fuel A nothing;
  at_call = λ A c k q h.
      KeepsSlot-ask nothing c k (apart_slot c q).0 (λ r. rw ((apart_slot c q).1 r) (h r));
  at_bind = λ A B m f h k. KeepsSlot-bind m f h k;
  at_branch = λ A t x y h k. KeepsSlot-branch nothing t x y h k;
  at_option = λ A B o x y h k. KeepsSlot-on_option nothing o x y h k;
}

pub Settles-Rules : (d : Duties) → Rules (λ A m. Settles d d m)
Settles-Rules d = record {
  at_done = λ A a. Settles-done d a;
  at_out_of_fuel = λ A. Settles-out_of_fuel A d d;
  at_call = λ A c k q h.
      Settles-ask d d c k (apart_duties d c q).0 (λ r. rw ((apart_duties d c q).1 r) (h r));
  at_bind = λ A B m f h k. Settles-bind m f d d h k;
  at_branch = λ A t x y h k. Settles-branch d d t x y h k;
  at_option = λ A B o x y h k. Settles-on_option d d o x y h k;
}
