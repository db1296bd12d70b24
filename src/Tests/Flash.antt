-- ===== src/Tests/Flash.antt =====
-- A storage of the tests: strings by namespace and key, with one handle at a time, and a copy of what
-- was committed.
use dragon_bench.Common.{
  ℕ, ◌≡◌, ◌≢◌, refl, inl, inr, Bool, true, false, ◌&&◌, Option, none, some, Text, arith, length,
  ltb, text_eq, text_eq_refl, eq_of_text_eq, if◌then◌else◌, Bool-cases, [],
}
use dragon_bench.Prog.{nvs_open, nvs_get_str, nvs_set_str, nvs_commit, nvs_close}
use dragon_bench.Prog.Machine.{Machine}
use dragon_bench.Wifi.Storage.{Strings}
use dragon_bench.Tests.Platform.{platform}

pub record Store : Type 0 where
  pub name : Text
  pub strings : Text → Text → Option Text
  pub committed : Text → Text → Option Text

abbrev pub empty_store : Store
empty_store = record { name = []; strings = λ n k. none; committed = λ n k. none }

abbrev fitting : ℕ → Option Text → Option Text
fitting size none = none
fitting size (some v) = if ltb (length v) size then some v else none

abbrev with_string : Store → Text → Text → Text → Text → Option Text
with_string s k v n j = if text_eq n s.name && text_eq j k then some v else s.strings n j

abbrev pub flash : Machine Store
flash s (nvs_open name write) = (some 1, record s { name = name })
flash s (nvs_set_str h k v) = (true, record s { strings = with_string s k v })
flash s (nvs_get_str h k size) = (fitting size (s.strings s.name k), s)
flash s (nvs_commit h) = (true, record s { committed = s.strings })
flash s (nvs_close h) = (tt, s)
flash s c = (platform 0 c, s)

other_key : (k j : Text) → j ≢ k → text_eq j k ≡ false
other_key k j ne = elim (Bool-cases (text_eq j k)) [
  | inl e ↦ absurd (ne (eq_of_text_eq j k e))
  | inr e ↦ e
]

and_false : (b : Bool) → (b && false) ≡ false
and_false true = refl
and_false false = refl

pub flash-Strings : Strings flash
flash-Strings = record {
  restarted = λ s. record s { strings = s.committed };
  durable = λ s n k. s.committed n k;
  stored = λ s n k. s.strings n k;
  names = λ s h. s.name;
  open_names = λ s name write h e. refl;
  open_stored = λ s name write n k. refl;
  opens = λ s name k v e d. cc;
  set_names = λ s h k v. refl;
  set_stored = λ s h k v e. rw (text_eq_refl s.name, text_eq_refl k) refl;
  set_others = λ s h k v n j ne. rw (other_key k j ne, and_false (text_eq n s.name)) refl;
  commit_stored = λ s h n k. refl;
  commit_durable = λ s h k e. refl;
  close_durable = λ s h n k. refl;
  restart_stored = λ s n k. refl;
  close_stored = λ s h n k. refl;
  get_names = λ s h k size. refl;
  get_stored = λ s h j size n k. refl;
  get_reply = λ s h k v size e l. rw e (ground arith);
}
