-- ===== src/Usb/GChar/Tests.antt =====
-- The gadget at concrete inputs.
use linux_driver_kb.Prelude.{
  ◌++◌, ℕ, ◌+◌, ◌*◌, ◌≡◌, refl, true, false, inl, some, List, [], ◌∷◌, take, length, min, replicate,
  length-replicate,
}
use linux_driver_kb.Prelude.Int.{pos, negsuc}
use linux_driver_kb.Kernel.FlatCopy.{flat_copy, flat_copy-Mapped}
use linux_driver_kb.Usb.GChar.{
  composite, Ep, null, Priv, Answers, complete, buflen, g_char_read, g_char_write, g_char_f_set_alt,
}
use linux_driver_kb.Usb.GChar.Alt.{
  IsValid, Ends, Event, set_alt, disable, run, enablings, set_alt-Ends, run_leaks,
}
use linux_driver_kb.Usb.GChar.Readers
use linux_driver_kb.Usb.GChar.Readers.{
  one, two, Reading, runnable, outside, delivered, quiet, sleeper_served, second_call_overwrites,
}
use linux_driver_kb.Usb.GChar.Transfer.{write-echo}

abbrev claimed : Ep
claimed = record { owner = composite; enabled = false }

abbrev bound : Priv
bound = record { in_ep = claimed; out_ep = claimed; in_req = null; out_req = null; live = 0 }

bound-IsValid : IsValid bound
bound-IsValid = record { in_owned = λ _. refl; out_owned = λ _. refl; both = λ _. refl }

abbrev all_well : Answers
all_well = record {
  config_in = pos 0;
  enable_in = pos 0;
  config_out = pos 0;
  enable_out = pos 0;
  alloc_out = true;
  alloc_in = true;
}

abbrev out_fails : Answers
out_fails = record all_well { enable_out = negsuc 21 }

set_alt-Ends_example : Ends 0 (g_char_f_set_alt out_fails bound)
set_alt-Ends_example = set_alt-Ends out_fails bound (inl refl) (inl refl) bound-IsValid

abbrev history : List Event
history = set_alt all_well ∷ disable ∷ set_alt out_fails ∷ set_alt all_well ∷ set_alt all_well ∷ []

run_leaks_example : (run bound history).live ≡ 0 + 2 * enablings bound history
run_leaks_example =
    run_leaks history bound
      (
        inl refl,
        inl refl,
        (inl refl, inl refl, (inl refl, inl refl, (inl refl, inl refl, record {}))),
      )
      bound-IsValid

abbrev three : List ℕ
three = 7 ∷ 8 ∷ 9 ∷ []

write-echo_example :
    let packet = take buflen three in
    let (ret, mem', sent) =
      g_char_write flat_copy (pos 0) (complete packet) (replicate buflen 0) three 3 in
    (ret ≡ pos (min 3 buflen))
    × (sent ≡ some packet)
    × (length mem' ≡ buflen)
    × (g_char_read flat_copy (pos 0) (complete packet) 3 ≡ (ret, packet))
write-echo_example =
    write-echo flat_copy flat_copy-Mapped (replicate buflen 0) three
      (length-replicate {A = ℕ} buflen 0)

-- A read that a packet ends, and one that sleeps after a packet came with nothing queued.
abbrev before : List Readers.Event
before =
    Readers.call one (pos 0)
    ∷ Readers.arrive three
    ∷ Readers.go_on one
    ∷ Readers.arrive three
    ∷ Readers.call one (pos 0)
    ∷ Readers.go_on one
    ∷ []

sleeper_served_example :
    (Readers.run quiet (before ++ Readers.arrive (5 ∷ []) ∷ Readers.go_on one ∷ [])).first
    ≡ delivered (5 ∷ [])
unfolding Readers.run Readers.step Readers.begin_read Readers.test_able Readers.g_char_complete
sleeper_served_example =
    sleeper_served before (5 ∷ []) (refl, (refl, (refl, (refl, (refl, (refl, record {})))))) refl

abbrev arrived : Reading
arrived = record {
  r_able = true;
  queued = false;
  packet = three;
  first = runnable;
  second = outside;
}

second_call_overwrites_example :
    let s' = Readers.run arrived (
      Readers.call two (pos 0)
      ∷ Readers.go_on one
      ∷ Readers.arrive (4 ∷ [])
      ∷ Readers.go_on one
      ∷ Readers.go_on two
      ∷ []) in
    (s'.first ≡ delivered (4 ∷ [])) × (s'.second ≡ delivered (4 ∷ []))
second_call_overwrites_example = second_call_overwrites arrived (4 ∷ []) refl refl
