-- ===== src/Runtime/Tests.antt =====
-- Runs of the runtime commands on a small host.
use xkernel.Runtime.Start.{after_insmod_consistency, cmd_load}
use xkernel.Runtime.Start.Activation.{IsActivated, after_insmod_consistency-IsActivated}
use xkernel.Runtime.Delete.{parse_filter, no_value, no_filter, before_delete}
use xkernel.Runtime.Delete.Safe.{is_lost, before_delete-is_lost}
use xkernel.Tables.Query.{read_scope_table}
use xkernel.Base.{keep, ℕ, ◌+◌, ◌≡◌, ◌≢◌, refl, arith, list_beq, Bool, true, false, List, [], ◌∷◌}
use xkernel.Base.{map, some, none, list_eq, nat_eq, contains, if◌then◌else◌, struct_error, length}
use xkernel.Base.{◌<◌, ◌⊎◌}
use xkernel.Base.Int.{pos}
use xkernel.Base.Text.{Text, text, text_iff, parse_int, parse_signed, strip, rstrip, lstrip}
use xkernel.Base.Text.{map_option, parse_nat, skip_prefix}
use xkernel.Tables.{scope_table_header}
use xkernel.Runtime.{Host, World, Command, Active, returned, raised, ask, ◌>>=◌, state_of}
use xkernel.Runtime.Ensures.{EndsIn}
use xkernel.Runtime.Maps.{zero_key, from_bytes, find_map, bump_epoch, or_other, current_epoch}
use xkernel.Runtime.Maps.{number_of, bytes_of, cons_option, byte_of}
use xkernel.Runtime.Maps.Epoch.{bump_epoch-outcome, epoch_in}
use xkernel.Runtime.Unload.{reverse_mode, poll_reverse, poll_from_now}
use xkernel.Runtime.Unload.Order.{Quiet, Removed, reverse_mode-order}
use xkernel.Runtime.Unload.Poll.{Clock, poll_from_now-enough}
use xkernel.Runtime.Stop.{cmd_unload_some, cmd_unload}
use xkernel.Runtime.Stop.Entries.{entry, cmd_unload_some-entries}
use xkernel.Runtime.Returns.{IsReturned}
use xkernel.Runtime.Stop.Total.{cmd_unload-IsReturned}
use xkernel.Runtime.Spans.{Span, update_spans}
use xkernel.Runtime.Spans.Update.{decode, numbered, update_spans-reads}
use xkernel.Runtime.Start.Outcomes.{IsTransaction, cmd_load-transaction}
use xkernel.Base.Dict.{lookup}

-- Its clock is its state.
abbrev after_command : Command → ℕ → Bool × ℕ
after_command (Command.sleep n) k = (true, k + n)
after_command _ k = (true, k)

instance abbrev small_host : Host
small_host = record {
  K = ℕ;
  command = after_command;
  file_exists = λ path k. (true, k);
  kfuncs_built = λ k. (true, k);
  consistency_built = λ k. (true, k);
  map_list = λ k. (some ((4, text ".bss.xk_active") ∷ []), k);
  pinned_names = λ cid k. (some (text "_bss_xk_active" ∷ []), k);
  pinned_map = λ cid name k. (some 4, k);
  map_dump = λ i k. (some (text "0x07" ∷ text "0x00" ∷ text "0x00" ∷ text "0x00" ∷ []), k);
  lsmod = λ k. (some [], k);
  dmesg = λ k. (some [], k);
  recent_dmesg = λ k. (none, k);
  time = λ k. (k, k);
  function_address = λ name k. (some (text "ffff0010"), k);
}

abbrev scope_row : List Text
scope_row =
    text "3"
    ∷ text "10"
    ∷ text "x"
    ∷ text "1"
    ∷ text "1"
    ∷ text "a.bpf.o"
    ∷ text "ready"
    ∷ text ""
    ∷ []

abbrev fresh : World
fresh = record {
  runtime = none;
  tables = record {
    scope = some (scope_table_header ∷ scope_row ∷ []);
    cs = none;
    cs_raw = none;
    ss = none;
    ss_raw = none;
  };
  cs_file = none;
  ss_file = none;
  guards = [];
  log = [];
  kernel = 0;
}

abbrev active_3 : Active
active_3 = record { mode = 0; bpf_file = text "a.bpf.o"; status = text "active" }

abbrev loaded : World
loaded = record fresh {
  runtime = some (record { kfuncs_loaded = true; active_const_ids = (text "3", active_3) ∷ [] });
}

four-three : text "4" ≢ text "3"
unfolding list_beq text
four-three e = cc ((text_iff (text "4") (text "3")).1 e)

cmd_load-transaction_example :
    IsTransaction (text "2") (text "3") (text "4") fresh (cmd_load (text "2" ∷ text "3" ∷ []) fresh)
unfolding text lookup state_of
cmd_load-transaction_example =
    cmd_load-transaction (text "2") (text "3") [] (text "4") fresh four-three refl

cmd_unload_some-entries_example :
    EndsIn
      (λ v.
        contains (text "3" ∷ []) (text "3") ≡ false → entry (text "3") v ≡ entry (text "3") loaded)
      (λ u v.
        entry (text "3") v
        ≡ (if contains (text "3" ∷ []) (text "3") then none else entry (text "3") loaded))
      (cmd_unload_some (text "3" ∷ []) loaded)
unfolding state_of lookup
cmd_unload_some-entries_example =
    cmd_unload_some-entries (text "3" ∷ []) (text "3") loaded (refl, tt)

bump_epoch-outcome_example :
    ((epoch_in 9 loaded < 4294967295)
      × (bytes : List ℕ) × ((bump_epoch ((text ".bss.xk_epoch", 9) ∷ []) loaded).1.log
          ≡ Command.map_update 9 zero_key bytes ∷ [])
      × (length bytes ≡ 4)
      × (from_bytes bytes ≡ epoch_in 9 loaded + 1))
    ⊎ ((epoch_in 9 loaded ≡ 4294967295)
        × ((bump_epoch ((text ".bss.xk_epoch", 9) ∷ []) loaded).0 ≡ raised struct_error)
        × ((bump_epoch ((text ".bss.xk_epoch", 9) ∷ []) loaded).1.log ≡ []))
unfolding text find_map or_other lookup list_beq
bump_epoch-outcome_example = bump_epoch-outcome ((text ".bss.xk_epoch", 9) ∷ []) 9 loaded refl

reverse_mode-order_example :
    EndsIn
      (Quiet (Command.map_update 4 zero_key zero_key ∷ []))
      (λ b. Removed (Command.map_update 4 zero_key zero_key ∷ []) (text "3"))
      (reverse_mode 2 (text "3") ((text ".bss.xk_active", 4) ∷ []) loaded)
unfolding text find_map or_other lookup list_beq
reverse_mode-order_example =
    reverse_mode-order 2 (text "3") ((text ".bss.xk_active", 4) ∷ []) 4 loaded (omega arith) refl

abbrev small_clock : Clock small_host
small_clock = record {
  now = λ k. k;
  time_shows = λ k. refl;
  time_goes_on = λ k. omega arith;
  dmesg_goes_on = λ k. omega arith;
  sleep_lasts = λ n k. omega arith;
}

poll_from_now-enough_example :
    poll_from_now loaded ≡ (ask small_host.time >>= λ start. poll_reverse (61 + 9) start) loaded
poll_from_now-enough_example = poll_from_now-enough small_clock 9 loaded

abbrev two_spans : List Span
two_spans = (pos 16, pos 32) ∷ (pos 8, pos 24) ∷ []

update_spans-reads_example :
    ((update_spans 5 0 two_spans loaded).0 ≡ returned tt)
    × (given : List Command) × ((update_spans 5 0 two_spans loaded).1.log ≡ given)
    × (map (decode 5) given ≡ numbered 0 two_spans)
update_spans-reads_example =
    update_spans-reads 5 0 two_spans loaded
      ((omega arith, omega arith), ((omega arith, omega arith), tt)) (omega arith)

small_epochs : (i : ℕ) (k : small_host.K) → current_epoch (small_host.map_dump i k).0 < 4294967295
unfolding current_epoch number_of bytes_of cons_option byte_of parse_int parse_signed strip rstrip
    lstrip text map_option parse_nat skip_prefix from_bytes
small_epochs i k = omega arith

cmd_unload-IsReturned_example : IsReturned (cmd_unload (text "3" ∷ []) loaded).0
cmd_unload-IsReturned_example =
    cmd_unload-IsReturned small_clock small_epochs (text "3" ∷ []) loaded

before_delete-is_lost_example :
    EndsIn
      (λ u. ⊥)
      (λ a u.
        keep
          (is_lost
            (parse_filter no_value (text "--all" ∷ []) no_filter)
            (contains (text "--all" ∷ []) (text "--all"))
            (state_of u.runtime).active_const_ids)
          (read_scope_table loaded.tables)
        ≡ [])
      (before_delete (text "delete" ∷ text "--all" ∷ []) loaded)
unfolding state_of lookup scope_table_header
before_delete-is_lost_example =
    before_delete-is_lost (λ cid k. refl) (text "--all" ∷ []) loaded (refl, tt) tt

after_insmod_consistency-IsActivated_example :
    IsActivated 4
      (after_insmod_consistency (text "3") ((text ".bss.xk_active", 4) ∷ []) (pos 1) 0 true fresh)
unfolding find_map or_other lookup list_beq text
after_insmod_consistency-IsActivated_example =
    after_insmod_consistency-IsActivated (text "3") ((text ".bss.xk_active", 4) ∷ []) (pos 1) 0 4
      fresh refl
