-- ===== src/Tests/App.antt =====
-- The theorems on src/internal/app at concrete inputs.
use timesync_analyzer.Common.{
  ℕ, zero, suc, ◌+◌, ◌-◌, ◌*◌, ◌^◌, map, nat_beq, if◌then◌else◌, ◌≡◌, ◌<◌, ◌≤◌, refl, List, [], ◌∷◌,
  Bool, true, false, Option, none, some, ltb, leb, arith,
}
use timesync_analyzer.Common.Int.{ℤ, pos, negsuc, pos_part, ◌≤ℤ◌}
use timesync_analyzer.Common.Float.{FloatOps}
use timesync_analyzer.Common.Text.{Text, text}
use timesync_analyzer.App.Slider.Mtie.{Sample, offset_at, time_at, calculate_mtie}
use timesync_analyzer.App.Slider.Mtie.Invariant.{FloatOrder, InOrder, diff}
use timesync_analyzer.App.Slider.Mtie.Correct.{
  Attained, calculate_mtie-diff, calculate_mtie-Attained,
}
use timesync_analyzer.App.Slider.Deviation.{
  adev_loop, tdev_loop, empty_acc, adev_loop_lem, tdev_loop_lem,
}
use timesync_analyzer.App.Slider.Windows
use timesync_analyzer.App.Slider.Windows.{OffsetRow, SlideStorage, calculate_slide_windows}
use timesync_analyzer.App.Slider.Windows.Rows.{all_rows, calculate_slide_windows-rows}
use timesync_analyzer.App.Handlers.Messages
use timesync_analyzer.App.Handlers.Messages.{
  MetricsWrapper, ClockMetrics, SystemMetrics, Reading, Backend, World, Call, insert_node,
}
use timesync_analyzer.App.Handlers.{handle_msg, handle_system}
use timesync_analyzer.App.Handlers.Trace.{Handled, handle_msg-Handled}
use timesync_analyzer.App.Queue
use timesync_analyzer.App.Queue.Delivery.{picked, Reach-delivered}
use timesync_analyzer.App.Handlers.Isolation.{Complete, handle_system-Complete}

-- Natural numbers in place of float64.
abbrev nat_ops : FloatOps
nat_ops = record {
  add = λ a b. a + b;
  sub = λ a b. a - b;
  mul = λ a b. a * b;
  div = λ a b. a;
  sqrt = λ a. a;
  lt = ltb;
  le = leb;
  of_int64 = pos_part;
  of_uint64 = λ n. n;
  to_int64 = pos;
}

nat_ops-FloatOrder : FloatOrder nat_ops
nat_ops-FloatOrder = record {
  later_minuend = λ x a b c ab h. ground arith;
  earlier_subtrahend = λ x a b c ab h. ground arith;
}

abbrev three : List Sample
three =
    record { time_sec = 1; offset_ns = pos 5 }
    ∷ record { time_sec = 2; offset_ns = negsuc 3 }
    ∷ record { time_sec = 4; offset_ns = pos 8 }
    ∷ []

sorted_three : (i j : ℕ) → i ≤ j → j < 3 → nat_ops.le (time_at three i) (time_at three j) ≡ true
sorted_three zero zero le lt = refl
sorted_three zero (suc zero) le lt = refl
sorted_three zero (suc (suc zero)) le lt = refl
sorted_three (suc zero) (suc zero) le lt = refl
sorted_three (suc zero) (suc (suc zero)) le lt = refl
sorted_three (suc (suc zero)) (suc (suc zero)) le lt = refl
sorted_three (suc i) zero le lt = absurd (omega arith)
sorted_three (suc (suc i)) (suc zero) le lt = absurd (omega arith)
sorted_three (suc (suc (suc i))) (suc (suc zero)) le lt = absurd (omega arith)
sorted_three i (suc (suc (suc j))) le lt = absurd (omega arith)

small_three :
    (i : ℕ)
    → i < 3
    → (negsuc (2 ^ 62 - 1) ≤ℤ offset_at three i) × (offset_at three i ≤ℤ pos (2 ^ 62 - 1))
small_three zero lt = (omega arith, omega arith)
small_three (suc zero) lt = (omega arith, omega arith)
small_three (suc (suc zero)) lt = (omega arith, omega arith)
small_three (suc (suc (suc i))) lt = absurd (omega arith)

three-InOrder : InOrder nat_ops three
three-InOrder = record {
  sorted = sorted_three;
  lower = λ i lt. (small_three i lt).0;
  upper = λ i lt. (small_three i lt).1;
}

calculate_mtie-diff_example :
    (diff nat_ops three 2 1 2 ≤ℤ calculate_mtie nat_ops three 2)
    × (diff nat_ops three 2 2 1 ≤ℤ calculate_mtie nat_ops three 2)
calculate_mtie-diff_example =
    calculate_mtie-diff nat_ops three 2 nat_ops-FloatOrder three-InOrder 1 2 (omega arith)
      (omega arith) refl

calculate_mtie-Attained_example : Attained nat_ops three 2 (calculate_mtie nat_ops three 2)
calculate_mtie-Attained_example =
    calculate_mtie-Attained nat_ops three 2 nat_ops-FloatOrder three-InOrder

adev_loop_lem_example :
    ((adev_loop nat_ops three 1 3 0 (empty_acc nat_ops)).count + 2 ≡ 3)
    × (1 ≤ (adev_loop nat_ops three 1 3 0 (empty_acc nat_ops)).count)
adev_loop_lem_example = adev_loop_lem nat_ops three 1 (omega arith)

tdev_loop_lem_example :
    ((tdev_loop nat_ops three 1 3 0 (empty_acc nat_ops)).count + 3 ≡ 4)
    × (1 ≤ (tdev_loop nat_ops three 1 3 0 (empty_acc nat_ops)).count)
tdev_loop_lem_example = tdev_loop_lem nat_ops three 1 (omega arith) (omega arith)

-- A storage with one node that has three offsets, in which every insertion fails.
abbrev three_offsets : Text → ℤ → Option (List OffsetRow)
three_offsets table node_id =
    some (map (λ s. record { time_ns = pos s.time_sec; offset_ns = s.offset_ns }) three)

abbrev failing_storage : SlideStorage ℕ
failing_storage = record {
  get_node_id_list = λ s. some (pos 1 ∷ []);
  get_offsets = λ s. three_offsets;
  insert_slide_metrics = λ s row. (false, suc s);
}

abbrev no_rows : Windows.World ℕ
no_rows = record { store = 0; rows = [] }

calculate_slide_windows-rows_example :
    let r =
      calculate_slide_windows nat_ops failing_storage
        (pos 7)
        ((text "pps_metrics", text "pps") ∷ [])
        no_rows in
    (r.0 ≡ true)
    × (r.1.rows
        ≡ all_rows nat_ops failing_storage
            (pos 7)
            three_offsets
            ((text "pps_metrics", text "pps") ∷ [])
            (pos 1 ∷ []))
calculate_slide_windows-rows_example =
    calculate_slide_windows-rows nat_ops failing_storage (pos 7) (λ s row table node_id. refl)
      three_offsets ((text "pps_metrics", text "pps") ∷ []) (pos 1 ∷ []) no_rows
      (λ table node_id. refl) refl

-- A storage that knows each host as node 4 once it was called, and whose calls all fail but the
-- insertion of a node.
abbrev is_insert_node : Call → Bool
is_insert_node (insert_node h) = true
is_insert_node _ = false

abbrev backend : Backend ℕ
backend = record {
  resolve_node_id = λ s host. if nat_beq s 0 then none else some (pos 4);
  sensor_id = λ s node_id sensor label. some (pos 9);
  perform = λ s c. (is_insert_node c, suc s);
}

abbrev test_system : SystemMetrics
test_system = record {
  network_stats = none;
  cpu_stats = some (record {
    usage_percent = 3;
    context_switches = pos 1;
    interrupts = pos 2;
    softirqs = pos 3;
  });
  memory_stats = none;
  temperature_stats =
      some (record { sensor = text "cpu"; label = text "core"; temperature = pos 50 } ∷ []);
}

abbrev wrapper : MetricsWrapper
wrapper = record {
  message_type = Messages.system;
  node_name = text "n1";
  timestamp = pos 9;
  get_phc2sys = none;
  get_ptp4l = none;
  get_system = some test_system;
  get_pps = none;
  get_port_event = none;
  get_topology = none;
}

abbrev untouched : World ℕ
untouched = record { store = 0; calls = [] }

handle_msg-Handled_example :
    Handled backend (text "n1") (pos 9) untouched (handle_msg backend pos_part wrapper untouched)
handle_msg-Handled_example = handle_msg-Handled backend pos_part wrapper untouched

handle_system-Complete_example :
    Complete backend pos_part 1
      (pos 9)
      (pos 4)
      test_system
      (handle_system backend pos_part
        (text "n1")
        (pos 9)
        (some test_system)
        (record { store = 1; calls = [] })).calls
handle_system-Complete_example =
    handle_system-Complete backend pos_part (text "n1") (pos 9) (pos 4) test_system 1 refl

-- A worker takes one message; the context is cancelled, and all return.
abbrev all_ended : Queue.AppState
all_ended = record {
  loop = Queue.ended;
  cancelled = true;
  closed = true;
  slider_runs = false;
  queue = [];
  waiting = 0;
  handling = [];
  decoded = wrapper ∷ [];
  handled = wrapper ∷ [];
  dropped = [];
}

to_the_end : Queue.Reach 0 1 all_ended
to_the_end =
    Queue.next
      (Queue.next
        (Queue.next
          (Queue.next
            (Queue.next
              (Queue.next (Queue.next Queue.here (Queue.passes wrapper 0 refl refl refl))
                (Queue.handles [] [] wrapper refl))
              Queue.cancels)
            (Queue.shuts_down refl refl))
          (Queue.worker_returns 0 refl refl refl))
        (Queue.slider_ends refl))
      (Queue.returns refl refl refl refl)

Reach-delivered_example :
    (all_ended.cancelled ≡ true)
    × (all_ended.queue ≡ [])
    × ((p : MetricsWrapper → Bool)
        → picked p all_ended.decoded ≡ picked p all_ended.handled + picked p all_ended.dropped)
Reach-delivered_example = Reach-delivered 0 1 all_ended to_the_end refl (omega arith)
