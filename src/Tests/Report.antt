-- ===== src/Tests/Report.antt =====
-- Lines of the recorded runs of src/tests.
use multicore_proccessor.Common.{[], ◌≡◌, refl, ◌-◌, if◌then◌else◌, false, uint16_max, ltb}
use multicore_proccessor.Text.Bytes.{codes}
use multicore_proccessor.Bus.Packet.{Command}
use multicore_proccessor.Core as Core
use multicore_proccessor.Report.{write_trace, print_bus_status, print_statistics}

-- The second line of core0trace.txt of src/tests/counter
recorded_trace_line :
    write_trace (record {
      cycle = 1;
      stage_pc = λ stage. if ltb stage 2 then 1 - stage else uint16_max;
      registers = λ _. 0;
    })
    ≡ codes
        "1 001 000 --- --- --- 00000000 00000000 00000000 00000000 00000000 00000000 00000000 00000000 00000000 00000000 00000000 00000000 00000000 00000000 \n"
unfolding write_trace
recorded_trace_line = refl

-- The third line of bustrace.txt of src/tests/counter
recorded_bus_line :
    print_bus_status (record {
      cycle = 24;
      packet = record {
        bus_original_sender = 0;
        bus_origid = 4;
        bus_cmd = Command.flush;
        bus_addr = 1;
        bus_data = 0;
        bus_shared = false;
      };
    })
    ≡ codes "24 4 3 000001 00000000 0\n"
unfolding print_bus_status
recorded_bus_line = refl

-- A core without a program has run a cycle, and an instruction less than none, in its statistics.
empty_core_statistics :
    print_statistics (Core.init 0 [])
    ≡ codes
        "cycles 1\ninstructions -1\nread_hit 0\nwrite_hit 0\nread_miss 0\nwrite_miss 0\ndecode_stall 0\nmem_stall 0\n"
unfolding print_statistics Core.init
empty_core_statistics = refl
