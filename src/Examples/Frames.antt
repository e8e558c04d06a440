-- ===== src/Examples/Frames.antt =====
-- Frames of the VM.
use zdx_paralell_pyxel_vm.Base.{ℕ, zero, suc, ◌<◌, ◌≡◌, refl, inl, arith, ◌==◌}
use zdx_paralell_pyxel_vm.Vm.Isa.{rev_opmap, default_map}
use zdx_paralell_pyxel_vm.Vm.Machine.{Vm, Cpu, IsUint8, max_col_steps_reached}
use zdx_paralell_pyxel_vm.Vm.Frame.{execute_array, run_columns, vm_of, fresh, done, failed}
use zdx_paralell_pyxel_vm.Vm.Bytes.{HoldsBytes, execute_array-HoldsBytes}
use zdx_paralell_pyxel_vm.Vm.Threads.{run_columns_idle}
use zdx_paralell_pyxel_vm.Vm.Steps.{IsStraight, straight_frame_done}
use zdx_paralell_pyxel_vm.Vm.JumpLoop.{JumpsToItself, self_jump_fails}
use zdx_paralell_pyxel_vm.Examples.Machines.{settings, idle_vm, add_frame, loop_frame}

-- 200 + 100 wraps to 44 in OUT.
add_wraps : ((vm_of (execute_array idle_vm add_frame)).registers 0).out ≡ 44
unfolding execute_array rev_opmap default_map
add_wraps = refl

add_frame-IsUint8 : IsUint8 add_frame
add_frame-IsUint8 = record { bytes = channels }
  where
    channels :
        (y x : ℕ)
        → ((add_frame.pixel y x).r < 256)
          × ((add_frame.pixel y x).g < 256)
          × ((add_frame.pixel y x).b < 256)
    channels y zero = omega arith
    channels y (suc zero) = omega arith
    channels y (suc (suc zero)) = omega arith
    channels y (suc (suc (suc x))) = omega arith

add_frame-IsStraight : IsStraight settings add_frame
unfolding rev_opmap default_map
add_frame-IsStraight y zero = λ e. cc
add_frame-IsStraight y (suc zero) = λ e. cc
add_frame-IsStraight y (suc (suc zero)) = λ e. cc
add_frame-IsStraight y (suc (suc (suc x))) = λ e. cc

idle_vm-HoldsBytes : HoldsBytes idle_vm
idle_vm-HoldsBytes = record {
  reg_bytes = λ y. (omega arith, omega arith, omega arith);
  slot_bytes = λ m. omega arith;
}

execute_array-HoldsBytes_example : HoldsBytes (vm_of (execute_array idle_vm add_frame))
execute_array-HoldsBytes_example =
    execute_array-HoldsBytes idle_vm add_frame add_frame-IsUint8 idle_vm-HoldsBytes

abbrev halted_cpu : Cpu
halted_cpu = record (fresh idle_vm) { halted = λ y. y == 0 }

run_columns_idle_example :
    (vm_of (run_columns add_frame 10 0 halted_cpu)).registers 0 ≡ halted_cpu.registers 0
run_columns_idle_example = run_columns_idle add_frame 10 0 0 halted_cpu (inl refl)

straight_frame_done_example : (vm' : Vm) × (execute_array idle_vm add_frame ≡ done vm')
straight_frame_done_example =
    straight_frame_done idle_vm add_frame refl add_frame-IsStraight (omega arith)

abbrev self_jump : JumpsToItself settings loop_frame
unfolding rev_opmap default_map
self_jump = record {
  lenient = refl;
  a_thread = omega arith;
  a_row = omega arith;
  a_column = omega arith;
  jumps = refl;
  target = refl;
}

self_jump_fails_example :
    (vm' : Vm) × (execute_array idle_vm loop_frame ≡ failed (max_col_steps_reached 0) vm')
self_jump_fails_example = self_jump_fails idle_vm loop_frame self_jump
