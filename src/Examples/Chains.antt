-- ===== src/Examples/Chains.antt =====
-- Chains of frames, and checkpoints.
use zdx_paralell_pyxel_vm.Base.{◌≡◌, refl, true, some, str_eq, if◌then◌else◌}
use zdx_paralell_pyxel_vm.Base.Results.{ok}
use zdx_paralell_pyxel_vm.Vm.Isa.{rev_opmap, default_map}
use zdx_paralell_pyxel_vm.Vm.Machine.{Vm, frame_at}
use zdx_paralell_pyxel_vm.Vm.Frame.{execute_array, vm_of}
use zdx_paralell_pyxel_vm.Vm.Checkpoint.{
  checkpoint_state, checkpoint_hash, restore_checkpoint, record_execution_generation, restored,
  tabulate, IsMarked,
}
use zdx_paralell_pyxel_vm.Vm.Checkpoint.Restore.{restore_own, restore_detects}
use zdx_paralell_pyxel_vm.Vm.Chain.{Files, execute_single, execute_texture}
use zdx_paralell_pyxel_vm.Vm.Chain.Generation.{Counts, execute_texture-Counts}
use zdx_paralell_pyxel_vm.Examples.Machines.{idle_vm, link_frame, black_frame, toy_digest}

-- The start frame links to frame 0 of the registry, which is black and links to nothing.
abbrev disk : Files
disk = record {
  open_image = λ path. if str_eq path "start.png" then some link_frame else some black_frame;
  exists = λ path. true;
}

abbrev linked : Vm
linked = vm_of (execute_single disk "start.png" idle_vm)

abbrev ended : Vm
ended = vm_of (execute_single disk "whisperframe_B.png" linked)

abbrev marked : Vm
marked = record_execution_generation toy_digest ended

execute_texture-Counts_example :
    Counts toy_digest idle_vm (execute_texture disk toy_digest "start.png" idle_vm)
execute_texture-Counts_example = execute_texture-Counts disk toy_digest "start.png" idle_vm

restore_own_example :
    (v : Vm) × (restore_checkpoint toy_digest
        (checkpoint_state idle_vm)
        idle_vm.last_checkpoint_hash
        marked
      ≡ ok v)
    × (checkpoint_state v ≡ checkpoint_state idle_vm)
unfolding checkpoint_hash record_execution_generation execute_single rev_opmap default_map frame_at
    execute_array
restore_own_example = restore_own toy_digest idle_vm marked refl refl

-- idle_vm's checkpoint in a VM that has run.
abbrev rewound : Vm
rewound = restored (checkpoint_state idle_vm) "empty" marked

rewound_is_restored :
    restore_checkpoint toy_digest (checkpoint_state idle_vm) idle_vm.last_checkpoint_hash marked
    ≡ ok rewound
unfolding restore_checkpoint checkpoint_state record_execution_generation execute_single rev_opmap
    default_map frame_at execute_array checkpoint_hash tabulate
rewound_is_restored = refl

restore_detects_example :
    (checkpoint_state rewound ≡ checkpoint_state idle_vm)
    × (rewound.threads ≡ idle_vm.threads)
    × IsMarked toy_digest rewound
    × (rewound.config ≡ marked.config)
unfolding checkpoint_hash record_execution_generation
restore_detects_example =
    restore_detects toy_digest idle_vm marked rewound (checkpoint_state idle_vm) refl (λ e. refl)
      rewound_is_restored
