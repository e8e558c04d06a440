-- ===== src/Lib.antt =====
-- ZDX Pyxel: a virtual machine whose programs are images, and the services around it.
--
-- The machine (zdx_parallel_vm.py) runs an RGB raster: row y is the program of thread y, column x the
-- x-th instruction of every thread, and a pixel an instruction, whose R channel is the opcode and whose
-- G and B channels are the operands. A raster comes from SimpleCompiler, of the same file, or is the
-- executable part of a spatial frame (zdx_spatial_frame.py). SAVE_STATE names a next frame, which
-- execute_texture then runs, and after a call the VM is marked with the hash of its state.
--
-- Which file models what:
-- - Vm/Isa, Vm/Machine: the opcode map; ParallelPyxelVM's fields as the record Vm. Registers and shared
--   slots are functions of the thread's and the slot's number, where the source has the keys T{i} and
--   M{i}; they are read below `threads` and below 8 only.
-- - Vm/Exec: the branches of _execute_array for one thread at one column. Vm/Frame: its two loops.
--   `run_columns` is recursion on the steps that the budget max_col_steps leaves, so no fuel is added.
-- - Vm/Chain: _execute_single and execute_texture. The file system is the parameter Files, which opens
--   an image and tells whether a path exists; the loop is recursion on max_chain.
-- - Vm/Checkpoint, Vm/Init: checkpoint state, restore_checkpoint, and the constructor with _load_shared.
--   The hash of zdx_checkpoint.py is the parameter `digest`, a function of the checkpoint state.
-- - Compiler/Text, Compiler/Simple: the text operations that the parser uses, on lists of character
--   codes in ASCII, and SimpleCompiler with the program builders. `compile` returns the image that the
--   source saves, or `none` for an empty program, for which it saves nothing. Compiler/Listing: the text of
--   an instruction, as a specification of the parser.
-- - Spatial/Layout: SpatialRegion and SpatialLayout. Spatial/Dirty: the dirty rectangles of
--   SpatialFrame; the `while True` loop is recursion on fuel, one more than there are rectangles:
--   each round but the last drops one.
-- - Spatial/Cells: the cells of a SpatialFrame, as RGB and as 24-bit numbers. Spatial/Spans: read_bytes,
--   write_bytes, read_json and write_json, with json as two parameters. Spatial/Machine:
--   execute_spatial_frame of SpatialPyxelVM, over Vm/Frame and Vm/Chain.
-- - Compute/Task, Compute/Coordinator, Compute/Claim, Compute/Finish: ComputeTask and ComputeCoordinator
--   of zdx_compute_core.py. The clock and fresh lease ids are arguments of the operations that read them,
--   and a task keeps of its metadata the entries that `validate` and the coordinator read or write.
--   Compute/Requests is the coordinator under a sequence of calls.
-- - Memory/Manager, Memory/Append: SpatialAgentMemoryManager of zdx_agent_memory_manager.py, whose
--   operations change the entries of a namespace. The size estimates of the pixel store are the parameter
--   Store. The loops that evict are recursion on fuel, one more than there are entries: each round drops
--   one.
-- - Cluster/Log: ReplicatedClusterState of zdx_cluster.py with append, merge and _load. Cluster/Queue: its
--   `materialized`. Cluster/Master: the operations of a master and its workers on the log. The SHA-256
--   of an operation's canonical JSON is the parameter `digest`; fresh ids and readings of the clock are
--   arguments. _save and snapshot, which write the log out and copy it, are left out.
-- - Gateway/Policy, Gateway/Arguments, Gateway/Proposal: zdx_agent_tool_gateway.py up to `authorize`, with
--   the SHA-256 and the size of an action's canonical JSON as parameters. Gateway/Store: its records in
--   the agent memory, which is the interface ToolMemory. Gateway/Execute: the constructor and `execute`;
--   the handlers, the external authorizer and the checkpoint of the session are functions that may fail.
--   Gateway/Managed fills ToolMemory with Memory/Manager, whose namespaces then reject instead of
--   evicting, as the constructor of the gateway demands of the two that it uses.
-- - Auth/Guard, Auth/Pipeline: ReplayGuardState and ZDXAuthenticationPipeline of
--   zdx_auth_pipeline.py, with the constructor's callables as parameters and times in microseconds.
--   Auth/Latest: an account that keeps less, as the specification of the pipeline.
-- - Karma/Score, Karma/System: KarmaScore and ZDXKarmaSystem of zdx_karma_system.py, with the sets as
--   dictionaries and the floating-point loss of a decay as the parameter `decay_loss`.
-- - Storage/Disk: the files beside a state path of zdx_storage.py, and actions on them that may return,
--   raise, or never end because the process dies. What becomes of each operation of the system is a
--   list in the state. Storage/Commit: atomic_write_bytes. Storage/Migrations: MigrationRegistry.
--   Storage/Envelope, Storage/Store: StateStore; json, SHA-256 and the clock are fields of Setting,
--   and a document is told apart as far as _decode does. The loop of `upgrade` is recursion on fuel, one
--   for each version between the two.
-- - Bytes: slices of a bytearray and the integers of struct. Mailbox/Format, Mailbox/Ring:
--   SpatialMailbox of zdx_spatial_mailbox.py on the bytes of its region; SHA-256 and UTF-8 are
--   fields of Outside. Mailbox/Queue: a bounded queue, as the specification.
-- - Examples: runs at concrete inputs.
--
-- Numbers are naturals: what Python does with negative numbers is outside the model, except where the
-- compiler clamps a negative operand. A register is a natural number, and byte arithmetic keeps its
-- `& 0xFF` as `% 256`. Printing, debug output and mem_map are left out, since nothing that is modelled
-- reads them. The locks of the storage are taken to exclude, and are not modelled. The network
-- servers, sessions and the pixel memory codec are not modelled, since the parts above do not depend on
-- them but through their interfaces.
pub mod Base
pub mod Bytes
pub mod Vm
pub mod Compiler
pub mod Spatial
pub mod Compute
pub mod Memory
pub mod Cluster
pub mod Karma
pub mod Auth
pub mod Gateway
pub mod Storage
pub mod Mailbox
pub mod Examples
