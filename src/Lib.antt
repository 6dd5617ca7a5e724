-- ===== src/Lib.antt =====
-- The core of ProtoGPU, a functional simulator of SIMT GPUs that runs PTX kernels.
--
-- A kernel is a list of instructions. The executor (src/simt/simt.cpp) cuts a launch into thread
-- blocks, hands them to SMs through a queue (src/runtime/cta_scheduler.cpp), cuts each block into
-- warps and lets a warp scheduler (src/simt/warp_scheduler.cpp) pick the warp that runs next. A turn
-- of a warp normalizes its reconvergence stack, looks the instruction up in the descriptors
-- (src/instruction), expands it into micro-ops and runs each in the unit of its kind: ExecCore,
-- ControlUnit and MemUnit (src/units). MemUnit stores in the address spaces (src/memory). A branch
-- that diverges splits the path on the stack, at the reconvergence point that
-- src/simt/control_flow_analysis.cpp computed.
--
-- The modules:
--   Prelude       shared names, Boolean tests, vectors as lists, bits of numbers; Prelude/Dict has
--                 ordered association lists for std::map, Prelude/Chars strings as lists of bytes,
--                 Prelude/Results the monad of code that throws
--   Contracts     include/gpusim/contracts.h and src/common/contracts.cpp: data and lane masks;
--                 Contracts/Words has the casts, Contracts/Masks the masks lane by lane
--   Warp          include/gpusim/units.h and the register helpers of src/units/exec_core.cpp;
--                 Warp/Lanes is the loop over lanes, Warp/Regs the register file
--   Units/Exec    ExecCore::step, Units/Control ControlUnit::step, Units/Mem MemUnit::step
--   Memory        AddrSpaceManager
--   Instruction   DescriptorRegistry::lookup and Expander::expand
--   Sched/Warps   the warp schedulers, Sched/Ctas the queues of thread blocks
--   Simt/Cfa      analyze_control_flow; Simt/Cfa/Words its bit sets, Simt/Cfa/Paths its fixed point
--   Simt/Stack    normalize_stack, the split and the commit of SimtExecutor::run
--   Simt/Step     predication, the micro-op loop and one turn of a warp
--   Simt/Launch   the checks of a launch and the first state of a warp
--   Simt/Run      the loops of SimtExecutor::run on one thread, with the step limit: over the turns of a
--                 block, and in Simt/Run/Kernels over the blocks
--   Runtime       the host buffers and the copies of src/runtime/runtime.cpp
--   Cuda          the state of the CUDA shim (cuda/src/cudart_shim): Cuda/Errors the last error,
--                 Cuda/Devices device_memory.cpp, Cuda/Kernels kernel_registry.cpp,
--                 launch_config_stack.cpp and stream_scheduler.cpp, Cuda/Args kernel_args_pack.cpp,
--                 Cuda/Entries ptx_entry_validate.cpp; Cuda/Api the exported calls on device memory
--                 (exports.cpp) with the initialization of runtime_context.cpp
--   Json          src/common/json.cpp: Json/Reader the parser, Json/Printer stringify, Json/Numbers the
--                 numbers
--   Tests         concrete inputs
-- An operation keeps its name of the source, and takes and returns the state it changes.
--
-- Numbers are natural numbers with the wrap-around of their width written out; a signed 64-bit
-- integer is its bit pattern. A vector is a list with native indices, a map from addresses to bytes a
-- function, a diagnostic its code. An exception or a missing value is `none`.
--
-- Fuel: the `while (changed)` loop of the analysis runs as many passes as the source allows before
-- its own diagnostic. The loop of normalize_stack has the depth of the stack as its fuel, and each of
-- its turns takes a frame off. The loops over lanes and nodes recurse on what is left of their range.
-- The turns of a block have the number of its warps and the step limit as their fuel: a turn ends a
-- warp or counts a step. The loop that starts the warps has their number, and the loop over the
-- blocks the number of blocks in the queue. The JSON
-- reader has twice the length of the text, the search for PTX entries its length.
--
-- Not modelled: events, counters and logs; the texts of diagnostics; reading descriptors and
-- configurations from the JSON values; the PTX frontend and the instruction mapper; of the runtime its
-- kernel entry points, its streams and its workloads; of the shim its launches and streams, the fat
-- binary registry and the embedded assets, which are generated; the worker threads of
-- SimtExecutor::run. The mutexes of the memory and of the queues serialize their calls, so threads are
-- sequences of calls. Host memory runs out in an allocation of device memory only. Floating-point arithmetic, and how a double is read and printed, are parameters.
pub mod Prelude
pub mod Contracts
pub mod Warp
pub mod Instruction
pub mod Units
pub mod Memory
pub mod Sched
pub mod Simt
pub mod Json
pub mod Runtime
pub mod Cuda
pub mod Tests
