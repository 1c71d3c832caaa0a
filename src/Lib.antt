-- ===== src/Lib.antt =====
-- Verification of the trace compiler and the memory manager of the Lambdachine virtual machine (vm/ of
-- the repository).
--
-- The machine interprets bytecode. A counter for each program counter finds code that runs often; the
-- recorder then follows the interpreter and writes a trace into a buffer of IR instructions, folding
-- each instruction against those that are there. An abstract stack says which IR reference each slot
-- of the interpreter's stack holds, a snapshot of it is taken at each guard, from which the stack is
-- restored when the guard fails, and an abstract heap follows the objects that the trace allocates.
-- The call stacks and the branch targets of the trace decide where it becomes a loop.
--
-- The memory manager maps regions of 1 MB from the system, takes blocks from them and hands out memory
-- in blocks by their contents; the mutator allocates into the block of closures by itself. A collection
-- copies what the stack and the static roots reach into new blocks, leaving forwarding pointers, and
-- gives the old blocks back to the list of free ones.
--
-- Files, and the code that they model:
--   Bytecode        BcIns of vm/bytecode.hh: opcodes, encoders and fields of instructions
--   Ir              IR, IRType and TRef of vm/ir.hh, with the modes of vm/ir.cc
--   Snapshot        Snapshot and SnapshotData of vm/ir.hh and vm/ir.cc
--   AbstractStack   AbstractStack of vm/ir.hh and vm/ir.cc
--   CallStack       CallStack of vm/ir.hh and vm/ir.cc
--   BranchTargets   BranchTargetBuffer of vm/ir.hh and vm/ir.cc
--   HotCounters     HotCounters of vm/jit.hh
--   AbstractHeap    HeapSnapData, AbstractHeapEntry and AbstractHeap of vm/ir.hh and vm/ir.cc
--   IrBuffer        IRBuffer of vm/ir.hh and vm/ir.cc
--   HeapOffsets     IRBuffer::setHeapOffsets of vm/ir.cc
--   FoldRules       the rules of vm/ir_fold.cc
--   Fold            IRBuffer::doFold and IRBuffer::optFold of vm/ir_fold.cc
--   Regions         Block and Region of vm/memorymanager.hh and vm/memorymanager.cc
--   MemoryManager   MemoryManager of the same files: the free blocks and the allocation functions
--   LargeRegions    allocLarge of vm/memorymanager.cc
--   InfoTables      allocInfoTable of vm/memorymanager.cc, and the protection of its blocks
--   LargeObjects    LargeObject of vm/objects.hh, and the lists of them in vm/memorymanager.cc
--   StackScan       the bitmaps of frames in scavengeFrame and scavengeStack
--   MachineCode     MachineCode and Prng of vm/jit.hh and vm/machinecode.cc
--   Collector       evacuate, the scavenging functions and performGC of vm/memorymanager.cc
--   Common          shared names, Boolean tests, lists, bit fields, signed integers
-- A child of a module holds its proofs, and Examples its tests. Functions have the names of the code's
-- methods, in lower case with underscores.
--
-- State is passed explicitly: an operation takes the record of an object and gives the changed one. An
-- array is a function from its indices. Where the code exits the program, because a table is full, the
-- result is `none`. Integers are natural numbers with their wrap-around written out; a pointer is the
-- number of the word or instruction that it points to.
--
-- Loops run on fuel. A binary search has one round more than the snapshot has entries; a walk along the
-- parents of a frame has one more than there are nodes; a search along a chain has one more than there
-- are literals or instructions; HeapSnapData::reserve has 16, more than any size needs; doFold has the
-- 130 rounds of the code. The loop around mmap has the 33 attempts of the code. allocInto has two rounds,
-- which is shown to be enough for what fits into a block. The walks of the collector take their fuel as
-- an argument: evacuate uses one for each indirection, and a walk over a list one more than its length.
-- setHeapOffsets has 2 ^ 17 rounds, more than two references of 16 bits can go down.
-- The search for machine code takes the fuel of its inner loop, which draws hints until one fits, as an
-- argument.
--
-- A block is known by the address of its header, a region by its own; memory is read and written by
-- aligned words. mmap is a parameter: a function of the regions that the program holds, the attempts
-- that are left, the hint and the size. IsMmap says what its manual promises.
--
-- Not modelled: assertions, sanity checks and printing; the registers and spill slots of instructions;
-- the interpreter, the recorder's treatment of each bytecode, the assembler and the
-- loader. The info table pointer of a closure in memory is a parameter of the fold engine.
pub mod AbstractHeap
pub mod AbstractStack
pub mod BranchTargets
pub mod Bytecode
pub mod CallStack
pub mod Collector
pub mod Common
pub mod Fold
pub mod FoldRules
pub mod HeapOffsets
pub mod HotCounters
pub mod InfoTables
pub mod Ir
pub mod IrBuffer
pub mod LargeObjects
pub mod LargeRegions
pub mod MachineCode
pub mod MemoryManager
pub mod Regions
pub mod Snapshot
pub mod StackScan
