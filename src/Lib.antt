-- ===== src/Lib.antt =====
-- The core of the patched Ethereum VM: ethereumjs-monorepo--ethereumjs-vm-5.9.3/packages, which the
-- forked ganache of this repository runs with two precompiles of Celo added, and ganache's pool of
-- transactions.
--
-- The parts, their files and the code that they model (paths below packages/, or, where they start
-- with ganache-7.4.4, from the root):
--   * Util.Padding: util/src/bytes.ts, the padding of buffers. A buffer is a list of numbers, its
--     bytes; RLP, the precompiles and the opcodes pad and read buffers with it.
--   * Rlp: rlp/src/index.ts. `Item` is a byte array or an array of items. `_decode` is `decode_fuel`,
--     split into its four branches: Rlp.Branches and Rlp.Calls are about what each reads and returns,
--     Rlp.RoundTrip about decoding what was encoded. The fuel of `decode` is twice the length of the
--     input; an encoding has at least one byte, and each byte takes at most two calls.
--   * Evm.Error: vm/src/exceptions.ts. A `throw` is an `err` of `Result`.
--   * Evm.Stack: vm/src/evm/stack.ts; a `BN` on the stack is a natural number. Evm.Stack.View reads
--     the stack from its top, Evm.Stack.Invariant is about its height and its 256-bit words.
--   * Evm.Memory: vm/src/evm/memory.ts; Evm.Memory.Access reads a memory as bytes at addresses.
--   * Evm.Meter: the gas counters of vm/src/evm/eei.ts, and the computations that write to them and
--     return or trap; what was written before a trap stays written.
--   * Evm.Sstore: the SSTORE charges of vm/src/evm/opcodes/util.ts, EIP1283.ts, EIP2200.ts and
--     EIP2929.ts, with the gas parameters as a record. Evm.Sstore.Net is about net metering.
--   * Evm.Jumps: `_getValidJumpDests` of vm/src/evm/interpreter.ts and the two tests of
--     vm/src/evm/opcodes/util.ts. Each round of the loop moves on, so the length of the code is fuel
--     enough.
--   * Evm.Gas: the helpers of vm/src/evm/opcodes/util.ts. Evm.Gas.MemoryCost is about the charge for
--     memory, Evm.Gas.Slice about slices of data and the gas of a call; Evm.Gas.CallOutput has what a
--     call writes to memory and the form of storage values.
--   * Evm.Alu: the arithmetic and comparison opcodes of vm/src/evm/opcodes/functions.ts. Words is about
--     the values, Handlers about the stack.
--   * Evm.Interpreter: `run` and `runStep` of vm/src/evm/interpreter.ts, with the opcode table and the
--     handlers as arguments. The loop has fuel for its rounds; one round more than gas is left is
--     enough (Evm.Handlers.Termination).
--   * Evm.Handlers: the handlers on stack, memory and flow of vm/src/evm/opcodes/functions.ts, POP to
--     SWAP16 without SLOAD and SSTORE, over the run state of Evm.Interpreter; the handlers of the other
--     opcodes are a parameter. Running has what they leave alone, Boundaries and Flow where they leave
--     the program counter, Safety the loop with them; Thrift is about gas that handlers do not give
--     back, and Termination about the end of the loop.
--   * Evm.Eof: vm/src/evm/opcodes/eof.ts, the checks of EOF containers. Which opcodes have a handler is a
--     parameter. Opcodes is about `validOpcodes`, Sections about the sizes that a header states.
--   * Evm.Message: messages, vm/src/evm/evm.ts with message.ts, and the calls of vm/src/evm/eei.ts. The
--     state manager is a record of its calls; Frames has the laws that it must have. Checkpoints and
--     Execute have the steps of `executeMessage`, Create the deposit of a contract's code. What the
--     interpreter runs is a parameter: in Execute any computation, in Requests and Eei a script of
--     requests, each of which continues with the answer. Depth ties the knot: `run_message` executes a
--     message whose code sends messages. Its fuel is the number of levels, and `stackLimit` + 1 is
--     enough, since the EEI sends no message from the level of `stackLimit`. Balanced is about the
--     checkpoints, Atomic about errors, Gas and Deposit about the gas and the code, Accounts about
--     messages over State.Manager.
--   * State.TransientStorage: vm/src/state/transientStorage.ts, the storage of one transaction with
--     its journal. Journal is about undoing, Frames about the frames of a call stack.
--   * State.Warm: the warm addresses and slots of vm/src/state/baseStateManager.ts, and the access
--     charges of vm/src/evm/opcodes/EIP2929.ts. Scopes is about checkpoints, Charges about accesses.
--   * State.Manager: vm/src/state/cache.ts, and the accounts, code, storage and checkpoints of
--     stateManager.ts and baseStateManager.ts: the state manager over which messages are proved. The trie of
--     accounts is the map that it shows, and a trie of storage is its root. Checkpoints proves the laws
--     of Evm.Message.Frames for it.
--   * Celo: the precompiles vm/src/evm/precompiles/fd-celo-transfer.ts and ce10-celo-registry.ts.
--   * Trie.Nibbles: the keys of trie/src/util/nibbles.ts and hex.ts.
--   * Trie.CheckpointDb: trie/src/checkpointDb.ts over trie/src/db.ts. The levelup store is a parameter
--     with its documented laws. Abstract has the specification, a map with a stack of saved maps, and
--     Refinement the proof that the database implements it; Maps is about the maps of changes.
--   * Chain.Params: the hardforks and the parameters of common/src/index.ts. The names are numbers, the
--     tables of hardforks and EIPs are an argument, and a `null` is `none`. ByBlock has the functions
--     on block numbers and Parameters those on parameters and EIPs; Order, Positions, Active,
--     NextBlock and ActiveEips are about them.
--   * Block.Header: the base fee, the gas limit and the difficulty of block/src/header.ts, with the
--     parameters of the hardfork as arguments.
--   * Vm.RunTx: the gas of a transaction, tx/src/baseTransaction.ts, util.ts and eip1559Transaction.ts,
--     and its purchase and settlement in vm/src/runTx.ts, with the gas parameters as a record and the
--     message that the EVM executes as a parameter. Settlement is about who pays what, CleanUp about
--     the deletion of accounts.
--   * Ganache.Heap: ganache-7.4.4/src/packages/utils/src/utils/heap.ts, the priority queue of ganache's
--     miner. The comparator is a parameter with the laws of a strict weak order. A loop down has the
--     length as fuel and a loop up its position: each round moves the item further. Arrays counts
--     items, Order has the heap order, Down and Up the loops, Operations and Refresh the rest.
--   * Ganache.TransactionPool: ganache-7.4.4/src/chains/ethereum/ethereum/src/transaction-pool.ts, over
--     Ganache.Heap. The account of the sender is an argument, so that a call of `prepareTransaction` is
--     one step. The loop that drains a queue has its length as fuel: each round takes a transaction.
--     Types has the data and the functions on one transaction. Drain is about the loop, Heaps, Scans
--     and Order about the order of the heaps.
--   * Common: the Boolean tests, lists, quotients, results, byte strings and association lists that
--     these share.
--
-- Numbers are natural numbers; a subtraction stands behind the test that the code makes, or, where
-- the code lets a `BN` become negative, the sign is written out
-- (Celo.Transfer, Block.Header, Evm.Alu).
--
-- Not modelled: the handlers of the opcodes on the environment, storage, logs and calls, and the
-- interpreter's reading of EOF sections; the proofs and roots of the state manager, and the rest
-- of blocks, the nodes of tries, the signing and serializing of transactions, and the choice and
-- the genesis of a chain, which are other parts of the program; the precompiles that call
-- libraries; the client, the network and the databases, which are input and output; and the rest
-- of ganache, the node around the VM.
pub mod Common
pub mod Util
pub mod Evm
pub mod State
pub mod Celo
pub mod Block
pub mod Rlp
pub mod Trie
pub mod Ganache
pub mod Chain
pub mod Vm
