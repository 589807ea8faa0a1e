-- ===== src/Lib.antt =====
-- libcds 0.8.0 with a concurrent bag and queues for message passing: a C++ template library of
-- lock-free containers, with the locks and the memory reclamation that they use. The paths below
-- start at the repository's root, cds-0.8.0.
--
-- The containers do not call each other; RWQueue takes a lock as a template argument, which may be
-- the spin lock, and the stack hands its nodes to the collector of the hazard pointers; each is a
-- template that a client instantiates, and the stack, the queues and the bag have the same two
-- calls, one that adds an item and one that removes some item.
--
-- - Bag (cds-0.8.0/cds/bag/sbag_hrc.h): the bag of Sundell et al.
--   * Bag/State: `Bag` holds the fields of all blocks (m_pNext, m_data, m_notifyAdd) as arrays
--     over the blocks' addresses, with NULL as 0, and m_pGlobalHeadBlock; `Tls` is TLSData; `Link`
--     is a pointer with its two marks. `new` and `init_thread` are the constructor and initThread.
--   * Bag/Blocks: add, NewBlock, NotifyAll, NotifyStart, NotifyCheck, Mark1Block.
--   * Bag/Remove: tryRemoveAny, TryStealBlock, NextStealBlock. Following NULL is the outcome
--     `null_deref`. `size` is c_nBlockSize and `threads` is NR_THREADS.
--   * Bag/Blocks/Keeps, Bag/Blocks/Add, Bag/Remove/Stays, Bag/Remove/Effects, Bag/Remove/Takes,
--     Bag/Remove/Returns: what the calls do to the items; Bag/Blocks/Linked: the addresses that a
--     bag stores are NULL or allocated.
--   * Bag/Calls: the calls of all threads, one after the other, from a new bag on; its children
--     Fresh and Adding are about what add leaves of the lists of blocks, Returning is about how
--     tryRemoveAny ends. Below Bag/Remove, Lists and Ready say what the lists of blocks and a
--     thread's position are between two calls; Walk, Rewalk, Cut and Advance are about
--     NextStealBlock, Seen and Scan about TryStealBlock at one block, Pass, Lost and Stale about
--     one list, Rounds and Ending about the two loops, Unlink and Own about the thread's own list,
--     Fuel about what more fuel changes.
-- - Queue/Circular (cds-0.8.0/cds/queue/csqueue.h): CircularFifo. push, pop, isEmpty, isFull,
--   increment are `push`, `pop`, `is_empty`, `is_full`, `increment`; Queue/Circular/Threads has
--   the accesses of a producer and a consumer thread as steps.
-- - Queue/FastForward (cds-0.8.0/cds/queue/ffqueue_sentinel.h): FastForwardQueue. enqueue,
--   dequeue, next have the same names; Queue/FastForward/Threads has the accesses of its two
--   threads as steps, Invariant what the steps keep.
-- - Queue/TwoLock (cds-0.8.0/cds/queue/rwqueue.h): RWQueue, with its nodes in a store. enqueue,
--   dequeue, empty, clear and size have the same names; Queue/TwoLock/Chain is about lists of
--   nodes, Calls about the calls, Reclaim about clear and the iterators.
-- - Queue/Mpmc (cds-0.8.0/cds/queue/vyukov_mpmc_bounded.h): vyukov_mpmc_bounded; the accesses of
--   enqueue and dequeue are the steps of `Step`, and `sent` and `got` record by position what
--   comes in and goes out. Turns has the invariant, Moves what a step leaves alone, Work how a
--   step at one cell keeps the invariant, Claims and Wins the steps, Exchange and Limits what
--   follows.
-- - Lock/Reentrant (cds-0.8.0/cds/lock/spinlock.h): ReentrantSpinT; lock, tryLock, unlock and
--   changeOwner are the steps of `Step`. Lock/Reentrant/Places says what a thread's place tells of
--   the lock, Moves has the invariant and the steps that keep it, Exclusion what follows.
-- - Lock/Spin (cds-0.8.0/cds/lock/spinlock.h): SpinT in a CDS_DEBUG build; lock, tryLock and
--   unlock are the steps of `Step`, an assertion that fails leads to `aborted`. Lock/Spin/Places
--   has the invariant.
-- - Lock/ReaderWriter (cds-0.8.0/cds/lock/rwlock.h): RWSpinWPrefT, each load of its word and each
--   compare and swap a step of `Step`; the word is a record of its bit fields, an assertion that
--   fails leads to `aborted`. Count counts threads, Invariant says that the fields are such
--   counts, Exclusion has the theorems.
-- - Bitop (cds-0.8.0/cds/details/bitop_generic.h): msb32, msb64, lsb32, lsb64, each test of the
--   32-bit ones a call of `msb_step` or `lsb_step`.
-- - Gc/Hazard (cds-0.8.0/src/hzp_gc.cpp, cds-0.8.0/cds/gc/hzp): hazard pointers. The file has
--   HPAllocator, retired_vector and the collector's records as a store at addresses; Slots is
--   about the guards, Records about AllocateHPRec, Detach about detachAllThread. Gc/Hazard/Scan has
--   the scans, HelpScan, retirePtr and the destructor; of its children Hazards, Classic, Marks,
--   Inplace are about what a scan keeps, Filters and Room about how much, Steps, Help and Orphans about
--   HelpScan and retirePtr, Destroy about the destructor. Gc/Hazard/Deref has derefLink of one
--   thread and the scans of others as steps, Invariant and Safety what they keep.
-- - Stack/Treiber (cds-0.8.0/cds/stack/stack_hzp.h): Treiber's stack with hazard pointers. A link
--   is named by the node that it stands in, `m_pTop` by 0. push, pop and clear are the steps of
--   `Step`; the step `release` is the collector, which may free what is retired and what no guard
--   has been found to protect, as Gc/Hazard/Deref shows of the guards. Invariant says which nodes
--   are in the stack and which belong to which thread, Kinds, Keeps and Steps that the steps keep
--   it, Lifo has the theorems.
-- - OrderedList/Michael (cds-0.8.0/cds/ordered_list/michael_list_nogc.h): Michael's list without
--   deletion. A link is named by the node that it stands in, the key and the value of a node are
--   numbers. find, insert, ensure and emplace are the steps of `Step`, each access to a link one
--   of them; `search` is the part that they share, its `purpose` says which of them goes on after
--   it. Chain is about the list of nodes, Invariant, Kinds and Insert about what the steps keep,
--   Sorted and Search about what the list holds and a search finds, Clear about `clear`.
-- - Fifo: the queue that the queues implement, bounded or not.
-- - Prelude: the native numbers, Boolean tests, arrays over addresses, windows of a ring, the
--   standard algorithms that the code calls (Sort).
--
-- Bounds and fuel. An `unsigned int` is a natural number with its wrap modulo 2 ^ 32 written out;
-- a theorem on a ring of `Size + 1` cells asks that `Size + 1` is below 2 ^ 32, as the type of
-- `Size` and the array's length have it. The theorems on RWSpinWPrefT ask for fewer than 2 ^ 15
-- threads, so that its 15 bit count of writers does not wrap. The loop of `add` runs on fuel, and
-- `size + 2` rounds are enough. The theorems on vyukov_mpmc_bounded ask that fewer than 2 ^ 63
-- accesses, less the capacity, have been made, so that no position wraps; its capacity is a power
-- of two from 2 on, as the constructor asserts. The loops of tryRemoveAny run on fuel whose end is
-- the outcome `unfinished`. In a state that calls lead to, some fuel is enough, and any more gives
-- an end too: NextStealBlock looks at each block of a list once more at most, a round passes each
-- block and the end of each list once, and from the third round on no block can report an item as
-- added. What is stated of other states holds however the loops end.
--
-- Not modelled. The calls of the bag and of RWQueue are taken one at a time; in the bag a compare
-- and swap succeeds exactly when the value that it expects is there, and the hazard pointers guard
-- nothing, since DeleteNode has an empty body. The `volatile` accesses of the queues are taken to
-- be sequentially consistent. The stack's count of the nodes that clear removes is not stated, nor
-- that a loop of compare and swap ends. In Gc/Hazard the calls of the collector are taken one at a
-- time, but for derefLink against classic_scan. The other schemes of reclamation, the allocator,
-- the atomics and the operating system layer are not modelled, nor are the stack with tagged
-- pointers, the maps, and the lists that delete nodes.
pub mod Prelude
pub mod Fifo
pub mod Bag
pub mod Queue
pub mod Lock
pub mod Bitop
pub mod Gc
pub mod OrderedList
pub mod Stack
