-- ===== src/Lib.antt =====
-- Lockify is a distributed lock manager for shared-disk file systems, a change of the Linux kernel's
-- DLM: the node that first uses a resource takes itself for its master and notifies the directory
-- node, instead of asking it for the master. This library models the lock manager's core,
-- fs/dlm/lock.c with the data of fs/dlm/dlm_internal.h and the constants of
-- include/uapi/linux/dlmconstants.h, for one resource with the locks of its lockspace.
--
-- The parts, and how they call each other. A call of a user, `dlm_lock` or `dlm_unlock`, checks its
-- arguments (Args), and goes on by stages (Api): stage 2 holds the resource's mutex, stage 3 (Stage)
-- finds the master and either sends the operation there (Send, Wire, Waiters) or does it (Op).
-- Stage 4, on the master, tests whether the lock can be granted and grants it (Grant, Lvb), puts it
-- on a queue (Queue), and grants what waits or sends blocking callbacks (Pending).
--
-- The files, and the code that each one models:
--   Base          shared names, Boolean tests, lists of lock ids
--   Modes         the modes and the tables, lock.c 96-168 and 269-280
--   State         `struct dlm_lkb`, `struct dlm_rsb`, and the state that the code changes;
--                 State/Flags, State/Events and State/Set have the flags, the messages and
--                 callbacks, and the writes that the code makes together
--   Queue         lock.c 1344-1409 and 2001-2024
--   Wire          lock.c 298-325 and 3397-3622: callbacks and messages
--   Lvb           lock.c 1756-1855: the value block
--   Grant         lock.c 1867-1999 and 2067-2309
--   Pending       lock.c 2314-2497
--   Op            lock.c 2924-3065, do_request and the others with their effects
--   Waiters       lock.c 1411-1606: outstanding replies
--   Send          lock.c 3516-3716, 4487-4529, 4863-4897
--   Stage         lock.c 2518-2622 and 3074-3150
--   Receive       lock.c 852-890, 1206-1271, 3739-3779, 3808-4250, 4365-4753 and 4899-5026: the handlers
--                 of messages, on the master (Receive/Master) and on the owner's node (Receive/Reply)
--   Args          lock.c 2624-2915
--   Api           lock.c 3157-3373
--   Directory     lock.c 364-500, 541-848, 892-1105, 1141-1156, 1608-1740, 3781-3804, 4252-4358 and
--                 4756-4860: one name in the table of resources of a node, and what the directory node
--                 answers; Directory/Find has find_rsb, Directory/Remove the ways out of the table and
--                 Directory/Handlers the messages
--   Glock         fs/gfs2/glock.c 155-213, 251-262, 324-562, 1190-1206: the glocks of gfs2, their holders
--                 and what grants them (Glock/Promote); Glock/Machine (571-858, 1418-1435) has the state
--                 machine and Glock/Queue (1052-1095, 1475-1642, 1847-1926) what moves it; Glock/Dlm
--                 has the requests and answers of fs/gfs2/lock_dlm.c 119-293
--   Spec          what a resource promises: a table of granted modes and its steps
--   Refine        the relation between the code and Spec; one child for each part of the code
--   Placed        on which queue each lock stands, under each operation
--   Tests         concrete states, runs of the code and instances of the results
--
-- How the state corresponds. A lock is named by its id, a number, and the store `lkbs` has its
-- fields; a list head in a lock is membership in a list of ids. A queue is the list of the ids on it.
-- A function that changes a lock or a resource is a function on `State`; a result code is an `Errno`
-- beside the state. Messages and callbacks are appended to `sent` and `callbacks`, newest first. A
-- DLM_ASSERT that fails sets `bug`. Function names are those of the source; `_grant_lock`,
-- `_remove_lock`, `_can_be_granted` and `_remove_from_waiters` are `grant_held`, `remove_held`,
-- `grantable` and `remove_waiter`, and `_request_lock` and the others of stage 3 are
-- `rsb_request_lock` and so on.
--
-- Loops and fuel. A loop over a queue goes by the entries at its start. The restarts of
-- `grant_pending_convert` run on fuel, twice the length of the convert queue and two more: each
-- restart after a grant leaves one lock or one request less, and there is one restart after a
-- demotion. The sequence number of the value block wraps at 2 ^ 32.
--
-- What other code does is a parameter (`Env`): this node's id, the directory node of the resource,
-- the length of a value block, and whether the k-th call for a message handle or for memory
-- succeeds. A call starts on a resource that `find_rsb` has found, and a
-- new lock has been made; for a request of another node, what `find_rsb` and the allocation of an id
-- answer is an argument (`Lookup`). The encoding of error codes in messages (fs/dlm/util.c) loses
-- nothing. The lock that stands for one that is not there, `ls_local_lkb`, has the id 0.
--
-- In Directory the table is that of one name, with its trees and the stock of resources; the retry
-- loops run on fuel, and no other code takes from the stock between two steps of a turn. Its resource
-- has the fields that the table reads, and stands apart from that of `State`.
--
-- In Glock each step is one call under the spin lock of the glock; what the code lets go of the spin
-- lock for (sync, invalidate, the lock manager) is an argument, `World`, and the answer of the lock
-- manager is a step of its own. `asked` is no field of the source: it is set by a call of the lock
-- manager that succeeds, and the answer clears it. The delay of a queued work is left to the order of
-- the steps, and GLOCK_BUG_ON sets `bug` and goes on.
--
-- The scan of shrink_bucket is that of one name: the time, and that the scan reaches the name, are
-- arguments, and DLM_MSG_REMOVE is sent where `remove_toss` returns true.
--
-- Not modelled: the queue of messages that are saved during recovery, recovery, locks of user
-- space, printing and tracing; fs/dlm/lockspace.c, which is the life cycle of lockspaces, but for
-- the repeated notification; the waits of gfs2_glock_dq, lock_nolock, the retry of gdlm_lock on
-- EBUSY, the rest of lock_dlm.c, the table and the list of unused glocks, and the rest of fs/gfs2;
-- fs/ocfs2; and the scripts of fast26ae. Mutual exclusion by mutexes and spin locks is taken for
-- granted: each stage is one step.
pub mod Base
pub mod Modes
pub mod State
pub mod Queue
pub mod Wire
pub mod Lvb
pub mod Grant
pub mod Pending
pub mod Op
pub mod Spec
pub mod Refine
pub mod Waiters
pub mod Send
pub mod Stage
pub mod Api
pub mod Receive
pub mod Args
pub mod Placed
pub mod Directory
pub mod Glock
pub mod Tests
