-- ===== src/Lib.antt =====
-- Verification of the io-engine of Mayastor: the rebuild of a nexus child and what it stands on, the
-- log of the writes that a child misses, and the saved information of a nexus.
--
-- A rebuild job (io-engine/src/rebuild) copies the blocks of a source device to a destination. Its
-- frontend, which clients call, and its backend, which runs the copy tasks, share one state machine
-- and a channel of messages. The backend asks a walk for the next block, gives it to a task of its
-- pool, and takes the results as they come. A partial rebuild copies what a segment map counts as
-- dirty, where the map was kept by the writes that a child missed.
--
-- Files, and the code under io-engine/src that they model:
--   Common, Common/*            shared names, results, words of 64 bits, panics as `none`
--   Core/BitVec                 the crate bit_vec as a record of operations and laws, with lists for it
--   Core/Injection, */*         core/fault_injection: `Injection`, `inject`, `FaultMethod`, `from_uri`, `as_uri`
--   Core/SegmentMap, */*        core/segment_map.rs: `SegmentMap`, with `get` as `get_bit`
--   Rebuild/State, */*          rebuild/rebuild_state.rs: `RebuildStates::exec_op`, `reconcile`
--   Rebuild/Descriptor, */*     rebuild/rebuild_descriptor.rs: `new`, `validate`, `validate_map`
--   Rebuild/Walk, */*           rebuild/rebuilders.rs: `PeekableIterator`, `FullRebuild`
--   Rebuild/Partial, */*        rebuild/rebuilders.rs, rebuild_map.rs: `PartialSeqRebuild`,
--                               `PartialSeqCopier`, `RebuildMap`
--   Rebuild/Allocated, */*      rebuild/rebuilders.rs, bdev_rebuild.rs: `PartialRebuild`, `build`
--   Rebuild/Copy, */*           rebuild/rebuild_task.rs, rebuild_descriptor.rs, nexus_rebuild.rs: `copy_one`,
--                               `verify_segment`, `copy_segment`
--   Rebuild/Tasks               rebuild/rebuild_task.rs: `RebuildTasks`, `TaskResult`
--   Rebuild/Job, */*            rebuild/rebuild_job_backend.rs, rebuild_job.rs, nexus_rebuild.rs: `run`,
--                               `manage_tasks`, `await_all_tasks`, the client operations, the wake-ups, `stats`
--   Nexus/Child, */*            bdev/nexus/nexus_child.rs: `open`, `online`, `close`, `unplug`
--   Nexus/Io, */*               bdev/nexus/nexus_io.rs, nexus_channel.rs: `NexusBio::submit_all`,
--                               `complete`, `resubmit`
--   Nexus/IoLog, */*            bdev/nexus/nexus_io_log.rs: `IOLog`, `IOLogChannelInner`
--   Nexus/IoSubsystem, */*      bdev/nexus/nexus_io_subsystem.rs: `suspend`, `resume`
--   Nexus/Reservation, */*      bdev/nexus/nexus_child.rs: `reservation_acquire`, `resv_check_holder`
--   Nexus/Store, */*            bdev/nexus/nexus_persistence.rs: `save`, `save_txn`; store/etcd.rs:
--                               `put_kv_cas`
--   Nexus/Persistence, */*      bdev/nexus/nexus_persistence.rs: `PersistOp`, `persist`
--   Lvm/Property, */*           lvm/property.rs: `Property`, `PropertyType`, `tag`, `new`
--   Nvmx/ControllerState, */*   bdev/nvmx/controller_state.rs: `ControllerStateMachine`
--
-- A child of a nexus is opened, brought online, faulted, unplugged and closed; its close waits for
-- the removal of its device, while events go on. `unplug` and `open` have the child for themselves.
-- A child can take an NVMe reservation of its device. Faults can be injected into I/Os for tests.
--
-- A nexus sends a write to all the writers of a channel, and again where some of them fail; it asks
-- for the retirement of a device that fails. The I/O ends with the writers' answers as events.
--
-- A nexus whose child misses writes logs them, one log for each core; the log ends in the map of a
-- partial rebuild. A nexus saves the health of its children before it lets I/O go on, and shuts
-- itself down where it cannot.
--
-- State is passed explicitly. Arithmetic on u64 wraps, as in a release build. A panic is `none`, or
-- `panic` beside the errors. The async loops of the backend are cut at their awaits: `Mode` says
-- where the backend waits, and `step` is one event, a call, a message or the result of a task in
-- flight, so that an interleaving is a list of events. The interfaces are records: `BitVec` for the
-- crate, `TaskCopier` for the copy of one segment, which Rebuild/Copy implements over `Handles`, what
-- the devices and the lock of the nexus do, `RangeRebuilder` and `Measures` for the walk of a job, which
-- the full walk implements in Rebuild/Job/Full and Measured; `Crates` for url and serde_json,
-- `ResvHandle` for the handle of a device, `NvmeCodes` for the statuses of spdk_rs. The requests to the
-- store are a list of turns, in which other writers take theirs.
--
-- Fuel: `drain` takes the blocks of a walk; one more than the blocks of the range, or than the bits
-- of the map, is enough. `run_head` takes two rounds, because a round that starts no task
-- completes the job, and the next round ends it.
--
-- The counts of an I/O of a nexus are bytes and wrap. The failure of the NVMe-oF subsystem to pause or
-- resume is a panic.
--
-- Not modelled: writes of clients during a rebuild, which the lock keeps from the segment in copy and
-- which go to both devices; the listeners of a job; the closing of a channel,
-- which cannot happen while the backend holds a sender of its own; the text of messages; the
-- nexus itself and its reads; what only calls SPDK, LVM, etcd or gRPC.
pub mod Common
pub mod Core
pub mod Rebuild
pub mod Nexus
pub mod Lvm
pub mod Nvmx
