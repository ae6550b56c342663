-- ===== src/Lib.antt =====
-- Platform GitOps: the scripts that operate the platform beside its manifests. Four of them change
-- state that cannot be had back, and are modelled here with a part of a fifth and the modules
-- through which the scripts read and write files, documents and the output of child processes.
--
-- scripts/reclaim_stale_longhorn_replica_data.py removes one stale replica directory of a Longhorn
-- disk under pressure. Longhorn/ follows it:
--   Kube        the fields of the Kubernetes documents that are read, and their readers
--   Names       parse_directory_name, and the name that quarantine gives
--   Managers    ready_manager_nodes: the nodes whose Longhorn manager may be trusted
--   Disks       registered_disks, replica_is_safe with replica_history_is_safe
--   Candidate   ReplicaDirectory, ReclaimCandidate, and what holds a claim or volume in use
--   Evaluate    evaluate_directory, cut into one function for each group of its early returns
--   Select      select_candidate
--   Metrics     directory_metrics: the walk over a directory with its entry limit
--   Quarantine  quarantine_candidate, restore_quarantined_candidate, remove_quarantined_candidate
--   Run         run, from the first discovery to the removal
-- ManagerGroups, Quorum, Safety, Needs, Reclaimable, Inversion, Selected, RoundTrip, Metrics/Totals, Quarantined, Restored
-- and RunSafety hold the proofs; Examples, Witnesses and FileWitnesses the concrete inputs.
--
-- scripts/forge_transition.py moves the authority over repositories from one forge to another, in
-- phases kept in a state file. Transition/ follows it:
--   State       the phases, the state, the remote calls, and the actions that commands are
--   Store       load_state, write_state, write_proof, StateLock
--   Approval    load_proof, require_confirmation; find_proof_repo of scripts/forge_cutover.py
--   Rollback    rollback_transition_state, restore_failed_finalization,
--               restore_finalized_after_failback_failure
--   Reconcile   reconcile_plan, command_reconcile, command_run_relay
--   Prepare     command_prepare, command_verify_shadow
--   Enter       command_enter, command_rollback, command_fallback
--   Finalize    command_finalize
--   Failback    command_failback
-- An action is a function from a Machine (the calls made so far, the state file, the lock, and the
-- command's variable next_state) to a Machine and a value or an exception. A Forge answers each call
-- from the list of all calls before it, so it stands for any remote behaviour. Keeps, Leads and Returning are
-- rules for what actions keep, where they lead and what they have done where they return; Ordered
-- and Confirmed are about orders of calls; Handover, Authority, Entering, EnterConfirmed, Freezing,
-- FinalConfirmed, Relay, Undone, RolledBack and Durable apply them.
--
-- scripts/forge_migration.py copies repositories and their issues. Migration/ follows a part of it:
--   Comments    missing_comment_bodies and the comments of replicated_issue_view
--   Issues      issues_by_title, issue_core, replicated_issue_view, compare_issue_sets
--   Refs        ls_remote_refs, mirror_migratable_refs, push_mirror, compare_refs
-- Replication, SameRefs, Mirrored and Replicated hold the proofs.
--
-- scripts/repair_stuck_longhorn_attachments.py repairs volumes that cannot attach. Attachment/ follows
-- it:
--   Kube        the fields that are read, and their readers
--   Checks      the reasons, and the checks that both evaluations share
--   Evaluate    evaluate_stale_native_attachment_candidate and evaluate_candidate
--   Actions     the calls, actions over the trace of calls, attachment_state
--   Recycle     the discoveries and recycle_stale_native_attachments
--   Repair      repair, with the quarantine of replicas
-- Sound and Idle say what candidates guarantee; Traces has the traces in which every change is of a
-- candidate, Recycling, Quarantining and OnlyProven that the actions keep to them.
--
-- scripts/relieve_longhorn_disk_pressure.py puts back the scheduling state that an earlier release
-- saved in an annotation. Pressure/Restore follows annotation_state, restore_legacy_state and run;
-- Pressure/Restored holds the proof.
--
-- scripts/strict_json.py loads configuration and state. StrictJson/ follows it: Document has the
-- values and the hooks for keys and numbers, Validate the walk _validate_structure and
-- loads_strict_json; Measure has the size and nesting by recursion, Limits and Keys the proofs.
--
-- scripts/bounded_file.py reads files and streams up to a limit. BoundedFile/ follows it: Limit has
-- the limits, Read read_bounded_stream, Descriptor read_bounded_bytes with the descriptor's
-- closing, and Newlines the line ends of read_bounded_text; Stream holds a proof.
--
-- scripts/atomic_file.py replaces files as a whole. AtomicFile/ follows it: Write has
-- atomic_write_text as operations that may each fail, Whole the proof.
--
-- scripts/bounded_subprocess.py runs every child process. BoundedSubprocess/ follows it:
-- OutputLimit has its limit, Capture what the threads share and a reader's section under the lock,
-- Threads the steps of the readers, the writer and the main thread in any order, and Outcome what
-- run_bounded makes of the state in the end; Sound and Exact hold the proofs.
--
-- Bounds: the walk of directory_metrics runs on fuel, one unit more than MAX_DIRECTORY_ENTRIES, and
-- each directory that it takes from its stack was an entry counted against that limit, so that the
-- fuel is never used up. The walk of _validate_structure runs on the number of values and iterators
-- of its document, and read_bounded_stream on two units more than its limit, since each chunk but
-- the last has a byte; both are proved to be enough. The relay loop takes the number of rounds
-- until a signal ends it, and the waiting loops of the attachment repair the number of rounds that
-- their time is enough for. All other recursion is structural.
--
-- Parameters stand for what the scripts call: the reading of timestamps, the resolution of paths,
-- the open-file check, the file system's identities, the JSON decoder, binary streams, the calls on
-- a file and which of them raise (opening a folder, renaming, looking, removing a tree, creating and
-- unlinking a lock), the answers of the forges, what git lists and pushes, case
-- folding, digests and the environment's variables. Not modelled: kubectl and HTTP calls, the
-- parsing of plans, the discovery of directories and of repositories, how a text is redacted (what becomes of a
-- state is a parameter), the text of
-- reports, and the command lines. In the state file and the proofs, only the fields that commands
-- read are kept. The other scripts, the manifests, the Ansible roles and the charts are not
-- modelled.
pub mod Prelude
pub mod Longhorn
pub mod Transition
pub mod Migration
pub mod StrictJson
pub mod BoundedFile
pub mod BoundedSubprocess
pub mod Attachment
pub mod AtomicFile
pub mod Pressure
