-- ===== src/Lib.antt =====
-- Verification of the inference engine of the sage compiler front end.
--
-- The front end checks Rust bodies with inference variables. Types are hash-consed values of a
-- `Stash` (crates/sage-stash/src/lib.rs), named by handles. Inference works on a `VersionedEGraph`
-- (crates/sage-ir/src/check/infer/egraph.rs): a union-find of type handles whose bindings are kept per
-- version of a tree (version.rs beside it). A speculative attempt branches a version, works in the
-- branch, and is then collapsed into its parent or discarded.
--
-- Prelude, with Prelude/*: Boolean tests, lists over native numbers, finite maps, and `Outcome`, the
--   result of a run (a value, a panic, or used-up fuel). Theorems that a call returns give `ok`.
-- Ty: crates/sage-ir/src/ty.rs, the data type `Ty`; handles, symbols and parameters are numbers.
-- Stash: crates/sage-stash/src/lib.rs. `alloc`, `alloc_slice`, `append_one`, `push_raw` and the
--   indexing functions. An entry holds its values in place of bytes; the intern map is an association
--   list. `fx` stands for the external hash function and may collide at will. Slices are taken to
--   have fewer than 2^32 elements, and the buffer to be addressed by 32-bit offsets, as the code
--   assumes. Stash/Wf is the invariant, Stash/Intern the loop over collision numbers, Stash/Alloc
--   and Stash/Handles what handles are good for. The loop has one round more than there are keys.
--   Stash/Buffer is the byte buffer below it (`AlignedBuf`, and the padding and copying of `push_raw`) with
--   a 64-bit `usize`, alignments up to 2^29 and an allocator that delivers; its pointer is left out.
-- Version/Domain: `InferDomain` of crates/sage-ir/src/check/infer/version.rs.
-- Version/Tree: `VersionTree` of the same file, `new`, `branch_from`, `alloc_var_in_domain`,
--   `get_variable`, `visible_variables`, `is_ancestor`, `ancestors`, `assert_mutable`,
--   `reown_variables` and `remove`. Loops up the tree take one round more than the version's number,
--   removal as much fuel as there are nodes; parents have smaller numbers, so both are enough.
--   Version/Tree/Wf has the invariant `Shaped`, Owners the agreement `Owning` of the two variable
--   tables; Branch, Shape, Ancestry, Remove, Discard, Variables, Owners and Reown the operations.
-- EGraph: `VersionedEGraph` of crates/sage-ir/src/check/infer/egraph.rs and `Bound` of bound.rs.
--   EGraph/Facts has domains, universes, placeholders and bounds, EGraph/Lifecycle `branch_from`,
--   `collapse_into` and `discard`, EGraph/Dependents dependents and `rebuild`, whose loop is bounded by
--   the fuel that its caller gives. `find` and `compress_path` take one round more than the versions
--   on the chain have parent bindings. Hash maps are association lists whose front binding counts,
--   hash sets are lists. EGraph/Forest treats parent maps as such; EGraph/Find defines what a version
--   sees (`Classes g v ρ`: `ρ` names the root of every class in version `v`); EGraph/Writes, Chains,
--   Union, Compress, Branching, Discarding and Collapse follow the classes through the operations;
--   EGraph/Universes does the same for universes. EGraph/Within follows which
--   version's state a call writes to, EGraph/Evolves what becomes of the classes of that version,
--   EGraph/Kept the maps that a call leaves alone; EGraph/Domains is about the domains of classes.
-- Skeleton: crates/sage-ir/src/check/infer/skeleton.rs, `decompose` and `recompose` over a stash of types
--   (type number 0) and slices of pointers (1). Skeleton/Canonical says that every entry is stored
--   under the hash of its content, Skeleton/Stored follows this through storing. Ty/Equality and
--   Skeleton/Equality are the derived equalities of types and skeletons.
-- Unify: crates/sage-ir/src/check/infer/unify.rs. The depth of the recursion is bounded by the fuel that a
--   caller gives; for `occurs_in` one round more than the stash has entries is enough. Visited sets are
--   lists passed along, and the stash is only read: `rebuild`, which may store canonical types, is run
--   with the stash of the attempt. Unify/Transaction has the transactions (`try_probe`,
--   `try_unify_batch`, `try_unify`, `try_set_bound`, `install_error_recovery`), without the debug
--   assertion of the last one and with one supply of fuel for the attempt and for `rebuild`.
--   Unify/Isolation and Operations say that an attempt writes to its own version, Rollback what a
--   failure leaves, Joins what a success does to the classes, Meeting and
--   Variables the case of two variables, Unify/Occurs what the occurs check finds.
-- Solver/Subst: crates/sage-ir/src/check/solve/result.rs, `validate_and_alloc_subst` and the data it checks
--   (with goal.rs beside it), over a stash of substitution entries.
-- Solver/AntiUnify: crates/sage-ir/src/check/solve/anti_unify.rs, `common_domain`, the searches of types
--   for parameters and, in Solver/AntiUnify/Merge, `merge_types`, with fuel for the depth. The children of a type
--   stand at earlier entries of the stash (Solver/AntiUnify/Layers), so more fuel than a type's number is
--   enough for the searches. Which generic parameters are `AlphaEquiv` is an argument, and so are the
--   numbers of new ones.
-- Scheduler: crates/sage-ir/src/check/infer/runtime.rs, `ReadyQueue`, `ScopedTasks` and, in
--   Scheduler/Runtime, `Runtime` but for `block_on`. A future is a parameter with a `poll` function; a
--   poll reports the tasks that are enqueued meanwhile in the queue of its scheduler. The loops of
--   `poll_next` and `drain` want more fuel than tasks wait and futures may still wake (`cost`). A waker
--   names the queue that it enqueues into, which need not be the runtime's own; what it does elsewhere
--   is a list of signals (Scheduler/Runtime/Signals).
-- Obligations: crates/sage-ir/src/check/infer/obligations.rs, the pending proof requests and their waking;
--   the solver's goals and mappings are numbers compared by equality.
-- Ribs: crates/sage-ir/src/check/resolve/ribs.rs, the scopes of a body check; the names of generic
--   parameters are an argument.
-- */Examples: small inputs at which the theorems are applied.
--
-- Not modelled: reading typed values back from the bytes of the stash and the debug-only owner checks of
-- its handles; the executor loop `block_on`; the syntax, name resolution but for the ribs, proof search and
-- asynchronous checking above the inference engine; and everything that talks to salsa or rustc.
pub mod Prelude
pub mod Ty
pub mod Stash
pub mod Version
pub mod EGraph
pub mod Skeleton
pub mod Unify
pub mod Solver
pub mod Scheduler
pub mod Obligations
pub mod Ribs
