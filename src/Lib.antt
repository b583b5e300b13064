-- ===== src/Lib.antt =====
-- Rethinking Git (rgit): a version-control system with typed, content-addressed objects, a store
-- with compare-and-swap references, and merges and diffs of trees.
--
-- The parts and their files. Paths are from the repository's root.
--   Base                 numbers, results, ordered maps and sets of the standard library
--   Objects/Id           crates/rgit-objects/src/id.rs: identifiers, varints, preimages
--   Objects/Canonical    crates/rgit-objects/src/canonical.rs: encode_into and push_head in Encode,
--                        Decoder in Decode (value is read_value and read_major)
--   Objects/Fastcdc      crates/rgit-objects/src/fastcdc.rs: the chunker
--   Objects/Reference    crates/rgit-objects/src/types.rs and decode.rs: kinds, keys, edges
--   Objects/Path         crates/rgit-objects/src/path.rs: segments and portable paths
--   Objects/Signature    crates/rgit-objects/src/types.rs: purposes of signatures
--   Objects/Schema       crates/rgit-objects/src/decode.rs: readers of fields; Parts has the values
--                        that kinds share; Content, Changes, Operations, Trust and Evidence have an
--                        arm of validate_shapes for each kind (manifest_shape is that of Manifest),
--                        Validate the match itself; Edges and its children are references, and
--                        Reads/Described says of each kind which fields give edges
--   Objects/Admission    crates/rgit-objects/src/decode.rs: AnyObject::decode, decode_verified, id
--   Graph/Tree           crates/rgit-graph/src/tree.rs: entries, first_portable_collision
--   Graph/Merge          crates/rgit-graph/src/merge.rs: merge_three_way (merge_entry is its body)
--   Graph/Diff           crates/rgit-graph/src/diff.rs: DiffInput::new is diff_input; diff
--   Graph/Index          crates/rgit-graph/src/reachability.rs: GraphIndex
--   Store/Model          crates/rgit-store/src/model.rs, error.rs, store.rs: data and errors
--   Store/Values         crates/rgit-store/src/memory.rs: fields of objects, matching of actions
--   Store/Memory         crates/rgit-store/src/memory.rs: visible_object to validate_operation
--   Store/Closure        crates/rgit-store/src/memory.rs: closure_from, graph, ancestry_closure
--   Store/Publish        crates/rgit-store/src/memory.rs: the operations of the Store trait
--   Store/Staging, Store/Contract, Store/History, Store/Closure/*: proofs about the store
-- The tests are in the modules named Runs.
--
-- How they interact: a stored object is a canonical value with its identifier and edges; a
-- publication stages objects, walks the closure of its roots and checks the commit graphs with
-- Graph/Index; merge and diff work on the entries of Graph/Tree.
--
-- How the model stands to the code. A byte string or a text is a list of bytes as numbers. A u64
-- keeps its bound written out: checked arithmetic is a test against 2^64 and wrapping arithmetic a
-- remainder. A BTreeMap is an association list in the order of its keys, a BTreeSet a list in
-- order. A Vec used as a stack is a list whose head is its end. An error is a value of Result. An
-- operation of the store takes the state under its lock and returns the state it leaves; publish has
-- two critical sections and takes the states under both. Store/History puts the critical sections of
-- several threads in any order.
--
-- Fuel. push_varint_loop has as many rounds as the value, plus one, and halves it at least.
-- read_value recurses to the depth limit, as the code does. build_loop has a round for each node,
-- cycle_members and ancestors_loop a round for each edge, and closure_loop and ancestry_loop a round
-- for each edge of a stored object and each root, since only the first visit of an object adds its
-- edges. A loop that had not ended would give the error out_of_fuel. For cycle_members and
-- ancestry_loop this development has no theorem that the fuel is enough.
--
-- Parameters stand for code outside the repository: the digests (sha2, blake3), and Unicode
-- validity, normalisation and case folding (the record of Objects/Unicode). The store takes decode
-- for AnyObject::decode_verified. Not modelled: the construction of objects (object.rs, extended.rs),
-- the durable stores (loose.rs, sqlite.rs, sqlite_vfs.rs, platform.rs), and the command line under
-- src/, which is files, processes and printing.
pub mod Base
pub mod Objects
pub mod Graph
pub mod Store
