-- ===== src/Lib.antt =====
-- The Python binding of pyx, an embedded document database: what the package under bindings/python/pyx does
-- between a Python program and libpyx, the engine's C library.
--
-- The parts, and the files that model them. Functions keep the source's names, without a leading
-- underscore.
-- - Doc: bindings/python/pyx/_doc.py, the codec that documents pass through on their way to the engine and
--   back. Doc.Value is the Python values that the codec tells apart (a dict in its insertion order), Doc.Utf8
--   the text codec of str.encode and bytes.decode, Doc.Varint the lengths of keys, Doc.Encode
--   `_write_value_payload` with its mutual helpers, Doc.Decode `_read_payload` with its own, and
--   Doc.Wire the values that the format has.
-- - Errors: bindings/python/pyx/errors.py, the exception classes and the table from status codes. A status
--   is an integer of Base.Int.
-- - Query: the scalars and bounds of an index query in bindings/python/pyx/__init__.py, as they are put
--   into the structs of the C ABI, and the calling styles of `find_range`.
-- - Txn: `OptimisticTxn`, `Db.run_optimistic` with its retries and waits, and `Db.transaction`, of
--   bindings/python/pyx/__init__.py. Txn.Ops is `TxnCollection`; Txn.Serial relates a callback that uses it to
--   the store that it leaves, over any interleaving of commits of other threads.
-- - Collection: `insert`, `insert_many`, `put`, `get`, `get_many` and `delete` of `Collection` in
--   bindings/python/pyx/__init__.py, in pure Python, with the growing buffer of `get_many`. An id is
--   an integer that goes into a 64-bit word. Collection.Refines has the map from ids to documents that the
--   calls are compared with.
-- - Calls: what every method does with a status that a call returned, `_check`.
-- - Iter: `Collection._iter` in bindings/python/pyx/__init__.py, the generator behind iteration over a
--   collection and over a snapshot of it, with its consumer.
-- - Scan: `Collection.find_range` with `Collection._range`, the generator behind it, and its consumer.
-- - Db: `Db` and `Snapshot` with their handles, and `SnapshotCollection`, whose iteration and scans are those
--   of Iter and Scan with the snapshot's handle.
-- - Find: `Collection.find_one` in both calling styles, `Db.create_index` and `Db.drop_index`, of
--   bindings/python/pyx/__init__.py.
-- - Loader: `_candidate_paths` and `_load_library` of bindings/python/pyx/_ffi.py, over a file system and a
--   dynamic loader that are parameters. The docstring there ends the search order in a path of the system,
--   which the list does not have.
-- - Ffi: the ctypes classes and the calls of `_bind` in bindings/python/pyx/_ffi.py, and beside them the
--   declarations of include/pyx.h; Ffi.Missing is the import where the library lacks a name.
-- - Build: bindings/python/setup.py, the choice of the library that is put into the package, over a file
--   system and zig that are parameters. Build.Platform has the library's names, Build.Choice the library that
--   is found or built, Build.Bundle the copy of it.
-- - Notes: the notes application under realworldexamples/django/notes. Notes.Store is pyx_store.py, a
--   step relation of any number of threads in which a step is one access to what they share, and in which the
--   frame of a call that raised keeps its database open until it is freed; Notes.Tags
--   the tag field of views.py, Notes.Views its views that create, show, edit and delete, and Notes.Listing the
--   one that lists. A view uses the binding's operations: Notes.Views.Create those of Collection, and
--   Notes.Views.Edit those of Txn.Ops under `run_optimistic`.
-- - Native: bindings/python/pyx/_native.c, the C extension that is used where it could be built. Native.Encode is
--   its encoder, with one growing buffer in which the length of a container is put behind its body,
--   Native.Decode its decoder, Native.Get the read of one document, with `Collection.get` and
--   `SnapshotCollection.get` where it is bound, and Native.Many that of many, with `Collection.get_many`.
--   Doc.Strict is a decoder that both decoders are compared with, which reads each body to its declared end.
-- - Bench: bench/python/bench_pyx_vs_sqlite.py, each workload as the calls that it makes. Bench.Pyx and
--   Bench.Sqlite are the workloads, Bench.Report what `main` collects of them.
-- - Result is the outcome of a Python call, a value or an exception. Base holds the shared tests on
--   numbers, the lemmas on lists, bits and bytes, and the 64-bit integers.
--
-- A call into libpyx, the random generator and the clock are fields of a record of functions on a state
-- (Txn.Libpyx, Txn.Ops.Operations, Collection.Engine, Iter.Cursors, Scan.Lookups, Db.Databases,
-- Find.Indexes, Build.System, Native.Get.ZeroCopy), and what the binding relies on of them is a record of laws
-- (Txn.Laws, Txn.Progress, Txn.Context, Txn.Serial, Collection.Laws, Collection.Refines, Iter.Laws,
-- Scan.Laws, Db.Release, Find.Styles, Build.Bundle, Native.Get.Agree), which the tests instantiate.
--
-- Bounds and fuel. Bytes are natural numbers, and the theorems say where they are below 256. The shifts and
-- masks of the codec are the native numbers' own. An integer that goes into a 64-bit word wraps around where
-- the source's does (`c_int64`) and is refused where the source refuses it. `decode` recurses on fuel, twice
-- the number of bytes and two: each call passes at least one byte, which Doc.Positions shows to be
-- enough. `read_varint` has the source's own limit of ten rounds, so it needs no fuel, and UTF-8 decoding
-- has as many rounds as there are bytes. `write_varint` recurses on the number, which every round makes
-- smaller. The decoder of the extension has the same fuel as `decode`, and its varints the same ten rounds.
-- `run_optimistic` recurses on the attempts left, and `get_many` has the source's limit of eight rounds.
-- The chunks of the benchmark have a round for each target and one more. `iter_loop` and `range_loop` have a round for each entry, and need one more to see the end.
--
-- Not modelled: the reference counts and the allocations of the C extension, and what it does where the C
-- standard or the interpreter leaves it open, which is a parameter (Native.Decode.Unspecified); the engine under
-- src, of which Ffi.Header has five declarations; the interpreter's limit on recursion; memory exhaustion; mappings and sequences of user-defined classes
-- (`Value.other` is what the encoder refuses); Django's routing, templates and method guards, and a sort of
-- notes whose updated_at is not a text, which the application never stores. `list_view` reads the snapshot
-- to its end before it looks at the notes. Of the benchmark, what it prints, the clock and sqlite3 are left
-- out; the ids that its inserts return and the draws of its random generator are parameters. A float is the
-- 64-bit pattern that struct packs.
pub mod Base
pub mod Errors
pub mod Result
pub mod Calls
pub mod Doc
pub mod Query
pub mod Txn
pub mod Collection
pub mod Iter
pub mod Ffi
pub mod Find
pub mod Loader
pub mod Scan
pub mod Db
pub mod Notes
pub mod Bench
pub mod Build
pub mod Native
