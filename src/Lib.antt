-- ===== src/Lib.antt =====
-- sqldb: a small SQL database on a B+tree, verified from its pages up to its statements.
--
-- A query comes in as a syntax tree (Ql/Ast) and is run over a reader or a write transaction (Ql/Exec). Its
-- WHERE filter is evaluated row by row (Ql/Eval, Ql/Arith), and before that narrowed to a range of keys of
-- the table's primary key or of an index (Ql/Range). The facade (Db) looks a table up in the catalog and
-- hands its rows to the access layer, which writes them with their index keys (Access/Rows) and scans them
-- (Access/Scan). It chooses the tree that a range scans (Access/Table) and turns rows and
-- range bounds into keys (Access/RowCodec), by an encoding whose byte order is the order of the values
-- (Encoding). The catalog holds the table definitions (Catalog/TableDef), checks and normalizes them
-- (Catalog/Schema), writes them as text (Catalog/TextForm) and hands out the key prefixes that keep the
-- tables apart (Catalog/Store). Storage keeps the keys in a copy-on-write B+tree: nodes (Storage/Node) and
-- the tree that they make up over a page manager (Storage/Tree), which refines a sorted list of pairs
-- (Storage/SortedMap). The free pages (Storage/FreeList) and the open readers (Storage/ReaderHeap)
-- together decide when a page can be used again; Storage/Kv begins, commits and recovers the versions
-- that they are about.
--
-- Files and what they model:
--   Base                numbers, lists, signed integers, byte strings and how a call ends
--   Catalog/Value       include/catalog/value.h, src/catalog/value.cpp
--   Catalog/Record      include/catalog/record.h, src/catalog/record.cpp
--   Catalog/TableDef    include/catalog/tabledef.h, the builder of src/catalog/tabledef.cpp
--   Catalog/TextForm    encode_table_def, decode_table_def of src/catalog/tabledef.cpp
--   Catalog/Schema      col_index, check_index_keys, table_def_check of src/catalog/catalog.cpp
--   Catalog/Store       struct Catalog of src/catalog/catalog.cpp
--   Encoding            src/encoding/order_preserving.cpp
--   Storage/Cmp         CMP and cmp_ok of include/storage/btree_iter.h, src/storage/btree_iter.cpp
--   Storage/SortedMap   the abstract map that the tree implements
--   Storage/Visits      the loop of a caller of an iterator, and the part of a map that a relation names
--   Storage/Node        BNode of include/storage/btree.h, and the functions on nodes of
--                       src/storage/btree.cpp; its Buffer has the accessors on the bytes of a node, and
--                       encode and decode
--   Storage/PageManager include/storage/pagemanager.h
--   Storage/Tree        BTree of include/storage/btree.h, src/storage/btree.cpp
--   Storage/FreeList    include/storage/freelist.h, src/storage/freelist.cpp
--   Storage/ReaderHeap  include/storage/reader_heap.h, src/storage/reader_heap.cpp
--   Storage/Iter        BIter and the seeks of include/storage/btree_iter.h, src/storage/btree_iter.cpp; Spine and
--                       Place: what of the map is before an iterator and behind it
--   Storage/Kv          KV, the meta page and the steps of transactions of src/storage/kv.cpp; its Tx
--                       has KVTX::update and KVTX::del over the tree, and its Api what the access layer
--                       asks of KVReader and KVTX, with the tree as an instance; its Mapping has
--                       extend_mmap and page_get_mapped of src/storage/kv_reader.cpp, its WritePages
--                       KV::write_pages
--   Access/RowCodec     src/access/row_codec.cpp
--   Access/Table        find_index, is_prefix of src/access/table_access.cpp, and db_scan of
--                       src/access/scanner.cpp up to the seek
--   Access/Rows         src/access/index_ops.cpp, and db_update, db_delete of src/access/table_access.cpp
--   Access/Scan         Scanner and db_scan of src/access/scanner.cpp, db_get of
--                       src/access/table_access.cpp
--   Db                  include/db.h, src/db.cpp
--   Ql/Ast              include/ql/ql_ast.h, src/ql/ql_ast.cpp
--   Ql/Arith, Ql/Eval   ql_eval and its helpers in src/ql/ql_exec.cpp
--   Ql/Exec             the statements of src/ql/ql_exec.cpp
--   Ql/Range            include/ql/ql_range.h, src/ql/ql_range.cpp
-- Functions keep their names, in snake_case as in the source, methods without their class. The
-- children of a file hold its proofs; each part's Tests hold runs at concrete values.
--
-- Conventions. A function that returns false with *err set stops with `failed` and the message, one that
-- throws stops with `thrown`, an assert that does not hold stops with `asserted`; an out-parameter is a
-- result. Bytes are numbers below 256, and a std::string or a vector of bytes is a list of them. An
-- int64_t is an integer, where an overflow is either reported by the code or shown not to happen;
-- uint32_t and uint64_t are numbers with their wraparound written out. A std::map is a list of
-- pairs, whose order only write_pages observes. A stream is the list of the characters not read yet.
--
-- Loops are structural recursion on the list or the count that they go through. The loops of the
-- reader heap take as fuel the slot that they start from, going up, and the number of slots, going
-- down: each round at least halves the one, and goes down a level in the other. The search in a node takes
-- the length of its range, the second loop of node_split the number of keys, and the recursions of the tree
-- the levels that they may go down: a height below the fuel is enough.
-- A scan takes a bound on its rows, the doubling in extend_mmap the size that it is to reach, and write_pages
-- the number of its pages. A state of Storage/Kv/Api carries a bound on the height of its tree, which
-- a write that is done raises by one, as the tree may have grown by that.
--
-- A call that stops does not return the state of its transaction: what it has written by then goes when the
-- transaction is aborted, as the comments in db.h and table_access.h ask.
--
-- A node is its header and the entries appended to it. The sizes and offsets that the code compares are
-- computed from the entries as the layout at the head of btree.cpp prescribes, as 16-bit numbers where the
-- code has them. A node is built in a buffer of the size that the code gives, and an append beyond it is the
-- assertion of node_append_kv. The bytes of a node are in Storage/Node/Buffer; the other parts of the model
-- work on its entries.
--
-- Parameters: the catalog uses a key-value transaction through the record `Kv` of Catalog/Store, which
-- has get and set and the two laws that a value set under a key is read there and nowhere else. The B+tree
-- uses pages through the record `PageManager`: what is written to a new page is read there, and the pages
-- that a transaction or a reader may still read stay as they are. The access layer uses a transaction through
-- the record `Api` of Storage/Kv, whose laws the trees fill. Its `Crowded` names the states in which a removal may
-- find no room in a node. The statements use a transaction through `Reads`
-- and `Writes` of Ql/Exec, which have no laws, and the parser is an argument. The system calls of a commit are arguments
-- with the outcome of each and the file that write_pages leaves, pwritev in write_pages the record `Disk` of Storage/Kv, which puts the pages that it
-- has taken at their places, and the file is the bytes that it holds; a machine word is stored with its
-- lowest byte first.
--
-- Not modelled: the lexer and the grammar (src/ql/lexer.l, parser.y) with their driver, the page buffer of a
-- transaction, creating and closing the file, and the command line (src/main.cpp). Memory allocation, locking
-- and the life time of pointers are left out. The rows of a statement are described as those that its scan
-- visits; what a scan visits is stated for the pairs of the map.
pub mod Base
pub mod Catalog
pub mod Encoding
pub mod Storage
pub mod Access
pub mod Db
pub mod Ql
