-- ===== src/Lib.antt =====
-- A model of the storage core of QinDB, a relational database on Qt.
--
-- Tables live in pages of 8192 bytes (include/qindb/page.h, src/storage/page.cpp). The disk manager
-- (src/storage/disk_manager.cpp) keeps the pages of one database file behind an eight-byte magic
-- number (include/qindb/common.h). The buffer pool (src/storage/buffer_pool_manager.cpp) caches pages
-- in frames, which callers pin while they use them. The transaction manager
-- (src/storage/transaction.cpp) gives out transaction ids and page locks, and calls the write-ahead
-- log. The visibility checker (src/storage/visibility_checker.cpp) and the vacuum
-- (src/storage/vacuum.cpp) read its table of states. The row id index (src/storage/row_id_index.cpp)
-- finds the place of a row, and the query cache (src/cache/query_cache.cpp) keeps results of queries.
-- Records lie in slotted table pages (src/storage/table_page.cpp). The table cache
-- (src/cache/table_cache.cpp) reads whole tables through the buffer pool. The write-ahead log
-- (src/storage/wal.cpp) records begins, commits and aborts for the transaction manager, and recovery
-- reads it back. The hash index keeps its entries in bucket pages (src/index/hash_bucket_page.cpp).
-- Index keys are compared in src/index/key_comparator.cpp. SQL texts become tokens in
-- src/parser/lexer.cpp. Clients and server exchange messages that src/network/message_codec.cpp
-- encodes.
--
-- The files:
--   Shared: names of the library, Boolean tests on ℕ, lists, QHash as an association list (Maps) and
--     QSet as a list without repetition (Sets).
--   Transaction: TransactionManager and isLockCompatible. Locks: lockPage, unlockPage and
--     releaseAllLocks. Lifecycle: beginTransaction, commitTransaction, abortTransaction, the
--     destructor and the reads. The other files are proofs: Views, Invariant, Changes, Grants, Finish
--     and Steps on the invariant; Outcomes, Conflicts, Waits, Wakes and History on what calls do.
--   Visibility: isVisible, its three tests, and canDelete of the vacuum. Vacuum: cleanupTable; Pages,
--     on what it leaves of a page, and Pool, on pins, are proofs.
--   Page: the header of a page as little-endian fields, the checksum, pins. Magic: the magic number.
--   Disk: DiskManager. File is the interface of the file, Storage and Allocation are proofs.
--   BufferPool: BufferPoolManager. Calls is its interface of the disk manager; Frames, Invariant,
--     Victim, Taking, Fetching, Creating, Returning, Start, History, Pins and Balance are proofs.
--   RowIndex: RowIdIndex. QueryCache: QueryCache; Sizes, Eviction, Memory and Entries are proofs.
--   TablePage: TablePage, over Page/Slices for memcpy. Records: getAllRecords and deserializeRecord.
--     Fields: serializeField and deserializeField, with the interface of QVariant. Layout, Initial,
--     Insertion, Tuples, Filling, Deletion, Headers, Reading, Scans and Conversions are proofs.
--   TableCache: TableCache. Scanning, on the pins of the pool, and Accounting are proofs.
--   MessageCodec: MessageCodec and the messages of include/qindb/protocol.h. Wire is the interface of
--     QDataStream and QString; Streams, Values, Messages and Rows are proofs.
--   Wal: the records, WALManager and both kinds of recovery, with the interfaces of QFile and of the
--     database backend. Layout: records as bytes. Scanning, with the laws of QFile, Appending,
--     Durability, Crashes, Commits, Numbering, Restoring and Replaying are proofs.
--   HashBucketPage: HashBucketPage over the bytes of a page. Layout, Reading, Inserting, Removing and
--     Runs are proofs.
--   KeyComparator: compare of KeyComparator, with the interface of the values it compares. Order is a
--     proof.
--   Lexer: Lexer, with the interface of QChar and QString. Keywords: TokenType and the keyword map;
--     Cursors: what is left of the text.
--     Skipping, Scanners, Progress and Strings are proofs.
--   Tests: runs of the model, and the theorems at concrete inputs.
--
-- A C++ object is a record, and a method a function from the record to the record and its result.
-- Every method runs under one mutex, so a run of several threads is a sequence of methods. lockPage
-- leaves the mutex while it sleeps, and is a function of the managers that it finds after each sleep;
-- begin, commit and abort call the log after they have left it, and no other method comes between in
-- the model. Ids of transactions and pages wrap at 2 ^ 64 and 2 ^ 32 where the source increments
-- them; statistics counters do not wrap. Numbers are ℕ, and a byte is a number that is read modulo
-- 256 where it is stored.
--
-- Fuel: findVictim makes two rounds of the pool, as the loop of the source does. The two eviction
-- loops of the query cache, and that of the table cache, get the number of entries as fuel, since
-- every round takes one entry. The scan of a table has the limit of 1000 pages of the source. A loop
-- of the lexer that advances gets one round more than there are characters left, and answers `none`
-- when they are used up, as does every function that runs it. The loops over the log take a number of
-- rounds, and the theorems ask for more rounds than records; cleanupTable takes a number of pages,
-- and its theorem is about every number. The rest is structural.
--
-- Not under src/: the file (QFile) is the interface Disk.File, with laws of seek, read and write; the
-- strings and floating-point numbers of Qt are the interface MessageCodec.Wire, whose laws are their
-- round trips, as are those of TablePage.Fields for QVariant. The transaction manager takes the log
-- as a record of three calls without laws, which Wal fills. Wal itself takes QFile with laws of
-- reading and appending, where a write may stop anywhere and only a flush that succeeds puts it all
-- behind the buffer, and a database backend without laws. The lexer takes the classes of characters
-- and the conversions of numbers. The estimates of the two caches, the records of a page as the table
-- cache reads them, and the clock are arguments. The codec of a field is an argument of the functions
-- on records, which TablePage.Fields provides.
--
-- Not modelled: the serializer of types, the indexes but for the bucket pages, the catalog, the parser,
-- the executor, the optimizer (it computes with floating-point numbers), accounts, the sockets and the
-- configuration; of the log, the database backend, which is SQL over system tables; of the vacuum, the
-- thread, which only waits; of the lexer, the names of tokens in messages; of
-- the key comparator, the hash functions. Logging has no part in the
-- state.
pub mod Shared
pub mod Transaction
pub mod Visibility
pub mod Page
pub mod Magic
pub mod TablePage
pub mod Disk
pub mod BufferPool
pub mod RowIndex
pub mod QueryCache
pub mod TableCache
pub mod MessageCodec
pub mod Wal
pub mod HashBucketPage
pub mod Lexer
pub mod Vacuum
pub mod KeyComparator
pub mod Tests
