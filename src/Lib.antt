-- ===== src/Lib.antt =====
-- haunted-house: the search core of a service that keeps, for every stored file, the set of its
-- trigrams (three consecutive bytes), and answers yara signatures by first asking which files hold
-- the trigrams the signature needs.
--
-- How the parts work together. A yara signature becomes a PhraseQuery (src/query/yara.rs, not
-- modelled), a tree of literals under And, Or and MinOf. src/query/mod.rs turns that tree into a
-- TrigramQuery, a table of And, Or and MinOf nodes over trigrams. A worker's journal
-- (src/worker/journal.rs) keeps, for each trigram, the ids of the files that hold it, encoded by
-- src/worker/encoding.rs; it runs one task per node of the query, each of which reads the ids that
-- its inputs send from high to low and sends on those that pass.
--
-- Files:
--   Common and its children: list helpers, sorting and deduplication over an order (the record Ord,
--     which stands for Rust's Ord trait), bit operations, the signed integers of i32.
--   Encoding: src/worker/encoding.rs, every function of it. Children: Encoding/Varint and
--     Encoding/Read (one number), Encoding/Prefix (a number cut short), Encoding/Sequence (whole
--     sets), Encoding/Stream (StreamDecode and StreamEncode).
--   Query: Query/Phrase and Query/Combine model src/query/phrases.rs; Query/Builder models
--     src/query/mod.rs. Query/Match says which files satisfy a PhraseQuery, Query/Cases what
--     make_case_insensitive makes of that, Query/Eval which files a
--     TrigramQuery lets through; Query/Adds, Query/Insert, Query/Follow and Query/Sound relate the
--     two.
--   Journal: Journal/Nodes models the tasks query_or, query_and and query_min_of of
--     src/worker/journal.rs. Journal/Union, Journal/Meet (with Journal/Pass) and Journal/Threshold
--     are about one each. Journal/Blocks, Journal/Addresses, Journal/Collector and Journal/Batch
--     model the rest of that file: blocks of ids in the data file, the rows of the tail file, the
--     trigrams of a batch in order, and the operations of JournalFilter. Journal/Chain is about
--     blocks that are read back, Journal/Merge, Journal/Choose, Journal/Left and Journal/Collected
--     about the collector, Journal/Copy, Journal/Table, Journal/Written, Journal/Bounds and
--     Journal/Loop about the loops of a batch, Journal/Sorted and Journal/Stored about a whole
--     batch, Journal/Listed about reading, Journal/Rewrite and Journal/Defrag about defragmentation,
--     Journal/Reached about every journal that these operations lead to. Journal/Cursor models the
--     reader of one trigram (trigram_reader, TrigramCursor, BlockReader, CobsReader): Journal/Feed
--     and Journal/Progress are about the data of a block in pieces, Journal/Pieces and
--     Journal/Opening about its values, Journal/Reader about the whole reader. Journal/Network
--     models JournalFilter::query: Journal/Falls is about the order of what a task sends,
--     Journal/Tasks about one task, Journal/Launch about the readers that are launched,
--     Journal/Delivered about the network of tasks, Journal/Answer about the answer of a query,
--     Journal/Built and Journal/Made about what the builder of queries leaves, Journal/Search about
--     a PhraseQuery that is built and then answered, Journal/Ingest about a batch that is written
--     and then searched. Journal/Open models JournalFilter::open; Journal/Cut and Journal/Recover
--     are about what it keeps.
--   Access: src/access.rs, the controls that say who can see a file. Access/Control has the type and
--     can_access, Access/Combine and Access/Simplify the operations; Access/Grants and Access/Factor
--     are about what or, and and factor keep of the access, Access/Leftover, Access/Returns and
--     Access/Exact about the branch of simplify for an Or, Access/Narrow about the one for an And.
--   Trigram: src/worker/trigrams.rs, how the trigrams of a file are found. Trigram models
--     build_file, Trigram/Chunk the sets of the older encoding and build_buffer. Trigram/Build is
--     about build_file, Trigram/Search about a file whose trigrams are built, written to a journal and
--     then searched for, Trigram/Keeps about one chunk, Trigram/Whole about a set and build_buffer, Trigram/Iterate and
--     Trigram/Walk about the iterators over a chunk and over a set.
--   Broadcast: src/query/broadcast.rs, channels with many receivers. Broadcast/Lines is about one
--     call at the receiver's end, Broadcast/History and Broadcast/Delivery about every history of
--     calls.
--   Counter: src/counters.rs, the events of a window of time; Counter/Window is about its value.
--   Pool: src/pool.rs, leases of shared resources; Pool/Steps is about every interleaving of
--     threads.
--   Types: src/types.rs. Types/Text is about the texts of hashes and of filter ids, Types/Expiry
--     about the groups of files by their day of expiry.
--   The modules named Tests, Journal/Runs and Journal/Restart hold runs of the code and the theorems
--     at concrete inputs.
--
-- How code became definitions. Names are the source's; methods of the two builders and streams carry
-- a prefix where the plain name is taken. A u64 is a natural number with the wrap-around of the
-- release build written out (sub_u64, add_u64, IsU64); a byte is a number below 256; an i32 is an
-- integer reduced by as_i32, and `as usize` is as_usize. A slice or vector is a list, a map of
-- counts an association list. A panic (an index out of range, an absent weight) is `none`, or the
-- end of the task that panics. The sum of weights in query_min_of wraps as well, so theorems on
-- queries ask for weights that add up to less than 2 ^ 64: the builder's weights count the parts of a
-- MinOf, and those are fewer than that (Sized). A trigram stands in the model as the u32 its three bytes make. The
-- expressions of a TrigramQuery are an association list from the number that the builder hands out
-- to the node.
--
-- A HashSet of controls is a list without repetitions; the source sorts whatever it takes out of
-- one.
--
-- A journal is the content of its data file, a list of bytes, and of its tail file, a list of rows
-- of two u64 and the generation; a file that is renamed over another takes its place. Errors of the
-- file system are not modelled, so a batch either fails in a panic or an error of this code (`none`)
-- or is written. The crate cobs is a parameter, a record of its two functions (Cobs); CobsLaws is
-- what it documents: no zero byte in an encoding, decoding after encoding, and the bound of
-- max_encoding_length. Theorems on what is written ask for room: the bytes that a batch can add, at
-- most 22 and 20 more for each of its files for every one of the 2 ^ 24 trigrams, leave the data
-- file below 2 ^ 64 bytes. The decoder of the crate cobs, which is fed one byte at a time, is the
-- record CobsDecoder; DecoderLaws says that a whole encoding gives the data, and that a part of it
-- gives a part of the data that lags behind by a byte in 254 and two more. A read of a file gives as
-- many bytes as the buffer of 2 ^ 13 bytes and the file allow. The reader of a trigram runs on as
-- many rounds as the square of the length of the file and a little more, since there are no more
-- blocks, and none in more pieces, than the file has bytes.
--
-- In a query a channel is the list of the values that are sent through it, which every listener
-- receives, whatever the order in which the tasks take turns. Broadcast models those channels by
-- themselves, over the unbounded channel of the crate tokio, which is a parameter (Mpsc, MpscLaws).
-- The fuel of the network is the number of expressions: the builder makes expressions that refer to
-- older ones only.
--
-- The other crates are parameters too: the bit arrays of bitvec (BitArr, with BitArrLaws), hex (Hex,
-- HexLaws) and the instants of chrono (Chrono, ChronoLaws). The clock is an argument, and the stream
-- of buffers of a file is the list of what it delivers.
--
-- Loops. encode_value_into's loop runs by the order of the naturals, since each round divides the
-- value. Loops that consume bytes run on fuel as long as the data, and the round trips show that
-- this is enough. A task of the journal takes the number of rounds for which its reader stays
-- connected; its theorems ask for as many rounds as its inputs hold values, which bounds every loop
-- of it. The loops of a journal run on fuel: rows that are left, bytes of the data file (a block
-- lies before the one that leads to it), bytes of a stream. What a task sends after its reader has
-- gone is not modelled, since nobody receives it.
--
-- Not modelled: installing an interrupted defragmentation and the locks of a journal, the cache of
-- trigram files on disk, the parser of access controls, the databases, the broker and its search
-- index, and the services around them.
pub mod Common
pub mod Encoding
pub mod Query
pub mod Journal
pub mod Access
pub mod Trigram
pub mod Broadcast
pub mod Counter
pub mod Types
pub mod Pool
