-- ===== src/Lib.antt =====
-- Verification library of hivedb, a small relational database: the LRU-k replacer, the buffer pool,
-- the nodes of its B+ tree, the disk manager and its scheduler, the data types, the lexer, the parser,
-- the execution of expressions and the storage engine.
--
-- Parts and their interaction. The disk manager keeps pages in a file. The buffer pool keeps a fixed
-- number of frames with pages from a disk manager, and asks the LRU-k replacer which frame to empty
-- when all are in use; it sends its reads and writes through the scheduler's queue and waits for them.
-- The B+ tree lays its nodes out in the pages of the pool. The lexer gives tokens to the parser, the
-- parser statements to the storage engine, which keeps rows as bytes of the data types and executes
-- expressions on them.
--
-- Base: shared types. `Outcome` is how a call ends: a value, an exception, a failed ASSERT, or undefined
--   behaviour (`out_of_bounds`). Base/OrderedMap is std::map and an unordered map read by key.
-- Lru, Lru/*: include/buffer_pool/lru_k.hpp and src/buffer_pool/lru_k.cpp. `record_access` is
--   recordAccess, `set_evictable` is setEvictable; `evict`, `remove` and `size` keep their names.
--   Timestamps and the index into a history are 64-bit, with wrap-around.
-- Pool, Pool/*: include/buffer_pool/buffer_pool.hpp and src/buffer_pool/buffer_pool.cpp.
--   `request_page` is split as the code branches: `request_hit`, `request_empty`, `request_flushed`,
--   `request_evicted`. A call is a state passing computation that returns, throws with the state that
--   it leaves, or aborts. The page id of a request is signed, and a pin count is 32-bit. The disk manager
--   is a record of operations on a disk state, a parameter.
--   The replacer is that of Lru. A reference to a frame is its index.
-- Leaf, Leaf/*: include/b_plus_tree/b_plus_tree_node.hpp, the leaf node: `find_index_for_insert`,
--   `find_index`, `trivial_insert`, `split_node`; `find_value` is what `find` of b_plus_tree.hpp does
--   at a leaf. The key and value types are parameters, a key by its rank in the order.
-- Disk, Disk/*: include/disk/disk_manager.hpp and src/disk/disk_manager.cpp over a file that is a
--   parameter. The hypothesis on it, `KeepsPages`, is that written bytes read back.
-- Tokens, Lexer, Lexer/*: include/parser/tokens.hpp, include/parser/lexer.hpp and
--   src/parser/lexer.cpp. The input is a list of bytes.
-- Inner, Inner/*: the inner node of include/b_plus_tree/b_plus_tree_node.hpp, with the fields of a
--   leaf: `find_index`, `find_index_for_insert`, `trivial_insert_leaf_node`, `split_node`.
-- DataTypes, DataTypes/*: include/data_types and src/data_types, on a little-endian machine: toString,
--   fromString, isTypeValid, findOffset, and `serialize` and `deserialize` of each type under its name.
-- Mock, Mock/*: include/disk/disk_manager_mock.hpp and src/disk/disk_manager_mock.cpp.
-- Scheduler, Scheduler/*: include/misc/channel.hpp and include/disk/disk_scheduler.hpp, as a relation on
--   the disk, the queue and the replies; a step is a put or a round of the worker thread.
-- Syntax, Parser, Parser/*: include/parser/parser.hpp (the classes as data) and src/parser/parser.cpp.
--   `binary_expr` is binaryExpr, and so on; Parser/Grammar is the language, as relations between
--   expressions and the tokens that spell them. std::stof is a parameter of which is asked that it ends.
-- Expressions, Expressions/*: `execute` and retriveColumns of include/parser/parser.hpp. The two
--   overloads of execute differ in how a column is read, which is a parameter; the operations on floats
--   are another. Expressions/Meaning is what an expression means without the captured pointer.
-- Storage, Storage/*: src/storage_engine/storage_engine.cpp and include/storage_engine. `allocate` gives
--   the addresses of strings, and `begin` the first entry of an unordered map. Storage/Rows is the
--   view of a table as a list of rows of values.
--
-- Bounds and fuel. The binary searches of the leaf take as many rounds as there are keys, and each
-- round narrows the range; the loops of the lexer take one round for each byte and one for the
-- terminator, and each round moves the position on. A loop that runs out fails with `out_of_fuel`, which
-- the theorems below exclude. The descent
-- of the parser has five units for each token and five more, since each call either takes a token or
-- goes down one of five levels; `fetch` has one round for each byte of the table and one more.
--
-- Not modelled: log lines; the byte layout of node headers; prettyPrint and the layout of what
-- a query prints; the tree over the pool; the
-- libraries under lib.
pub mod Base
pub mod Lru
pub mod Pool
pub mod Leaf
pub mod Inner
pub mod Disk
pub mod Mock
pub mod Scheduler
pub mod DataTypes
pub mod Tokens
pub mod Lexer
pub mod Syntax
pub mod Parser
pub mod Expressions
pub mod Storage
