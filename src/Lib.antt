-- ===== src/Lib.antt =====
-- Verification of the C sources under btree/: the B+ tree (btree/bpt3.c), the queue (btree/queue.c),
-- the stack (btree/stack.c), the strings (btree/ustr.c) and their data types (btree/dtype.h); the
-- dictionary's words and translations (btree/tw1.c), its data files (btree/fileio.c) and its
-- member keys (btree/tw2.c) in part.
--
-- The program is a translation tool over dictionaries. Its words stand in B+ trees, whose nodes are
-- `NODE5` structs with arrays of `void*`; leaves are chained through their last pointer. Keys and
-- data are addresses, compared by a function that a tree is created with.
--
-- Files:
--   Common        shared names, Boolean tests, lists over the native numbers
--   Int32         `int` and `unsigned int` as 32-bit patterns that wrap
--   Memory        nodes at addresses, blocks, malloc and free; commands that may fault, exit or run
--                 out of rounds. Memory/Laws: how they act; Memory/Chain: linked nodes as lists
--   Arrays        the `void**` arrays and the loops over them; Arrays/Loops, /Slice, /Copy: what each
--                 loop leaves, entry by entry and as lists
--   Queue         btree/queue.c: que_create, que_destroy, que_enqueue, que_dequeue, que_front,
--                 que_rear, que_is_empty, que_is_full, que_count under their names
--   Stack         btree/stack.c, a doubly linked stack: all stack_* functions under their names.
--                 Stack/Links: its representation; /Push, /Pop, /Limit, /Destroy: proofs
--   Ustr          btree/ustr.c on lists of bytes: characters, str_len, str_copy, str_cat, str_trim,
--                 hash_value. Ustr/Number: uint_to_str, str_to_uint. Ustr/Compare: the str_cmp*
--                 functions. A `char*` is what its object holds from there on, and an access behind
--                 the end is `none`. The keys of the index are decimal numbers, each with `_` behind
--   Bpt           btree/bpt3.c: NODE5, BTREE, allocation. Bpt/Find: lookups; Bpt/Insert, Bpt/Split:
--                 insertion; Bpt/Delete, Bpt/Merge: deletion; Bpt/Scan: walks along the leaves;
--                 Bpt/Drop: freeing. A leading `_` of a C name is dropped.
--                 Bpt/Tree: the tree that a heap stores, and lookup and insertion on whole trees.
--                 Bpt/Tree/Kids, /Join, /PutIn: children as lists of keys and addresses; /Rising:
--                 leaves with strictly ascending keys; /Ready: what malloc will give; /SplitLeaf,
--                 /Parent, /SplitNode, /NewRoot: the steps of an insertion; /Grown, /GrownNode: the
--                 children of a node before and after; /Grow: the way up, round by round; /Growth,
--                 /First: the result; /Index: a handle as a sorted list; /InitKey, /InitLeaves: bpt_init_key
--                 Their child modules hold the proofs, and */Tests runs and instances.
--   Store         the state that the trees, the queues and their data share: strings and numbers that
--                 `void*` keys and data point to, and the comparisons of btree/tw1.c over them
--   Dictionary    btree/tw1.c: _tw1_insert_to_btree, _tw1_insert_to_btree_trans, tw1_drop_word_run,
--                 _tw1_delete_trans_key_run. Dictionary/Update: tw1_drop_word, tw1_revision and
--                 _tw2_word_update_run of btree/tw2.c; /Sentence: _tw1_trans_key_data, whose string
--                 comes back in place of being printed; /Lookup, /Words: proofs
--   Files         btree/fileio.c: _fio_read_header, _fio_write_header. Files/Records: the records;
--                 Files/Write, Files/Read: trees; Files/Numbers: the numbers of deleted words.
--                 fopen's failure is an argument; a file is the list of its bytes
--   MemberKey     btree/tw2.c: _tw2_getchar_encode_key and _tw2_get_decode_key, with
--                 time_random_between of btree/utime.c
--
-- Memory: a malloc that fails returns NULL, and the tree's allocations then exit. An access at NULL,
-- at a freed node or beyond an array's capacity is a fault. The arrays of a node are kept in it. What
-- malloc'ed memory holds is a parameter, as is `compare`. Loops that the C code ends by a pointer run
-- on a number of rounds; theorems about them say how many are enough.
--
-- The way up of an insertion runs on rounds, one for a level of the tree, which is proved enough.
-- The theorems on whole insertions are about trees without equal keys, whose leaves are not empty.
--
-- The reading loops run on one round more than the file has bytes, which is proved enough. What
-- two addresses compare to that hold no string or number is a parameter. fputc is taken to write.
--
-- Not modelled: the terminal (menus, prompts and searches of tw1.c and tw2.c, main.c), import and
-- export of text files and the files of member keys in fileio.c, printing, clocks, the lookups of
-- bpt3.c that read strings (bpt_find_leaf_key_like, bpt_search_str_unique_like), and list/, queue/,
-- rbtree/, rbtree2/, which are copies of the Linux kernel's own library.
pub mod Common
pub mod Int32
pub mod Memory
pub mod Queue
pub mod Stack
pub mod Ustr
pub mod Arrays
pub mod Bpt
pub mod Store
pub mod Files
pub mod Dictionary
pub mod MemberKey
