-- ===== src/Lib.antt =====
-- TecnicoFS: a file system in memory, with one root directory, its server and its client library
-- (Projeto2/tecnicofs_ex2), and its earlier form with files of several blocks
-- (Projeto1SO/tecnicofs).
--
-- Parts of the program and the modules that model them:
--   * fs/config.h, common/common.h, fs/state.h: the constants, the flags of `tfs_open`, the types
--     and the static tables (Projeto2.Types). The record `Fs` has a field for each static array.
--   * fs/state.c: `data_block_alloc`, `data_block_free`, `data_block_get` (Projeto2.Blocks);
--     `add_dir_entry`, `find_in_dir` (Projeto2.Directory); `state_init`, `inode_create`,
--     `inode_delete`, `inode_get` (Projeto2.Inodes); `add_to_open_file_table`,
--     `remove_from_open_file_table`, `get_open_file_entry` (Projeto2.Handles).
--   * fs/operations.c: the `_tfs_..._unsynchronized` functions, without their prefix `_tfs_`
--     (Projeto2.Operations), and the functions of the API around them, which take the global lock
--     and count the open files (Projeto2.Api). `Tfs` adds the two counters to `Fs`.
--     `tfs_destroy_after_all_closed` is in Projeto2.Api.Shutdown, as steps beside other calls.
--   * fs/tfs_server.c: the sessions, the messages and what the main loop does with a request
--     (Projeto2.Server), the threads of the sessions and the mounting
--     (Projeto2.Server.Workers), one round of `main` (Projeto2.Server.Main), and `main` up to its
--     loop and `worker_shutdown` (Projeto2.Server.Start). A request goes from the pipe into the
--     buffer of its session, and the session's thread calls the API and replies. In
--     Projeto2.Server.Threads the main loop and the threads are steps that interleave: `MainStep`
--     and `ThreadStep`, with a `Phase` for where each thread is. A worker runs in one step.
--   * client/tecnicofs_client_api.c: the calls of the client (Projeto2.Client), which give the
--     bytes that go to the server and, from what comes back, the result.
--   * Projeto1SO/tecnicofs/fs/state.c and state.h: the types (Projeto1.Types), the blocks and the
--     giving back of a file's blocks (Projeto1.Blocks), `state_init` and the i-nodes
--     (Projeto1.Inodes), directories (Projeto1.Directory), handles (Projeto1.Handles), and
--     `get_current_offset`, `get_current_data_block` and `bonus_block_init` (Projeto1.Position).
--   * Projeto1SO/tecnicofs/fs/operations.c: `tfs_init`, `tfs_lookup`, `tfs_open`, `tfs_close` and
--     `tfs_write` (Projeto1.Operations), `tfs_read` and `tfs_copy_to_external_fs`
--     (Projeto1.Reading); several threads in `tfs_open`, as steps that take and give back
--     `inode_table_lock` (Projeto1.Operations.Racing). The constants of config.h, the layout of a directory entry and the
--     functions that are the same in both projects are those of Projeto2.
-- An operation of operations.c calls those of state.c in the source's order; each function takes
-- the tables and returns its result with the tables after it. Base and Memory hold what the parts
-- share: C integers, arrays, searches over an index range, bytes and strings in memory. A
-- component's child modules hold its theorems; Projeto2.Invariant and Projeto1.Invariant state what
-- the tables satisfy between calls, and their child modules show that the operations keep it.
--
-- Representation: an `int` is an integer, a `size_t` is a natural number whose sums and
-- differences wrap at 2^64, an array is a function of the index, a pointer into a table is an
-- index, and NULL is `none`. The block of a directory is stored as the program stores it: an entry
-- is 40 bytes of name and an `int` of four bytes, the lowest first, in two's complement. `fs_data`
-- is one array of bytes, and a block starts at its number times 1024.
--
-- Bounds: every loop of state.c runs over a table of fixed size (50 i-nodes, 1024 blocks, 20
-- handles, 23 directory entries, 256 references), and so do those of the operations.c of Projeto2,
-- so that a search is structural recursion on the number of indices left and needs no fuel. The
-- loops of `tfs_write` and `tfs_read` in Projeto1 run on fuel: each round takes a byte at least, so
-- one more than the number of bytes is enough, and the calls give so much. The loop of
-- `tfs_copy_to_external_fs` gets its fuel from the caller. A write or a read through NULL, which
-- the code of Projeto1 can come to, is the value `crashes`.
--
-- The results of the pthread calls are arguments of the functions of the API, so that their error
-- branches run too. A path is not NULL. Calls run one at a time, as the global lock makes them; in
-- Projeto2.Api.Shutdown the test of `can_open_files`, which precedes the lock, is a step of its
-- own. What the server's pipe delivers is an argument too: a loop of reads is recursion on the
-- list of deliveries, and a list that ends before the message is complete stands for a call that
-- waits. Buffers are bytes at the offsets of the packed structs of common.h. A call that waits for
-- ever, for a pipe or for `table_lock`, gives `none`; so does a message with a number that is not a
-- session's, with which the program writes outside `session_table`. A name in a message that has no
-- NUL within its 40 bytes is read on into the flags and to the end of the message. The stores of a
-- read loop outside the message, and what the program has at addresses outside `fs_data`, are not
-- part of the model.
--
-- Not modelled: `insert_delay` (it only takes time), `state_destroy` (it is empty, or destroys the
-- locks), `tfs_destroy` of Projeto1SO/tecnicofs (it calls `state_destroy` only); the signals of the
-- condition variable of fs/operations.c (a destroyer that waits may test again at any time), the
-- wake-ups of a session's thread without a signal, and the mounting as a step beside the threads;
-- the closing and unlinking of the client's pipes; the locks of Projeto1SO/tecnicofs, apart from
-- `inode_table_lock`, which `inode_create` may keep and with which threads in `tfs_open` interleave; the test programs.
pub mod Base
pub mod Memory
pub mod Projeto1
pub mod Projeto2
