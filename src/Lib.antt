-- ===== src/Lib.antt =====
-- Verification of the course projects in this repository.
--
-- project3 is a small Unix-like file system on a disk image, served through FUSE: homework.c has the
-- handlers, misc.c the access to blocks, fs5600.h the layout on the disk. The folder Fs models it.
--   Fs/Host: the disk image and memory, which are the operating system's, as an interface.
--   Fs/Action: how a call ends: a value, a negative errno, or a fault (a failed assertion, `exit`, or
--     behaviour that C leaves undefined).
--   Fs/Block, Fs/Inode (with its mode in Mode), Fs/Dirent: blocks as bytes by offset, and the structs of fs5600.h in them.
--   Fs/Disk: the state (the image, and the copies of the superblock and the bitmap in memory),
--     `block_read`, `block_write`, `read_inode`, `write_inode`, `load_fs_metadata`.
--   Fs/Bitmap: `bit_set`, `bit_clear`, `bit_test`, `allocate_block`, `free_block`.
--   Fs/Path: `translate` and `lookup_parent`, with `strtok`, `basename` and `dirname` as functions.
--   Fs/Attributes: `fs_init`, `fs_getattr`, `fs_readdir`, `fs_chmod`, `fs_utime`, `fs_statfs`.
--   Fs/Namespace: `fs_create`, `fs_mkdir`, `fs_unlink`, `fs_rmdir`, `fs_rename`.
--   Fs/Data: `fs_truncate`, `fs_read`, `fs_write`.
--   Fs/Attributes/Listing, Changes, ReadOnly: what `fs_readdir` lists, what `fs_chmod` and `fs_utime`
--     change, and the handlers that change nothing.
--   Fs/Data/File: what a sound file on the disk is; Grow, WriteLoop and Splice: what `fs_write` makes
--     of it; RoundTrip: what `fs_read` returns afterwards; Isolation: what it returns of another file;
--     Leak: a disk that becomes full; Truncate: `fs_truncate`.
--   Fs/Path/Trail: paths that other writes leave alone.
--   Fs/Writes, Fs/Tree: the states after the writes of a handler, and what a directory on the disk is.
--   Fs/Tests: a disk in memory.
-- Each handler has the name of its C function and is a sequence of the same calls and checks. The
-- byte offsets, the 31 bits of an inode number and the 32 bits of a word are those of the structs.
--
-- project2 is a database server: a listener puts sockets into a queue, workers take them out and
-- store records in files. The folder Server models queue.c, database.c and dbserver.c.
--   Server/Queue: the linked list on a heap, and its calls, each one step under the mutex.
--   Server/Database: the table of 200 records, and the files /tmp/data.N behind an interface, the shell
--     command of `db_cleanup` among it.
--   Server/Service: `handle_work`, `print_stats` and the rounds of the threads of dbserver.c; a socket
--     is what its reads yield.
--   Server/Threads: the loop of `worker_thread`, a turn of that of `listener_thread`, the console of `main`, and the steps of the whole
--     server, where every round of a thread is one step.
--   Server/Tests: small examples of these.
--
-- Caesar models the cipher of project0/part3/caesar.c, PointerQueue the queue of
-- project0/part4/queue.c (its Chain and Trace: the queue as a list), Console the line reader and the
-- echo of project1/part-1.c.
--
-- project1 has a command line that loads ELF programs into its own address space and calls them.
--   Loader: `exec_file` of part-2.c and of part-3.c, over an interface of the kernel: the bytes at the
--     addresses, `mmap`, `munmap`, the position of the open file with `lseek` and `read`, and the run of a
--     program, which may take some of the input. The offset and the length go through an `int`, as the
--     wrappers of the system calls have it. That `mmap` takes its address as a hint only is
--     part of the interface; where a theorem needs that the hint is taken, it says so.
--   Loader/Bounds, Image, Unload: the regions, the memory of a loaded program, and what is left of it.
--   Shell: `split`, `do_getarg` and the loop of `main` of part-2.c. `do_readline` and `do_print` are the
--     functions that Console models. Shell/Words has the words of a line, Shell/Commands whole commands.
--
-- Prelude has what the parts share: Boolean tests on numbers, lists, and the search for the first
-- index with a property.
--
-- Bounds. Loops with a fixed count (128 entries, 200 records) recurse on it. The loops of `fs_read`
-- and `fs_write` take fuel, the number of bytes wanted, and every round moves at least one byte; the
-- loop of `queue_cleanup` takes the number of items. The fields of an inode are cut to their widths
-- where the code stores them; signed values are bit patterns. Indices that the code does not check,
-- such as a block number behind the array of an inode, are faults.
--
-- Not modelled: hw3fuse.c (the command line and FUSE's main loop), `block_init` of misc.c, the port
-- of the listener, the creation and the joins of the threads of dbserver.c and rounds of two workers that
-- overlap (but for `db_write`), dbtest.c, the switch
-- between two processes of part-3.c (its stack setup is assembly), failed reads of an ELF header, the
-- unit tests and main programs, and the Python scripts.
pub mod Prelude
pub mod Caesar
pub mod Console
pub mod Fs
pub mod Loader
pub mod PointerQueue
pub mod Server
pub mod Shell
