-- ===== src/Lib.antt =====
-- Neonix: verification of parts of the kernel and its library.
--
-- Neonix is a small Unix-like kernel in C for one x86 processor. src/lib holds routines that the
-- kernel shares with user programs, src/kernel the kernel proper, src/fs the file system,
-- src/include/neonix the headers. The parts that stand here, and how they interact:
--
-- * Bitmap models src/lib/bitmap.c, which keeps track of memory pages, disk zones and inodes. A
--   bitmap is a record of the fields of `bitmap_t`, with the buffer as a list of bytes; every
--   function of the file is a definition of the same name. Bitmap/Bits is about single bits,
--   Bitmap/Laws about `bitmap_test` and `bitmap_set`, Bitmap/Scan about `bitmap_scan`.
-- * LinkedList models src/lib/list.c, the intrusive list under tasks, timers, buffers and requests.
--   The `next` and `prev` fields of all nodes are two functions on addresses, so that aliasing is
--   what it is in C; 0 is NULL. LinkedList/Chain says what list the links stand for,
--   LinkedList/Insert, Remove, Walk and Sort what the functions do to it.
-- * Fifo models src/lib/fifo.c, a byte queue in a circular buffer: Fifo/Window says which bytes are
--   stored, Fifo/Laws and Fifo/Put are about the operations.
-- * Pipe models `pipe_read` and `pipe_write` of src/fs/pipe.c, one reader and one writer on a Fifo. A
--   step is what one of them does between two calls of `task_block`; Pipe/Sound has the invariant,
--   Pipe/Flow the theorems about every order of steps.
-- * Mutex models `mutex_lock` and `mutex_unlock` of src/kernel/mutex.c, with any number of tasks;
--   the list of waiters appears by its contents. Mutex/Sound has the invariant, Mutex/Exclusion the
--   theorems about every order of steps.
-- * Console models src/kernel/console.c: the screen in the video memory, the cursor, and the state
--   machine that reads control sequences. Console/Screen, Csi and Input hold the functions of the
--   file, Console/Memory, Cursor, Lines and Chars the lemmas about them, Console/Safety, Text and
--   Stuck the theorems. `scroll_down`, which nothing calls, is left out.
-- * Strings models src/lib/string.c over a memory of bytes: Strings/Copy is about `strcpy`, `strcat`
--   and `strlen`, Strings/Compare about `strcmp`, Strings/Search about `strrsep`, Strings/Block about
--   `memcpy` and `memcmp`.
-- * Calendar models `mktime`, `localtime` and `get_yday` of src/kernel/time.c (src/lib/time.c has a copy
--   of `localtime`) and the decimals of src/lib/stdlib.c; Calendar/Mktime has the Gregorian calendar,
--   by its rules, and the comparison with `mktime`, Calendar/Yday and Calendar/Localtime the rest.
-- * Stdlib models `atoi` of src/lib/stdlib.c over the memory of Strings; Stdlib/Decimal has the numbers
--   that digits stand for.
-- * Tasks models the scheduler of src/kernel/task.c and the clock of src/kernel/clock.c: the search for
--   a task, blocking and waking, the change of tasks, the time slices. Tasks/Search is about
--   `task_search`, Tasks/Valid has the invariant, Tasks/Turns, Waking and Clock the lemmas
--   about `schedule`, `task_unblock` and `clock_handler`, Tasks/Events has the theorems. Mutex and Pipe stand on
--   the same `task_block` and `task_unblock`, seen from the list of waiters.
-- * Files models src/fs/file.c: the table of open files, the descriptors of the running task and the
--   references of the other ones, with the functions of src/kernel/task.c for descriptors. Files/Refs,
--   Keep and Search hold the lemmas, Files/Valid the invariant, Files/Descriptors, Transfer and Offset
--   the theorems. Inodes, devices and pipes enter by what their functions return.
-- * Blocks models the allocation of zones and inodes in src/fs/bmap.c over the Bitmap; a buffer is its
--   data, whether it is dirty, and the block on the disk. Blocks/Alloc is about the loop that looks for
--   a free bit, Blocks/Free has the theorems.
-- * Pages models the physical pages of src/kernel/memory.c: the zones of memory, the counts of
--   references, the kernel's own pages over the Bitmap, and what is done with one page table entry and
--   the entry of its directory. Pages/Counts and Marks hold the lemmas on counts, Pages/Entries, Uses,
--   Boot and Kernel the theorems.
-- * Devices models the queue of requests in src/kernel/device.c, which the block devices share: the list
--   by its contents and the place of the request that is carried out. Devices/Places is about the
--   list, Devices/Begin about a new request, Devices/Serve has the theorem on every order of requests.
-- * Format models `number` and `skip_atoi` of src/lib/vsprintf.c. Format/Digits is about the digits,
--   Format/Roundtrip about the number and `atoi` of Stdlib. An `int` that leaves its range
--   is `none`.
-- * Names models the walk along a path in src/fs/namei.c, `named` and `namei`, with `iget` and `iput` of
--   src/fs/inode.c, and the functions that change directories, over Blocks. Names/Match is about one name and the entries of a directory, Names/Counts about the
--   references to inodes, Names/Walk has the walk by whole names and one round of the loop, Names/Paths
--   and Names/Namei the theorems. Names/Changes and Links hold the functions that add and remove names,
--   Names/Entries, Restore and Adding what they do to the entries of a directory, Names/Parent their
--   common beginning, Names/Dropped the
--   end of `sys_unlink`, Names/Unlink and Link the theorems. Names/Creating holds `sys_mkdir`, `sys_mknod`
--   and `inode_open`, Names/Removing `sys_rmdir` (Names/Freed is about its end), Names/Entered is about a new entry with
--   a new inode, Names/Mkdir, Open and Rmdir have the theorems.
--   Index blocks, and so the blocks of a file behind the seventh, are left out: `bmap` fails there, and
--   `inode_truncate` where a file has any. A full table of inodes is left out, too.
-- * Keyboard models the interrupt of src/kernel/keyboard.c and `tty_rx_notify` of src/kernel/tty.c, on a
--   Fifo. Keyboard/Keys and Track are about one scan code, Keyboard/Run about all of them,
--   Keyboard/Letters about the characters.
-- * Prelude has what they share: Boolean tests, arrays as lists, code that may stop, machine words,
--   integers.
--
-- Conventions. `none` is a failed assert, a panic, or an access outside of an object; each file says
-- which. Numbers are natural numbers, and the wrap-around of u32 is written out where the code can
-- meet it. A loop over memory takes fuel; each theorem about one gives more fuel than the list or the
-- string has elements, and says that the code then ends. The loops of Fifo and Console carry the fuel
-- themselves: the length of the buffer, and the number of rows of the video memory. So do the loops
-- of Files, Blocks and Format: the size of the table, and the 32 bits of a number. System calls run
-- with interrupts disabled, so tasks interleave only where the code blocks.
--
-- Not modelled: the state of interrupts and the magic numbers of tasks, on which asserts of the
-- scheduler look; the heap, whole page directories, fork and exit, changes of the current
-- directory, inodes and super blocks, signals, timers, the buffer cache, the drivers and
-- the program loader; port I/O, processor tables and assembly, which are hardware; the user
-- programs, which only make system calls. The bytes that `set_cursor` and `set_screen` send to the
-- display controller, and the calls of `start_beep`, are recorded in the console's state.
pub mod Bitmap
pub mod Blocks
pub mod Calendar
pub mod Console
pub mod Devices
pub mod Fifo
pub mod Files
pub mod Format
pub mod Keyboard
pub mod LinkedList
pub mod Mutex
pub mod Names
pub mod Pages
pub mod Pipe
pub mod Prelude
pub mod Stdlib
pub mod Strings
pub mod Tasks
