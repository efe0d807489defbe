-- ===== src/Lib.antt =====
-- MMZZOS, a small operating system for 32-bit x86 machines: the parts of its kernel that keep state.
--
-- The library routines under lib/kernel hold the data that the kernel shares: the bit maps of the
-- memory pools and of the file system, the byte queues of the keyboard and of the pipes, the linked
-- lists of threads and inodes, and the heap of delayed threads. kernel/thread.c keeps the threads in
-- such lists and in that heap, and the timer of device/timer.c drives it.
--
-- Files and sources:
-- - Base and the files under Base: names and lemmas that all parts share, `Result` for code that can
--   stop the machine (`panic`, an ASSERT of lib/kernel/assert.c) or touch storage that is not its
--   own (`fault`), and the bits of a byte.
-- - Bitmap: lib/kernel/bitmap.c. `init`, `mark_bit`, `reset_bit`, `test_bit` and `allocate` are
--   BitMapInit, BitMapSet, BitMapReset, BitMapTest and BitMapAllocate on a list of bytes.
--   Bitmap.Bits has the operations on one bit, Bitmap.Search the search for a window of clear bits.
-- - IoQueue: lib/kernel/ioqueue.c, a ring of bytes. `put_round` and `get_round` are ioQueuePut and
--   ioQueueGet up to the point where the thread sleeps. IoQueue.Pipe has pipe_write and pipe_read of
--   lib/user/syscallFun.c, whose limits come from the queue.
-- - Dll: lib/kernel/list.c. The links of all nodes are one store, from addresses to the two
--   neighbours; Dll.Shape says which sequence of nodes a list holds, and Dll.Laws gives each routine
--   on that sequence.
-- - MinHeap: lib/kernel/minHeap.c, with the comparison as a parameter.
-- - Sched: the scheduler of kernel/thread.c, the timer interrupt of device/timer.c and syscall_sleep
--   of lib/user/syscallFun.c. The queues are the sequences of threads that Dll has for the lists,
--   and the delayed threads stand in a `MinHeap`.
-- - Sync: semaphores and mutexes of kernel/thread.c. SemaphoreInc and a round of SemaphoreDec are
--   single steps, since interrupts are off in them; Sync.Steps interleaves the steps of any number
--   of threads.
-- - Processes: userprog/wait_exit.c with ThreadExit of kernel/thread.c, on the kernel of `Sched`.
--   `wait_round` is one round of the loop of syscall_wait; Processes.Handover joins it with
--   syscall_exit.
-- - Mem: memset, memcpy and memcmp of lib/string.c on a memory of bytes with 32-bit addresses.
-- - Strings: strlen, strcmp, strchr and strip of lib/string.c on that memory.
-- - Digits: itoa of lib/stdio.c, which writes a number in a base.
-- - Keys: the scan code table of device/keyboard.c with the key codes of device/keyboard.h, and
--   their conversion to characters; Keys.Layout compares them with a keyboard layout.
-- - Keyboard: keyboard_interrupt, KeyBoardGet and KeyBoardRead of device/keyboard.c on an `IoQueue`.
-- - Shell: readline and CmdParse of shell/shell.c, on the memory of `Mem` with the strings of
--   `Strings`. The characters that the system call read hands over are a list.
-- - Pages: kernel/memory.c up to malloc_page and free_page; Pages.Teardown has the memory that an
--   exit gives back in ReleaseProcessResource of userprog/wait_exit.c, on the page tables of the
--   process that exits, Pages.Blocks the sizes and places of the small blocks, and Pages.Start
--   mem_init. A `Pool` is a bit map with the address of its first page, and a `Space` has the four
--   pools and the entries of the page tables by their number.
-- - Files: the table of open files and the open inodes, GetFreeGlobalFd, ProcessInstallFd and
--   file_open of fs/file.c, InodeOpen and InodeClose of fs/inode.c; Files.Calls has syscall_close,
--   syscall_pipe, pipe_close, syscall_seek and syscall_fd_redirect of lib/user/syscallFun.c on it.
-- - Disk: ide_read, ide_write, WaitForHdWork and select_sector of device/ide.c, on a disk that is a
--   store of bytes and a controller whose statuses are a parameter.
-- - Storage: the table of inodes on the disk, InodeWrite of fs/inode.c, the allocation of blocks,
--   file_read and file_write of fs/file.c, on the disk of `Disk` and the maps of `Bitmap`.
-- - Dirs: SearchDirEntry and CreateDirEntry of fs/dir.c and DeleteDirectoryDirEntry of fs/fs.c, on
--   blocks of entries; Dirs.Entries has the list of the used entries, and Dirs.Reading
--   syscall_readdir of lib/user/syscallFun.c. CreateDirEntry uses BitMapUpdate and InodeWrite of
--   `Storage`.
-- - Paths: ParsePath and PreprocessingPath of fs/fs.c; Paths.Walk has SearchFile, where what a
--   directory has under a name is a parameter, and Paths.Resolve the search by a list of names.
--
-- Fuel: the loops of the heap and of ListTraversal run on fuel, one unit for each round: a node
-- moves at most once for each level, and the traversal makes one round for each node and one for the
-- end. itoa takes one unit for each digit, at most 32 of them for a 32-bit number, and the loops
-- over a string one for each character and one for the end; CmdParse takes one unit more. ide_read
-- and ide_write take one unit for each sector and one more.
-- KeyBoardRead takes one unit for each key code in the queue and one more. MinHeapPop is the
-- exception: its loop can run for ever. The loops of the pipes, of the bit map and of the memory
-- blocks are structural, on the bytes left.
--
-- Numbers are natural numbers. Where the source's 32-bit arithmetic can wrap, in the ticks of the
-- scheduler and in the pointers into the memory, the reduction by 2 ^ 32 is written out; the sizes
-- of maps, rings and heaps are bounded by the storage that they index.
--
-- The loop over a path takes one unit for each character and one more. The loops of file_read and
-- file_write and those over the blocks of a directory are structural, on the blocks left to their
-- limit.
--
-- Not modelled: the block lists of the memory manager, the formatting of the file system, the
-- release of inodes, fork and exec, the files that an exit closes, the commands of the shell, the
-- partitions and the controller of the disk, the device drivers other than the timer, the
-- keyboard and the disk, and all assembler. Interrupts are off in the routines that are taken as
-- one step; page tables and stacks are left out of the switch between threads.
pub mod Base
pub mod Bitmap
pub mod IoQueue
pub mod Dll
pub mod MinHeap
pub mod Sched
pub mod Sync
pub mod Mem
pub mod Digits
pub mod Strings
pub mod Keys
pub mod Keyboard
pub mod Pages
pub mod Shell
pub mod Processes
pub mod Files
pub mod Disk
pub mod Storage
pub mod Dirs
pub mod Paths
