-- ===== src/Lib.antt =====
-- The kernel of xv6 for RISC-V (Xv6/kernel), part by part.
--
-- The kernel runs processes, which live in the process table (proc.c) and take pages from the page
-- allocator (kalloc.c), for their tables and for what their page tables map (vm.c). Processes
-- exchange bytes through pipes (pipe.c), which sleep and wake through the process table. The file
-- system keeps its blocks in the buffer cache (bio.c), and each of its calls is a transaction of
-- the write-ahead log (log.c), which pins the buffers of the cache until they are installed, and
-- recovers the disk after a crash. Blocks are given out from a bitmap, and inodes hold their
-- numbers and read and write their bytes (fs.c). A process reaches pipes and inodes through the
-- table of open files (file.c). string.c serves them all, and their steps are atomic by the spin
-- locks (spinlock.c). The console (console.c) is a device whose interrupts fill the buffer that its
-- readers empty; it sends through the serial line (uart.c). Of the user programs, the matcher of
-- grep (Xv6/user/grep.c) is here.
--
-- Which file models what:
--   Prelude.antt    Booleans, lists and integers that the other files share.
--   Memory.antt     Memory as a function from addresses to bytes, with the page arithmetic of riscv.h
--                   (PGROUNDUP, PGROUNDDOWN) and the bounds of memlayout.h (KERNBASE, PHYSTOP).
--   Strings.antt    Xv6/kernel/string.c, one function each: memset, memcmp, memmove, memcpy, strncmp,
--                   strncpy, safestrcpy, strlen, as functions on memory.
--   Kalloc.antt     Xv6/kernel/kalloc.c: kinit, freerange, kfree, kalloc. A page's first word is its
--                   link; the free list is followed through memory.
--   Pipe.antt       Xv6/kernel/pipe.c: pipewrite and piperead as stretches from one sleep to the next,
--                   with the counters nread and nwrite modulo 2^32, and pipeclose.
--   Log.antt        Xv6/kernel/log.c: begin_op, end_op, log_write, and the phases of commit and of
--                   recovery over a disk that loses power after any number of block writes.
--   Bcache.antt     Xv6/kernel/bio.c: binit, bget, bread, brelse, bpin, bunpin over the doubly linked
--                   list, with prev and next as functions from buffers to buffers.
--   Blocks.antt     Xv6/kernel/fs.c: bzero, balloc and bfree over the bytes of the bitmap's blocks.
--   Inodes.antt     Xv6/kernel/fs.c: iupdate, ilock, bmap and itrunc on one device, and in
--                   Inodes/Content.antt readi and writei, in Inodes/Paths.antt skipelem.
--                   Inodes/Layout.antt says what a well-formed file is.
--   Files.antt      Xv6/kernel/file.c: filealloc, filedup, fileclose, fileread and filewrite, and
--                   pipealloc of Xv6/kernel/pipe.c.
--   Proc.antt       Xv6/kernel/proc.c: Proc/Table.antt has the record of struct proc and wakeup, sleep,
--                   yield, kill and the choice of scheduler; Proc/Life.antt has allocproc, freeproc,
--                   userinit, fork, reparent, exit and wait. Proc/System.antt makes a system of steps
--                   of them.
--   Spinlock.antt   Xv6/kernel/spinlock.c: push_off and pop_off, and acquire and release cut at each
--                   access of the lock. Spinlock/Exclusion.antt has the steps of several processors.
--   Console.antt    Xv6/kernel/console.c: consoleintr, consoleread and consolewrite.
--   Uart.antt       Xv6/kernel/uart.c: uartputc, uartstart and uartintr.
--   Vm.antt         Xv6/kernel/vm.c over the words of the page allocator's memory: walk, walkaddr,
--                   mappages, uvmunmap. Vm/User.antt has uvmcreate to uvmclear, Vm/Copy.antt has
--                   copyout, copyin and copyinstr over bytes, Vm/Kernel.antt has kvmmake and, of
--                   Xv6/kernel/proc.c, proc_mapstacks, proc_pagetable, proc_freepagetable, growproc.
--   Grep.antt       Xv6/user/grep.c: match, matchhere and matchstar.
-- The modules below each of these are named for what they prove; those called Tests hold runs on
-- small states and the theorems at concrete arguments.
--
-- State is passed explicitly: a function takes the record of its globals and returns the new one. A
-- panic, a null pointer or a return of -1 is a `none` or a constructor of a result type, as the
-- comment at the definition says. Code that holds its lock throughout is one step; where it sleeps
-- it is cut in two, and the systems of steps let any other steps happen between; fork, and exit up
-- to its call of sched, are one step each, as Proc.antt says. Numbers are natural numbers; the wrap
-- of a counter is written out where the code can reach it, as in pipes, in the console, in the
-- serial line and in the reference counts of buffers.
--
-- Loops are structural recursion on the number of rounds left: the entries of the process table
-- (NPROC), the pages of a range, the bytes of a copy. A walk over linked buffers has fuel for one
-- more than the NBUF buffers, which the order of the list shows to be enough. The calls of writei
-- by filewrite have one round more than the bytes of the write, the rounds of readi and writei are
-- as many as their bytes, and uartstart has one more than the slots of its buffer. mappages ends at
-- MAXVA, uvmunmap, uvmalloc and uvmcopy go over pages, freewalk down three levels; strlen has its
-- fuel from its caller and a theorem on how much is enough.
--
-- Outside the model: memory ordering, sleep locks, and what an interrupt does between the steps;
-- what devices do (the disk's reads are a parameter); the inode table, directories and the walk of
-- a path. The process table names inodes and files by numbers, and file.c calls writei by its
-- result. The process table names page tables by numbers too, and pipes, the console and wait take
-- copyin and copyout by their results: the model of vm.c stands beside them. The counters of pids,
-- the counts of open files and the int loop counters are taken not to reach 2^31.
pub mod Prelude
pub mod Memory
pub mod Strings
pub mod Kalloc
pub mod Pipe
pub mod Log
pub mod Bcache
pub mod Blocks
pub mod Files
pub mod Proc
pub mod Spinlock
pub mod Console
pub mod Uart
pub mod Inodes
pub mod Vm
pub mod Grep
