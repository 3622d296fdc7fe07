-- ===== src/Lib.antt =====
-- The xv6 system of xv6/: processes, memory, files, pipes and the console, the system calls that
-- this repository adds (cps, getppid, getsz, chpr, getcount, time, dup2), and the shell's parser.
--
-- The state of the kernel is one record, `Kernel`, in Kernel.antt: the process table of
-- xv6/proc.c, the file table of xv6/file.c, the free list of xv6/kalloc.c, and the pipes by the
-- address of their page. A process is named by its place in the table, a file by its place in the
-- file table. An operation is a function from the kernel to its result and the kernel after it;
-- one that can panic returns an `Outcome`, and one that can sleep a `Progress`, which is either
-- the value it returns or what it still has to do when it is woken. A C array is a function from
-- the index, a 32-bit word a natural number below 2^32 with its wrap-around written out, and an
-- `int` that is returned an integer.
--
--   Prelude         names passed on from the library, Boolean tests, arrays, lists, outcomes
--   Kernel          xv6/proc.h, xv6/file.h, xv6/param.h: the state; the interface `Lower` of the
--                   process and file code to xv6/vm.c and xv6/fs.c
--   Kalloc          xv6/kalloc.c: kalloc, kfree, freerange
--   Vm              xv6/vm.c: walkpgdir, mappages, deallocuvm, freevm; Vm/User: setupkvm, inituvm,
--                   allocuvm, copyuvm, clearpteu, uva2ka, copyout;
--                   the other modules of Vm hold proofs over the translation of a table
--   Wakeup          xv6/proc.c: wakeup1, and sleep in its two halves
--   File            xv6/file.c: filealloc, filedup, fileclose
--   Pipe            xv6/pipe.c: pipewrite, piperead, pipeclose
--   Strings         xv6/string.c
--   Process         xv6/proc.c: allocproc and fork; Process/Reap: exit, wait, time, kill;
--                   Process/Info: cps, getppid, getsz, chpr, getcount, growproc;
--                   Process/Switch: scheduler, sched, yield, sleep around their switch
--   Syscall         xv6/syscall.c: the checks of arguments, and syscall
--   SysFile         xv6/sysfile.c: argfd, fdalloc, sys_dup, sys_close, sys_dup2
--                   SysFile/Pipes: pipealloc of xv6/pipe.c and sys_pipe
--   SysProc         xv6/sysproc.c: the calls on processes
--   Locks           xv6/spinlock.c, xv6/sleeplock.c; Locks/Handover: proofs
--   Cache           xv6/bio.c: binit, bget, bread, bwrite, brelse
--   Log             xv6/log.c: begin_op, end_op, log_write, commit, recover_from_log; the disk
--                   writes of a commit are a list, and a crash leaves what a first part of it has written
--   Fs              xv6/fs.c: the disk by its regions, balloc, bfree; Fs/Inode: ialloc to iunlockput,
--                   bmap, itrunc; Fs/Content: readi, writei, stati; Fs/Directory: dirlookup, dirlink;
--                   Fs/Path: skipelem to nameiparent; Fs/Handles: fileread, filewrite and filestat
--                   of xv6/file.c with their system calls; Fs/Calls, Fs/Create, Fs/Open: the system
--                   calls of xv6/sysfile.c on paths. The other modules of Fs hold proofs
--   Console         xv6/console.c: consoleintr and consoleread; Console/Editing and
--                   Console/Lines: proofs
--   Ulib            xv6/ulib.c: atoi, atoo; xv6/printf.c: printint
--   Shell           xv6/sh.c: gettoken to parsecmd; Shell/Grammar: the command lines, apart from the
--                   parser; the other modules of Shell hold proofs
--   Examples        small machines, at which the theorems are applied
--
-- A call holds its lock from its first access to its last, so each critical section is one step of
-- the model; the locks themselves are modelled in Locks and Process/Switch only. `wait`, `time`,
-- `pipewrite` and `piperead` run until they return or sleep, and start again from what is left.
-- `acquiresleep` has its whole loop: a list says what the others do in each of its sleeps. A store
-- of `sys_dup2` outside of the descriptor table is a parameter, `stray`.
-- The loops over the tables are bounded by NPROC, NOFILE and NFILE, as in the source. The loops of
-- `readi`, `writei` and `filewrite` have as much fuel as there are bytes left, and each round
-- takes at least one; the loop of `namex` has one round more than the path has bytes; `printint`
-- has the 16 rounds that its buffer holds, and a word has ten digits; a loop over a directory has
-- the directory's size, of which a round takes 16 bytes. The loop of `freerange` has fuel, one
-- round for each page below its upper bound, which is enough: a round steps over a page.
--
-- `C('U')` in `consoleintr` has a round for each byte between the write and the edit counter.
--
-- The parser of the shell has one byte of text for each round, and fuel for one round more than
-- the text has bytes; each round takes a token.
--
-- In Vm a page of memory is named by its address in the kernel and has its bytes; a page table is
-- read from the bytes of its pages. The loop of `deallocuvm` has a round for each page below the
-- old size, which is enough, since a round steps over a page or over a whole table.
--
-- In Fs the disk is its free map, its inodes and its data blocks, which a sound superblock keeps
-- apart; the blocks that go to `log_write` are listed, and an operation is a counter that goes up
-- and down. A process that meets the held lock of an inode sleeps, and the run of the model ends.
--
-- Not modelled: the interleaving of processors and the switch of contexts, traps, the registers of
-- the processor, devices, assembly, and the programs that run on the kernel but for Ulib and the
-- parser of the shell. The build is the repository's default: PDX_XV6 is defined, and no CS333_P1
-- to CS333_P5.
pub mod Prelude
pub mod Kernel
pub mod Kalloc
pub mod Wakeup
pub mod File
pub mod Pipe
pub mod Strings
pub mod Process
pub mod Syscall
pub mod SysFile
pub mod Examples
pub mod Log
pub mod SysProc
pub mod Locks
pub mod Cache
pub mod Fs
pub mod Console
pub mod Ulib
pub mod Shell
pub mod Vm
