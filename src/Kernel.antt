-- ===== src/Kernel.antt =====
-- The kernel's data: proc.h, file.h, `struct pipe` of pipe.c and the constants of param.h. Arrays
-- are functions from the index, and a pointer into a table is the index, null being `none`. A
-- page is named by its address. `env` is the state that vm.c and fs.c keep.
use xv6_system_calls.Prelude.{ℕ, Bool, Option, List, Outcome, ◌==◌, true, false, update}

abbrev pub nproc : ℕ
nproc = 64

abbrev pub nofile : ℕ
nofile = 16

abbrev pub nfile : ℕ
nfile = 100

abbrev pub default_priority : ℕ
default_priority = 10

-- The length of `sys_count`.
abbrev pub sys_cn : ℕ
sys_cn = 29

pub data ProcState : Type 0 where
  unused embryo sleeping runnable running zombie : ProcState

abbrev pub is_unused : ProcState → Bool
is_unused ProcState.unused = true
is_unused _ = false

abbrev pub is_sleeping : ProcState → Bool
is_sleeping ProcState.sleeping = true
is_sleeping _ = false

abbrev pub is_runnable : ProcState → Bool
is_runnable ProcState.runnable = true
is_runnable _ = false

abbrev pub is_running : ProcState → Bool
is_running ProcState.running = true
is_running _ = false

abbrev pub is_zombie : ProcState → Bool
is_zombie ProcState.zombie = true
is_zombie _ = false

-- What `p->chan` may point at: nothing, a process, the two counters of a pipe, `ticks`, the log,
-- the console's read index, or a sleep lock.
pub data Chan : Type 0 where
  no_chan : Chan
  proc_chan nread_chan nwrite_chan : ℕ → Chan
  ticks_chan log_chan input_chan : Chan
  lock_chan : ℕ → Chan

-- Equality of the addresses.
abbrev pub same_chan : Chan → Chan → Bool
same_chan Chan.no_chan Chan.no_chan = true
same_chan (Chan.proc_chan a) (Chan.proc_chan b) = a == b
same_chan (Chan.nread_chan a) (Chan.nread_chan b) = a == b
same_chan (Chan.nwrite_chan a) (Chan.nwrite_chan b) = a == b
same_chan Chan.ticks_chan Chan.ticks_chan = true
same_chan Chan.log_chan Chan.log_chan = true
same_chan Chan.input_chan Chan.input_chan = true
same_chan (Chan.lock_chan a) (Chan.lock_chan b) = a == b
same_chan _ _ = false

-- The registers of the trap frame that the kernel's code names.
pub record Trapframe : Type 0 where
  pub eax : ℕ
  pub esp : ℕ
  pub eip : ℕ
  pub cs : ℕ
  pub ds : ℕ
  pub es : ℕ
  pub ss : ℕ
  pub eflags : ℕ

-- Where `swtch` resumes a process: nowhere yet, at `forkret`, or where it called `sched`.
pub data Context : Type 0 where
  no_context at_forkret in_sched : Context

pub record Proc : Type 0 where
  pub sz : ℕ
  pub pgdir : Option ℕ
  pub kstack : Option ℕ
  pub state : ProcState
  pub pid : ℕ
  pub parent : Option ℕ
  pub tf : Trapframe
  pub context : Context
  pub chan : Chan
  pub killed : Bool
  pub ofile : ℕ → Option ℕ
  pub cwd : Option ℕ
  pub name : ℕ → ℕ
  pub priority : ℕ
  pub sys_count : ℕ → ℕ
  pub arrivalt : ℕ
  pub endt : ℕ
  pub burstt : ℕ
  pub iot : ℕ

pub data FileType : Type 0 where
  fd_none fd_pipe fd_inode : FileType

pub record OpenFile : Type 0 where
  pub kind : FileType
  pub ref : ℕ
  pub readable : Bool
  pub writable : Bool
  pub pipe : Option ℕ
  pub ip : Option ℕ
  pub off : ℕ

pub record PipeBuf : Type 0 where
  pub bytes : ℕ → ℕ
  pub nread : ℕ
  pub nwrite : ℕ
  pub readopen : Bool
  pub writeopen : Bool

pub record Kernel (E : Type 0) : Type 0 where
  pub procs : ℕ → Proc
  pub next_pid : ℕ
  pub init_proc : Option ℕ
  pub files : ℕ → OpenFile
  pub free_pages : List ℕ
  pub kernel_end : ℕ
  pub pipes : ℕ → Option PipeBuf
  pub env : E

-- What the process and file code calls in vm.c and fs.c, each call run to its end. A page table
-- is named by its page; `free_pages` goes in and comes out.
pub record Lower (E : Type 0) : Type 0 where
  pub copyuvm : Option ℕ → ℕ → List ℕ → E → Outcome (Option ℕ × List ℕ × E)
  pub freevm : Option ℕ → List ℕ → E → Outcome (List ℕ × E)
  pub allocuvm : Option ℕ → ℕ → ℕ → List ℕ → E → Outcome (ℕ × List ℕ × E)
  pub deallocuvm : Option ℕ → ℕ → ℕ → List ℕ → E → Outcome (ℕ × List ℕ × E)
  pub idup : Option ℕ → E → Outcome E
  pub iput : Option ℕ → E → Outcome E

module _ {E : Type 0} where
  abbrev pub set_proc : Kernel E → ℕ → Proc → Kernel E
  set_proc k i p = record k { procs = update k.procs i p }

  abbrev pub set_file : Kernel E → ℕ → OpenFile → Kernel E
  set_file k i f = record k { files = update k.files i f }
