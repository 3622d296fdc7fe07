-- ===== src/Examples/Machine.antt =====
-- A machine with init (entry 0), a shell (entry 1) and a command (entry 2), and a stand-in for
-- what vm.c and fs.c do: a page table is one page, and no call of the file system fails.
use xv6_system_calls.Prelude.{ℕ, zero, suc, false, Option, none, some, List, [], ◌∷◌, Outcome, ok}
use xv6_system_calls.Kernel.{
  Kernel, Lower, Proc, ProcState, Chan, Context, Trapframe, OpenFile, FileType,
}

abbrev pub lower_copy : List ℕ → Outcome (Option ℕ × List ℕ × Unit {0})
lower_copy [] = ok (none, [], tt)
lower_copy (v ∷ rest) = ok (some v, rest, tt)

abbrev pub lower : Lower (Unit {0})
lower = record {
  copyuvm = λ pgdir sz pages env. lower_copy pages;
  freevm = λ pgdir pages env. ok (pages, tt);
  allocuvm = λ pgdir old new pages env. ok (new, pages, tt);
  deallocuvm = λ pgdir old new pages env. ok (new, pages, tt);
  idup = λ ip env. ok tt;
  iput = λ ip env. ok tt;
}

abbrev pub frame : ℕ → Trapframe
frame eax = record { eax = eax; esp = 0x100; eip = 0; cs = 0; ds = 0; es = 0; ss = 0; eflags = 0 }

abbrev pub no_proc : Proc
no_proc = record {
  sz = 0x1000;
  pgdir = none;
  kstack = none;
  state = ProcState.unused;
  pid = 0;
  parent = none;
  tf = frame 0;
  context = Context.no_context;
  chan = Chan.no_chan;
  killed = false;
  ofile = λ fd. none;
  cwd = none;
  name = λ i. 0;
  priority = 10;
  sys_count = λ i. 0;
  arrivalt = 0;
  endt = 0;
  burstt = 0;
  iot = 0;
}

abbrev pub init : Proc
init = record no_proc { state = ProcState.sleeping; pid = 1; chan = Chan.proc_chan 0 }

abbrev pub shell : Proc
shell = record no_proc { state = ProcState.running; pid = 2; parent = some 0 }

abbrev pub command : Proc
command = record no_proc {
  state = ProcState.running;
  pid = 3;
  parent = some 1;
  kstack = some 0x8020_0000;
}

abbrev pub table : Proc → Proc → Proc → ℕ → Proc
table a b c zero = a
table a b c (suc zero) = b
table a b c (suc (suc zero)) = c
table a b c _ = no_proc

abbrev pub no_file : OpenFile
no_file = record {
  kind = FileType.fd_none;
  ref = 0;
  readable = false;
  writable = false;
  pipe = none;
  ip = none;
  off = 0;
}

abbrev pub machine : (ℕ → Proc) → Kernel (Unit {0})
machine procs = record {
  procs = procs;
  next_pid = 4;
  init_proc = some 0;
  files = λ f. no_file;
  free_pages = 0x8030_0000 ∷ 0x8031_0000 ∷ 0x8032_0000 ∷ [];
  kernel_end = 0x8011_0000;
  pipes = λ a. none;
  env = tt;
}

-- The state that a run ends in.
abbrev pub state_of :
    {A : Type 0} → Kernel (Unit {0}) → Outcome (A × Kernel (Unit {0})) → Kernel (Unit {0})
state_of default (ok (r, k)) = k
state_of default (Outcome.panic s) = default

abbrev pub kernel_of :
    {A : Type 0} → Kernel (Unit {0}) → Outcome (Kernel (Unit {0}) × A) → Kernel (Unit {0})
kernel_of default (ok (k, r)) = k
kernel_of default (Outcome.panic s) = default

abbrev pub left_by : Kernel (Unit {0}) → Outcome (Kernel (Unit {0})) → Kernel (Unit {0})
left_by default (ok k) = k
left_by default (Outcome.panic s) = default

abbrev pub busy : Kernel (Unit {0})
busy = machine (table init shell command)
