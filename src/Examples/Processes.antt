-- ===== src/Examples/Processes.antt =====
-- The theorems on processes at a small machine.
use xv6_system_calls.Prelude.{
  ℕ, ◌≡◌, refl, true, none, some, arith, ok, pos, Progress, int_of, first, ◌>>=◌, [], ◌∷◌, zero,
  suc,
}
use xv6_system_calls.Kernel.{Kernel, ProcState}
use xv6_system_calls.Process.{fork, allocproc}
use xv6_system_calls.Process.Fork.{IsChild, fork-IsChild, fork-minus_one}
use xv6_system_calls.Process.Reap.{exit, wait, time, kill, zombie_child_of}
use xv6_system_calls.Process.Exit.{exit-orphans, exit-wakes_parent}
use xv6_system_calls.Process.Wait.{
  IsReaped, IsReapable, wait-IsReaped, time-wait, forget_times, fork-kill_zero,
}
use xv6_system_calls.Kalloc.{kalloc, kfree, kfree_ptr}
use xv6_system_calls.File.{filedup, put_inode}
use xv6_system_calls.Wakeup.{wakeup}
use xv6_system_calls.Strings.{safestrcpy}
use xv6_system_calls.Process.{dup_files}
use xv6_system_calls.Process.Reap.{
  close_files, close_file, become_zombie, pass_children, pass_child,
}
use xv6_system_calls.Examples.Machine.{
  busy, state_of, left_by, lower, machine, table, init, shell, command,
}

fork-IsChild_example :
    (np : ℕ) × (IsChild 1 np busy (state_of busy (fork lower 1 busy)) × (pos 4 ≡ int_of 4))
unfolding fork allocproc kalloc dup_files filedup safestrcpy int_of first
fork-IsChild_example = fork-IsChild lower 1 busy (state_of busy (fork lower 1 busy)) 4 refl refl

-- A machine with one free page: the child has a stack, and no page table.
abbrev short : Kernel (Unit {0})
short = record busy { free_pages = 0x8030_0000 ∷ [] }

fork-minus_one_example : ((state_of short (fork lower 1 short)).procs 3).state ≡ ProcState.unused
unfolding fork allocproc kalloc kfree_ptr kfree first
fork-minus_one_example =
    fork-minus_one lower 1 short (state_of short (fork lower 1 short)) 3 refl (omega arith) refl

exit-orphans_example :
    let k' = left_by busy (exit lower 1 busy) in
    ((k'.procs 1).state ≡ ProcState.zombie)
    × ((k'.procs 1).ofile 0 ≡ none)
    × ((k'.procs 2).parent ≡ some 0)
unfolding exit close_files close_file put_inode become_zombie pass_children pass_child wakeup
exit-orphans_example =
    exit-orphans lower 1 busy (left_by busy (exit lower 1 busy)) refl 2 0 (omega arith)
      (omega arith)

exit-wakes_parent_example : ((left_by busy (exit lower 1 busy)).procs 0).state ≡ ProcState.runnable
unfolding exit close_files close_file put_inode become_zombie pass_children pass_child wakeup
exit-wakes_parent_example =
    exit-wakes_parent lower 1 busy (left_by busy (exit lower 1 busy)) refl 0
      (λ e. absurd (omega arith)) refl refl refl

-- The shell waits for the command, which has exited.
abbrev waiting : Kernel (Unit {0})
waiting = machine (table init shell (record command { state = ProcState.zombie }))

command-IsReapable : IsReapable lower waiting 2
command-IsReapable = record {
  page = 0x8020_0000;
  stack = refl;
  is_page = omega arith;
  pages = 0x8020_0000 ∷ waiting.free_pages;
  env = tt;
  frees = refl;
}

zombie-IsReapable : (i : ℕ) → zombie_child_of waiting 1 i ≡ true → IsReapable lower waiting i
zombie-IsReapable zero h = cc
zombie-IsReapable (suc zero) h = cc
zombie-IsReapable (suc (suc zero)) h = command-IsReapable
zombie-IsReapable (suc (suc (suc i))) h = cc

wait-IsReaped_example :
    (i : ℕ) × (k' : Kernel (Unit {0})) × (zombie_child_of waiting 1 i ≡ true)
    × (wait lower 1 waiting ≡ ok (k', Progress.returned (int_of (waiting.procs i).pid)))
    × IsReaped i waiting k'
wait-IsReaped_example = wait-IsReaped lower 1 waiting 2 (omega arith) refl zombie-IsReapable

time-wait_example :
    (do (k', p) ← time lower 1 waiting; ok (k', forget_times p)) ≡ wait lower 1 waiting
time-wait_example = time-wait lower 1 waiting

fork-kill_zero_example :
    let k' = state_of busy (fork lower 1 (kill 0 busy).1) in
    ((kill 0 busy).0 ≡ pos 0)
    × ((k'.procs 3).killed ≡ true)
    × ((k'.procs 3).state ≡ ProcState.runnable)
unfolding kill fork allocproc kalloc dup_files filedup safestrcpy int_of first
fork-kill_zero_example =
    fork-kill_zero lower 1 3 4 busy (state_of busy (fork lower 1 (kill 0 busy).1)) refl refl refl
      refl
