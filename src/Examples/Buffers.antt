-- ===== src/Examples/Buffers.antt =====
-- The theorems on pipes at a small machine. The pipe holds three bytes,
-- and its write counter has wrapped around.
use xv6_system_calls.Prelude.{
  ℕ, ◌≡◌, ◌≢◌, refl, true, some, List, [], ◌∷◌, ◌++◌, arith, ok, pos, Progress, take, update,
}
use xv6_system_calls.Kernel.{Kernel, PipeBuf, Chan, ProcState}
use xv6_system_calls.Wakeup.{wake}
use xv6_system_calls.Pipe.{put_bytes, pipewrite, piperead, after_put, pipesize}
use xv6_system_calls.Pipe.Buffer.{IsPipe, contents, fill}
use xv6_system_calls.Pipe.Calls.{piperead-pipewrite, pipewrite_woken}
use xv6_system_calls.Examples.Machine.{busy, kernel_of}

abbrev address : ℕ
address = 0x8020_0000

abbrev wrapped : PipeBuf
wrapped = record {
  bytes = λ i. i;
  nread = 0xFFFF_FFFE;
  nwrite = 1;
  readopen = true;
  writeopen = true;
}

wrapped-IsPipe : IsPipe wrapped
wrapped-IsPipe = record {
  nread_word = omega arith;
  nwrite_word = omega arith;
  bounded = omega arith;
}

abbrev piped : Kernel (Unit {0})
piped = record busy { pipes = update busy.pipes address (some wrapped) }

piperead-pipewrite_example :
    (k' : Kernel (Unit {0})) × (k'' : Kernel (Unit {0})) × (pipewrite 1 address 2 (7 ∷ 8 ∷ []) piped
      ≡ ok (k', Progress.returned (pos 2)))
    × (piperead 2 address 4 k'
        ≡ ok (k'', Progress.returned (some (take 4 (contents wrapped ++ 7 ∷ 8 ∷ [])))))
piperead-pipewrite_example =
    piperead-pipewrite piped address wrapped refl wrapped-IsPipe 1 2 2 4 7 (8 ∷ []) (omega arith)

-- A pipe that is full, so that a writer goes to sleep at once.
abbrev filled : PipeBuf
filled = record wrapped { nwrite = 510 }

filled-IsPipe : IsPipe filled
filled-IsPipe = record {
  nread_word = omega arith;
  nwrite_word = omega arith;
  bounded = omega arith;
}

abbrev one_byte : List ℕ
one_byte = 7 ∷ []

abbrev stuck : Kernel (Unit {0})
stuck = record busy { pipes = update busy.pipes address (some filled) }

pipewrite_woken_example :
    let k' = kernel_of stuck (pipewrite 1 address 1 one_byte stuck) in
    ((k'.procs 1).state ≡ ProcState.sleeping)
    × ((k'.procs 1).chan ≡ Chan.nwrite_chan address)
    × (one_byte ≢ [])
    × ((q : PipeBuf) × (k'.pipes address ≡ some q) × (fill q ≡ pipesize))
    × (k'.procs 2 ≡ wake (Chan.nread_chan address) (stuck.procs 2))
    × ((k'' : Kernel (Unit {0})) × (got : ℕ) × (more : List ℕ) × (piperead 2 address 1 k'
          ≡ ok (k'', Progress.returned (some (got ∷ more))))
        × ((k''.procs 1).state ≡ ProcState.runnable))
unfolding pipewrite put_bytes after_put
pipewrite_woken_example =
    pipewrite_woken stuck address filled refl filled-IsPipe 1 2 1 0 2 one_byte one_byte
      (kernel_of stuck (pipewrite 1 address 1 one_byte stuck)) (λ e. absurd (omega arith)) refl
