-- ===== src/Pipe.antt =====
-- pipe.c. A pipe lives in a page. `pipewrite` and `piperead` run until they return or sleep; a
-- call that slept goes on with what it has left, by the same function, from the test of the inner
-- loop on.
use xv6_system_calls.Prelude.{
  Progress, ℕ, zero, suc, ◌+◌, ◌%◌, Bool, true, false, ◌&&◌, ◌||◌, not, Option, none, some, List,
  [], ◌∷◌, ◌==◌, if◌then◌else◌, update, u32_mod, ℤ, pos, minus_one, Outcome, ok, panic, ◌>>=◌,
}
use xv6_system_calls.Kernel.{Kernel, PipeBuf, Chan, Proc}
use xv6_system_calls.Kalloc.{kalloc, kfree}
use xv6_system_calls.Wakeup.{wakeup, fall_asleep}
pub mod Buffer
pub mod Calls

abbrev pub pipesize : ℕ
pipesize = 512

abbrev pub pipe_full : PipeBuf → Bool
pipe_full p = p.nwrite == (p.nread + pipesize) % u32_mod

abbrev pub pipe_empty : PipeBuf → Bool
pipe_empty p = p.nread == p.nwrite

-- `p->data[p->nwrite++ % PIPESIZE] = b`
abbrev pub put_byte : PipeBuf → ℕ → PipeBuf
put_byte p b = record p {
  bytes = update p.bytes (p.nwrite % pipesize) b;
  nwrite = (p.nwrite + 1) % u32_mod;
}

-- The counter's step in `addr[i] = p->data[p->nread++ % PIPESIZE]`.
abbrev pub drop_byte : PipeBuf → PipeBuf
drop_byte p = record p { nread = (p.nread + 1) % u32_mod }

-- The copying loop of `pipewrite`: it stops where the pipe is full, with the bytes left.
unfoldable pub put_bytes : PipeBuf → List ℕ → PipeBuf × List ℕ
put_bytes p [] = (p, [])
put_bytes p (b ∷ bs) =
    let rest = put_bytes (put_byte p b) bs in if pipe_full p then (p, b ∷ bs) else rest

-- The copying loop of `piperead`, for at most `n` bytes.
unfoldable pub get_bytes : PipeBuf → ℕ → PipeBuf × List ℕ
get_bytes p zero = (p, [])
get_bytes p (suc n) =
    let b = p.bytes (p.nread % pipesize) in
    let rest = get_bytes (drop_byte p) n in if pipe_empty p then (p, []) else (rest.0, b ∷ rest.1)

-- `pipealloc` without the two `filealloc`: the buffer in its initial state.
abbrev pub new_pipe : (ℕ → ℕ) → PipeBuf
new_pipe junk = record { bytes = junk; nread = 0; nwrite = 0; readopen = true; writeopen = true }

-- The pipe at an address. The source reads whatever stands there: a fault here, which no pointer
-- in the file table leads to.
abbrev pub with_pipe {ℓ} : {A : Type ℓ} → Option PipeBuf → (PipeBuf → Outcome A) → Outcome A
with_pipe none f = panic "no pipe at this address"
with_pipe (some p) f = f p

module _ {E : Type 0} where
  abbrev pub set_pipe : Kernel E → ℕ → PipeBuf → Kernel E
  set_pipe k a p = record k { pipes = update k.pipes a (some p) }

  close_end : Bool → ℕ → PipeBuf → Kernel E → Kernel E
  close_end true a p k = wakeup (Chan.nread_chan a) (set_pipe k a (record p { writeopen = false }))
  close_end false a p k = wakeup (Chan.nwrite_chan a) (set_pipe k a (record p { readopen = false }))

  free_if_closed : ℕ → Bool → Bool → Kernel E → Outcome (Kernel E)
  free_if_closed a false false k = kfree a k
  free_if_closed a _ _ k = ok k

  unfoldable pub pipeclose : ℕ → Bool → Kernel E → Outcome (Kernel E)
  unfolding close_end free_if_closed
  pipeclose a writable k = with_pipe (k.pipes a) λ p.
      free_if_closed a (not writable && p.readopen) (writable && p.writeopen)
        (close_end writable a p k)

  unfoldable pub after_put :
      ℕ → ℕ → ℕ → PipeBuf → List ℕ → Kernel E → Kernel E × Progress ℤ (List ℕ)
  after_put cur a n p [] k =
      (wakeup (Chan.nread_chan a) (set_pipe k a p), Progress.returned (pos n))
  after_put cur a n p (b ∷ bs) k =
      if not p.readopen || (k.procs cur).killed
      then (set_pipe k a p, Progress.returned minus_one)
      else (
        fall_asleep cur (Chan.nwrite_chan a) (wakeup (Chan.nread_chan a) (set_pipe k a p)),
        Progress.asleep (b ∷ bs),
      )

  -- `pipewrite(p, addr, n)` with the bytes of `addr` that are still to be written.
  unfoldable pub pipewrite :
      ℕ → ℕ → ℕ → List ℕ → Kernel E → Outcome (Kernel E × Progress ℤ (List ℕ))
  unfolding after_put
  pipewrite cur a n src k =
      with_pipe (k.pipes a) λ p. let r = put_bytes p src in ok (after_put cur a n r.0 r.1 k)

  -- `piperead(p, addr, n)`: the bytes that it copies to `addr`, whose number it returns; `none`
  -- stands for the return of -1.
  unfoldable pub piperead : ℕ → ℕ → ℕ → Kernel E → Outcome (Kernel E × Progress (Option (List ℕ)) ℕ)
  piperead cur a n k = with_pipe (k.pipes a) λ p.
      if pipe_empty p && p.writeopen
      then (if (k.procs cur).killed
          then ok (k, Progress.returned none)
          else ok (fall_asleep cur (Chan.nread_chan a) k, Progress.asleep n))
      else (let r = get_bytes p n in
          ok (wakeup (Chan.nwrite_chan a) (set_pipe k a r.0), Progress.returned (some r.1)))
