-- ===== src/Pipe/Calls.antt =====
-- `pipewrite` and `piperead` of pipe.c on the whole kernel: data that goes through a pipe, and
-- the wake-ups between the two ends.
use mathlib.Core.List.{append-nil}
use xv6_system_calls.Prelude.{
  Progress, sym, ◌∙◌, ap, ℕ, suc, ◌+◌, ◌≤◌, ◌≡◌, refl, ◌≢◌, some, List, [], ◌∷◌, ◌++◌, arith,
  length, take, pos, ok,
}
use xv6_system_calls.Kernel.{Kernel, PipeBuf, ProcState, Chan}
use xv6_system_calls.Wakeup.{wakeup, fall_asleep, wake}
use xv6_system_calls.Pipe.{pipesize, set_pipe, put_bytes, get_bytes, pipewrite, piperead, after_put}
use xv6_system_calls.Pipe.Buffer.{
  fill, contents, IsPipe, put_bytes-queue, get_bytes-queue, put_bytes-all, contents→more,
  full→contents,
}

append_ne_nil : (xs : List ℕ) (y : ℕ) (ys : List ℕ) → xs ++ y ∷ ys ≢ []
append_ne_nil [] y ys e = cc
append_ne_nil (x ∷ xs) y ys e = cc

nonempty : (l : List ℕ) → l ≢ [] → (x : ℕ) × (xs : List ℕ) × (l ≡ x ∷ xs)
nonempty [] ne = absurd (ne refl)
nonempty (x ∷ xs) ne = (x, xs, refl)

abbrev read_from : {E : Type 0} → Kernel E → ℕ → PipeBuf → ℕ → Kernel E
read_from k a p n = wakeup (Chan.nwrite_chan a) (set_pipe k a (get_bytes p n).0)

abbrev written_to : {E : Type 0} → Kernel E → ℕ → PipeBuf → List ℕ → Kernel E
written_to k a p src = wakeup (Chan.nread_chan a) (set_pipe k a (put_bytes p src).0)

piperead-take :
    {E : Type 0} (k : Kernel E) (a : ℕ) (p : PipeBuf) (cur n : ℕ)
    → k.pipes a ≡ some p
    → IsPipe p
    → contents p ≢ []
    → piperead cur a n k ≡ ok (read_from k a p n, Progress.returned (some (take n (contents p))))
unfolding piperead
piperead-take k a p cur n here is more =
    let go = contents→more p is more in
    let (is', got, left) = get_bytes-queue p n is in rw (here, go, got)

module _ {E : Type 0} (k : Kernel E) (a : ℕ) (p : PipeBuf) (here : k.pipes a ≡ some p)
    (is : IsPipe p) where
  pipewrite-all :
      (cur n : ℕ) (src : List ℕ)
      → fill p + length src ≤ pipesize
      → pipewrite cur a n src k ≡ ok (written_to k a p src, Progress.returned (pos n))
  unfolding pipewrite
  pipewrite-all cur n src fits = rw (here, put_bytes-all p src is fits)

  -- Bytes that fit behind those in a well-formed pipe, at least one, are all written, and a later
  -- read returns the oldest bytes: first those that were there, then the new ones.
  pub piperead-pipewrite :
      (cur reader n m b : ℕ) (bs : List ℕ)
      → fill p + length (b ∷ bs) ≤ pipesize
      → (k' : Kernel E) × (k'' : Kernel E) × (pipewrite cur a n (b ∷ bs) k
          ≡ ok (k', Progress.returned (pos n)))
        × (piperead reader a m k'
            ≡ ok (k'', Progress.returned (some (take m (contents p ++ b ∷ bs)))))
  unfolding wakeup
  piperead-pipewrite cur reader n m b bs fits =
      let q : PipeBuf = (put_bytes p (b ∷ bs)).0 in
      let k' = written_to k a p (b ∷ bs) in
      let (is', kept, stop) = put_bytes-queue p (b ∷ bs) is in
      let all : contents q ≡ contents p ++ b ∷ bs =
        sym (append-nil (contents q))
        ∙ ap (λ t. contents q ++ t) (sym (put_bytes-all p (b ∷ bs) is fits))
        ∙ kept in
      (
        k',
        read_from k' a q m,
        pipewrite-all cur n (b ∷ bs) fits,
        piperead-take k' a q reader m (ground arith) is' (rw all (append_ne_nil (contents p) b bs))
            ∙ ap (λ t. ok (read_from k' a q m, Progress.returned (some (take m t)))) all,
      )

  pipewrite-asleep :
      (cur n : ℕ) (src rest : List ℕ) (k' : Kernel E)
      → pipewrite cur a n src k ≡ ok (k', Progress.asleep rest)
      → ((put_bytes p src).1 ≡ rest)
        × (rest ≢ [])
        × (k' ≡ fall_asleep cur (Chan.nwrite_chan a) (written_to k a p src))
  unfolding pipewrite
  pipewrite-asleep cur n src rest k' run = go (put_bytes p src).1 refl (rw here at run)
    where
      go :
          (l : List ℕ)
          → (put_bytes p src).1 ≡ l
          → ok (after_put cur a n (put_bytes p src).0 (put_bytes p src).1 k)
            ≡ ok (k', Progress.asleep rest)
          → ((put_bytes p src).1 ≡ rest)
            × (rest ≢ [])
            × (k' ≡ fall_asleep cur (Chan.nwrite_chan a) (written_to k a p src))
      go [] e h = absurd (ground arith)
      go (b ∷ bs) e h = ground arith

  -- A writer that goes to sleep on a well-formed pipe sleeps on the pipe's write counter, with
  -- bytes left, after it has woken the readers that slept, and each other process `i` is otherwise
  -- as it was. The pipe is then full: the next read of at least one byte returns bytes, and makes
  -- the writer runnable again.
  pub pipewrite_woken :
      (cur reader n m i : ℕ) (src rest : List ℕ) (k' : Kernel E)
      → i ≢ cur
      → pipewrite cur a n src k ≡ ok (k', Progress.asleep rest)
      → ((k'.procs cur).state ≡ ProcState.sleeping)
        × ((k'.procs cur).chan ≡ Chan.nwrite_chan a)
        × (rest ≢ [])
        × ((q : PipeBuf) × (k'.pipes a ≡ some q) × (fill q ≡ pipesize))
        × (k'.procs i ≡ wake (Chan.nread_chan a) (k.procs i))
        × ((k'' : Kernel E) × (got : ℕ) × (more : List ℕ) × (piperead reader a (suc m) k'
              ≡ ok (k'', Progress.returned (some (got ∷ more))))
            × ((k''.procs cur).state ≡ ProcState.runnable))
  unfolding pipewrite wakeup fall_asleep
  pipewrite_woken cur reader n m i src rest k' other run =
      let (left, ne, same) = pipewrite-asleep cur n src rest k' run in
      let q : PipeBuf = (put_bytes p src).0 in
      let k1 : Kernel E = fall_asleep cur (Chan.nwrite_chan a) (written_to k a p src) in
      let (is', kept, stop) = put_bytes-queue p src is in
      let full : fill q ≡ pipesize = ground arith in
      let (c, cs, some_left) = nonempty (contents q) (full→contents q full) in
      let read = piperead-take k1 a q reader (suc m) (ground arith) is' (full→contents q full) in
      rw same (
        ground arith,
        ground arith,
        ne,
        (q, ground arith, full),
        ground arith,
        (
          read_from k1 a q (suc m),
          c,
          take m cs,
          read
              ∙ ap (λ t. ok (read_from k1 a q (suc m), Progress.returned (some (take (suc m) t))))
                  some_left,
          ground arith,
        ),
      )
