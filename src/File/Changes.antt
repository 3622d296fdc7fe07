-- ===== src/File/Changes.antt =====
-- What the functions of file.c, and what they call in pipe.c, leave alone.
use xv6_system_calls.Prelude.{
  ◌⊎◌, inl, inr, ap, ◌∙◌, Bool-cases, ℕ, ◌+◌, ◌-◌, ◌<◌, ◌≡◌, Bool, true, false, Option, none, some,
  arith, ◌==◌, ltb, if◌then◌else◌, ok,
}
use xv6_system_calls.Kernel.{Kernel, Lower, set_file, FileType, OpenFile, Chan}
use xv6_system_calls.Kalloc.{kfree}
use xv6_system_calls.Wakeup.{wakeup}
use xv6_system_calls.Pipe.{pipeclose}
use xv6_system_calls.File.{filedup, fileclose, close_pipe, put_inode, close_object}

-- Nobody's descriptors or parent change, nor does anything of a process that waits for a child.
pub record Calm {E : Type 0} (k k' : Kernel E) : Type 0 where
  pub ofile : (i : ℕ) → (k'.procs i).ofile ≡ (k.procs i).ofile
  pub parent : (i : ℕ) → (k'.procs i).parent ≡ (k.procs i).parent
  pub waiter : (i x : ℕ) → (k.procs i).chan ≡ Chan.proc_chan x → k'.procs i ≡ k.procs i
  pub init_proc : k'.init_proc ≡ k.init_proc

-- The file table stays the same too.
pub record SameFiles {E : Type 0} (k k' : Kernel E) : Type 0 where
  pub files : k'.files ≡ k.files
  pub calm : Calm k k'

module _ {E : Type 0} where
  pipeclose-SameFiles :
      (a : ℕ) (writable : Bool) (k k' : Kernel E) → pipeclose a writable k ≡ ok k' → SameFiles k k'
  unfolding pipeclose wakeup kfree
  pipeclose-SameFiles a true k k' h = record {
    files = ground arith;
    calm = record {
      ofile = λ i. ground arith;
      parent = λ i. ground arith;
      waiter = λ i x on. ground arith;
      init_proc = ground arith;
    };
  }
  pipeclose-SameFiles a false k k' h = record {
    files = ground arith;
    calm = record {
      ofile = λ i. ground arith;
      parent = λ i. ground arith;
      waiter = λ i x on. ground arith;
      init_proc = ground arith;
    };
  }

  module _ (lower : Lower E) where
    pub put_inode-SameFiles :
        (ip : Option ℕ) (k k' : Kernel E) → put_inode lower ip k ≡ ok k' → SameFiles k k'
    unfolding put_inode
    put_inode-SameFiles ip k k' h = record {
      files = ground arith;
      calm = record {
        ofile = λ i. ground arith;
        parent = λ i. ground arith;
        waiter = λ i x on. ground arith;
        init_proc = ground arith;
      };
    }

    close_pipe-SameFiles :
        (p : Option ℕ) (writable : Bool) (k k' : Kernel E)
        → close_pipe p writable k ≡ ok k'
        → SameFiles k k'
    unfolding close_pipe
    close_pipe-SameFiles none writable k k' h = absurd (ground arith)
    close_pipe-SameFiles (some a) writable k k' h = pipeclose-SameFiles a writable k k' h

    close_object-SameFiles :
        (ff : OpenFile) (kind : FileType) (k k' : Kernel E)
        → close_object lower ff kind k ≡ ok k'
        → SameFiles k k'
    unfolding close_object
    close_object-SameFiles ff FileType.fd_none k k' h = record {
      files = ground arith;
      calm = record {
        ofile = λ i. ground arith;
        parent = λ i. ground arith;
        waiter = λ i x on. ground arith;
        init_proc = ground arith;
      };
    }
    close_object-SameFiles ff FileType.fd_pipe k k' h =
        close_pipe-SameFiles ff.pipe ff.writable k k' h
    close_object-SameFiles ff FileType.fd_inode k k' h = put_inode-SameFiles ff.ip k k' h

    -- The table after a close that drops the last reference.
    abbrev last_closed : ℕ → Kernel E → Kernel E
    last_closed f k = set_file k f (record (k.files f) { ref = 0; kind = FileType.fd_none })

    fileclose-cases :
        (f : ℕ) (k k' : Kernel E)
        → fileclose lower f k ≡ ok k'
        → (0 < (k.files f).ref)
          × ((k' ≡ set_file k f (record (k.files f) { ref = (k.files f).ref - 1 }))
              ⊎ ((k.files f).ref ≡ 1) × SameFiles (last_closed f k) k')
    unfolding fileclose
    fileclose-cases f k k' h = elim (Bool-cases (ltb (k.files f).ref 1)) [
      | inl none_left ↦ absurd (ground arith)
      | inr held ↦ elim (Bool-cases (ltb 0 ((k.files f).ref - 1))) [
        | inl more ↦ (ground arith, inl (ground arith))
        | inr last ↦ (
          ground arith,
          inr (
            ground arith,
            close_object-SameFiles (k.files f) (k.files f).kind (last_closed f k) k'
                (rw (held, last) at h),
          ),
        )
      ]
    ]

    -- `fileclose` drops one reference of its file, and changes no other file's references and
    -- nobody's descriptors.
    pub fileclose-ref :
        (f g : ℕ) (k k' : Kernel E)
        → fileclose lower f k ≡ ok k'
        → (0 < (k.files f).ref)
          × ((k'.files g).ref ≡ (if g == f then (k.files f).ref - 1 else (k.files g).ref))
    fileclose-ref f g k k' h =
        let (held, cases) = fileclose-cases f k k' h in
        elim cases [
          | inl e ↦ (held, ground arith)
          | inr (last, same) ↦
              (held, ap (λ (t : ℕ → OpenFile). (t g).ref) same.files ∙ ground arith)
        ]

    pub fileclose-Calm : (f : ℕ) (k k' : Kernel E) → fileclose lower f k ≡ ok k' → Calm k k'
    fileclose-Calm f k k' h =
        let (held, cases) = fileclose-cases f k k' h in
        elim cases [
          | inl e ↦ record {
            ofile = λ i. ground arith;
            parent = λ i. ground arith;
            waiter = λ i x on. ground arith;
            init_proc = ground arith;
          }
          | inr (last, same) ↦ record {
            ofile = same.calm.ofile;
            parent = same.calm.parent;
            waiter = same.calm.waiter;
            init_proc = same.calm.init_proc;
          }
        ]

    pub fileclose-ofile :
        (f i : ℕ) (k k' : Kernel E)
        → fileclose lower f k ≡ ok k'
        → (k'.procs i).ofile ≡ (k.procs i).ofile
    fileclose-ofile f i k k' h = (fileclose-Calm f k k' h).ofile i

  pub filedup-ref :
      (f g : ℕ) (k k' : Kernel E)
      → filedup f k ≡ ok k'
      → (0 < (k.files f).ref)
        × ((k'.files g).ref ≡ (if g == f then (k.files f).ref + 1 else (k.files g).ref))
        × (k'.procs ≡ k.procs)
        × (k'.next_pid ≡ k.next_pid)
  unfolding filedup
  filedup-ref f g k k' h = ground arith
