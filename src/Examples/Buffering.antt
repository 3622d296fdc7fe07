-- ===== src/Examples/Buffering.antt =====
-- The theorem on the buffer cache at a cache of two buffers.
use xv6_system_calls.Prelude.{
  ℕ, zero, suc, ◌≡◌, ◌≢◌, refl, true, false, [], ◌∷◌, arith, if◌then◌else◌, ◌==◌, update,
}
use xv6_system_calls.Locks.{initsleeplock}
use xv6_system_calls.Cache.{Buf, Cache, bget, find, find_last, caches, get_cached, recycle}
use xv6_system_calls.Cache.Unique.{IsUnique, listed, bget-IsUnique}

abbrev buffer : ℕ → Buf ℕ
buffer i = record {
  valid = true;
  dirty = i == 0;
  dev = 1;
  blockno = if i == 0 then 20 else 30;
  lock = initsleeplock;
  refcnt = 0;
  bytes = 0;
}

abbrev two_buffers : Cache ℕ
two_buffers = record { buf = buffer; order = 0 ∷ 1 ∷ [] }

two_buffers-IsUnique : IsUnique two_buffers
unfolding listed
two_buffers-IsUnique zero zero hi hj used d n = refl
two_buffers-IsUnique zero (suc zero) hi hj used d n = absurd (omega (arith, n))
two_buffers-IsUnique (suc zero) zero hi hj used d n = absurd (omega (arith, n))
two_buffers-IsUnique (suc zero) (suc zero) hi hj used d n = refl
two_buffers-IsUnique (suc (suc i)) j hi hj used d n = absurd (ground arith)
two_buffers-IsUnique zero (suc (suc j)) hi hj used d n = absurd (ground arith)
two_buffers-IsUnique (suc zero) (suc (suc j)) hi hj used d n = absurd (ground arith)

abbrev recycled : Cache ℕ
recycled = record two_buffers {
  buf =
      update buffer 1
        (record (buffer 1) { blockno = 40; valid = false; dirty = false; refcnt = 1 });
}

bget-IsUnique_example :
    IsUnique recycled
    × (caches recycled 1 40 1 ≡ true)
    × ((recycled.buf 1).refcnt ≢ 0)
    × (recycled.order ≡ two_buffers.order)
unfolding bget get_cached recycle find find_last
bget-IsUnique_example =
    bget-IsUnique two_buffers two_buffers-IsUnique recycled 1 40 1 (λ x. omega arith) refl
