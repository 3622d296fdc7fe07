-- ===== src/Examples/Paths.antt =====
-- A root directory with a file "b", which is unlinked.
use xv6_system_calls.Prelude.{
  ◌≡◌, ◌≢◌, sym, ◌∙◌, inl, inr, Bool-cases, ==→eq, true, false, arith, ℕ, refl, some, [], ◌∷◌, ◌==◌,
  ltb, if◌then◌else◌, update, first, Outcome, ok, panic,
}
use xv6_system_calls.Fs.{Fs, Dinode, t_dir, ndirect}
use xv6_system_calls.Fs.Blocks.{block_of}
use xv6_system_calls.Fs.Bytes.{IsFile}
use xv6_system_calls.Fs.Entries.{entry_at, IsNamed, looked_up, dirlookup-first}
use xv6_system_calls.Fs.Inode.{
  iget, iget_empty, ilock, iunlock, iput, iunlockput, acquire_inode, read_inode, free_inode, bmap,
  map_slot, iupdate,
}
use xv6_system_calls.Fs.Content.{bytes_from, readi_file, writei_file, read_loop, write_loop, grow}
use xv6_system_calls.Fs.Directory.{
  same_name, check_entry, read_entry, find_entry, found_entry, dirlookup, check_write, write_entry,
}
use xv6_system_calls.Fs.Path.{
  skipelem, skip_name, skip_slashes, element, after_element, set_name, give_up, enter, walk_element,
  end_walk, walk_path, namex,
}
use xv6_system_calls.Fs.Calls.{
  sys_unlink, unlink_parent, unlink_found, remove_entry, may_unlink, put_failed,
}
use xv6_system_calls.Fs.After.{Holding}
use xv6_system_calls.Fs.Discipline.{PathCall, path_call, path_call-Holding}
use xv6_system_calls.Strings.{strncmp}
use xv6_system_calls.Examples.Filing.{disk, no_file}

abbrev root : Dinode
root = record no_file { kind = t_dir; nlink = 1; size = 16; addrs = update (λ s. 0) 0 61 }

-- The entry of "b".
abbrev entry_b : ℕ → ℕ
entry_b o = if o == 0 then 5 else if o == 2 then 98 else 0

abbrev tree : Fs
tree = record disk {
  used = λ b. ltb b 62;
  dinode = update disk.dinode 1 root;
  block = update disk.block 61 entry_b;
}

abbrev unlinked : PathCall
unlinked = PathCall.unlink (some (47 ∷ 98 ∷ []))

abbrev fs_of : Outcome Fs → Fs
fs_of (ok fs) = fs
fs_of (panic s) = tree

path_call-Holding_example :
    Holding 1 (λ x. (tree.inode x).locked) (fs_of (path_call 0 (λ k. 7) unlinked tree))
unfolding sys_unlink unlink_parent unlink_found remove_entry may_unlink put_failed namex walk_path
    walk_element end_walk enter give_up skipelem skip_name skip_slashes element after_element
    set_name dirlookup found_entry find_entry read_entry check_entry same_name write_entry
    check_write readi_file writei_file read_loop write_loop grow bytes_from iget iget_empty ilock
    iunlock iput iunlockput acquire_inode read_inode free_inode bmap map_slot iupdate first strncmp
path_call-Holding_example =
    path_call-Holding 0 (λ k. 7) unlinked tree (fs_of (path_call 0 (λ k. 7) unlinked tree)) refl

-- The root directory in entry 0 of the cache.
abbrev open_tree : Fs
open_tree = record tree {
  inode =
      update tree.inode 0
        (record { dev = 1; inum = 1; ref = 1; locked = true; valid = true; copy = root });
}

root-part : (bn : ℕ) → block_of open_tree 0 bn ≡ (if bn == 0 then 61 else 0)
root-part bn = elim (Bool-cases (ltb bn ndirect)) [
  | inl e ↦ rw e refl
  | inr e ↦ let other : (bn == 0) ≡ false = ground arith in rw (e, other) refl
]

root-first : (bn : ℕ) → block_of open_tree 0 bn ≢ 0 → bn ≡ 0
root-first bn ne = elim (Bool-cases (bn == 0)) [
  | inl e ↦ ==→eq bn 0 e
  | inr e ↦ absurd (ne (root-part bn ∙ rw e refl))
]

root-IsFile : IsFile open_tree 0
root-IsFile = record {
  mapped = record {
    boot = refl;
    words = omega arith;
    taken = λ bn lt ne. rw (root-first bn ne) refl;
    indirect_taken = λ ne. absurd (ne refl);
    apart = λ bn bn' lt lt' ne e. root-first bn ne ∙ sym (root-first bn' (λ z. ne (e ∙ z)));
    indirect_apart = λ bn lt ne e. ne e;
  };
  fits = omega arith;
  no_hole = λ bn lt. let start : bn ≡ 0 = omega arith in rw start (λ z. ground (arith, z));
}

-- "b" again
abbrev name_b : ℕ → ℕ
name_b k = if k == 0 then 98 else 0

name_b-IsNamed : IsNamed name_b (entry_at open_tree 0 0)
unfolding strncmp bytes_from
name_b-IsNamed = ((λ e. absurd (omega (arith, e))), refl)

dirlookup-first_example : dirlookup 0 name_b open_tree ≡ looked_up 0 (some 0) open_tree
dirlookup-first_example =
    dirlookup-first 0 1 name_b (some 0) open_tree root-IsFile refl refl
      (omega arith, name_b-IsNamed, (λ m lt. absurd (omega (arith, lt))))
