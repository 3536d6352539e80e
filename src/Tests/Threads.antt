-- ===== src/Tests/Threads.antt =====
-- Two threads that look up the same directory at the same time.
use libudfread.Common.{
  inl, ℕ, ◌≡◌, ◌≢◌, ◌≤◌, refl, arith, ◌==◌, if◌then◌else◌, List, [], ◌∷◌, some, none, true, false,
  All, subst,
}
use libudfread.Memory.{
  Mem, Returns, done, fault, running, ◌>>=◌, store, memcpy, get_u8, get_u16, get_u32, get_u64,
}
use libudfread.Ecma.{decode_descriptor_tag, add_bytes}
use libudfread.FileEntry.{
  decode_file_entry, decode_sized_entry, decode_entry, decode_icb_tag, decode_content, make_entry,
}
use libudfread.Input.{blocks}
use libudfread.Volume.{read_block, read_descriptor_block}
use libudfread.Partition.{no_part}
use libudfread.Fs.{
  UdfFs, partition_index, read_first, or_mirror, read_following, read_rest, with_rest,
  read_metadata_blocks, read_metadata, udf_read_file_entry, entry_of, complete_entry,
}
use libudfread.Fs.Dir.{DirEntry, udf_read_dir, read_dir_content, parse_dir_file, is_empty_name}
use libudfread.Fs.Listing.{IsListed}
use libudfread.Directory.{file_at}
use libudfread.Tree.{root_dir, set_cell, with_array, set_pointer}
use libudfread.Tree.Reading.{IsSubdir}
use libudfread.Sharing.{
  World, Thread, at_flag, returned, deref, slot_of, file_of, exchange_array, add_cell, after_read,
  set_slot, free_cell, exchange_slot, act, System, set_thread, acts, calls, start, Run, here, later,
}
use libudfread.Tree.{DirTree, publish, pointer_in, root_only}
use libudfread.Tree.Forest.{IsPointer}
use libudfread.Tree.Reading.{IsTree, publish-IsTree}
use libudfread.Tree.Cleaning.{times, clean_tree}
use libudfread.Tree.Cleaning.Whole.{IsKept, clean_tree_lem}
use libudfread.Sharing.Results.{act_safe, returned_agree}
use libudfread.Tests.Demo.{small_heap}

-- The steps of the threads with these numbers, in this order.
unfoldable exec : UdfFs → ℕ → List ℕ → System → Mem System
exec fs fuel [] s = done s
exec fs fuel (k ∷ order) s = act fs fuel s.world (s.threads k) >>= λ r.
    exec fs fuel order (record { world = r.0; threads = set_thread s.threads k r.1 })

exec-Run :
    (fs : UdfFs) (fuel : ℕ) (order : List ℕ) (r s t : System)
    → Run fs fuel r s
    → exec fs fuel order s ≡ done t
    → Run fs fuel r t
unfolding exec
exec-Run fs fuel [] r s t run e = let same : s ≡ t = cc in subst (λ u. Run fs fuel r u) same run
exec-Run fs fuel (k ∷ order) r s t run e =
    next (act fs fuel s.world (s.threads k)) refl e (λ w th is f.
      exec-Run fs fuel order r (record { world = w; threads = set_thread s.threads k th }) t
        (later run (acts k w th is)) f)
  where
    rest : World → Thread → Mem System
    rest w th = exec fs fuel order (record { world = w; threads = set_thread s.threads k th })

    next :
        (m : Mem (World × Thread))
        → act fs fuel s.world (s.threads k) ≡ m
        → (m >>= λ r. rest r.0 r.1) ≡ done t
        → ((w : World) (th : Thread)
            → act fs fuel s.world (s.threads k) ≡ done (w, th)
            → rest w th ≡ done t
            → Run fs fuel r t)
        → Run fs fuel r t
    next fault is e again = absurd cc
    next running is e again = absurd cc
    next (done (w, th)) is e again = again w th is e

-- The file entry of an empty directory, in block 3 of the partition.
abbrev entry_bytes : ℕ → ℕ
entry_bytes i =
    if i == 0
    then 5
    else if i == 1
    then 1
    else if i == 2
    then 3
    else if i == 4
    then 9
    else if i == 20
    then 4
    else if i == 27
    then 4
    else if i == 34
    then 3
    else 0

abbrev fs : UdfFs
fs = record {
  input = record { read = λ lba n flags. (blocks n, entry_bytes); size = none };
  heap = small_heap;
  part = record {
    num_partition = 1;
    p0 = record { number = 0; lba = 16; mirror_lba = 0 };
    p1 = no_part;
  };
}

abbrev folder : DirEntry
folder = record {
  filename = b'D' ∷ [];
  icb = record { lba = 3; length = 2048; partition = 0; extent_type = 0 };
  characteristic = 2;
}

empty_folder : udf_read_dir fs 10 folder.icb [] ≡ done (true, [])
unfolding udf_read_dir read_dir_content parse_dir_file udf_read_file_entry read_metadata
    read_metadata_blocks partition_index read_first or_mirror with_rest read_rest read_following
    read_descriptor_block read_block decode_descriptor_tag add_bytes store memcpy decode_file_entry
    decode_sized_entry decode_entry decode_icb_tag decode_content make_entry entry_of complete_entry
    get_u8 get_u16 get_u32 get_u64
empty_folder = refl

-- Threads 1 and 2 have called `_cache_subdir` for the folder.
abbrev called : ℕ → Thread
called = set_thread (set_thread (λ k. returned root_dir 0 none) 1 (at_flag 0 0)) 2 (at_flag 0 0)

abbrev both : System
both = record { world = (start (folder ∷ [])).world; threads = called }

both-Run : Run fs 10 (start (folder ∷ [])) both
unfolding file_at
both-Run =
    later (later here (calls 1 0 0 root_dir 0 none folder refl (omega arith) (inl refl) refl))
      (calls 2 0 0 root_dir 0 none folder refl (omega arith) (inl refl) refl)

abbrev state_of : Mem System → System
state_of fault = both
state_of running = both
state_of (done s) = s

-- Both read the folder; thread 1 puts it into the cache and returns.
abbrev first : System
first = state_of (exec fs 10 (1 ∷ 1 ∷ 1 ∷ 1 ∷ 1 ∷ 2 ∷ 2 ∷ 2 ∷ 2 ∷ 1 ∷ 1 ∷ []) both)

-- Thread 2 comes too late, frees what it has read, and returns.
abbrev second : System
second = state_of (exec fs 10 (2 ∷ 2 ∷ []) first)

runs :
    Run fs 10 (start (folder ∷ [])) first
    × Run fs 10 first second
    × (first.threads 1 ≡ returned 0 0 (some 1))
    × (second.threads 2 ≡ returned 0 0 (some 1))
unfolding exec act deref slot_of file_of exchange_array with_array add_cell after_read exchange_slot
    set_slot free_cell set_cell set_pointer udf_read_dir read_dir_content parse_dir_file
    udf_read_file_entry read_metadata read_metadata_blocks partition_index read_first or_mirror
    with_rest read_rest read_following read_descriptor_block read_block file_at
    decode_descriptor_tag add_bytes store memcpy decode_file_entry decode_sized_entry decode_entry
    decode_icb_tag decode_content make_entry entry_of complete_entry get_u8 get_u16 get_u32 get_u64
runs = (
  exec-Run fs 10 (1 ∷ 1 ∷ 1 ∷ 1 ∷ 1 ∷ 2 ∷ 2 ∷ 2 ∷ 2 ∷ 1 ∷ 1 ∷ []) (start (folder ∷ [])) both first
      both-Run refl,
  exec-Run fs 10 (2 ∷ 2 ∷ []) first first second here refl,
  refl,
  refl,
)

folder-IsListed : All IsListed (folder ∷ [])
unfolding is_empty_name
folder-IsListed = ((refl, refl, (omega arith, omega arith, omega arith, omega arith)), tt)

act_safe_example : act fs 10 first.world (first.threads 2) ≢ fault
act_safe_example = act_safe fs 10 (folder ∷ []) first 2 folder-IsListed runs.0

returned_agree_example :
    ◌≡◌ {A = ℕ} 1 1
    × (second.world.freed 1 ≡ false)
    × IsSubdir fs 10 (second.world.tree.cells 0).entries 0 (second.world.tree.cells 1).entries
    × ((second.world.tree.cells 1).entries ≡ (first.world.tree.cells 1).entries)
returned_agree_example =
    returned_agree fs 10 (folder ∷ []) first second 1 2 0 0 1 1 folder-IsListed runs.0 runs.1 runs.2
      runs.3

root-IsTree : IsTree fs 10 (root_only (folder ∷ []))
unfolding pointer_in
root-IsTree = record {
  has_root = omega arith;
  forest = record { up = λ d i c p. absurd cc; unique = λ d i e j c p q. absurd cc };
  linked = λ d i c lt e. absurd cc;
}

-- the root with the folder in its cache
abbrev cached : DirTree
cached = publish (root_only (folder ∷ [])) 0 0 []

cached-IsTree : IsTree fs 10 cached
unfolding file_at
cached-IsTree =
    publish-IsTree fs 10 (root_only (folder ∷ [])) 0 0 [] root-IsTree (omega arith)
      (folder, refl, refl, empty_folder)

clean_tree_lem_example :
    Returns
      (λ s.
        ((d i c : ℕ) → IsKept cached d → IsPointer cached d i c → times c s.freed ≡ 1)
        × ((c : ℕ) → times c s.freed ≤ 1)
        × (times root_dir s.freed ≡ 0))
      (clean_tree 2 (record { tree = cached; freed = [] }) root_dir)
unfolding publish set_cell
clean_tree_lem_example = clean_tree_lem cached fs 10 2 cached-IsTree (omega arith)
