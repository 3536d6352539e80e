-- ===== src/Handle/Opening.antt =====
-- `udfread_open_input` of src/udfread.c on any disc.
use libudfread.Common.{
  ℕ, ◌≤◌, ◌<◌, ◌^◌, ◌≡◌, refl, sym, ap, ◌∙◌, arith, Bool, true, false, List, Option, none, some,
  Option-cases, inl, inr, subst,
}
use libudfread.Common.Int.{ℤ}
use libudfread.Memory.{Buf, Safe, done, memcpy}
use libudfread.Memory.Words.{Safe-bind, Safe-bind_returns}
use libudfread.Ecma.{LongAd}
use libudfread.Input.{BlockInput}
use libudfread.Volume.{udf_probe_volume}
use libudfread.Volume.Recognition.{udf_probe_volume_lem}
use libudfread.Volume.Vds.{VolumeDescriptorSet, udf_read_vds, udf_validate_logical_volume}
use libudfread.Volume.Sizes.{IsLvd, IsPvd, memcpy-Keeps}
use libudfread.Volume.Ending.{IsVds, udf_read_vds-Safe}
use libudfread.Partition.{Partitions, udf_parse_partition_maps}
use libudfread.Partition.Maps.{IsPlaced, udf_parse_partition_maps_lem}
use libudfread.Cs0.{udf_cs0_to_mutf8}
use libudfread.Cs0.Safety.{udf_cs0_to_mutf8_returns}
use libudfread.Fs.{UdfFs, udf_find_root_dir}
use libudfread.Fs.Dir.{DirEntry, udf_read_dir}
use libudfread.Fs.Root.{udf_find_root_dir-Safe}
use libudfread.Fs.Listing.{Appends, Appends-refl, udf_read_dir-Safe}
use libudfread.Tree.{DirTree, root_dir, set_cell, pointer_in}
use libudfread.Tree.Forest.{IsPointer}
use libudfread.Tree.Reading.{IsTree}
use libudfread.Handle.{
  Udfread, fs_of, root_entries, set_root_entries, keep_root, open_root, open_logical_volume,
  open_volume, udfread_open_input,
}
use libudfread.Handle.Descriptors.{location_returns, partition_small}

-- a store with the root directory alone, nothing cached in it
pub record IsBare (t : DirTree) : Type 0 where
  pub alone : t.used ≡ 1
  pub empty : (i : ℕ) → pointer_in (t.cells root_dir).subdirs i ≡ none

-- What holds for a handle between any two calls.
pub record IsHandle (udf : Udfread) : Type 0 where
  pub room : udf.volume_set_identifier.len ≡ 128
  pub parts : udf.part.num_partition ≤ 2
  pub bare : udf.input ≡ none → IsBare udf.root

module _ (fuel : ℕ) (input : BlockInput) where
  -- What an open does to a handle. If it fails, the handle's input is as before.
  pub record IsOpening (udf : Udfread) (r : Bool × Udfread) : Type 0 where
    pub handle : IsHandle r.1
    pub kept : r.0 ≡ false → r.1.input ≡ udf.input
    pub grown : Appends (root_entries udf) (root_entries r.1)
    pub refused : (already : BlockInput) → udf.input ≡ some already → r.1 ≡ udf
    pub opened :
        r.0 ≡ true
        → (udf.input ≡ none)
          × (r.1.input ≡ some input)
          × (1 ≤ r.1.part.num_partition)
          × Appends (root_entries udf) (root_entries r.1)
          × IsTree (fs_of r.1 input) fuel r.1.root

  pub bare-IsTree : (fs : UdfFs) (t : DirTree) → IsBare t → IsTree fs fuel t
  bare-IsTree fs t b = record {
    has_root = omega (arith, b.alone);
    forest = record {
      up = λ d i c p. absurd (nothing d i c p);
      unique = λ d i e j c p q. absurd (nothing d i c p);
    };
    linked = λ d i c lt e. absurd (nothing d i c (lt, e));
  }
    where
      nothing : (d i c : ℕ) → IsPointer t d i c → ⊥
      nothing d i c (lt, e) =
          let at_root : d ≡ root_dir = omega (arith, b.alone) in
          let some_none : none ≡ some c =
            sym (b.empty i) ∙ ap (λ d. pointer_in (t.cells d).subdirs i) (sym at_root) ∙ e in
          cc

  set_entries-IsBare :
      (udf : Udfread) (entries : List DirEntry)
      → IsBare udf.root
      → IsBare (set_root_entries udf entries).root
  unfolding set_cell
  set_entries-IsBare udf entries b = record { alone = b.alone; empty = b.empty }

  set_entries_entries :
      (udf : Udfread) (entries : List DirEntry)
      → root_entries (set_root_entries udf entries) ≡ entries
  unfolding set_cell
  set_entries_entries udf entries = refl

  refused-IsOpening : (udf : Udfread) → IsHandle udf → IsOpening udf (false, udf)
  refused-IsOpening udf h = record {
    handle = h;
    kept = λ e. refl;
    grown = Appends-refl (root_entries udf);
    refused = λ already e. refl;
    opened = λ e. absurd cc;
  }

  not_open :
      (udf : Udfread) {A : Type 0}
      → udf.input ≡ none
      → (already : BlockInput) → udf.input ≡ some already
      → A
  not_open udf closed already e = absurd cc

  set_entries-Appends :
      (old udf : Udfread) (entries : List DirEntry)
      → Appends (root_entries old) entries
      → Appends (root_entries old) (root_entries (set_root_entries udf entries))
  set_entries-Appends old udf entries app =
      subst (λ l. Appends (root_entries old) l) (sym (set_entries_entries udf entries)) app

  keep_root-IsOpening :
      (old udf : Udfread) (r : Bool × List DirEntry)
      → IsHandle udf
      → old.input ≡ none
      → udf.input ≡ none
      → 1 ≤ udf.part.num_partition
      → Appends (root_entries old) r.1
      → IsOpening old (keep_root udf input r)
  unfolding keep_root
  keep_root-IsOpening old udf (false, entries) h closed is_none some_part app = record {
    handle = record {
      room = h.room;
      parts = h.parts;
      bare = λ e. set_entries-IsBare udf entries (h.bare is_none);
    };
    kept = λ e. sym closed;
    grown = set_entries-Appends old udf entries app;
    refused = not_open old closed;
    opened = λ e. absurd cc;
  }
  keep_root-IsOpening old udf (true, entries) h closed is_none some_part app = record {
    handle = record { room = h.room; parts = h.parts; bare = λ e. absurd cc };
    kept = λ e. absurd cc;
    grown = set_entries-Appends old udf entries app;
    refused = not_open old closed;
    opened = λ e. (
      closed,
      refl,
      some_part,
      set_entries-Appends old udf entries app,
      bare-IsTree _ _ (set_entries-IsBare udf entries (h.bare is_none)),
    );
  }

  same_root-Appends :
      (old udf : Udfread) → udf.root ≡ old.root → Appends (root_entries old) (root_entries udf)
  same_root-Appends old udf same =
      subst (λ t. Appends (root_entries old) (t.cells root_dir).entries) (sym same)
        (Appends-refl (root_entries old))

  open_root-Safe :
      (old udf : Udfread) (fsd_location : LongAd)
      → IsHandle udf
      → old.input ≡ none
      → udf.input ≡ none
      → udf.root ≡ old.root
      → 1 ≤ udf.part.num_partition
      → Safe (IsOpening old) (open_root fuel udf input fsd_location)
  unfolding open_root
  open_root-Safe old udf fsd_location h closed is_none same some_part =
      Safe-bind _ (udf_find_root_dir (fs_of udf input) fuel fsd_location) _
        (udf_find_root_dir-Safe (fs_of udf input) fuel fsd_location)
        (elim [
          | none ↦ λ k. record {
            handle = record { room = h.room; parts = h.parts; bare = λ e. h.bare is_none };
            kept = λ e. sym closed;
            grown = same_root-Appends old udf same;
            refused = not_open old closed;
            opened = λ e. absurd cc;
          }
          | some icb ↦ λ k.
              Safe-bind _ (udf_read_dir (fs_of udf input) fuel icb (root_entries udf)) _
                (udf_read_dir-Safe (fs_of udf input) fuel icb (root_entries udf)
                  (omega (arith, k.0)) k.3)
                (λ r app.
                  keep_root-IsOpening old udf r h closed is_none some_part
                    (subst (λ t. Appends (t.cells root_dir).entries r.1) same app))
        ])

  open_logical_volume-Safe :
      (udf : Udfread) (vds : VolumeDescriptorSet) (fsd_location : LongAd)
      → IsHandle udf
      → udf.input ≡ none
      → IsPvd vds.pvd
      → IsLvd vds.lvd
      → vds.pd.number < 2 ^ 16
      → Safe (IsOpening udf) (open_logical_volume fuel udf input vds fsd_location)
  unfolding open_logical_volume
  open_logical_volume-Safe udf vds fsd_location h closed (id_len, id_length, set_len) sizes small =
      Safe-bind_returns _
        (udf_cs0_to_mutf8 vds.pvd.volume_identifier vds.pvd.volume_identifier_length) _
        (udf_cs0_to_mutf8_returns vds.pvd.volume_identifier vds.pvd.volume_identifier_length
          (omega arith))
        (λ identifier u.
          Safe-bind_returns _ (memcpy udf.volume_set_identifier vds.pvd.volume_set_identifier 0 128)
            _
            (memcpy-Keeps udf.volume_set_identifier vds.pvd.volume_set_identifier 0 128
              (omega arith) (omega (arith, h.room)))
            (λ set_identifier keeps.
              Safe-bind_returns _ (udf_parse_partition_maps input vds.pd vds.lvd udf.part) _
                (udf_parse_partition_maps_lem input vds.pd vds.lvd udf.part sizes small h.parts)
                (λ (mapped, part) placed.
                  mapped_lem identifier set_identifier (keeps ∙ h.room) mapped part placed)))
    where
      mapped_lem :
          (identifier : Option (List ℕ)) (set_identifier : Buf)
          → set_identifier.len ≡ 128
          → (mapped : Bool) (part : Partitions) → IsPlaced vds.pd mapped part
          → Safe (IsOpening udf) (
              let udf' : Udfread = record udf {
                part = part;
                volume_identifier = identifier;
                volume_set_identifier = set_identifier;
              } in
              elim mapped [
                | false ↦ done (false, udf')
                | true ↦ open_root fuel udf' input fsd_location
              ])
      mapped_lem identifier set_identifier room false part (two, placed) = record {
        handle = record { room = room; parts = two; bare = λ e. h.bare closed };
        kept = λ e. refl;
        grown = Appends-refl (root_entries udf);
        refused = not_open udf closed;
        opened = λ e. absurd cc;
      }
      mapped_lem identifier set_identifier room true part (two, placed) =
          open_root-Safe udf _ fsd_location
            (record { room = room; parts = two; bare = λ e. h.bare closed }) closed closed refl
            (placed refl).0

  open_volume-Safe :
      (udf : Udfread) (part_number : ℤ) (vds : Option VolumeDescriptorSet)
      → IsHandle udf
      → udf.input ≡ none
      → IsVds input part_number vds
      → Safe (IsOpening udf) (open_volume fuel udf input vds)
  unfolding open_volume
  open_volume-Safe udf part_number none h closed d = refused-IsOpening udf h
  open_volume-Safe udf part_number (some vds) h closed (found, d, has_part, has_pvd) =
      let (lba, buf, tag, dec) = d.part_from has_part in
      Safe-bind_returns _ (udf_validate_logical_volume vds.lvd) _
        (location_returns vds.lvd d.lvd_sizes)
        (elim [
          | none ↦ λ u. refused-IsOpening udf h
          | some fsd_location ↦ λ u.
              open_logical_volume-Safe udf vds fsd_location h closed d.pvd_sizes d.lvd_sizes
                (partition_small input buf 5 lba vds.pd tag dec)
        ])

  pub udfread_open_input-Safe :
      (udf : Udfread) → IsHandle udf → Safe (IsOpening udf) (udfread_open_input fuel udf input)
  unfolding udfread_open_input
  udfread_open_input-Safe udf h = elim (Option-cases udf.input) [
    | inr (already, e) ↦ rw (e, Safe) (refused-IsOpening udf h)
    | inl closed ↦
        rw (closed, Safe)
          (Safe-bind_returns _ (udf_probe_volume input) _ (udf_probe_volume_lem input) (elim [
            | false ↦ λ k. refused-IsOpening udf h
            | true ↦ λ k.
                Safe-bind _ (udf_read_vds input udf.partition_to_open fuel) _
                  (udf_read_vds-Safe input udf.partition_to_open fuel)
                  (λ vds d. open_volume-Safe udf udf.partition_to_open vds h closed d)
          ]))
  ]
