-- ===== src/Gpt/Image/Contents.antt =====
-- The parts of the disk that `create_gpt_image` writes, in order.
use rules_ostest.Bytes.Slices.{slice_ext, slice_shift}
use rules_ostest.Gpt.{Partition}
use rules_ostest.Base.{ℕ, ◌+◌, ◌-◌, ◌*◌, ◌≤◌, ◌≡◌, sym, ◌∙◌, inl, List, [], ◌∷◌, arith, length, All}
use rules_ostest.Bytes.{Bytes, slice}
use rules_ostest.Files.{File, fresh, truncate, seek, write}
use rules_ostest.Files.Laws.{pos-write, size-write, write_elsewhere, write_inside}
use rules_ostest.Disk.{Host}
use rules_ostest.Gpt.Layout.Order.{IsLaidOut}
use rules_ostest.Gpt.Image.{Tables, backup_entries, first_usable, last_usable}
use rules_ostest.Gpt.Image.Fill.{Holds, IsFilled, before-IsGap}

pub record IsGptDisk (host : Host) (total_lbas : ℕ) (mbr : Bytes) (t : Tables) (f : File)
    : Type 0 where
  pub size : f.size ≡ total_lbas * 512
  pub protective_mbr : slice f.byte 0 512 ≡ mbr
  pub primary_header : slice f.byte 512 512 ≡ t.primary_header
  pub primary_entries : slice f.byte 1024 16384 ≡ t.entries
  pub partitions : All (Holds host f) t.partitions
  pub backup_entries : slice f.byte (backup_entries total_lbas * 512) 16384 ≡ t.entries
  pub backup_header : slice f.byte ((total_lbas - 1) * 512) 512 ≡ t.backup_header

module _ (host : Host) (total : ℕ) (mbr : Bytes) (t : Tables) (f : File) where
  -- The file before the partitions are filled, and what becomes of a filled one.
  abbrev pub start : File
  start = seek 0 (truncate (total * 512) fresh)

  abbrev pub with_mbr : File
  with_mbr = write mbr start

  abbrev pub with_header : File
  with_header = write t.primary_header with_mbr

  abbrev pub headed : File
  headed = write t.entries with_header

  abbrev at_backup : File
  at_backup = seek (backup_entries total * 512) f

  abbrev backed : File
  backed = write t.entries at_backup

  abbrev finished : File
  finished = write t.backup_header (seek ((total - 1) * 512) backed)

  module _ (big : 68 ≤ total) (m : length mbr ≡ 512) (p : length t.primary_header ≡ 512)
      (e : length t.entries ≡ 16384) (b : length t.backup_header ≡ 512)
      (laid : IsLaidOut host first_usable (last_usable total) first_usable t.partitions)
      (filled : IsFilled host (last_usable total) t.partitions headed f) where
    pos_mbr : with_mbr.pos ≡ 512
    pos_mbr = omega (arith, pos-write mbr start, m)

    pos_header : with_header.pos ≡ 1024
    pos_header = omega (arith, pos-write t.primary_header with_mbr, pos_mbr, p)

    size_mbr : with_mbr.size ≡ total * 512
    size_mbr = size-write mbr start (omega (arith, m))

    size_header : with_header.size ≡ total * 512
    size_header =
        size-write t.primary_header with_mbr (omega (arith, pos_mbr, size_mbr, p)) ∙ size_mbr

    size_headed : headed.size ≡ total * 512
    size_headed =
        size-write t.entries with_header (omega (arith, pos_header, size_header, e)) ∙ size_header

    size_filled : f.size ≡ total * 512
    size_filled = filled.size_kept (omega (arith, size_headed)) ∙ size_headed

    size_finished : finished.size ≡ total * 512
    size_finished =
        let backed_size : backed.size ≡ total * 512 =
          size-write t.entries at_backup (omega (arith, size_filled, e)) ∙ size_filled in
        size-write t.backup_header (seek ((total - 1) * 512) backed) (omega (arith, backed_size, b))
        ∙ backed_size

    -- Below the backup tables the disk is as it was filled.
    below_backup :
        (s n : ℕ) → s + n ≤ (total - 33) * 512 → slice finished.byte s n ≡ slice f.byte s n
    below_backup s n h =
        write_elsewhere t.backup_header (seek ((total - 1) * 512) backed) s n (inl (omega arith))
        ∙ write_elsewhere t.entries at_backup s n (inl (omega arith))

    -- Below the first usable sector filling has changed nothing.
    in_front : (s n : ℕ) → s + n ≤ 17408 → slice finished.byte s n ≡ slice headed.byte s n
    in_front s n h =
        below_backup s n (omega arith)
        ∙ slice_ext f.byte headed.byte s s n (λ i q.
          filled.gaps (s + i)
            (before-IsGap host 34 (last_usable total) 34 t.partitions (s + i) laid (omega arith)))

    mbr_there : slice finished.byte 0 512 ≡ mbr
    mbr_there =
        in_front 0 512 (omega arith)
        ∙ write_elsewhere t.entries with_header 0 512 (omega (arith, pos_header))
        ∙ write_elsewhere t.primary_header with_mbr 0 512 (omega (arith, pos_mbr))
        ∙ write_inside mbr start 512 m

    header_there : slice finished.byte 512 512 ≡ t.primary_header
    header_there =
        in_front 512 512 (omega arith)
        ∙ write_elsewhere t.entries with_header 512 512 (omega (arith, pos_header))
        ∙ slice_shift with_header.byte 512 with_mbr.pos 512 (sym pos_mbr)
        ∙ write_inside t.primary_header with_mbr 512 p

    entries_there : slice finished.byte 1024 16384 ≡ t.entries
    entries_there =
        in_front 1024 16384 (omega arith)
        ∙ slice_shift headed.byte 1024 with_header.pos 16384 (sym pos_header)
        ∙ write_inside t.entries with_header 16384 e

    backup_entries_there : slice finished.byte (backup_entries total * 512) 16384 ≡ t.entries
    backup_entries_there =
        write_elsewhere t.backup_header (seek ((total - 1) * 512) backed) _ 16384
          (inl (omega arith))
        ∙ write_inside t.entries at_backup 16384 e

    held_still :
        (cursor : ℕ) (ps : List Partition)
        → IsLaidOut host 34 (last_usable total) cursor ps
        → All (Holds host f) ps
        → All (Holds host finished) ps
    held_still cursor [] l h = tt
    held_still cursor (q ∷ ps) (placed, l) (h, hs) = (
      record {
        image = h.image;
        opens = h.opens;
        whole = h.whole;
        stored =
            below_backup (q.start_lba * 512) (length h.image)
              (omega (arith, h.whole, placed.end_is, placed.whole_sectors, placed.to_last))
            ∙ h.stored;
      },
      held_still (q.end_lba + 1) ps l hs,
    )

    pub finished-IsGptDisk : IsGptDisk host total mbr t finished
    finished-IsGptDisk = record {
      size = size_finished;
      protective_mbr = mbr_there;
      primary_header = header_there;
      primary_entries = entries_there;
      partitions = held_still 34 t.partitions laid filled.held;
      backup_entries = backup_entries_there;
      backup_header = write_inside t.backup_header (seek ((total - 1) * 512) backed) 512 b;
    }
