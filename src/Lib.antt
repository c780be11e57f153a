-- ===== src/Lib.antt =====
-- The program composes disk images for operating-system tests, boots them in QEMU, and judges the
-- serial output of the machines.
--
-- Parts and files:
-- * Gpt models ostest/private/gpt_image.py. Gpt/Layout is `_layout_partitions` (`layout_one` is a
--   round of its loop, `find_slot` and `choose_start` the checks of the round), Gpt/Structures is
--   `_gpt_header`, `_protective_mbr` and `_partition_entries`, Gpt/Image is `create_gpt_image`:
--   `make_tables` up to the point where the output is opened, `write_disk` the rest.
-- * Disk models the helpers of ostest/private/gpt_image.py that open, measure, copy and patch an
--   image: `_resolve_compression`, `_logical_size`, `_copy_file`, `_patch_fat_hidden_sectors`.
-- * Mbr models ostest/private/mbr_image.py: Mbr/Geometry is about `_chs`, Mbr/Table about
--   the bytes of the table, Mbr/Composed about `create_mbr_image`. Its helpers for images repeat those of the GPT composer and share their
--   model.
-- * Fat models ostest/private/fat_image.py: Fat/Layout is `_calculate_layout`, Fat/Names the 8.3
--   name of one file, Fat/Tree the tree of files (`Node` is an `Entry` and its children) and the
--   operations on it, Fat/Walk `_walk_preorder` and `_assign_clusters`, Fat/Entries the directory
--   entries and the sectors at the start, Fat/Image the table and `create_fat32_image`. The source
--   numbers the nodes in the order of the walk; `number_dirs` and `number_files` do that on the
--   tree itself.
-- * Iso models ostest/private/iso_image.py: one definition for each function, `make_iso` is `main`
--   for an image that is not packed. Iso/Reader is a reader of the finished image.
-- * Forwards models the host forwards of ostest/private/managed_network.py: Forwards is what leads
--   to `parse_host_forwards`, Forwards/Usernet `parse_info_usernet`, `resolve_host_forwards` and
--   the mapping of `canonical_mapping_json`. Text has `str` as a list of code points.
-- * Companion models `OneShotCompanion` of the same file: a method is a function of the state and
--   of a `World`, the system, which answers by the history of what was done to the process.
--   Companion/Ends is about how a run ends, Companion/Status about what it returns.
-- * Raw models ostest/private/raw_image.py: `parse_offset` and `create_raw_image`, with Raw/Blobs
--   about the sorted blobs.
-- * Network models the frames of `EthernetEndpoint` and `_receive_exact` in
--   ostest/python/network.py; a connection is the list of the pieces in which its bytes arrive.
-- * Qemu models `UefiQemuConfig` of ostest/python/qemu.py: Qemu/Namespace is `from_namespace`,
--   which uses Qemu/Media for its loop over the media (`resolve_medium` is a round, its result the
--   medium and the files that it makes) and Qemu/Requests for its loop over the host forwards,
--   Qemu/Command is `UefiQemuConfig.command`, a definition for each group of arguments, with
--   Qemu/Drives for the media. Qemu/Drives/Options has a reader of QEMU's options, and
--   Qemu/Media/Kept and Qemu/Media/Distinct are about the media that are resolved,
--   Qemu/Namespace/Checked about the configuration, Qemu/Namespace/Started about its command line.
-- * Ppm models `validate_ppm_distinct_pixels` of ostest/private/qemu_runner_support.py.
--   Ppm/Header describes its tokens and numbers, Ppm/Raster the samples, Ppm/Colors the colors that
--   the loops collect, Ppm/Accepted the images that it accepts.
-- * Kvm models `probe_linux_kvm` of the same file.
-- * Serial models the assertion machine of ostest/private/qemu_runner_support.py: `Machine` is the
--   state of `SerialAssertionMachine`, `make_machine` its constructor. Serial/Feed has `feed`,
--   `handle_reset`, `handle_qmp_event`, `process_exited` and `timed_out`, and Serial/Runs runs
--   lists of these events.
-- * Runner models ostest/private/qemu_test_runner.py: `Run` is the variables of `_run_qemu`.
--   Runner/Legacy is `_LegacyVerdict`, Runner/Loop the functions `process_serial` and
--   `drain_serial` of `_run_qemu`, Runner/Messages the events of a round (`on_ready` is its `for`
--   loop, `on_message` a line of QMP), Runner/Exit the companion and the end of the process,
--   Runner/Round the round and the loop, and Runner/Main what `_run_qemu` returns and the status of
--   `main`; Runner/Qmp is `_qmp_wait_response`. Runner/Evidence is about what a run that passes has
--   seen, Runner/Clock and Runner/Ends about its end. It uses the serial machine and the PPM check
--   above.
-- * Files is a file that is open for writing, Bytes has byte strings, byte arrays and `struct`,
--   Search has `bytes.find`. Base has the names and lemmas that all parts share.
-- * Tests has the theorems at concrete inputs.
--
-- The state of a part is a record and each operation is a function on it; what raises in the source
-- returns a `Result` with the error. A message is modelled by what it says, not by its wording.
--
-- Loops: the loops of the PPM reader recur on its bytes or count samples down. The loops that copy
-- and count by chunks of 1 MiB run on fuel of the length of the source and one more, as each round
-- but the last reads a byte. The loop over the markers of a phase runs on fuel of the number of
-- markers, as each round but the last matches one more marker. The search for the size of a FAT
-- runs on fuel of the first upper bound, as each round narrows the range. The numbers behind `~` of
-- a short name are the 999999 that the source tries. The loop of a companion's grace period runs on
-- fuel of the sleeps before its deadline. The loop of the test runner and its `drain_serial` run on
-- the same fuel: each round of either looks at the clock, so the calls of the system up to the
-- deadline are enough. `_receive_exact` runs on fuel of the bytes asked for, as each round but the
-- last receives one.
--
-- Parameters: the file system, gzip, the parsing of a UUID, uuid5, UTF-16, UTF-8 and CRC-32 are
-- arguments (`Host` and `utf8`), and so are the system calls of the probe (`ProbedHost`), the
-- system that runs a companion (`World`), json, `str.splitlines` and the classes `\s` and `\d`
-- (`TextLibrary`), `str.casefold` and `str.upper` (`Unicode`), and the case-insensitive match,
-- `str.lower` and the order of paths of the raw composer (`RawHost`), the runfiles and the file
-- system that the inputs of a machine are looked up in (`Runfiles`), and the system, the decoder,
-- json and the patterns of the test runner (`World` of Runner, which answers by the number of calls
-- before). Nothing is assumed of them.
--
-- Not modelled: the Ethernet hub and the PCAP log; the environment of a companion; the argument
-- parsing and the packing of the finished disk in the `main` functions, which are glue;
-- `QemuSession` and the lab, which are mostly processes, sockets and threads, and the decoding of
-- the JSON of media and forwards; of the test runner, what comes before its loop (starting QEMU,
-- connecting to QMP, the forwards and the start of the companion) and the arguments and failure
-- hook of `main`; the Bazel rules.
pub mod Base
pub mod Bytes
pub mod Companion
pub mod Disk
pub mod Fat
pub mod Files
pub mod Forwards
pub mod Gpt
pub mod Iso
pub mod Kvm
pub mod Mbr
pub mod Network
pub mod Ppm
pub mod Qemu
pub mod Raw
pub mod Runner
pub mod Search
pub mod Serial
pub mod Tests
pub mod Text
