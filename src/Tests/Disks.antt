-- ===== src/Tests/Disks.antt =====
-- The disks of two partitions.
use rules_ostest.Bytes.{pack_le, overlay}
use rules_ostest.Base.Int.{pos}
use rules_ostest.Gpt.Structures.{
  partition_entries, write_entry, gpt_header, header_fields, header_buffer, protective_mbr,
}
use rules_ostest.Disk.{
  resolve_compression, logical_size, place, copy_file, patch_fat_hidden_sectors,
}
use rules_ostest.Gpt.Layout.Order.{
  IsLaidOut, AreAsked, layout_partitions-IsLaidOut, IsOrdered, layout_partitions-IsOrdered,
}
use rules_ostest.Gpt.Image.Created.{IsCreated, create_gpt_image-IsCreated}
use rules_ostest.Files.{File, fresh, copy, write}
use rules_ostest.Gpt.Image.{create_gpt_image, make_tables, write_disk}
use rules_ostest.Base.{
  ◌≤◌, ◌<◌, ◌≡◌, refl, List, [], ◌∷◌, map, length, result_or, eq-ok_of_is_ok, ok,
}
use rules_ostest.Gpt.{Partition, guid, parse_uuid}
use rules_ostest.Gpt.Layout.{layout_partitions, layout_one, find_slot, choose_start, align_up}
use rules_ostest.Tests.Hosts.{host, specs}

abbrev layout : List Partition
layout = result_or [] (layout_partitions host "id" 34 2014 specs)

layout_found : layout_partitions host "id" 34 2014 specs ≡ ok layout
unfolding layout_partitions layout_one find_slot choose_start align_up resolve_compression
    logical_size guid parse_uuid
layout_found = eq-ok_of_is_ok (layout_partitions host "id" 34 2014 specs) [] refl

starts : map (λ p. p.start_lba) layout ≡ 64 ∷ 128 ∷ []
unfolding layout_partitions layout_one find_slot choose_start align_up resolve_compression
    logical_size guid parse_uuid
starts = refl

abbrev disk : File
disk = result_or fresh (create_gpt_image host specs (pos 1) "id" "")

disk_made : create_gpt_image host specs (pos 1) "id" "" ≡ ok disk
unfolding create_gpt_image make_tables layout_partitions layout_one find_slot choose_start align_up
    resolve_compression logical_size guid parse_uuid partition_entries write_entry gpt_header
    header_fields header_buffer protective_mbr pack_le write_disk place copy_file
    patch_fat_hidden_sectors copy write overlay
disk_made = eq-ok_of_is_ok (create_gpt_image host specs (pos 1) "id" "") fresh refl

create_gpt_image_example : IsCreated host specs 2048 "id" "" disk
create_gpt_image_example = create_gpt_image-IsCreated host specs (pos 1) "id" "" disk disk_made

layout_partitions-IsOrdered_example : IsOrdered layout
layout_partitions-IsOrdered_example =
    layout_partitions-IsOrdered host "id" 34 2014 specs layout layout_found

layout_partitions-IsLaidOut_example :
    IsLaidOut host 34 2014 34 layout
    × AreAsked 34 specs layout
    × (length layout ≡ length specs)
    × (0 < length layout)
    × (length layout ≤ 128)
layout_partitions-IsLaidOut_example =
    layout_partitions-IsLaidOut host "id" 34 2014 specs layout layout_found
