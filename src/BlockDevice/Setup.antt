-- ===== src/BlockDevice/Setup.antt =====
-- `setup_device`, `blk1_init` and `blk1_exit` of BlockDriver/blk1.c, as the events of a ledger.
use linux_kernel_development.Prelude.{
  Bool, true, false, not, [], ◌∷◌, ◌++◌, ℤ, pos, ebusy, enomem, if◌then◌else◌,
}
use linux_kernel_development.Kernel.Ledger.{
  taken, given, Events, memory, data_area, queue, disk, major_number,
}

-- What the kernel answers to the setup: whether it gives out a major number, the memory of the
-- device's structure and of its data, the queue and the disk.
pub record Answers : Type 0 where
  pub major_ok : Bool
  pub kmalloc_ok : Bool
  pub vmalloc_ok : Bool
  pub queue_ok : Bool
  pub alloc_disk_ok : Bool

-- Which pointers of `struct blk1_dev` are not NULL, and the events so far.
pub record Installed : Type 0 where
  pub data_set : Bool
  pub queue_set : Bool
  pub gd_set : Bool
  pub log : Events

-- `out_vfree` frees the memory, and leaves the pointers as they are.
abbrev out_vfree : Installed → Installed
out_vfree i = if i.data_set then record i { log = i.log ++ (given data_area ∷ []) } else i

-- No pointer set, after the events.
abbrev cleared : Events → Installed
cleared log = record { data_set = false; queue_set = false; gd_set = false; log = log }

-- `memset` clears the pointers.
unfoldable pub setup_device : Answers → Events → Installed
setup_device a log =
    let with_data = record (cleared log) { data_set = true; log = log ++ (taken data_area ∷ []) } in
    let with_queue = record with_data {
      queue_set = true;
      log = with_data.log ++ (taken queue ∷ []);
    } in
    if not a.vmalloc_ok
    then cleared log
    else (if not a.queue_ok
        then out_vfree with_data
        else (if not a.alloc_disk_ok
            then out_vfree with_queue
            else record with_queue { gd_set = true; log = with_queue.log ++ (taken disk ∷ []) }))

-- What `blk1_init` returns and leaves. Without a device, the pointers count as NULL.
unfoldable pub blk1_init : Answers → Installed × ℤ
unfolding setup_device
blk1_init a =
    let got_major = taken major_number ∷ [] in
    if not a.major_ok
    then (cleared [], ebusy)
    else (if not a.kmalloc_ok
        then (cleared (got_major ++ (given major_number ∷ [])), enomem)
        else (setup_device a (got_major ++ (taken memory ∷ [])), pos 0))

-- The disk is given back by `del_gendisk` and `put_disk` together.
unfoldable pub blk1_exit : Installed → Events
blk1_exit i =
    (if i.gd_set then given disk ∷ [] else [])
    ++ ((if i.queue_set then given queue ∷ [] else [])
        ++ ((if i.data_set then given data_area ∷ [] else [])
            ++ (given major_number ∷ given memory ∷ [])))
