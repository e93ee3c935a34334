-- ===== src/Streamer/Tests.antt =====
-- A read across sectors.
use custom_peach_os.Prelude.{◌%◌, arith, ◌+◌, ◌≡◌, refl, some}
use custom_peach_os.Status.{all_ok}
use custom_peach_os.Streamer.{Device, slice, the_disk, DiskStream, diskstreamer_read}
use custom_peach_os.Streamer.Read.{IsDrive, diskstreamer_read-slice}

-- Each byte is the low byte of its position.
abbrev numbered : Device
numbered p = p % 256

numbered-IsDrive : IsDrive numbered
numbered-IsDrive p = omega arith

abbrev stream : DiskStream
stream = record { position = 500; disk = the_disk }

diskstreamer_read-slice_example :
    diskstreamer_read numbered stream 600
    ≡ some (
      all_ok,
      record stream { position = stream.position + 600 },
      slice numbered stream.position 600,
    )
diskstreamer_read-slice_example =
    diskstreamer_read-slice numbered stream 600 numbered-IsDrive (omega arith) refl
