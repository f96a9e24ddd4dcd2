-- ===== src/Disk.antt =====
-- One file on disk, as the encrypted and plain stores of the program use it: os.ReadFile,
-- os.MkdirAll and os.WriteFile of one path.
use cerclbackup.Prelude.{Bool, true, false, Option, none, some, Bytes, Result, ok, err}

-- `unreadable` is a file that os.ReadFile refuses with another error than os.IsNotExist.
pub data File : Type 0 where
  absent unreadable : File
  holds : Bytes → File

pub data DiskError : Type 0 where
  not_read not_opened not_parsed not_marshalled not_sealed not_written : DiskError

-- What reading the file gives: nothing if it is not there.
unfoldable pub read_file : File → Result DiskError (Option Bytes)
read_file absent = ok none
read_file unreadable = err not_read
read_file (holds b) = ok (some b)

-- MkdirAll and WriteFile; where `writable` is false one of them fails before the file changes.
unfoldable pub write_file : Bool → Bytes → File → Result DiskError (Unit {0}) × File
write_file true b f = (ok tt, holds b)
write_file false b f = (err not_written, f)
