-- ===== src/Log.antt =====
-- The messages of src/util.c: `info` and `fatal`. The text of a message is formatted by its caller.
use nerves_initramfs.Base.{ℕ, Bool, List, [], ◌∷◌, ◌++◌, if◌then◌else◌, length, take}
use nerves_initramfs.Base.CString.{Bytes, codes}

-- Where a line goes: /dev/kmsg if it opens, else the standard error.
pub data Sink : Type 0 where
  kmsg standard_error : Sink

-- `asprintf(strp, PROGRAM_NAME ": %s\r\n", msg)`
unfoldable pub format_message : Bytes → Bytes
format_message msg = codes "nerves_initramfs: " ++ (msg ++ codes "\r\n")

-- one call of `write`, of `len` bytes
unfoldable pub log_write : Bool → Bytes → ℕ → Sink × Bytes
log_write kmsg_opens str len = (if kmsg_opens then kmsg else standard_error, take len str)

unfoldable pub log_format : Bool → Bytes → Sink × Bytes
unfolding format_message log_write
log_format kmsg_opens msg = log_write kmsg_opens (format_message msg) (length (format_message msg))

unfoldable pub info : Bool → Bytes → List (Sink × Bytes)
unfolding log_format
info kmsg_opens msg = log_format kmsg_opens msg ∷ []

-- What `fatal` writes before it exits; /dev/kmsg is opened for each of the three.
unfoldable pub fatal : Bool → Bool → Bool → Bytes → List (Sink × Bytes)
unfolding log_write log_format
fatal first second third msg =
    log_write first (codes "\r\n\r\nFATAL ERROR:\r\n") 18
    ∷ log_format second msg
    ∷ log_write third (codes "\r\n\r\nCANNOT CONTINUE.\r\n") 22
    ∷ []
