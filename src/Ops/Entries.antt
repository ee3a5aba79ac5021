-- ===== src/Ops/Entries.antt =====
-- The entries that the operations build (the third-party `io_uring::opcode`): what each one asks for,
-- and the regions of memory that it points to.
use zincio.Prelude.{ℕ, Bool, List, [], ◌∷◌, if◌then◌else◌}
use zincio.Io.Stream.{invalid_input, IoResult, ok, err}
use zincio.Drivers.Uring.{Entry}
use zincio.Ops.{fits_u32}

-- A boxed slice of `iovec`s at `base`, which point to `bufs`.
pub record IoVecs : Type 0 where
  pub base : ℕ
  pub bufs : List ℕ

pub data Opcode : Type 0 where
  open_at : (path flags mode : ℕ) → Opcode
  mkdir_at : (path mode : ℕ) → Opcode
  unlink_at : (path flags : ℕ) → Opcode
  rename_at symlink_at link_at : (old_path new_path : ℕ) → Opcode
  fsync : (fd : ℕ) (data_only : Bool) → Opcode
  statx : (dirfd path statxbuf flags mask : ℕ) → Opcode
  read write : (fd buf len offset : ℕ) → Opcode
  recv : (fd buf len flags : ℕ) → Opcode
  send : (fd buf len : ℕ) → Opcode
  readv writev : (fd : ℕ) (iovecs : IoVecs) (len : ℕ) → Opcode
  splice : (fd_in fd_out len : ℕ) → Opcode

-- `libc::AT_REMOVEDIR` and `libc::MSG_PEEK`.
abbrev pub at_removedir : ℕ
at_removedir = 512

abbrev pub msg_peek : ℕ
msg_peek = 2

unfoldable pub pointers : Opcode → List ℕ
pointers (open_at path flags mode) = path ∷ []
pointers (mkdir_at path mode) = path ∷ []
pointers (unlink_at path flags) = path ∷ []
pointers (rename_at old_path new_path) = old_path ∷ new_path ∷ []
pointers (symlink_at old_path new_path) = old_path ∷ new_path ∷ []
pointers (link_at old_path new_path) = old_path ∷ new_path ∷ []
pointers (fsync fd data_only) = []
pointers (statx dirfd path statxbuf flags mask) = path ∷ statxbuf ∷ []
pointers (read fd buf len offset) = buf ∷ []
pointers (write fd buf len offset) = buf ∷ []
pointers (recv fd buf len flags) = buf ∷ []
pointers (send fd buf len) = buf ∷ []
pointers (readv fd iovecs len) = iovecs.base ∷ iovecs.bufs
pointers (writev fd iovecs len) = iovecs.base ∷ iovecs.bufs
pointers (splice fd_in fd_out len) = []

-- `.build().user_data(user_data)`.
unfoldable pub squeue_entry : Opcode → ℕ → Entry
squeue_entry opcode user_data = record { user_data = user_data; memory = pointers opcode }

-- The entry for a length, which is refused unless it is a `u32`.
unfoldable pub sized_entry : ℕ → (ℕ → Opcode) → ℕ → IoResult Entry
sized_entry len opcode user_data =
    if fits_u32 len then ok (squeue_entry (opcode len) user_data) else err invalid_input
