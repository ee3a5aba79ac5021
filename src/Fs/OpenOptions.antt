-- ===== src/Fs/OpenOptions.antt =====
-- `OpenOptions` (fs/open_options.rs): the bitfield, its validation, and the flags of the open call.
-- The flags that the source joins by `|` from constants of `libc` are a record of what is joined.
pub mod Flags
use zincio.Prelude.{
  ℕ, ◌+◌, ◌-◌, ◌/◌, ◌%◌, Bool, true, false, not, ◌&&◌, ◌||◌, List, [], ◌∷◌, ◌==◌, if◌then◌else◌,
}

pub data OpenFlag : Type 0 where
  read write append truncate create create_new : OpenFlag

-- The constants `OPEN_READ` to `OPEN_CREATE_NEW`.
abbrev pub bit : OpenFlag → ℕ
bit read = 1
bit write = 2
bit append = 4
bit truncate = 8
bit create = 16
bit create_new = 32

-- `self.bits & flag != 0`, for a flag of one bit.
abbrev pub has_bit : ℕ → ℕ → Bool
has_bit bits flag = (bits / flag) % 2 == 1

unfoldable pub has : ℕ → OpenFlag → Bool
has bits flag = has_bit bits (bit flag)

-- `|=` and `&= !flag`.
unfoldable pub set : ℕ → OpenFlag → Bool → ℕ
set bits flag true = if has_bit bits (bit flag) then bits else bits + bit flag
set bits flag false = if has_bit bits (bit flag) then bits - bit flag else bits

pub data OpenError : Type 0 where
  no_access create_without_write nul_in_path : OpenError

pub data Checked (A : Type 0) : Type 0 where
  fine : A → Checked A
  invalid_input : OpenError → Checked A

unfoldable pub validate : ℕ → Checked (Unit {0})
validate bits =
    let writing = has bits write || has bits append in
    if not (has bits read) && not writing
    then invalid_input no_access
    else if (has bits truncate || has bits create || has bits create_new) && not writing
    then invalid_input create_without_write
    else fine tt

pub data AccessMode : Type 0 where
  rdonly wronly rdwr : AccessMode

pub record OpenOp : Type 0 where
  pub path : List ℕ
  pub access : AccessMode
  pub o_append : Bool
  pub o_trunc : Bool
  pub o_creat : Bool
  pub o_excl : Bool
  pub o_cloexec : Bool

abbrev pub contains : List ℕ → ℕ → Bool
contains [] byte = false
contains (x ∷ xs) byte = if x == byte then true else contains xs byte

abbrev pub access_mode : Bool → Bool → Checked AccessMode
access_mode true false = fine rdonly
access_mode false true = fine wronly
access_mode true true = fine rdwr
access_mode false false = invalid_input no_access

unfoldable pub build_open_op : ℕ → List ℕ → Checked OpenOp
build_open_op bits path = elim (access_mode (has bits read) (has bits write || has bits append)) [
  | fine access ↦
      if contains path 0
      then invalid_input nul_in_path
      else fine (record {
        path = path;
        access = access;
        o_append = has bits append;
        o_trunc = has bits truncate;
        o_creat = has bits create_new || has bits create;
        o_excl = has bits create_new;
        o_cloexec = true;
      })
  | invalid_input e ↦ invalid_input e
]
