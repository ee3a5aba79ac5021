-- ===== src/Fs/OpenOptions/Flags.antt =====
-- The bitfield keeps its six flags apart, and what passes the validation has its open call built.
use zincio.Prelude.{
  ℕ, ◌≡◌, refl, Bool, true, false, ◌||◌, List, ◌==◌, if◌then◌else◌, arith, inl, inr, Bool-cases,
}
use zincio.Fs.OpenOptions.{
  OpenFlag, read, write, append, truncate, create, create_new, has, set, fine, validate, OpenOp,
  AccessMode, rdonly, wronly, rdwr, contains, access_mode, build_open_op,
}

-- A flag's place among the six.
abbrev place : OpenFlag → ℕ
place read = 0
place write = 1
place append = 2
place truncate = 3
place create = 4
place create_new = 5

abbrev pub same_flag : OpenFlag → OpenFlag → Bool
same_flag f g = place f == place g

-- After any flag of any bitfield was set or cleared, that flag reads as it was set, and each of the
-- five others as before.
pub has-set :
    (bits : ℕ) (f g : OpenFlag) (v : Bool)
    → has (set bits f v) g ≡ (if same_flag f g then v else has bits g)
unfolding has set
has-set bits read g v = elim v [ true ↦ ground arith | false ↦ ground arith ]
has-set bits write g v = elim v [ true ↦ ground arith | false ↦ ground arith ]
has-set bits append g v = elim v [ true ↦ ground arith | false ↦ ground arith ]
has-set bits truncate g v = elim v [ true ↦ ground arith | false ↦ ground arith ]
has-set bits create g v = elim v [ true ↦ ground arith | false ↦ ground arith ]
has-set bits create_new g v = elim v [ true ↦ ground arith | false ↦ ground arith ]

abbrev pub reads : AccessMode → Bool
reads rdonly = true
reads wronly = false
reads rdwr = true

abbrev pub writes : AccessMode → Bool
writes rdonly = false
writes wronly = true
writes rdwr = true

-- The open call for the bits: each flag as it was set, with creating also for `create_new`, and an
-- access mode that reads and writes as they ask.
abbrev pub Opens : ℕ → List ℕ → OpenOp → Type 0
Opens bits path op =
    (op.path ≡ path)
    × (reads op.access ≡ has bits read)
    × (writes op.access ≡ has bits write || has bits append)
    × (op.o_creat ≡ has bits create || has bits create_new)
    × ((op.access ≡ rdonly)
        → (op.o_append ≡ false) × (op.o_trunc ≡ false) × (op.o_creat ≡ false) × (op.o_excl ≡ false))
    × ((op.access ≡ wronly) → has bits read ≡ false)
    × (op.o_append ≡ has bits append)
    × (op.o_trunc ≡ has bits truncate)
    × (op.o_excl ≡ has bits create_new)
    × ((op.o_excl ≡ true) → op.o_creat ≡ true)
    × (op.o_cloexec ≡ true)

abbrev opened : ℕ → List ℕ → AccessMode → OpenOp
opened bits path access = record {
  path = path;
  access = access;
  o_append = has bits append;
  o_trunc = has bits truncate;
  o_creat = has bits create_new || has bits create;
  o_excl = has bits create_new;
  o_cloexec = true;
}

builds :
    (bits : ℕ) (path : List ℕ) (access : AccessMode)
    → access_mode (has bits read) (has bits write || has bits append) ≡ fine access
    → contains path 0 ≡ false
    → build_open_op bits path ≡ fine (opened bits path access)
unfolding build_open_op
builds bits path access e clean = rw (e, build_open_op) (rw clean refl)

valid_access :
    (bits : ℕ)
    → validate bits ≡ fine tt
    → (access : AccessMode) × (access_mode (has bits read) (has bits write || has bits append)
        ≡ fine access)
unfolding validate
valid_access bits valid = elim (Bool-cases (has bits read)) [
  | inl r ↦ elim (Bool-cases (has bits write || has bits append)) [
    | inl w ↦ (rdwr, ground arith)
    | inr w ↦ (rdonly, ground arith)
  ]
  | inr r ↦ elim (Bool-cases (has bits write || has bits append)) [
    | inl w ↦ (wronly, ground arith)
    | inr w ↦ absurd (ground arith)
  ]
]

valid-Opens :
    (bits : ℕ) (path : List ℕ) (access : AccessMode)
    → validate bits ≡ fine tt
    → access_mode (has bits read) (has bits write || has bits append) ≡ fine access
    → Opens bits path (opened bits path access)
unfolding validate
valid-Opens bits path access valid e = (
  refl,
  readable,
  writable,
  created,
  (λ h. ground arith),
  (λ h. ground arith),
  refl,
  refl,
  refl,
  (λ h. ground arith),
  refl,
)
  where
    readable : reads access ≡ has bits read
    readable = ground arith

    writable : writes access ≡ has bits write || has bits append
    writable = ground arith

    created : has bits create_new || has bits create ≡ has bits create || has bits create_new
    created = ground arith

-- Options that pass the validation, for a path without a zero byte, have their open call built,
-- with each flag as it was set, creating exactly for `create` or `create_new`, an access mode that
-- reads exactly for `read` and writes exactly for `write` or `append`, and closing on exec. A
-- read-only call does not append, truncate or create, and an exclusive one creates.
pub validated_builds :
    (bits : ℕ) (path : List ℕ)
    → validate bits ≡ fine tt
    → contains path 0 ≡ false
    → (op : OpenOp) × (build_open_op bits path ≡ fine op) × Opens bits path op
validated_builds bits path valid clean =
    let (access, e) = valid_access bits valid in
    (opened bits path access, builds bits path access e clean, valid-Opens bits path access valid e)
