-- ===== src/BlockSetup.antt =====
-- tenders/hvt/hvt_module_blk.c: the module's options on the command line, and its set-up. The scanning
-- of an option by `sscanf` and the opening of a file by `block_attach` are parameters.
pub mod Devices
pub mod Cmdarg
use solo.Base.{
  ℕ, zero, suc, ◌+◌, ◌-◌, Bool, true, false, not, ◌||◌, ◌==◌, ◌!=◌, ltb, if◌then◌else◌, List, [],
  ◌∷◌, set, get_elem?, Option, none, some, Run, done, exits, ◌>>=◌, ◌>>◌, c_assert, read_at,
  bit_and, is_zero, pos, ltbℤ, signed64,
}
use solo.CString.{strncmp}
use solo.Mft.{Mft, MftEntry, mft_get_by_name, mft_dev_block_basic}

abbrev pub block_prefix : List ℕ
block_prefix = b'-' ∷ b'-' ∷ b'b' ∷ b'l' ∷ b'o' ∷ b'c' ∷ b'k' ∷ b':' ∷ 0 ∷ []

abbrev pub block_sector_size_prefix : List ℕ
block_sector_size_prefix =
    b'-' ∷ b'-' ∷ b'b' ∷ b'l' ∷ b'o' ∷ b'c' ∷ b'k' ∷ b'-' ∷ b's' ∷ b'e' ∷ b'c' ∷ b't' ∷ b'o' ∷ b'r'
    ∷ b'-' ∷ b's' ∷ b'i' ∷ b'z' ∷ b'e' ∷ b':' ∷ 0 ∷ []

-- The results of `sscanf` are there when both conversions succeed: the name, and the path or the
-- size. `block_attach` gives the descriptor and the capacity.
pub record Options : Type 1 where
  pub Disk : Type 0
  pub scan_block : List ℕ → Option (List ℕ × List ℕ)
  pub scan_block_size : List ℕ → Option (List ℕ × ℕ)
  pub block_attach : Disk → List ℕ → Run (Disk × ℕ × ℕ)

pub record BlockModule (D : Type 0) : Type 0 where
  pub disk : D
  pub mft : Mft
  pub module_in_use : Bool

-- A store to the entry with an index.
abbrev pub put : Mft → ℕ → MftEntry → Mft
put m i x = record m { e = set m.e i x }

module _ (os : Options) where
  open os use {Disk, scan_block, scan_block_size, block_attach}

  -- The branch for `--block:`; the second result says whether the option was taken.
  unfoldable pub handle_block : BlockModule Disk → List ℕ → Run (BlockModule Disk × Bool)
  handle_block s cmdarg = elim (scan_block cmdarg) [
    | none ↦ done (s, false)
    | some (name, path) ↦ mft_get_by_name s.mft name mft_dev_block_basic >>= λ r. elim r [
      | none ↦ done (s, false)
      | some (i, x) ↦ block_attach s.disk path >>= λ q.
          let (d, fd, capacity) = q in
          done (
            record {
              disk = d;
              mft = put s.mft i (record x {
                block_basic = record (x.block_basic) { capacity = capacity };
                hostfd = fd;
                attached = true;
              });
              module_in_use = true;
            },
            true,
          )
    ]
  ]

  -- The branch for `--block-sector-size:`.
  unfoldable pub handle_block_size : BlockModule Disk → List ℕ → Run (BlockModule Disk × Bool)
  handle_block_size s cmdarg = elim (scan_block_size cmdarg) [
    | none ↦ done (s, false)
    | some (name, block_size) ↦
        let found = mft_get_by_name s.mft name mft_dev_block_basic >>= λ r.
        done (elim r as (λ _. BlockModule Disk × Bool) [
          | none ↦ (s, false)
          | some (i, x) ↦ (
            record s {
              mft =
                  put s.mft i
                    (record x { block_basic = record (x.block_basic) { block_size = block_size } });
            },
            true,
          )
        ]) in
        if ltb block_size 512 || (bit_and block_size (block_size - 1) != 0)
        then done (s, false)
        else found
  ]

  unfoldable pub handle_cmdarg : BlockModule Disk → List ℕ → Run (BlockModule Disk × Bool)
  handle_cmdarg s cmdarg = strncmp block_prefix cmdarg 8 >>= λ z.
      if is_zero z
      then handle_block s cmdarg
      else (strncmp block_sector_size_prefix cmdarg 20 >>= λ z'.
          if is_zero z' then handle_block_size s cmdarg else done (s, false))

-- The body of the loop in `setup`: the entry as it is afterwards.
unfoldable pub setup_entry : MftEntry → Run MftEntry
setup_entry x =
    let bs = if x.block_basic.block_size == 0 then 512 else x.block_basic.block_size in
    let capacity = x.block_basic.capacity in
    if (x.type != mft_dev_block_basic) || not x.attached
    then done x
    else (c_assert (bit_and bs (bs - 1) == 0)
        >> (if bit_and capacity (bs - 1) != 0
            then exits 1
            else if ltbℤ (signed64 capacity) (pos bs)
            then exits 1
            else done (record x { block_basic = record (x.block_basic) { block_size = bs } })))

-- The loop in `setup` from the index `i`, with the rounds that are left.
unfoldable pub setup_entries : ℕ → ℕ → Mft → Run Mft
setup_entries zero i m = done m
setup_entries (suc n) i m =
    read_at (get_elem? m.e i) >>= λ x. setup_entry x >>= λ x'. setup_entries n (i + 1) (put m i x')
