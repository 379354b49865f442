-- ===== src/Mft.antt =====
-- include/mft_abi.h and tenders/common/mft.c: the application manifest. `e` lists the entries that
-- the manifest's buffer has room for. Of the two unions of an entry each access in the code is to
-- the member that the entry's type selects, so the members stand side by side.
pub mod Validate
pub mod Lookup
use solo.Base.{
  ℕ, zero, suc, ◌+◌, ◌*◌, ◌^◌, ◌%◌, Bool, true, false, ◌==◌, ◌!=◌, ltb, leb, if◌then◌else◌, List,
  Option, none, some, get_elem?, Run, done, ◌>>=◌, read_at, is_zero,
}
use solo.CString.{strncmp}

-- `mft_type_t`; a manifest that is not validated may hold any number.
abbrev pub mft_dev_block_basic : ℕ
mft_dev_block_basic = 1

abbrev pub mft_dev_net_basic : ℕ
mft_dev_net_basic = 2

abbrev pub mft_reserved_first : ℕ
mft_reserved_first = 2 ^ 30

pub record BlockBasic : Type 0 where
  pub capacity : ℕ
  pub block_size : ℕ

pub record NetBasic : Type 0 where
  pub mac : List ℕ
  pub mtu : ℕ

pub record MftEntry : Type 0 where
  pub name : List ℕ
  pub type : ℕ
  pub block_basic : BlockBasic
  pub net_basic : NetBasic
  pub hostfd : ℕ
  pub attached : Bool

pub record Mft : Type 0 where
  pub version : ℕ
  pub entries : ℕ
  pub e : List MftEntry

abbrev pub mft_version : ℕ
mft_version = 1

abbrev pub mft_max_entries : ℕ
mft_max_entries = 64

abbrev pub mft_name_max : ℕ
mft_name_max = 67

abbrev pub mft_name_size : ℕ
mft_name_size = 68

-- `sizeof(struct mft)` with the flexible array, and `sizeof(struct mft_entry)`, on a 64-bit target.
abbrev pub sizeof_mft : ℕ
sizeof_mft = 8

abbrev pub sizeof_mft_entry : ℕ
sizeof_mft_entry = 104

-- The loop of `mft_validate` from the index `i`, with the rounds that are left.
unfoldable pub validate_entries : Mft → ℕ → ℕ → Run Bool
validate_entries m i zero = done true
validate_entries m i (suc n) =
    let rest = validate_entries m (i + 1) n in
    read_at (get_elem? m.e i) >>= λ x. read_at (get_elem? x.name mft_name_max) >>= λ c.
    if c != 0 then done false else if x.attached then done false else rest

-- `mft_validate` from the test of the first entry on.
unfoldable pub validate_contents : Mft → Run Bool
validate_contents m = read_at (get_elem? m.e 0) >>= λ first.
    if first.type != mft_reserved_first
    then done false
    else (read_at (get_elem? first.name 0) >>= λ c.
        if c != 0 then done false else validate_entries m 0 m.entries)

-- `done true` is the result 0, and `done false` is -1.
unfoldable pub mft_validate : Mft → ℕ → Run Bool
mft_validate m mft_size =
    if ltb mft_size sizeof_mft
    then done false
    else if m.version != mft_version
    then done false
    else if ltb mft_max_entries m.entries
    then done false
    else if mft_size != sizeof_mft + m.entries * sizeof_mft_entry
    then done false
    else if ltb m.entries 1
    then done false
    else validate_contents m

-- The loop of `_mft_get_by_name`; a result is the entry and its index.
unfoldable pub get_by_name_from : Mft → List ℕ → ℕ → ℕ → ℕ → Run (Option (ℕ × MftEntry))
get_by_name_from m name type i zero = done none
get_by_name_from m name type i (suc n) =
    let rest = get_by_name_from m name type (i + 1) n in
    read_at (get_elem? m.e i) >>= λ x.
    if x.type == type
    then (strncmp x.name name mft_name_size >>= λ z. if is_zero z then done (some (i, x)) else rest)
    else rest

unfoldable pub mft_get_by_name : Mft → List ℕ → ℕ → Run (Option (ℕ × MftEntry))
mft_get_by_name m name type = get_by_name_from m name type 0 m.entries

-- The parameter is an `unsigned`: a 64-bit handle loses its upper half.
unfoldable pub mft_get_by_index : Mft → ℕ → ℕ → Run (Option MftEntry)
mft_get_by_index m handle type =
    let index = handle % 2 ^ 32 in
    if leb m.entries index
    then done none
    else (read_at (get_elem? m.e index) >>= λ x. done (if x.type == type then some x else none))
