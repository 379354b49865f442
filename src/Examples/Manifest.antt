-- ===== src/Examples/Manifest.antt =====
-- The manifest's theorems at the sample.
use solo.Base.{true, false, ℕ, ◌≡◌, refl, Option, some, done}
use solo.CString.{strncmp, strncmp_loop}
use solo.Mft.{
  MftEntry, mft_validate, validate_contents, validate_entries, mft_get_by_name, get_by_name_from,
  mft_dev_block_basic,
}
use solo.Mft.Validate.{IsWellFormed, Decides, mft_validate-Decides}
use solo.Mft.Lookup.{Finds, mft_get_by_name-Finds}
use solo.Examples.{sample, disk, disk_name, padded, sample-IsBuffer, sample-IsUsable}

validate_sample : mft_validate sample 320 ≡ done true
unfolding mft_validate validate_contents validate_entries
validate_sample = refl

validate_short : mft_validate sample 319 ≡ done false
unfolding mft_validate
validate_short = refl

find_disk : mft_get_by_name sample (padded disk_name) mft_dev_block_basic ≡ done (some (1, disk))
unfolding mft_get_by_name get_by_name_from strncmp strncmp_loop
find_disk = refl

mft_validate-Decides_example : Decides (mft_validate sample 320) (IsWellFormed sample 320)
mft_validate-Decides_example = mft_validate-Decides sample 320 sample-IsBuffer

mft_get_by_name-Finds_example :
    (o : Option (ℕ × MftEntry)) × (mft_get_by_name sample (padded disk_name) mft_dev_block_basic
      ≡ done o)
    × Finds sample (padded disk_name) mft_dev_block_basic 0 3 o
mft_get_by_name-Finds_example =
    mft_get_by_name-Finds sample (padded disk_name) mft_dev_block_basic sample-IsUsable tt
