-- ===== src/Examples/Setup.antt =====
-- The option `--block:disk=f` for the sample.
use solo.Base.{
  ℕ, ◌^◌, ◌<◌, ◌≡◌, refl, true, false, List, [], ◌∷◌, ◌++◌, none, some, some_inj, subst, done,
  returns, arith,
}
use solo.CString.Compare.{IsTerminated}
use solo.Mft.{MftEntry, mft_name_max}
use solo.BlockSetup.{Options, BlockModule, handle_cmdarg}
use solo.BlockSetup.Cmdarg.{IsKept, OptionsLaws, Handled, handle_cmdarg-IsKept}
use solo.Examples.{sample, sample-IsUsable, of_entries, disk_name}

abbrev options : Options
options = record {
  Disk = ℕ;
  scan_block = λ s. some (disk_name ++ 0 ∷ [], b'f' ∷ 0 ∷ []);
  scan_block_size = λ s. none;
  block_attach = λ d path. done (d, 5, 4096);
}

options-laws : OptionsLaws options
options-laws = record {
  block_name =
      λ s q h. subst (λ (r : List ℕ × List ℕ). IsTerminated mft_name_max r.0) (some_inj h) tt;
  size_name = λ s q h. absurd (ground (arith, h));
  attaches = λ d path. returns (d, 5, 4096) refl (omega arith);
}

abbrev argument : List ℕ
argument =
    b'-' ∷ b'-' ∷ b'b' ∷ b'l' ∷ b'o' ∷ b'c' ∷ b'k' ∷ b':' ∷ b'd' ∷ b'i' ∷ b's' ∷ b'k' ∷ b'=' ∷ b'f'
    ∷ 0 ∷ []

abbrev start : BlockModule ℕ
start = record { disk = 0; mft = sample; module_in_use = false }

sample-IsKept : IsKept sample
sample-IsKept = record {
  usable = sample-IsUsable;
  capacities =
      of_entries (λ (x : MftEntry). x.attached ≡ true → x.block_basic.capacity < 2 ^ 63)
        (λ on. omega arith) (λ on. omega arith) (λ on. omega arith);
}

handle_cmdarg-IsKept_example : Handled options start argument (handle_cmdarg options start argument)
handle_cmdarg-IsKept_example =
    handle_cmdarg-IsKept options options-laws start argument 14 refl sample-IsKept
