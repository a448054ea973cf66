-- ===== src/Build/Tests.antt =====
-- The search on a machine where two folders hold the library.
use play_evmone.Base.{◌≡◌, refl, true, none, some, [], ◌∷◌, ◌++◌, if◌then◌else◌}
use play_evmone.Base.Outcome.{returns}
use play_evmone.Bytes.{bytes_eq}
use play_evmone.Build.{
  FilePath, Environment, CargoLine, FirstHit, HoldsFile, is_file_in, candidates, paths_of,
  first_path_with_file, first_path_with_file-FirstHit, main, join, split_paths, libevmone_file,
}

abbrev opt : FilePath
opt = b'/' ∷ b'o' ∷ []

-- LD_LIBRARY_PATH is "/a:/o:", and the file is in "/o" and nowhere else.
abbrev machine : Environment
machine = record {
  ld_library_path = some (b'/' ∷ b'a' ∷ b':' ∷ opt ++ b':' ∷ []);
  metadata = λ p. if bytes_eq p (opt ++ b'/' ∷ libevmone_file) then some true else none;
  to_str = λ p. some p;
}

first_path_with_file-FirstHit_example :
    FirstHit
      (HoldsFile machine libevmone_file)
      (candidates machine (paths_of machine.ld_library_path))
      (first_path_with_file machine libevmone_file)
first_path_with_file-FirstHit_example = first_path_with_file-FirstHit machine libevmone_file

finds_opt : main machine ≡ returns (CargoLine.link_search opt ∷ CargoLine.link_lib ∷ [])
unfolding main first_path_with_file is_file_in join split_paths bytes_eq
finds_opt = refl
