-- ===== src/Build.antt =====
-- build.rs: the search for the library that the program is linked with.
mod Tests
use play_evmone.Base.{
  ℕ, ◌≡◌, refl, Bool, true, false, Option, none, some, List, [], ◌∷◌, ◌++◌, map, ◌==◌, Bool-cases,
  inl, inr, if◌then◌else◌,
}
use play_evmone.Base.Outcome.{Outcome, returns, panic, library_not_found}

-- A path or an operating system's string is the list of its bytes.
abbrev pub FilePath : Type 0
FilePath = List ℕ

-- What the script reads of its surroundings.
pub record Environment : Type 0 where
  -- `env::var_os("LD_LIBRARY_PATH")`
  pub ld_library_path : Option (List ℕ)
  -- `fs::metadata(path)`, and of what it finds `is_file()`
  pub metadata : FilePath → Option Bool
  -- `Path::to_str`, `none` if the bytes are not UTF-8
  pub to_str : FilePath → Option FilePath

-- The lines for cargo.
pub data CargoLine : Type 0 where
  -- "cargo:rustc-link-search=native={}"
  link_search : FilePath → CargoLine
  -- "cargo:rustc-link-lib=dylib=evmone"
  link_lib : CargoLine

abbrev cons_first : ℕ → List FilePath → List FilePath
cons_first c [] = (c ∷ []) ∷ []
cons_first c (p ∷ ps) = (c ∷ p) ∷ ps

-- `env::split_paths`
unfoldable pub split_paths : List ℕ → List FilePath
split_paths [] = [] ∷ []
split_paths (c ∷ cs) =
    let rest = split_paths cs in if c == b':' then [] ∷ rest else cons_first c rest

-- What `Path::join` puts behind a folder.
abbrev behind : FilePath → FilePath → FilePath
behind [] file = file
behind (c ∷ []) file = if c == b'/' then c ∷ file else c ∷ b'/' ∷ file
behind (c ∷ d ∷ rest) file = c ∷ behind (d ∷ rest) file

abbrev starts_with_slash : FilePath → Bool
starts_with_slash [] = false
starts_with_slash (c ∷ cs) = c == b'/'

-- `Path::join`; an absolute path replaces the folder.
unfoldable pub join : FilePath → FilePath → FilePath
join folder file = if starts_with_slash file then file else behind folder file

-- "libevmone.so"
abbrev libevmone_file : FilePath
libevmone_file =
    b'l' ∷ b'i' ∷ b'b' ∷ b'e' ∷ b'v' ∷ b'm' ∷ b'o' ∷ b'n' ∷ b'e' ∷ b'.' ∷ b's' ∷ b'o' ∷ []

-- "/usr/lib" and "/usr/local/lib"
abbrev default_folders : List FilePath
default_folders =
    (b'/' ∷ b'u' ∷ b's' ∷ b'r' ∷ b'/' ∷ b'l' ∷ b'i' ∷ b'b' ∷ [])
    ∷ (b'/' ∷ b'u' ∷ b's' ∷ b'r' ∷ b'/' ∷ b'l' ∷ b'o' ∷ b'c' ∷ b'a' ∷ b'l' ∷ b'/' ∷ b'l' ∷ b'i'
        ∷ b'b' ∷ [])
    ∷ []

-- `Ok(ref found) if found.is_file() => true, _ => false`
abbrev is_found_file : Option Bool → Bool
is_found_file (some true) = true
is_found_file _ = false

abbrev paths_of : Option (List ℕ) → List FilePath
paths_of none = []
paths_of (some ld_path) = split_paths ld_path

module _ (env : Environment) where
  unfoldable pub is_file_in : FilePath → FilePath → Bool
  unfolding join
  is_file_in file folder = is_found_file (env.metadata (join folder file))

  -- The loop over the default folders.
  search_defaults : FilePath → List FilePath → Option FilePath
  search_defaults file [] = none
  search_defaults file (p ∷ rest) =
      let later = search_defaults file rest in if is_file_in file p then some p else later

  -- The loop over LD_LIBRARY_PATH, and what follows it.
  search_paths : FilePath → List FilePath → Option FilePath
  unfolding search_defaults
  search_paths file [] = search_defaults file default_folders
  search_paths file (p ∷ rest) =
      let later = search_paths file rest in if is_file_in file p then env.to_str p else later

  unfoldable pub first_path_with_file : FilePath → Option FilePath
  unfolding search_paths
  first_path_with_file file = search_paths file (paths_of env.ld_library_path)

  abbrev report : Option FilePath → Outcome (List CargoLine)
  report (some path) = returns (CargoLine.link_search path ∷ CargoLine.link_lib ∷ [])
  report none = panic library_not_found

  unfoldable pub main : Outcome (List CargoLine)
  unfolding first_path_with_file
  main = report (first_path_with_file libevmone_file)

  -- The folders in the order of the search, with what is answered for each.
  abbrev pub candidates : List FilePath → List (FilePath × Option FilePath)
  candidates paths = map (λ p. (p, env.to_str p)) paths ++ map (λ p. (p, some p)) default_folders

-- The answer of the first folder of which `Holds` is true, or none.
pub data FirstHit (Holds : FilePath → Type 0)
    : List (FilePath × Option FilePath) → Option FilePath → Type 0 where
  no_folder : FirstHit Holds [] none
  hit :
      {p : FilePath} {answer : Option FilePath} {rest : List (FilePath × Option FilePath)}
      → Holds p
      → FirstHit Holds ((p, answer) ∷ rest) answer
  pass :
      {p : FilePath} {answer r : Option FilePath} {rest : List (FilePath × Option FilePath)}
      → ¬ (Holds p)
      → FirstHit Holds rest r
      → FirstHit Holds ((p, answer) ∷ rest) r

is_found_file-true : (o : Option Bool) → is_found_file o ≡ true → o ≡ some true
is_found_file-true none h = cc
is_found_file-true (some true) h = refl
is_found_file-true (some false) h = cc

module _ (env : Environment) (file : FilePath) where
  -- What is at the path of the file in a folder is there, and is a file.
  abbrev pub HoldsFile : FilePath → Type 0
  HoldsFile p = env.metadata (join p file) ≡ some true

  is_file_in-HoldsFile : (p : FilePath) → is_file_in env file p ≡ true → HoldsFile p
  unfolding is_file_in
  is_file_in-HoldsFile p h = is_found_file-true (env.metadata (join p file)) h

  not_file_in : (p : FilePath) → is_file_in env file p ≡ false → ¬ (HoldsFile p)
  unfolding is_file_in
  not_file_in p h e = let q : true ≡ false = rw e at h in cc q

  search_defaults-FirstHit :
      (paths : List FilePath)
      → FirstHit HoldsFile (map (λ p. (p, some p)) paths) (search_defaults env file paths)
  unfolding search_defaults
  search_defaults-FirstHit [] = no_folder
  search_defaults-FirstHit (p ∷ rest) = elim (Bool-cases (is_file_in env file p)) [
    | inl e ↦ rw e (hit (is_file_in-HoldsFile p e))
    | inr e ↦ rw e (pass (not_file_in p e) (search_defaults-FirstHit rest))
  ]

  search_paths-FirstHit :
      (paths : List FilePath)
      → FirstHit HoldsFile (candidates env paths) (search_paths env file paths)
  unfolding search_paths
  search_paths-FirstHit [] = search_defaults-FirstHit default_folders
  search_paths-FirstHit (p ∷ rest) = elim (Bool-cases (is_file_in env file p)) [
    | inl e ↦ rw e (hit (is_file_in-HoldsFile p e))
    | inr e ↦ rw e (pass (not_file_in p e) (search_paths-FirstHit rest))
  ]

  -- The folders of LD_LIBRARY_PATH are searched in order, then /usr/lib and /usr/local/lib. The
  -- first that has a file, and no folder, of that name decides: it is the answer, but if it comes
  -- from LD_LIBRARY_PATH and is not UTF-8, there is none, whatever the later folders hold.
  pub first_path_with_file-FirstHit :
      FirstHit HoldsFile
        (candidates env (paths_of env.ld_library_path))
        (first_path_with_file env file)
  unfolding first_path_with_file
  first_path_with_file-FirstHit = search_paths-FirstHit (paths_of env.ld_library_path)
