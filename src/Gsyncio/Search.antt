-- ===== src/Gsyncio/Search.antt =====
-- `_find_cffi_ext` of pipebomb/gsyncio/__init__.py, and the search of `_init_gsyncio` of
-- pipebomb/utils.py.
use Prim.Native.String.{String}
use pipebomb.Base.{ℕ, List, [], ◌∷◌, ◌++◌, map, ◌≡◌, Bool, Option, none, some, if◌then◌else◌, arith}
use pipebomb.Base.Result.{Result}
use text.Mathlib.Text.{◌==◌}
use pipebomb.Gsyncio.Paths.{FilePath, parent, named, comp_ext, go_ext}

-- The interpreter: its platform and environment, the file system, where the two modules are, and the
-- loading of libraries, which may raise.
pub record Interpreter : Type 0 where
  pub platform : String
  -- `os.environ.get("GSYNCIO_PATH")`
  pub gsyncio_path : Option String
  -- `FilePath(text).resolve()` and `FilePath(__file__).resolve()`
  pub resolve_text : String → FilePath
  pub resolve : FilePath → FilePath
  pub exists : FilePath → Bool
  -- `__file__` of pipebomb/gsyncio/__init__.py and of pipebomb/utils.py
  pub gsyncio_file : FilePath
  pub utils_file : FilePath
  -- Whether `spec_from_file_location` gives a spec with a loader, `exec_module`, the addresses of the
  -- functions of the interpreter lock, and `ffi.dlopen`.
  pub has_loader : FilePath → Bool
  pub exec_module : FilePath → Result (Unit {0})
  pub gil_addresses : Result (ℕ × ℕ)
  pub dlopen : FilePath → Result (Unit {0})

module _ (i : Interpreter) where
  -- `if path.exists(): return path`
  abbrev existing : FilePath → Option FilePath
  existing path = if i.exists path then some path else none

  abbrev or_else : Option FilePath → Option FilePath → Option FilePath
  or_else none later = later
  or_else (some path) later = some path

  -- The folder of the environment, if one is given.
  abbrev in_folder : String → Option String → Option FilePath
  in_folder name none = none
  in_folder name (some folder) =
      if folder == "" then none else existing (name ∷ i.resolve_text folder)

  unfoldable pub find_cffi_ext : Option FilePath
  find_cffi_ext =
      let name = named "gsyncio_cffi" (comp_ext i.platform) in
      let pkg_dir = parent (i.resolve i.gsyncio_file) in
      or_else (in_folder name i.gsyncio_path)
        (or_else (existing (name ∷ "dist" ∷ parent (parent pkg_dir))) (existing (name ∷ pkg_dir)))

  unfoldable pub find_go_library : Option FilePath
  find_go_library =
      let name = named "gsyncio" (go_ext i.platform) in
      or_else (in_folder name i.gsyncio_path) (
        or_else (existing (name ∷ "dist" ∷ parent (parent (i.resolve i.utils_file))))
          (existing (name ∷ "gsyncio" ∷ parent i.utils_file)))

  -- The first of some places where something is.
  abbrev pub first_existing : List FilePath → Option FilePath
  first_existing [] = none
  first_existing (path ∷ paths) = if i.exists path then some path else first_existing paths

  -- The folder of `GSYNCIO_PATH`, unless it is not set or empty.
  abbrev pub environ_folder : Option String → List FilePath
  environ_folder none = []
  environ_folder (some folder) = if folder == "" then [] else i.resolve_text folder ∷ []

  abbrev pub in_folders : String → List FilePath → List FilePath
  in_folders name = map (λ dir. name ∷ dir)

  places :
      (name : String) (folder : Option String) (p q : FilePath)
      → or_else (in_folder name folder) (or_else (existing (name ∷ p)) (existing (name ∷ q)))
        ≡ first_existing (in_folders name (environ_folder folder ++ (p ∷ q ∷ [])))
  places name none p q = ground arith
  places name (some folder) p q = ground arith

  abbrev pub folders : FilePath → List FilePath
  folders home = environ_folder i.gsyncio_path ++ (("dist" ∷ parent home) ∷ ("gsyncio" ∷ home) ∷ [])

  -- Both searches go through the same folders, if the resolved path of either module is that of the
  -- package, and take the first that has the library: that of the environment, if one is named, then
  -- dist beside the package, then pipebomb/gsyncio.
  pub search-first_existing :
      (home : FilePath)
      → i.resolve i.gsyncio_file ≡ "__init__.py" ∷ "gsyncio" ∷ home
      → i.resolve i.utils_file ≡ "utils.py" ∷ home
      → i.utils_file ≡ "utils.py" ∷ home
      → (find_cffi_ext
          ≡ first_existing (in_folders (named "gsyncio_cffi" (comp_ext i.platform)) (folders home)))
        × (find_go_library
            ≡ first_existing (in_folders (named "gsyncio" (go_ext i.platform)) (folders home)))
  unfolding find_cffi_ext find_go_library
  search-first_existing home at_gsyncio at_utils there =
      rw (at_gsyncio, at_utils, there)
        (
          places (named "gsyncio_cffi" (comp_ext i.platform)) i.gsyncio_path ("dist" ∷ parent home)
              ("gsyncio" ∷ home),
          places (named "gsyncio" (go_ext i.platform)) i.gsyncio_path ("dist" ∷ parent home)
              ("gsyncio" ∷ home),
        )
