-- ===== src/Gsyncio/Paths.antt =====
-- Paths of pathlib, and the names that pipebomb/gsyncio/__init__.py, pipebomb/utils.py and
-- hatch_build.py give to the libraries.
use Prim.Native.String.{String, ◌++◌}
use pipebomb.Base.{List, [], ◌∷◌, Bool, true, false, ◌&&◌, if◌then◌else◌}
use text.Mathlib.Text.{◌==◌, starts_with}

-- The names from the innermost one out: `dir / name` is `name ∷ dir`.
abbrev pub FilePath : Type 0
FilePath = List String

abbrev pub parent : FilePath → FilePath
parent [] = []
parent (name ∷ dir) = dir

abbrev pub eq_path : FilePath → FilePath → Bool
eq_path [] [] = true
eq_path (x ∷ xs) (y ∷ ys) = (x == y) && eq_path xs ys
eq_path p q = false

-- A name with its extension.
abbrev pub named : String → String → String
named stem extension = stem ++ extension

-- `sys.platform`, and the tests on it.
abbrev pub is_windows : String → Bool
is_windows platform = starts_with platform "win"

abbrev pub is_darwin : String → Bool
is_darwin platform = starts_with platform "darwin"

-- `comp_ext` of `_find_cffi_ext`, and `compiled_library_extension` of the build.
abbrev pub comp_ext : String → String
comp_ext platform = if is_windows platform then ".pyd" else ".so"

-- `go_ext` of `_init_gsyncio`.
abbrev pub go_ext : String → String
go_ext platform =
    if is_windows platform then ".pyd" else if is_darwin platform then ".dylib" else ".so"

-- `go_library_extension` of the build.
abbrev pub go_library_extension : String → String
go_library_extension platform =
    if is_windows platform then ".dll" else if is_darwin platform then ".dylib" else ".so"

-- `compiled_library_extension` of the build.
abbrev pub compiled_library_extension : String → String
compiled_library_extension platform =
    if is_windows platform then ".pyd" else if is_darwin platform then ".so" else ".so"
