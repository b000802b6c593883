-- ===== src/Gsyncio/Build.antt =====
-- `DynamicGoBuildHook.initialize` of hatch_build.py.
use Prim.Native.String.{String}
use pipebomb.Base.{ℕ, [], ◌∷◌, Bool, true, false, not, ◌&&◌, if◌then◌else◌, Option, none, some}
use pipebomb.Base.Result.{Result, ok, err, file_not_found_error}
use text.Mathlib.Text.{◌==◌}
use pipebomb.Gsyncio.Paths.{
  FilePath, parent, eq_path, named, go_library_extension, compiled_library_extension,
}

-- The hook: its configuration, its target and the root of the project.
pub record Hook : Type 0 where
  pub should_use_gsyncio : Bool
  pub compiled_sdist : Bool
  pub target_name : String
  pub root : FilePath

-- `build_data`: "infer_tag", and "force_include" as a map from paths to paths in the archive.
pub record BuildData : Type 0 where
  pub infer_tag : Option Bool
  pub force_include : FilePath → Option FilePath

unfoldable pub include : FilePath → FilePath → BuildData → BuildData
include from to build_data = record build_data {
  force_include = λ p. if eq_path from p then some to else build_data.force_include p;
}

-- What the hook calls, over the state of the file system: `shutil.which("go")`, `os.unlink` and
-- `os.remove`, `shutil.rmtree(..., ignore_errors=True)`, `subprocess.run` of the Go compiler without
-- `check`, from a folder to a library, with its exit code, the CFFI compiler, and `os.rename`.
pub record Tools (F : Type 0) : Type 0 where
  pub platform : String
  pub which_go : Option FilePath
  pub remove : FilePath → F → Result (Unit {0}) × F
  pub rmtree : FilePath → F → F
  pub go_build : FilePath → FilePath → F → Result ℕ × F
  pub cffi_compile : FilePath → F → Result FilePath × F
  pub rename : FilePath → FilePath → F → Result (Unit {0}) × F

-- `path.with_suffix(extension)`, for a name that has no suffix.
abbrev with_suffix : FilePath → String → FilePath
with_suffix [] extension = []
with_suffix (name ∷ dir) extension = named name extension ∷ dir

module _ {F : Type 0} (tools : Tools F) (hook : Hook) where
  -- The outcome, the build data and the file system.
  abbrev pub Step : Type 0
  Step = BuildData → F → Result (Unit {0}) × BuildData × F

  abbrev pub dist_path : FilePath
  dist_path = "dist" ∷ hook.root

  abbrev pub gsyncio_path : FilePath
  gsyncio_path = "gsyncio" ∷ "pipebomb" ∷ hook.root

  abbrev pub go_name : String
  go_name = named "gsyncio" (go_library_extension tools.platform)

  abbrev pub go_compiled_library_path : FilePath
  go_compiled_library_path = go_name ∷ dist_path

  abbrev pub cffi_name : String
  cffi_name = named "gsyncio_cffi" (compiled_library_extension tools.platform)

  -- `except FileNotFoundError: pass`, and what follows.
  abbrev pub unless_missing :
      Result (Unit {0}) × F → Step → BuildData → Result (Unit {0}) × BuildData × F
  unless_missing (ok done, files) next build_data = next build_data files
  unless_missing (err file_not_found_error, files) next build_data = next build_data files
  unless_missing (err e, files) next build_data = (err e, build_data, files)

  unfoldable pub force_both : BuildData → BuildData
  unfolding include
  force_both build_data =
      include go_compiled_library_path (go_name ∷ "gsyncio" ∷ "pipebomb" ∷ [])
        (include (cffi_name ∷ dist_path) (cffi_name ∷ "gsyncio" ∷ "pipebomb" ∷ []) build_data)

  -- Both libraries go into the archive, if the compiled one was renamed.
  abbrev pub included : Result (Unit {0}) × F → BuildData → Result (Unit {0}) × BuildData × F
  included (err e, files) build_data = (err e, build_data, files)
  included (ok done, files) build_data = (ok tt, force_both build_data, files)

  -- From the CFFI compiler on; what it raises is reported, and no library goes into the archive.
  abbrev pub compiled : Result FilePath × F → BuildData → Result (Unit {0}) × BuildData × F
  compiled (err e, files) build_data = (ok tt, record build_data { infer_tag = some false }, files)
  compiled (ok path, files) build_data =
      included (tools.rename path (cffi_name ∷ dist_path) files) build_data

  unfoldable pub build_cffi : Step
  build_cffi build_data files = compiled (tools.cffi_compile dist_path files) build_data

  -- What an earlier build left is removed; where the first file is missing, the second stays.
  abbrev pub remove_header : Result (Unit {0}) × F → Result (Unit {0}) × F
  remove_header (err e, files) = (err e, files)
  remove_header (ok done, files) = tools.remove ("gsyncio.h" ∷ dist_path) files

  abbrev pub removed : F → Result (Unit {0}) × F
  removed files =
      remove_header
        (tools.remove ("gsyncio_cffi.so" ∷ dist_path) (tools.rmtree ("pipebomb" ∷ dist_path) files))

  unfoldable pub clean_up_build : Step → Step
  clean_up_build next build_data files = unless_missing (removed files) next build_data

  -- The Go compiler; its exit code is not looked at.
  abbrev pub ran : Result ℕ × F → Step → BuildData → Result (Unit {0}) × BuildData × F
  ran (err e, files) next build_data = (err e, build_data, files)
  ran (ok code, files) next build_data = next build_data files

  unfoldable pub build_go : Step → Step
  build_go next build_data files =
      ran (tools.go_build gsyncio_path go_compiled_library_path files) next build_data

  -- The library of an earlier build is unlinked, and a header, if they are there.
  unfoldable pub unlink_library : Step → Step
  unlink_library next build_data files =
      unless_missing (tools.remove go_compiled_library_path files) next build_data

  abbrev pub header_path : FilePath
  header_path = with_suffix (parent go_compiled_library_path) ".h"

  unfoldable pub unlink_header : Step → Step
  unlink_header next build_data files =
      unless_missing (tools.remove header_path files) next build_data

  abbrev pub build : Step
  build = unlink_library (unlink_header (build_go (clean_up_build build_cffi)))

  abbrev pub with_go : Option FilePath → Step
  with_go none build_data files = (ok tt, record build_data { infer_tag = some false }, files)
  with_go (some go_binary) build_data files =
      build (record build_data { infer_tag = some true }) files

  unfoldable pub initialize : Step
  initialize build_data files =
      if not hook.should_use_gsyncio
      then (ok tt, build_data, files)
      else if not (hook.target_name == "wheel") && not hook.compiled_sdist
      then (ok tt, build_data, files)
      else with_go tools.which_go build_data files
