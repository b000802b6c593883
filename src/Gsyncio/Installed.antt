-- ===== src/Gsyncio/Installed.antt =====
-- A wheel of hatch_build.py with both libraries, and what pipebomb/gsyncio/__init__.py and
-- pipebomb/utils.py find when it is installed.
use Prim.Native.String.{String}
use pipebomb.Base.{
  [], ◌∷◌, not, ◌≡◌, refl, sym, ap, ◌∙◌, ◌⊎◌, inl, inr, Bool, true, false, if◌then◌else◌, Option,
  none, some, Bool-cases, arith,
}
use text.Mathlib.Text.{◌==◌}
use text.Mathlib.TextPositions.{eq_refl}
use pipebomb.Gsyncio.Paths.{
  FilePath, parent, eq_path, named, is_windows, is_darwin, comp_ext, go_ext, go_library_extension,
  compiled_library_extension,
}
use pipebomb.Gsyncio.Search.{
  Interpreter, find_cffi_ext, find_go_library, first_existing, in_folders, folders,
  search-first_existing,
}
use pipebomb.Gsyncio.Build.{
  Hook, BuildData, Tools, include, force_both, cffi_name, go_name, dist_path,
  go_compiled_library_path,
}

eq_path_refl : (p : FilePath) → eq_path p p ≡ true
eq_path_refl [] = refl
eq_path_refl (x ∷ xs) = rw (eq_refl x) (eq_path_refl xs)

-- The names of a platform, by the two tests on it.
go_name-cffi_name :
    (windows darwin : Bool)
    → (named "gsyncio" (if windows then ".dll" else if darwin then ".dylib" else ".so")
        == named "gsyncio_cffi" (if windows then ".pyd" else if darwin then ".so" else ".so"))
      ≡ false
go_name-cffi_name true darwin = refl
go_name-cffi_name false true = refl
go_name-cffi_name false false = refl

compiled_library_extension-comp_ext :
    (platform : String) → compiled_library_extension platform ≡ comp_ext platform
compiled_library_extension-comp_ext platform = ground arith

-- The Go library has the name under which it is looked for, but on Windows.
go_library_extension-go_ext :
    (platform : String)
    → is_windows platform ≡ false
    → go_library_extension platform ≡ go_ext platform
go_library_extension-go_ext platform h = ground arith

-- Where the archive has the files of pipebomb/gsyncio.
abbrev pub packed_at : String → FilePath
packed_at name = name ∷ "gsyncio" ∷ "pipebomb" ∷ []

packed_at-apart : (x y : String) → (x == y) ≡ false → packed_at x ≡ packed_at y → ⊥
packed_at-apart x y differ e =
    let same : eq_path (packed_at x) (packed_at y) ≡ true =
      ap (λ p. eq_path p (packed_at y)) e ∙ eq_path_refl (packed_at y) in
    ground arith

-- On Windows it has another, and so has the CFFI extension.
on_windows :
    (windows darwin : Bool)
    → windows ≡ true
    → ((named "gsyncio" (if windows then ".dll" else if darwin then ".dylib" else ".so")
          == named "gsyncio" (if windows then ".pyd" else if darwin then ".dylib" else ".so"))
        ≡ false)
      × ((named "gsyncio_cffi" (if windows then ".pyd" else if darwin then ".so" else ".so")
            == named "gsyncio" (if windows then ".pyd" else if darwin then ".dylib" else ".so"))
          ≡ false)
on_windows true darwin h = (refl, refl)
on_windows false darwin h = absurd (ground arith)

-- The package is installed from a wheel, in a folder beside which there is no dist, and no folder is
-- set in the environment.
pub record Installed (i : Interpreter) (home : FilePath) (wheel : BuildData) : Type 0 where
  pub gsyncio_there : i.resolve i.gsyncio_file ≡ "__init__.py" ∷ "gsyncio" ∷ home
  pub utils_there : i.resolve i.utils_file ≡ "utils.py" ∷ home
  pub utils_named : i.utils_file ≡ "utils.py" ∷ home
  pub no_folder : i.gsyncio_path ≡ none
  pub no_dist : (name : String) → i.exists (name ∷ "dist" ∷ parent home) ≡ false
  -- What the wheel includes is there, and the file that is looked for as the Go library is there only
  -- if the wheel includes it.
  pub unpacked :
      (from : FilePath) (name : String)
      → wheel.force_include from ≡ some (packed_at name)
      → i.exists (name ∷ "gsyncio" ∷ home) ≡ true
  pub from_wheel :
      i.exists (named "gsyncio" (go_ext i.platform) ∷ "gsyncio" ∷ home) ≡ true
      → (from : FilePath) × (wheel.force_include from
          ≡ some (packed_at (named "gsyncio" (go_ext i.platform))))

module _ {F : Type 0} (tools : Tools F) (hook : Hook) (tag : Option Bool) where
  -- The build data of a wheel for the platform, to which nothing else was added.
  abbrev pub wheel : BuildData
  wheel = force_both tools hook (record { infer_tag = tag; force_include = λ from. none })

  cffi_included :
      wheel.force_include (cffi_name tools hook ∷ dist_path tools hook)
      ≡ some (packed_at (cffi_name tools hook))
  unfolding force_both include
  cffi_included = rw (
    go_name-cffi_name (is_windows tools.platform) (is_darwin tools.platform),
    eq_path_refl (cffi_name tools hook ∷ dist_path tools hook),
  )

  go_included :
      wheel.force_include (go_compiled_library_path tools hook)
      ≡ some (packed_at (go_name tools hook))
  unfolding force_both include
  go_included = rw (eq_path_refl (go_compiled_library_path tools hook)) refl

  -- The name of anything that was included.
  included_cases :
      (a b : Bool) (name : String)
      → (if a
          then some (packed_at (go_name tools hook))
          else if b
          then some (packed_at (cffi_name tools hook))
          else none)
        ≡ some (packed_at name)
      → (packed_at (go_name tools hook) ≡ packed_at name)
        ⊎ (packed_at (cffi_name tools hook) ≡ packed_at name)
  included_cases true b name h = inl cc
  included_cases false true name h = inr cc
  included_cases false false name h = absurd (ground arith)

  -- On Windows no library is included under the name that is looked for.
  not_included :
      (from : FilePath)
      → is_windows tools.platform ≡ true
      → wheel.force_include from ≡ some (packed_at (named "gsyncio" (go_ext tools.platform)))
      → ⊥
  unfolding force_both include
  not_included from windows h =
      let sought = named "gsyncio" (go_ext tools.platform) in
      let differ = on_windows (is_windows tools.platform) (is_darwin tools.platform) windows in
      elim (included_cases (eq_path (go_compiled_library_path tools hook) from)
        (eq_path (cffi_name tools hook ∷ dist_path tools hook) from) sought h) [
          | inl e ↦ packed_at-apart (go_name tools hook) sought differ.0 e
          | inr e ↦ packed_at-apart (cffi_name tools hook) sought differ.1 e
        ]

  module _ (i : Interpreter) (home : FilePath) (same : i.platform ≡ tools.platform)
      (inst : Installed i home wheel) where
    looked_up :
        (name : String) (there : Bool)
        → i.exists (name ∷ "gsyncio" ∷ home) ≡ there
        → first_existing i (in_folders i name (folders i home))
          ≡ (if there then some (name ∷ "gsyncio" ∷ home) else none)
    looked_up name there h = rw (inst.no_folder, inst.no_dist name, h) refl

    cffi_there : i.exists (named "gsyncio_cffi" (comp_ext i.platform) ∷ "gsyncio" ∷ home) ≡ true
    cffi_there =
        ap (λ e. i.exists (named "gsyncio_cffi" e ∷ "gsyncio" ∷ home))
          (ap comp_ext same ∙ sym (compiled_library_extension-comp_ext tools.platform))
        ∙ inst.unpacked (cffi_name tools hook ∷ dist_path tools hook) (cffi_name tools hook)
            cffi_included

    go_there :
        (windows : Bool)
        → is_windows i.platform ≡ windows
        → i.exists (named "gsyncio" (go_ext i.platform) ∷ "gsyncio" ∷ home) ≡ not windows
    go_there false h =
        ap (λ e. i.exists (named "gsyncio" e ∷ "gsyncio" ∷ home))
          (sym (go_library_extension-go_ext i.platform h) ∙ ap go_library_extension same)
        ∙ inst.unpacked (go_compiled_library_path tools hook) (go_name tools hook) go_included
    go_there true h =
        elim (Bool-cases (i.exists (named "gsyncio" (go_ext i.platform) ∷ "gsyncio" ∷ home))) [
          | inl there ↦
              let (from, included) = inst.from_wheel there in
              absurd (
                not_included from (ap is_windows (sym same) ∙ h)
                  (included ∙ ap (λ p. some (packed_at (named "gsyncio" (go_ext p)))) same))
          | inr missing ↦ missing
        ]

    -- A package that is installed from a wheel that the hook made with both libraries, on the platform
    -- that it was made on, with no folder in the environment and no dist beside it: the CFFI extension
    -- is found in it, and so is the Go library, but not on Windows, where none is found.
    pub wheel-found :
        (find_cffi_ext i ≡ some (named "gsyncio_cffi" (comp_ext i.platform) ∷ "gsyncio" ∷ home))
        × (find_go_library i ≡ (
            if is_windows i.platform
            then none
            else some (named "gsyncio" (go_ext i.platform) ∷ "gsyncio" ∷ home)))
    wheel-found =
        let (cffi, go) =
          search-first_existing i home inst.gsyncio_there inst.utils_there inst.utils_named in
        (
          cffi ∙ looked_up (named "gsyncio_cffi" (comp_ext i.platform)) true cffi_there,
          go
              ∙ looked_up (named "gsyncio" (go_ext i.platform)) (not (is_windows i.platform))
                  (go_there (is_windows i.platform) refl)
              ∙ ground arith,
        )
