-- ===== src/Gsyncio/Wheel.antt =====
-- What hatch_build.py puts into a wheel, and what pipebomb/gsyncio/__init__.py and pipebomb/utils.py
-- find there.
use pipebomb.Base.{
  ℕ, [], ◌∷◌, ◌≡◌, refl, sym, ◌||◌, ◌⊎◌, inl, inr, Bool, true, false, not, ◌&&◌, if◌then◌else◌,
  Option, none, some, arith,
}
use pipebomb.Base.Result.{Result, ok, err, file_not_found_error}
use text.Mathlib.Text.{◌==◌}
use Prim.Native.String.{String}
use mathlib.Core.Path.{subst}
use pipebomb.Gsyncio.Paths.{FilePath, eq_path, named, is_windows, is_darwin}
use pipebomb.Gsyncio.Build.{
  Hook, BuildData, Tools, Step, force_both, compiled, included, unless_missing, ran, cffi_name,
  go_name, include, dist_path, gsyncio_path, go_compiled_library_path, header_path, removed,
  build_cffi, clean_up_build, build_go, unlink_header, unlink_library, build, with_go, initialize,
}

-- The Go library and the CFFI extension on Windows, on macOS and elsewhere.
abbrev pub library_names : Bool → Bool → String × String
library_names true darwin = ("gsyncio.dll", "gsyncio_cffi.pyd")
library_names false true = ("gsyncio.dylib", "gsyncio_cffi.so")
library_names false false = ("gsyncio.so", "gsyncio_cffi.so")

-- Both are taken from the folder dist to pipebomb/gsyncio, and nothing else is added.
pub record HasBoth (root : FilePath) (go cffi : String) (build_data out : BuildData) : Type 0 where
  pub tagged : out.infer_tag ≡ some true
  pub included_files :
      (from : FilePath)
      → out.force_include from ≡ (
          if eq_path (go ∷ "dist" ∷ root) from
          then some (go ∷ "gsyncio" ∷ "pipebomb" ∷ [])
          else if eq_path (cffi ∷ "dist" ∷ root) from
          then some (cffi ∷ "gsyncio" ∷ "pipebomb" ∷ [])
          else build_data.force_include from)

library_names-named :
    (windows darwin : Bool)
    → library_names windows darwin ≡ (
      named "gsyncio" (if windows then ".dll" else if darwin then ".dylib" else ".so"),
      named "gsyncio_cffi" (if windows then ".pyd" else if darwin then ".so" else ".so"),
    )
library_names-named true darwin = refl
library_names-named false true = refl
library_names-named false false = refl

module _ {F : Type 0} (tools : Tools F) (hook : Hook) where
  -- A step that comes to its end has made the wheel one of Python alone, or put both libraries in.
  abbrev Made : BuildData → Result (Unit {0}) × BuildData × F → Type 0
  Made build_data r =
      r.0 ≡ ok tt
      → (r.1 ≡ record build_data { infer_tag = some false })
        ⊎ (r.1 ≡ force_both tools hook build_data)

  abbrev IsMaking : Step tools hook → Type 0
  IsMaking step = (build_data : BuildData) (files : F) → Made build_data (step build_data files)

  unless_missing-Made :
      (r : Result (Unit {0}) × F) (next : Step tools hook) (build_data : BuildData)
      → IsMaking next
      → Made build_data (unless_missing tools hook r next build_data)
  unless_missing-Made (ok done, files) next build_data h came = h build_data files came
  unless_missing-Made (err file_not_found_error, files) next build_data h came =
      h build_data files came
  unless_missing-Made (err e, files) next build_data h came = absurd (ground arith)

  included-Made :
      (r : Result (Unit {0}) × F) (build_data : BuildData)
      → Made build_data (included tools hook r build_data)
  included-Made (err e, files) build_data came = absurd (ground arith)
  included-Made (ok done, files) build_data came = inr refl

  compiled-Made :
      (r : Result FilePath × F) (build_data : BuildData)
      → Made build_data (compiled tools hook r build_data)
  compiled-Made (err e, files) build_data came = inl refl
  compiled-Made (ok path, files) build_data came =
      included-Made (tools.rename path (cffi_name tools hook ∷ dist_path tools hook) files)
        build_data came

  ran-Made :
      (r : Result ℕ × F) (next : Step tools hook) (build_data : BuildData)
      → IsMaking next
      → Made build_data (ran tools hook r next build_data)
  ran-Made (err e, files) next build_data h came = absurd (ground arith)
  ran-Made (ok code, files) next build_data h came = h build_data files came

  build_cffi-IsMaking : IsMaking (build_cffi tools hook)
  unfolding build_cffi
  build_cffi-IsMaking build_data files =
      compiled-Made (tools.cffi_compile (dist_path tools hook) files) build_data

  module _ (next : Step tools hook) (h : IsMaking next) where
    clean_up_build-IsMaking : IsMaking (clean_up_build tools hook next)
    unfolding clean_up_build
    clean_up_build-IsMaking build_data files =
        unless_missing-Made (removed tools hook files) next build_data h

    build_go-IsMaking : IsMaking (build_go tools hook next)
    unfolding build_go
    build_go-IsMaking build_data files =
        ran-Made
          (tools.go_build (gsyncio_path tools hook) (go_compiled_library_path tools hook) files)
          next build_data h

    unlink_header-IsMaking : IsMaking (unlink_header tools hook next)
    unfolding unlink_header
    unlink_header-IsMaking build_data files =
        unless_missing-Made (tools.remove (header_path tools hook) files) next build_data h

    unlink_library-IsMaking : IsMaking (unlink_library tools hook next)
    unfolding unlink_library
    unlink_library-IsMaking build_data files =
        unless_missing-Made (tools.remove (go_compiled_library_path tools hook) files) next
          build_data h

  build-IsMaking : IsMaking (build tools hook)
  build-IsMaking =
      let compile = build_cffi tools hook in
      let clean = clean_up_build tools hook compile in
      let go = build_go tools hook clean in
      unlink_library-IsMaking (unlink_header tools hook go) (
        unlink_header-IsMaking go
          (build_go-IsMaking clean (clean_up_build-IsMaking compile build_cffi-IsMaking)))

  force_both-HasBoth :
      (build_data : BuildData)
      → HasBoth hook.root
          (go_name tools hook)
          (cffi_name tools hook)
          build_data
          (force_both tools hook (record build_data { infer_tag = some true }))
  unfolding force_both include
  force_both-HasBoth build_data = record { tagged = refl; included_files = λ from. refl }

  -- The names of the platform, and whether the hook has nothing to do.
  abbrev pub platform_names : String × String
  platform_names = library_names (is_windows tools.platform) (is_darwin tools.platform)

  abbrev pub is_skipped : Bool
  is_skipped =
      not hook.should_use_gsyncio || (not (hook.target_name == "wheel") && not hook.compiled_sdist)

  -- What the hook comes to: the build data as they were, for a wheel of Python alone, or for one with
  -- the platform's tag and both libraries.
  abbrev pub Packed : BuildData → BuildData → Type 0
  Packed build_data out =
      ((is_skipped ≡ true) × (out ≡ build_data))
      ⊎ ((is_skipped ≡ false)
          × ((out ≡ record build_data { infer_tag = some false })
              ⊎ HasBoth hook.root platform_names.0 platform_names.1 build_data out))

  with_go-Packed :
      (go : Option FilePath) (build_data : BuildData) (files : F)
      → (with_go tools hook go build_data files).0 ≡ ok tt
      → ((with_go tools hook go build_data files).1 ≡ record build_data { infer_tag = some false })
        ⊎ HasBoth hook.root platform_names.0 platform_names.1 build_data
            (with_go tools hook go build_data files).1
  with_go-Packed none build_data files came = inl refl
  with_go-Packed (some go_binary) build_data files came =
      elim (build-IsMaking (record build_data { infer_tag = some true }) files came) [
        | inl pure ↦ inl pure
        | inr both ↦ inr (
            subst
              (λ (n : String × String).
                HasBoth hook.root n.0 n.1 build_data
                  (with_go tools hook (some go_binary) build_data files).1)
              (sym (library_names-named (is_windows tools.platform) (is_darwin tools.platform)))
              (subst (HasBoth hook.root (go_name tools hook) (cffi_name tools hook) build_data)
                (sym both) (force_both-HasBoth build_data)))
      ]

  skipped-or-made :
      (a b : Bool) (build_data : BuildData) (files : F) (r : Result (Unit {0}) × BuildData × F)
      (P : BuildData → Type 0)
      → (r.0 ≡ ok tt → P r.1)
      → let skip : Result (Unit {0}) × BuildData × F = (ok tt, build_data, files) in
        let out = if a then skip else if b then skip else r in
        out.0 ≡ ok tt → (((a || b) ≡ true) × (out.1 ≡ build_data)) ⊎ (((a || b) ≡ false) × P out.1)
  skipped-or-made true b build_data files r P h came = inl (refl, refl)
  skipped-or-made false true build_data files r P h came = inl (refl, refl)
  skipped-or-made false false build_data files r P h came = inr (refl, h came)

  -- Whatever the tools do, a hook that comes to its end has left the build data as they were, just if
  -- it is not to use gsyncio or neither makes a wheel nor compiles the sdist; and otherwise made the
  -- wheel one of Python alone, with nothing added to it, or one for the platform, with exactly the Go
  -- library and the CFFI extension added, from the folder dist to pipebomb/gsyncio, under the names
  -- that they have on Windows, on macOS or elsewhere.
  pub initialize-Packed :
      (build_data : BuildData) (files : F)
      → (initialize tools hook build_data files).0 ≡ ok tt
      → Packed build_data (initialize tools hook build_data files).1
  unfolding initialize
  initialize-Packed build_data files =
      skipped-or-made (not hook.should_use_gsyncio)
        (not (hook.target_name == "wheel") && not hook.compiled_sdist) build_data files
        (with_go tools hook tools.which_go build_data files)
        (λ out.
          (out ≡ record build_data { infer_tag = some false })
          ⊎ HasBoth hook.root platform_names.0 platform_names.1 build_data out)
        (with_go-Packed tools.which_go build_data files)
