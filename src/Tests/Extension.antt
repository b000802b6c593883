-- ===== src/Tests/Extension.antt =====
-- The theorems about the native extension: a build and an interpreter on Linux, and a loaded library.
use pipebomb.Base.{ℕ, ◌+◌, ◌≡◌, ◌≤◌, List, [], ◌∷◌, refl, Bool, true, false, none, some}
use pipebomb.Base.Result.{ok}
use pipebomb.Base.Integer.{pos}
use pipebomb.Gsyncio.Paths.{FilePath, eq_path, parent}
use pipebomb.Gsyncio.Search.{Interpreter, find_cffi_ext, find_go_library}
use pipebomb.Gsyncio.Loading.{
  Loaded, unloaded, import_gsyncio, init_gsyncio, IsReady, init_gsyncio-IsReady,
}
use pipebomb.Gsyncio.Build.{
  Hook, BuildData, Tools, include, force_both, initialize, build_cffi, clean_up_build, build_go,
  unlink_header, unlink_library, go_compiled_library_path,
}
use pipebomb.Gsyncio.Wheel.{Packed, initialize-Packed}
use pipebomb.Gsyncio.Installed.{Installed, wheel, wheel-found}
use pipebomb.Gsyncio.Events.{
  Event, starts_with_result, cancels, begins, comes_back, fresh, run, count, calls_by,
}
use pipebomb.Gsyncio.Once.{run-once}
use pipebomb.Gsyncio.Alive.{is_alive, run-alive}

abbrev home : FilePath
home = "pipebomb" ∷ "site-packages" ∷ []

-- Whether a path lies in the package's folder of the extension.
abbrev in_extension : FilePath → Bool
in_extension path = eq_path (parent path) ("gsyncio" ∷ home)

abbrev linux : Interpreter
linux = record {
  platform = "linux";
  gsyncio_path = none;
  resolve_text = λ text. text ∷ [];
  resolve = λ path. path;
  exists = in_extension;
  gsyncio_file = "__init__.py" ∷ "gsyncio" ∷ home;
  utils_file = "utils.py" ∷ home;
  has_loader = λ path. true;
  exec_module = λ path. ok tt;
  gil_addresses = ok (1, 2);
  dlopen = λ path. ok tt;
}

-- Tools that always come through; the file system is the number of their calls.
abbrev tools : Tools ℕ
tools = record {
  platform = "linux";
  which_go = some ("go" ∷ []);
  remove = λ path n. (ok tt, n + 1);
  rmtree = λ path n. n + 1;
  go_build = λ from to n. (ok 0, n + 1);
  cffi_compile = λ dir n. (ok ("gsyncio_cffi.cpython.so" ∷ dir), n + 1);
  rename = λ from to n. (ok tt, n + 1);
}

abbrev hook : Hook
hook = record {
  should_use_gsyncio = true;
  compiled_sdist = false;
  target_name = "wheel";
  root = "project" ∷ [];
}

abbrev no_data : BuildData
no_data = record { infer_tag = none; force_include = λ from. none }

initialize-Packed_example : Packed tools hook no_data (initialize tools hook no_data 0).1
unfolding initialize build_cffi clean_up_build build_go unlink_header unlink_library
initialize-Packed_example = initialize-Packed tools hook no_data 0 refl

abbrev installed : Installed linux home (wheel tools hook (some true))
unfolding force_both include
installed = record {
  gsyncio_there = refl;
  utils_there = refl;
  utils_named = refl;
  no_folder = refl;
  no_dist = λ name. refl;
  unpacked = λ from name h. refl;
  from_wheel = λ h. (go_compiled_library_path tools hook, refl);
}

wheel-found_example :
    (find_cffi_ext linux ≡ some ("gsyncio_cffi.so" ∷ "gsyncio" ∷ home))
    × (find_go_library linux ≡ some ("gsyncio.so" ∷ "gsyncio" ∷ home))
wheel-found_example = wheel-found tools hook (some true) linux home refl installed

-- Two tasks, of which the second is cancelled before it begins.
abbrev events : List Event
events =
    starts_with_result 8 (pos 1)
    ∷ starts_with_result 9 (pos 2)
    ∷ begins 0
    ∷ cancels (pos 2)
    ∷ begins 1
    ∷ comes_back 0
    ∷ []

run-once_example :
    (count 0 (run events fresh).go.called ≡ calls_by ((run events fresh).go.goroutines 0))
    × (count 0 (run events fresh).go.called ≤ 1)
run-once_example = run-once events 0

run-alive_example :
    is_alive ((run events fresh).go.goroutines 1) (run events fresh).live_callbacks ≡ true
run-alive_example = run-alive events 1

init_gsyncio-IsReady_example :
    IsReady (import_gsyncio linux unloaded)
    × ((m : Loaded) → IsReady m → IsReady (init_gsyncio linux m).1)
init_gsyncio-IsReady_example = init_gsyncio-IsReady linux
