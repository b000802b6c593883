-- ===== src/Gsyncio/Loading.antt =====
-- `_init` and `load_go_library` of pipebomb/gsyncio/__init__.py, and `_init_gsyncio` of
-- pipebomb/utils.py: what is known of the libraries when they are loaded.
use pipebomb.Base.{ℕ, ◌≡◌, refl, Bool, true, false, Option, none, some, if◌then◌else◌, arith}
use pipebomb.Base.Result.{Result, ok, err}
use pipebomb.Gsyncio.Paths.{FilePath}
use pipebomb.Gsyncio.Search.{Interpreter, find_cffi_ext, find_go_library}

-- The globals of the two modules: whether `ffi` is set, the functions of the interpreter lock,
-- `NO_GSYNCIO_CFFI`, the Go library, and `_gsyncio_available`.
pub record Loaded : Type 0 where
  pub ffi : Bool
  pub gil : Option (ℕ × ℕ)
  pub no_gsyncio_cffi : Bool
  pub gsyncio_lib : Option FilePath
  pub gsyncio_available : Bool

-- As they are before the import.
abbrev pub unloaded : Loaded
unloaded = record {
  ffi = false;
  gil = none;
  no_gsyncio_cffi = true;
  gsyncio_lib = none;
  gsyncio_available = false;
}

module _ (i : Interpreter) where
  -- From the extension's `ffi` on; an exception is passed over.
  abbrev after_addresses : Result (ℕ × ℕ) → Loaded → Loaded
  after_addresses (err e) m = m
  after_addresses (ok addresses) m = record m { gil = some addresses }

  abbrev after_exec : Result (Unit {0}) → Loaded → Loaded
  after_exec (err e) m = m
  after_exec (ok done) m = after_addresses i.gil_addresses (record m { ffi = true })

  abbrev load_ext : Option FilePath → Loaded → Loaded
  load_ext none m = m
  load_ext (some cffi_path) m =
      if i.has_loader cffi_path then after_exec (i.exec_module cffi_path) m else m

  unfoldable pub init : Loaded → Loaded
  unfolding find_cffi_ext
  init m = load_ext (find_cffi_ext i) m

  -- The import of the module: `_init()`, and then the functions, if there is an `ffi`.
  unfoldable pub import_gsyncio : Loaded → Loaded
  unfolding init
  import_gsyncio m = let n = init m in if n.ffi then record n { no_gsyncio_cffi = false } else n

  abbrev opened : Result (Unit {0}) → FilePath → Loaded → Result (Unit {0}) × Loaded
  opened (err e) lib m = (err e, m)
  opened (ok done) lib m = (ok tt, record m { gsyncio_lib = some lib })

  unfoldable pub load_go_library : FilePath → Loaded → Result (Unit {0}) × Loaded
  load_go_library lib m = opened (i.dlopen lib) lib m

  abbrev after_load : Result (Unit {0}) × Loaded → Result Bool × Loaded
  after_load (err e, m) = (err e, m)
  after_load (ok done, m) = (ok true, record m { gsyncio_available = true })

  abbrev load_found : Option FilePath → Loaded → Result Bool × Loaded
  unfolding load_go_library
  load_found none m = (ok false, record m { gsyncio_available = false })
  load_found (some lib) m = after_load (load_go_library lib m)

  unfoldable pub init_gsyncio : Loaded → Result Bool × Loaded
  unfolding find_go_library load_go_library
  init_gsyncio m = if m.no_gsyncio_cffi then (ok false, m) else load_found (find_go_library i) m

-- What the calls of the library rely on: where gsyncio counts as available, its functions are there,
-- and the library is loaded.
pub record IsReady (m : Loaded) : Type 0 where
  pub has_functions : m.gsyncio_available ≡ true → m.no_gsyncio_cffi ≡ false
  pub has_library : m.gsyncio_available ≡ true → (lib : FilePath) × (m.gsyncio_lib ≡ some lib)

module _ (i : Interpreter) where
  opened-IsReady :
      (r : Result (Unit {0})) (lib : FilePath) (m : Loaded)
      → m.no_gsyncio_cffi ≡ false
      → IsReady m
      → IsReady (after_load i (opened i r lib m)).1
  opened-IsReady (err e) lib m there ready = ready
  opened-IsReady (ok done) lib m there ready = record {
    has_functions = λ _. there;
    has_library = λ _. (lib, refl);
  }

  load_found-IsReady :
      (found : Option FilePath) (m : Loaded)
      → m.no_gsyncio_cffi ≡ false
      → IsReady m
      → IsReady (load_found i found m).1
  unfolding load_go_library
  load_found-IsReady none m there ready = record {
    has_functions = λ _. there;
    has_library = λ h. absurd (ground arith);
  }
  load_found-IsReady (some lib) m there ready = opened-IsReady (i.dlopen lib) lib m there ready

  -- The import does not count the library as available.
  after_addresses-available :
      (r : Result (ℕ × ℕ)) (m : Loaded)
      → (after_addresses i r m).gsyncio_available ≡ m.gsyncio_available
  after_addresses-available (err e) m = refl
  after_addresses-available (ok addresses) m = refl

  after_exec-available :
      (r : Result (Unit {0})) (m : Loaded)
      → (after_exec i r m).gsyncio_available ≡ m.gsyncio_available
  after_exec-available (err e) m = refl
  after_exec-available (ok done) m =
      after_addresses-available i.gil_addresses (record m { ffi = true })

  load_ext-available :
      (found : Option FilePath) (m : Loaded)
      → (load_ext i found m).gsyncio_available ≡ m.gsyncio_available
  load_ext-available none m = refl
  load_ext-available (some path) m = ground (arith, after_exec-available (i.exec_module path) m)

  import-available : (m : Loaded) → (import_gsyncio i m).gsyncio_available ≡ m.gsyncio_available
  unfolding import_gsyncio init
  import-available m = ground (arith, load_ext-available (find_cffi_ext i) m)

  unavailable-IsReady : (m : Loaded) → m.gsyncio_available ≡ false → IsReady m
  unavailable-IsReady m off = record {
    has_functions = λ on. absurd (ground arith);
    has_library = λ on. absurd (ground arith);
  }

  either-IsReady :
      (b : Bool) (x y : Result Bool × Loaded)
      → IsReady x.1
      → (b ≡ false → IsReady y.1)
      → IsReady (if b then x else y).1
  either-IsReady true x y first second = first
  either-IsReady false x y first second = second refl

  -- After the import of the module, and after any call of `_init_gsyncio` from then on, also one that
  -- raised: where gsyncio counts as available, its functions are there and the library is loaded.
  pub init_gsyncio-IsReady :
      IsReady (import_gsyncio i unloaded)
      × ((m : Loaded) → IsReady m → IsReady (init_gsyncio i m).1)
  unfolding init_gsyncio
  init_gsyncio-IsReady = (
    unavailable-IsReady (import_gsyncio i unloaded) (import-available unloaded),
    λ m ready.
        either-IsReady m.no_gsyncio_cffi (ok false, m) (load_found i (find_go_library i) m) ready
          (λ there. load_found-IsReady (find_go_library i) m there ready),
  )
