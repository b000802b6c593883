-- ===== src/Sockets/Factories.antt =====
-- `TcpSocketFactory`, `UnixSocketFactory` and `parse_address` of pipebomb/impl.py. A socket is what
-- was set on it.
use pipebomb.Base.{
  Str, ℕ, List, [], ◌∷◌, ◌++◌, Bool, not, if◌then◌else◌, Option, none, some, eq_bytes,
}
use pipebomb.Base.Result.{Result, ok, err, runtime_error, file_not_found_error}
use pipebomb.Client.Primitive.{decimal}

-- A pair of host and port, or a path.
pub data SocketAddress : Type 0 where
  inet : Str → ℕ → SocketAddress
  path : Str → SocketAddress

unfoldable pub parse_address : SocketAddress → Str
unfolding decimal
parse_address (inet host port) = host ++ (58 ∷ decimal port port [])
parse_address (path p) = p

-- `SO_REUSEADDR`, `setblocking(False)` and `TCP_NODELAY`, in the order of the calls.
pub data Setting : Type 0 where
  reuse_address non_blocking no_delay : Setting

pub record TcpSocketFactory : Type 0 where
  pub nodelay : Bool
  pub reuseaddr : Bool

-- `option if option is not None else default`
abbrev or_default : Option Bool → Bool → Bool
or_default none default = default
or_default (some chosen) default = chosen

unfoldable pub tcp_socket : TcpSocketFactory → Option Bool → Option Bool → List Setting
tcp_socket factory nodelay reuseaddr =
    (if or_default reuseaddr factory.reuseaddr then reuse_address ∷ [] else [])
    ++ (non_blocking ∷ (if or_default nodelay factory.nodelay then no_delay ∷ [] else []))

-- The first address that `getaddrinfo` found.
abbrev resolve_connect_address : List SocketAddress → Result SocketAddress
resolve_connect_address [] = err runtime_error
resolve_connect_address (first ∷ others) = ok first

abbrev resolve_bind_address : Str → ℕ → SocketAddress
resolve_bind_address address port = inet address port

-- "localhost"
abbrev localhost : Str
localhost = 108 ∷ 111 ∷ 99 ∷ 97 ∷ 108 ∷ 104 ∷ 111 ∷ 115 ∷ 116 ∷ []

pub record UnixSocketFactory : Type 0 where
  pub default_path : Str

-- The path of a socket that is made with or without one.
abbrev socket_path : UnixSocketFactory → Option Str → Str
socket_path factory none = factory.default_path
socket_path factory (some p) = p

unfoldable pub resolve_path : UnixSocketFactory → Str → Str
resolve_path factory address =
    if not (eq_bytes address localhost) then address else factory.default_path

-- A unix factory, and a socket of it with its path: both raise a NotImplementedError, which is a
-- RuntimeError, where `os.name` is not "posix".
unfoldable pub new_unix_factory : Bool → Str → Result UnixSocketFactory
new_unix_factory posix default_path =
    if not posix then err runtime_error else ok (record { default_path = default_path })

unfoldable pub unix_socket : Bool → UnixSocketFactory → Option Str → Result Str
unix_socket posix factory p = if not posix then err runtime_error else ok (socket_path factory p)

-- A unix socket connects to and binds the path of its address; the port is not looked at.
abbrev unix_address : UnixSocketFactory → Str → ℕ → SocketAddress
unix_address factory address port = path (resolve_path factory address)

-- The sockets by their class: what `getsockname` gives, or the path that it was made with.
pub data FactorySocket : Type 0 where
  other_socket : FactorySocket
  unix_at : Str → FactorySocket
  tcp_at : Str → ℕ → FactorySocket

-- "Unknown"
abbrev unknown : Str
unknown = 85 ∷ 110 ∷ 107 ∷ 110 ∷ 111 ∷ 119 ∷ 110 ∷ []

unfoldable pub factory_address : FactorySocket → Str
unfolding decimal
factory_address other_socket = unknown
factory_address (unix_at p) = p
factory_address (tcp_at host port) = host ++ (58 ∷ decimal port port [])

-- `prepare_bind` of a unix factory, over `os.unlink`: a path that is not there is passed over. That of
-- a TCP factory, whose addresses are pairs, does nothing.
abbrev unless_missing_path : {F : Type 0} → Result (Unit {0}) × F → Result (Unit {0}) × F
unless_missing_path (err file_not_found_error, files) = (ok tt, files)
unless_missing_path r = r

unfoldable pub prepare_bind :
    {F : Type 0} → (Str → F → Result (Unit {0}) × F) → SocketAddress → F → Result (Unit {0}) × F
prepare_bind unlink (inet host port) files = (ok tt, files)
prepare_bind unlink (path p) files = unless_missing_path (unlink p files)
