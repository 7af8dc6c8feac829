-- ===== src/Server/ClientHello.antt =====
-- internal/server/clienthello.go and context.go: the first bytes of a connection are recorded, and
-- the ClientHello among them is kept for the requests on the connection.
pub mod Recorded
use anti_scrapling.Go.{
  ℕ, ◌+◌, ◌-◌, ◌*◌, ◌==◌, ltb, leb, Bool, true, false, if◌then◌else◌, Option, none, some, List, [],
  ◌∷◌, ◌++◌, length, take, Bytes, Assoc, lookup, store, delete,
}
use anti_scrapling.Tls.Reader.{be16}

abbrev pub max_client_hello_bytes : ℕ
max_client_hello_bytes = 8192

-- `WrappedConn.record` on the bytes that are recorded so far.
unfoldable pub record_bytes : Bytes → Bytes → Bytes
record_bytes raw data' =
    if leb max_client_hello_bytes (length raw)
    then raw
    else raw ++ take (max_client_hello_bytes - length raw) data'

-- `WrappedConn.Read`, where the inner connection has read `data'`: it is recorded, unless there is
-- none of it, and handed on.
unfoldable pub read : Bytes → Bytes → Bytes × Bytes
unfolding record_bytes
read raw [] = ([], raw)
read raw (b ∷ data') = (b ∷ data', record_bytes raw (b ∷ data'))

-- The reads of a connection, one after another.
unfoldable pub read_all : Bytes → List Bytes → Bytes
unfolding read
read_all raw [] = raw
read_all raw (chunk ∷ chunks) = read_all (read raw chunk).1 chunks

-- `RawClientHello`: the first record, if it is a handshake and all of it is there, and else all
-- that is recorded.
unfoldable pub raw_client_hello : Bytes → Bytes
raw_client_hello (type ∷ major ∷ minor ∷ hi ∷ lo ∷ body) =
    let raw = type ∷ major ∷ minor ∷ hi ∷ lo ∷ body in
    if type == 0x16
    then if leb (5 + be16 hi lo) (length raw) then take (5 + be16 hi lo) raw else raw
    else raw
raw_client_hello raw = raw

unfoldable pub connection_key_strings : Bytes → Bytes → Bytes
connection_key_strings [] remote = []
connection_key_strings (c ∷ local) [] = []
connection_key_strings (c ∷ local) (d ∷ remote) = (c ∷ local) ++ (d ∷ remote)

-- `addrString` of an address that may be nil.
abbrev pub addr_string : Option Bytes → Bytes
addr_string none = []
addr_string (some addr) = addr

-- A connection: its addresses and, if it is a WrappedConn, the bytes that it has recorded.
pub record Conn : Type 0 where
  pub local_addr : Option Bytes
  pub remote_addr : Option Bytes
  pub wrapped : Option Bytes

unfoldable pub connection_key : Option Conn → Bytes
unfolding connection_key_strings
connection_key none = []
connection_key (some conn) =
    connection_key_strings (addr_string conn.local_addr) (addr_string conn.remote_addr)

-- `I` is `tls.ClientHelloInfo`.
module _ (I : Type 0) where
  pub record ClientHelloCapture : Type 0 where
    pub raw : Bytes
    pub info : I

  -- The global map.
  abbrev pub CaptureMap : Type 0
  CaptureMap = Assoc ClientHelloCapture

  abbrev pub recorded_of : Option Bytes → Bytes
  recorded_of none = []
  recorded_of (some raw) = raw_client_hello raw

  abbrev pub store_capture : Bytes → Option Bytes → I → CaptureMap → CaptureMap
  store_capture [] wrapped info m = m
  store_capture (c ∷ key) wrapped info m =
      store (c ∷ key) (record { raw = recorded_of wrapped; info = info }) m

  -- `CaptureCallback` on a hello and its connection, which may be nil.
  unfoldable pub capture_callback : Option Conn → I → CaptureMap → CaptureMap
  unfolding raw_client_hello connection_key
  capture_callback none info m = m
  capture_callback (some conn) info m =
      store_capture (connection_key (some conn)) conn.wrapped info m

  unfoldable pub load_client_hello_capture : Bytes → CaptureMap → Option ClientHelloCapture
  load_client_hello_capture [] m = none
  load_client_hello_capture (c ∷ key) m = lookup (c ∷ key) m

  unfoldable pub delete_client_hello_capture : Bytes → CaptureMap → CaptureMap
  delete_client_hello_capture [] m = m
  delete_client_hello_capture (c ∷ key) m = delete (c ∷ key) m
