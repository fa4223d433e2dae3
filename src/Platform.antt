-- ===== src/Platform.antt =====
-- What the program takes from Python's standard library and from the host, and does not implement: the
-- Unicode database, the text of a container or float, the readers of IP addresses, SHA-256, and the
-- file system as `load_config` and the mount check see it.
use Prim.Native.Char.{Char}
use derico_sandbox.Prelude.{ℕ, String, Option, Bool}
use derico_sandbox.Json.{Value}
use derico_sandbox.FilePath.{FilePath}

-- An IP network, as `ipaddress.ip_network(text, strict=False)` reads it: its text and its properties.
pub record Network : Type 0 where
  pub rendered : String
  pub is_loopback : Bool
  pub is_link_local : Bool
  pub is_multicast : Bool
  pub is_unspecified : Bool
  pub is_reserved : Bool
  pub is_global : Bool

pub record Platform : Type 0 where
  -- `unicodedata.category(c)`
  pub category : Char → String
  -- the value of a decimal digit of any script, as `int` reads it
  pub decimal : Char → Option ℕ
  -- `str(value)` of a float, a list or a dict
  pub repr : Value → String
  -- `json.dumps(text)`
  pub json_text : String → String
  -- `str(ipaddress.ip_address(text))`, or `none` for a `ValueError`
  pub ip_address : String → Option String
  pub ip_network : String → Option Network
  -- `hashlib.sha256(text.encode()).hexdigest()`
  pub sha256 : String → String
  -- `Path(text).expanduser()`, as text
  pub expand_user : String → String
  -- `Path(text).resolve()` of an absolute path
  pub resolve : String → FilePath
  -- `path.exists()`
  pub exists : FilePath → Bool
