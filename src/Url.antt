-- ===== src/Url.antt =====
-- include/nodepp/url.h: the parts of a URL, each found by an expression.
pub mod Escapes
pub mod Format
pub mod Tests
use nodepp.Prelude.{
  ℕ, zero, suc, ◌+◌, ◌*◌, ◌-◌, ◌%◌, ◌^◌, Bool, true, false, not, ◌&&◌, Option, none, some, List, [],
  ◌∷◌, ◌++◌, length, drop, if◌then◌else◌,
}
use nodepp.Prelude.Int.{ℤ, pos, negsuc}
use nodepp.Prelude.Ascii.{text}
use Prim.Native.String.{String}
use nodepp.Array
use nodepp.Text.{Text, same, slice}
use nodepp.Text.Join
use nodepp.Text.Join.{join}
use nodepp.Regex.Compile.{Outcome, done, refused, fault, stuck, ◌>>=◌, Pattern}
use nodepp.Regex.Ops
use nodepp.Regex.Once
use nodepp.Regex.Once.{use_of, compiled}

-- `url_t`, without `int port`, which stands last.
pub record Url : Type 0 where
  pub hostname : Text
  pub protocol : Text
  pub pathname : Text
  pub rawname : Text
  pub search : Text
  pub origin : Text
  pub family : Text
  pub auth : Text
  pub host : Text
  pub hash : Text
  pub href : Text
  pub user : Text
  pub pass : Text
  pub path : Text
  pub port : ℕ

abbrev pub no_url : Url
no_url = record {
  hostname = [];
  protocol = [];
  pathname = [];
  rawname = [];
  search = [];
  origin = [];
  family = [];
  auth = [];
  host = [];
  hash = [];
  href = [];
  user = [];
  pass = [];
  path = [];
  port = 0;
}

abbrev row : String → ℕ → Text × ℕ
row name port = (text name, port)

unfoldable pub protocols : List (Text × ℕ)
protocols =
    row "https" 443
    ∷ row "wss" 443
    ∷ row "tls" 443
    ∷ row "dtls" 443
    ∷ row "http" 80
    ∷ row "ws" 80
    ∷ row "tcp" 80
    ∷ row "udp" 80
    ∷ row "ftp" 21
    ∷ row "ssh" 22
    ∷ []

-- `_list.has( … )` and then `_list[ … ]`.
unfoldable pub port_of : Text → List (Text × ℕ) → Option ℕ
unfolding same
port_of name [] = none
port_of name ((key, port) ∷ rows) = if same key name then some port else port_of name rows

-- The uses of an expression on one text.
unfoldable pub test : Outcome Pattern → Text → Outcome Bool
unfolding use_of Ops.test
test reg xs = use_of reg λ p. Ops.test p xs 0

unfoldable pub match : Outcome Pattern → Text → Outcome Text
unfolding use_of Ops.match
match reg xs = use_of reg λ p. Ops.match p xs 0

unfoldable pub reg_of : String → Bool → Outcome Pattern
unfolding compiled
reg_of source icase = compiled (text source) icase

unfoldable pub is_valid : Text → Outcome Bool
unfolding test reg_of
is_valid url = test (reg_of "^\\w+://[^.]+" true) url

-- `if( !is_valid(URL) || !_a.test( URL ) ){ return null; } return _a.match( URL );`
unfoldable pub part : String → Text → Text → Outcome Text
unfolding is_valid test match reg_of
part source url xs = do
  valid ← is_valid url
  found ← test (reg_of source false) xs
  if valid && found then match (reg_of source false) xs else done []

unfoldable pub protocol : Text → Outcome Text
unfolding part
protocol url = part "^[^:]+" url url

unfoldable pub auth : Text → Outcome Text
unfolding part
auth url = do m ← part "//\\w+:\\w+@" url url; done (slice m (pos 2) (negsuc 0))

-- The two sides of the colon.
unfoldable pub auth_parts : Text → Outcome (Option (Text × Text))
unfolding auth Join.split
auth_parts url = do
  a ← auth url
  elim (Join.split a (text ":")) [
    | [] ↦ done none
    | x ∷ [] ↦ done none
    | x ∷ y ∷ [] ↦ done (some (x, y))
    | x ∷ y ∷ z ∷ zs ↦ done none
  ]

abbrev pub first_part : Option (Text × Text) → Text
first_part none = []
first_part (some (x, y)) = x

abbrev pub second_part : Option (Text × Text) → Text
second_part none = []
second_part (some (x, y)) = y

unfoldable pub user : Text → Outcome Text
unfolding auth_parts
user url = do parts ← auth_parts url; done (first_part parts)

unfoldable pub pass : Text → Outcome Text
unfolding auth_parts
pass url = do parts ← auth_parts url; done (second_part parts)

abbrev pub or_slash : Text → Text
or_slash [] = text "/"
or_slash (c ∷ cs) = c ∷ cs

-- The matches but the first, which is the host.
unfoldable pub path_parts : Text → Outcome Text
unfolding reg_of use_of Ops.match_all
path_parts url = do
  all ← use_of (reg_of "/[^/?#]+" false) λ p. Ops.match_all p url
  done (or_slash (join [] (Array.slice all (pos 1) (pos (Array.size all)))))

unfoldable pub path : Text → Outcome Text
unfolding is_valid test reg_of path_parts
path url = do
  valid ← is_valid url
  found ← test (reg_of "/[^/?#]+" false) url
  if valid && found then path_parts url else done (text "/")

unfoldable pub origin : Text → Outcome Text
unfolding part
origin url = part "^[^/]+//[^/?#]+" url url

-- What stands behind an "@", if there is one.
unfoldable pub behind_at : Text → Outcome Text
unfolding Once.test Once.replace
behind_at xs = do
  at_sign ← Once.test xs (text "@") false
  if at_sign then Once.replace xs (text "[^@]+@") [] false else done xs

unfoldable pub host : Text → Outcome Text
unfolding is_valid match reg_of behind_at
host url = do
  valid ← is_valid url
  m ← match (reg_of "[/@][^/#?]+" false) url
  if valid then behind_at (slice m (pos 1) (pos (length m))) else done []

unfoldable pub hash : Text → Outcome Text
unfolding part
hash url = part "#[^?]*" url url

unfoldable pub search : Text → Outcome Text
unfolding part
search url = part "\\?[^#]*" url url

unfoldable pub ip_family : Text → Outcome Text
unfolding is_valid host test reg_of
ip_family url = do
  h ← host url
  valid ← is_valid url
  six ← test (reg_of "\\[[^\\]]+\\]" false) h
  done (if valid then if six then text "IPv6" else text "IPv4" else [])

unfoldable pub rawname : Text → Outcome Text
unfolding host part
rawname url = do h ← host url; part "\\[[^\\]/]+\\]|[^:]+" url h

unfoldable pub hostname : Text → Outcome Text
unfolding rawname part
hostname url = do r ← rawname url; part "[^\\[\\]]+" url r

-- `string::to_uint` of the digits.
unfoldable pub to_uint : ℕ → Text → ℕ
to_uint acc [] = acc % 2 ^ 32
to_uint acc (c ∷ cs) = to_uint (acc * 10 + (c - b'0')) cs

abbrev pub or_default : Option ℕ → ℕ
or_default none = 8000
or_default (some p) = p

unfoldable pub given_port : Text → Outcome ℕ
unfolding match reg_of to_uint
given_port h = do
  m ← match (reg_of ":\\d+$" false) h
  done (to_uint 0 (slice m (pos 1) (pos (length m))))

-- An empty text has no match, and no protocol has the empty name.
unfoldable pub port : Text → Outcome ℕ
unfolding protocol host test reg_of given_port port_of protocols
port url = do
  prot ← protocol url
  h ← host url
  given ← test (reg_of ":\\d+$" false) h
  if given then given_port h else done (or_default (port_of prot protocols))

-- The fields of a valid URL.
unfoldable pub parse_valid : Text → Outcome Url
unfolding ip_family hostname rawname protocol search origin path port host hash user pass auth
parse_valid url = do
  family ← ip_family url
  hostname' ← hostname url
  rawname' ← rawname url
  protocol' ← protocol url
  search' ← search url
  origin' ← origin url
  pathname ← path url
  port' ← port url
  host' ← host url
  hash' ← hash url
  user' ← user url
  pass' ← pass url
  auth' ← auth url
  done (record {
    hostname = hostname';
    protocol = protocol';
    pathname = pathname;
    rawname = rawname';
    search = search';
    origin = origin';
    family = family;
    auth = auth';
    host = host';
    hash = hash';
    href = url;
    user = user';
    pass = pass';
    path = pathname ++ search';
    port = port';
  })

unfoldable pub parse : Text → Outcome Url
unfolding is_valid parse_valid
parse url = do valid ← is_valid url; if valid then parse_valid url else done no_url

-- The text that `format` puts together.
unfoldable pub format_text : Url → Text
format_text obj =
    (elim (obj.href) [
      | c ∷ href ↦ c ∷ href
      | [] ↦ elim (obj.origin) [
        | c ∷ origin' ↦ c ∷ origin'
        | [] ↦ obj.protocol ++ (text "//" ++ (obj.auth ++ (text "@" ++ obj.host)))
      ]
    ])
    ++ ((elim (obj.path) [ [] ↦ obj.pathname | c ∷ path' ↦ c ∷ path' ]) ++ (obj.search ++ obj.hash))

unfoldable pub format : Url → Outcome Text
unfolding format_text is_valid
format obj = do valid ← is_valid (format_text obj); done (if valid then format_text obj else [])
