-- ===== src/Url/Tests.antt =====
-- Runs of the functions on URLs.
use nodepp.Prelude.{◌≡◌, refl, true, [], ◌∷◌}
use nodepp.Prelude.Ascii.{text}
use nodepp.Range.{slice_range, splice_range}
use nodepp.Array
use nodepp.Regex.Compile.{done}
use nodepp.Url.{Url, is_valid, parse, test, match, host, port, path, user, hostname}
use nodepp.Url.Escapes.{special, normalize, unnormalize}

host_run : host (text "http://me:pw@example.com:81/a/b?x=1#y") ≡ done (text "example.com:81")
unfolding host Array.slice Array.splice_with slice_range splice_range
host_run = refl

hostname_run : hostname (text "http://example.com:81/a/b?x=1#y") ≡ done (text "example.com")
unfolding hostname Array.slice Array.splice_with slice_range splice_range
hostname_run = refl

port_run : port (text "http://example.com:81/a/b?x=1#y") ≡ done 81
unfolding port Array.slice slice_range
port_run = refl

port_of_protocol : port (text "https://example.com/a") ≡ done 443
unfolding port Array.slice slice_range
port_of_protocol = refl

path_run : path (text "http://example.com:81/a/b?x=1#y") ≡ done (text "/a/b")
unfolding path Array.slice slice_range
path_run = refl

user_run : user (text "http://me:pw@example.com:81/a/b") ≡ done (text "me")
unfolding user Array.Find.find Array.slice Array.slice_from slice_range
user_run = refl

normalize_run : normalize 9 (text "a%2fb%2Fc") ≡ done (text "a/b/c")
unfolding normalize Array.slice Array.splice_with slice_range splice_range
normalize_run = refl

-- The byte that is found is an expression in its turn, and "." stands for every byte.
unnormalize_any : unnormalize 9 (text "a.b") ≡ done (text "%2e%2e%2e")
unfolding unnormalize Array.slice Array.splice_with slice_range splice_range
unnormalize_any = refl

unnormalize_run : unnormalize 9 (text "a/b") ≡ done (text "a%2fb")
unfolding unnormalize Array.slice Array.splice_with slice_range splice_range
unnormalize_run = refl

abbrev page : Url
page = record {
  hostname = text "h";
  protocol = text "http";
  pathname = text "/p";
  rawname = text "h";
  search = text "?q=1";
  origin = text "http://h";
  family = text "IPv4";
  auth = [];
  host = text "h";
  hash = [];
  href = text "http://h/p?q=1";
  user = [];
  pass = [];
  path = text "/p?q=1";
  port = 80;
}

is_valid_run : is_valid (text "http://h/p?q=1") ≡ done true
unfolding is_valid
is_valid_run = refl

parse_run : parse (text "http://h/p?q=1") ≡ done page
unfolding parse Array.Find.find Array.slice Array.slice_from Array.splice_with slice_range
    splice_range
parse_run = refl

special_found : test special (text "a)") ≡ done true
unfolding test special
special_found = refl

special_matched : match special (text "a)") ≡ done (b')' ∷ [])
unfolding match special Array.slice slice_range
special_matched = refl
