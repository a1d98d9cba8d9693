-- ===== src/Tests/Geocoder.antt =====
-- A geocoder whose provider knows one place.
use respondent_community.Common.{
  ℕ, ◌≡◌, refl, String, Bool, true, false, Option, none, some, [], string_eq, if◌then◌else◌, ◌==◌,
}
use respondent_community.Common.Dict
use respondent_community.Common.Dict.{Dict}
use respondent_community.Geocoder.Kv.{Entry, kv_get, inmem_cache}
use respondent_community.Geocoder.Cached.{
  Answer, no_match, found, Codec, Ttls, lookup, geocode, geocode-Coherent, Coherent,
}

abbrev same_key : Bool
same_key = string_eq.beq "paris" "paris"

-- A result that is a flag, written as a word.
abbrev write_flag : Bool → String
write_flag true = "true"
write_flag false = "false"

abbrev read_flag : String → Option Bool
read_flag s = if s == "true" then some true else if s == "false" then some false else none

decode_flag : (b : Bool) → read_flag (write_flag b) ≡ some b
decode_flag true = refl
decode_flag false = refl

flag_not_marker : (b : Bool) → (write_flag b == "nomatch") ≡ false
flag_not_marker true = refl
flag_not_marker false = refl

abbrev flags : Codec Bool
flags = record {
  encode = write_flag;
  decode = read_flag;
  marker = "nomatch";
  decode_encode = decode_flag;
  encode_marker = flag_not_marker;
}

abbrev ttls : Ttls
ttls = record { ttl = 100; negative_ttl = 10 }

abbrev provider : String → Answer Bool
provider q = if q == "paris" then found true else no_match

abbrev empty_cache : Dict String Entry
empty_cache = []

empty_miss : (now : ℕ) (key : String) → lookup inmem_cache flags now key empty_cache ≡ none
unfolding lookup kv_get Dict.get
empty_miss now key = refl

empty-Coherent : Coherent inmem_cache flags (λ q. q) provider empty_cache
empty-Coherent q now a e = cc (e, empty_miss now q)

geocode-Coherent_example :
    (let r = geocode inmem_cache flags ttls 0 "paris" (provider "paris") empty_cache in
      (r.0 ≡ provider "paris") × Coherent inmem_cache flags (λ q. q) provider r.1)
geocode-Coherent_example =
    geocode-Coherent inmem_cache flags (λ q. q) provider ttls 0 "paris" empty_cache (λ p e. e)
      empty-Coherent
