-- ===== src/Ingest/Hosts.antt =====
-- internal/ingest/declarative/hostpolicy.go. A text is the list of its code points. The addresses and
-- their tests are those of net/netip, which is given.
use respondent_community.Common.{
  ℕ, ◌+◌, ◌-◌, ◌*◌, ◌^◌, String, Bool, false, not, ◌&&◌, ◌||◌, Option, none, some, List, [], ◌∷◌,
  ◌++◌, if◌then◌else◌, length, all, any, ltb, leb, eqb, is_some, bytes_eq, map, contains,
}
use respondent_community.Inproc.Subject.{split}
use Prim.Native.Char.{code}
use Prim.Native.String.{[] as no_chars, ◌∷◌ as char_before}

abbrev pub Text : Type 0
Text = List ℕ

abbrev pub text : String → Text
text no_chars = []
text (char_before c s) = code c ∷ text s

abbrev pub between : ℕ → ℕ → ℕ → Bool
between low high c = leb low c && leb c high

-- `unicode.ToLower`, as far as it gives a letter of ASCII.
abbrev pub lower : ℕ → ℕ
lower c =
    if between 65 90 c then c + 32 else if eqb c 304 then 105 else if eqb c 8490 then 107 else c

-- `unicode.IsSpace`
abbrev pub is_space : ℕ → Bool
is_space c =
    between 9 13 c
    || (between 8192 8202 c
        || any (eqb c) (32 ∷ 133 ∷ 160 ∷ 5760 ∷ 8232 ∷ 8233 ∷ 8239 ∷ 8287 ∷ 12288 ∷ []))

abbrev pub trim_left : Text → Text
trim_left [] = []
trim_left (c ∷ cs) = if is_space c then trim_left cs else c ∷ cs

abbrev pub kept_before : ℕ → Text → Text
kept_before c [] = if is_space c then [] else c ∷ []
kept_before c (d ∷ ds) = c ∷ d ∷ ds

abbrev pub trim_right : Text → Text
trim_right [] = []
trim_right (c ∷ cs) = kept_before c (trim_right cs)

abbrev pub last_or : ℕ → Text → ℕ
last_or c [] = c
last_or c (d ∷ ds) = last_or d ds

abbrev pub without_last : Text → Text
without_last [] = []
without_last (c ∷ []) = []
without_last (c ∷ d ∷ ds) = c ∷ without_last (d ∷ ds)

abbrev pub trim_dot : Text → Text
trim_dot [] = []
trim_dot (c ∷ cs) = if eqb (last_or c cs) b'.' then without_last (c ∷ cs) else c ∷ cs

abbrev pub unbracket : Text → Text
unbracket [] = []
unbracket (c ∷ cs) = if eqb c b'[' && eqb (last_or c cs) b']' then without_last cs else c ∷ cs

-- `len` of the UTF-8 of a text.
abbrev pub utf8_length : Text → ℕ
utf8_length [] = 0
utf8_length (c ∷ cs) =
    (if ltb c 128 then 1 else if ltb c 2048 then 2 else if ltb c 65536 then 3 else 4)
    + utf8_length cs

abbrev pub is_digit : ℕ → Bool
is_digit c = between b'0' b'9' c

abbrev pub is_alphanumeric : ℕ → Bool
is_alphanumeric c = is_digit c || between b'a' b'z' c

-- `dnsLabelRE`
abbrev pub is_label : Text → Bool
is_label [] = false
is_label (c ∷ cs) =
    is_alphanumeric c
    && (is_alphanumeric (last_or c cs)
        && (all (λ b. is_alphanumeric b || eqb b b'-') cs && leb (length cs) 62))

-- The value of a digit of `strconv.ParseUint`, and of the digits of a base.
abbrev pub digit_value : ℕ → ℕ
digit_value c = if is_digit c then c - 48 else if between b'a' b'z' c then c - 87 else 36

abbrev pub digits_value : ℕ → ℕ → Text → Option ℕ
digits_value base n [] = some n
digits_value base n (c ∷ cs) =
    if leb base (digit_value c)
    then none
    else if leb (2 ^ 64) (n * base + digit_value c)
    then none
    else digits_value base (n * base + digit_value c) cs

-- `strconv.ParseUint(label, 0, 64)` of a label, which has no underscore and no upper case.
abbrev pub parse_zero : Text → Option ℕ
parse_zero (b ∷ c ∷ cs) =
    if eqb b b'x'
    then digits_value 16 0 (c ∷ cs)
    else if eqb b b'b'
    then digits_value 2 0 (c ∷ cs)
    else if eqb b b'o'
    then digits_value 8 0 (c ∷ cs)
    else digits_value 8 0 (b ∷ c ∷ cs)
parse_zero cs = digits_value 8 0 cs

abbrev pub parse_uint : Text → Option ℕ
parse_uint [] = none
parse_uint (c ∷ cs) = if eqb c b'0' then parse_zero cs else digits_value 10 0 (c ∷ cs)

abbrev pub is_numeric_label : Text → Bool
is_numeric_label [] = false
is_numeric_label (c ∷ cs) = is_some (parse_uint (c ∷ cs)) || all is_digit (c ∷ cs)

abbrev pub local_names : List Text
local_names = map text (
    "localhost" ∷ "local" ∷ "internal" ∷ "home" ∷ "lan" ∷ "invalid" ∷ "test" ∷ "example" ∷ "onion"
    ∷ [])

-- What the policy uses of net/netip.
pub record Netip : Type 1 where
  pub Addr : Type 0
  pub parse_addr : Text → Option Addr
  pub unmap : Addr → Addr
  pub is_4 : Addr → Bool
  pub string : Addr → Text
  pub is_global_unicast : Addr → Bool
  pub is_private : Addr → Bool
  pub is_loopback : Addr → Bool
  pub is_link_local_unicast : Addr → Bool
  pub is_multicast : Addr → Bool
  pub is_unspecified : Addr → Bool
  pub is_interface_local_multicast : Addr → Bool
  pub prefix_contains : String → Addr → Bool

pub data Host : Type 0 where
  host_invalid : Host
  host_dns_name host_ip_literal : Text → Host

abbrev pub last_label : List Text → Text
last_label [] = []
last_label (label ∷ []) = label
last_label (label ∷ next ∷ labels) = last_label (next ∷ labels)

abbrev pub named_host : Text → List Text → Host
named_host host labels =
    if ltb (length labels) 2
    then host_invalid
    else if not (all is_label labels)
    then host_invalid
    else if is_numeric_label (last_label labels)
    then host_invalid
    else if contains (last_label labels) local_names
    then host_invalid
    else host_dns_name host

module _ (net : Netip) where
  abbrev pub public_addr : net.Addr → Bool
  public_addr a =
      let ip = net.unmap a in
      if not (net.is_global_unicast ip)
        || (net.is_private ip
            || (net.is_loopback ip
                || (net.is_link_local_unicast ip
                    || (net.is_multicast ip
                        || (net.is_unspecified ip || net.is_interface_local_multicast ip)))))
      then false
      else not (
          any (λ p. net.prefix_contains p ip)
            ("100.64.0.0/10" ∷ "198.18.0.0/15" ∷ "192.0.0.0/24" ∷ []))

  abbrev pub addressed : net.Addr → Host
  addressed a =
      let ip = net.unmap a in
      if not (public_addr a)
      then host_invalid
      else if net.is_4 ip
      then host_ip_literal (net.string ip)
      else host_ip_literal (b'[' ∷ net.string ip ++ b']' ∷ [])

  abbrev pub classified : Text → Option net.Addr → Host
  classified host none = named_host host (split host)
  classified host (some a) = addressed a

  abbrev pub screened : Text → Host
  screened [] = host_invalid
  screened (c ∷ cs) =
      let host = unbracket (c ∷ cs) in
      if ltb 253 (utf8_length (c ∷ cs)) then host_invalid else classified host (net.parse_addr host)

  unfoldable pub canonical_host : Text → Host
  canonical_host raw = screened (trim_dot (map lower (trim_right (trim_left raw))))

  abbrev pub dns_name : Host → Option Text
  dns_name host_invalid = none
  dns_name (host_dns_name host) = some host
  dns_name (host_ip_literal host) = none

  abbrev pub canonical_dns_host : Text → Option Text
  canonical_dns_host raw = dns_name (canonical_host raw)
