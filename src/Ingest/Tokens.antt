-- ===== src/Ingest/Tokens.antt =====
-- internal/ingest/declarative/token_provider.go: `oauth2TokenProvider`. What the token endpoint answers
-- is given; a time is a number of nanoseconds, and the zero time is 0.
use respondent_community.Common.{
  ℕ, ◌+◌, ◌*◌, ◌≤◌, ◌≡◌, ◌≢◌, ◌<◌, String, Bool, not, ◌&&◌, Option, none, some, List, [], ◌∷◌,
  if◌then◌else◌, ltb, string_eq, ◌==◌,
}
use Prim.Native.String.{◌++◌}

-- The settings that `GetHeader` reads; a margin that is not positive reads as 0.
pub record OAuth2Spec : Type 0 where
  pub token_header : String
  pub token_prefix : String
  pub refresh_before_expiry : ℕ

pub record Provider : Type 0 where
  pub access_token : String
  pub refresh_token : String
  pub expires_at : ℕ

-- The fields of an accepted reply: the refresh token and the whole seconds are optional.
pub record Grant : Type 0 where
  pub access : String
  pub refresh : Option String
  pub expires_in : Option ℕ

pub data Exchange : Type 0 where
  refresh_exchange authenticate_exchange : Exchange

abbrev pub second : ℕ
second = 1_000_000_000

abbrev pub token_header : OAuth2Spec → String
token_header spec = if not (spec.token_header == "") then spec.token_header else "Authorization"

abbrev pub token_prefix : OAuth2Spec → String
token_prefix spec = if not (spec.token_prefix == "") then spec.token_prefix else "Bearer "

abbrev pub margin : OAuth2Spec → ℕ
margin spec = if ltb 0 spec.refresh_before_expiry then spec.refresh_before_expiry else 300 * second

abbrev pub lifetime : Option ℕ → ℕ
lifetime none = 3600 * second
lifetime (some seconds) = if ltb 0 seconds then seconds * second else 3600 * second

abbrev pub or_kept : String → Option String → String
or_kept old none = old
or_kept old (some new) = new

-- `doTokenRequest`: `none` is a request, a status or a reply that is refused.
abbrev pub granted : ℕ → Grant → Provider → Provider
granted now g p = record {
  access_token = g.access;
  refresh_token = or_kept p.refresh_token g.refresh;
  expires_at = now + lifetime g.expires_in;
}

abbrev pub is_valid : OAuth2Spec → ℕ → Provider → Bool
is_valid spec now p = not (p.access_token == "") && ltb (now + margin spec) p.expires_at

abbrev pub header : OAuth2Spec → Provider → String × String
header spec p = (token_header spec, token_prefix spec ++ p.access_token)

-- The provider, the exchanges made, and the header, if there is one.
pub record Got : Type 0 where
  pub provider : Provider
  pub exchanges : List Exchange
  pub header : Option (String × String)

module _ (spec : OAuth2Spec) (now : ℕ) where
  abbrev pub after_authenticate : Provider → List Exchange → Option Grant → Got
  after_authenticate p before none = record { provider = p; exchanges = before; header = none }
  after_authenticate p before (some g) = record {
    provider = granted now g p;
    exchanges = before;
    header = some (header spec (granted now g p));
  }

  abbrev pub after_refresh : Provider → Option Grant → Option Grant → Got
  after_refresh p none authenticated =
      after_authenticate p (refresh_exchange ∷ authenticate_exchange ∷ []) authenticated
  after_refresh p (some g) authenticated = record {
    provider = granted now g p;
    exchanges = refresh_exchange ∷ [];
    header = some (header spec (granted now g p));
  }

  -- What the endpoint answers to a refresh and to an authentication.
  unfoldable pub get_header : Option Grant → Option Grant → Provider → Got
  get_header refreshed authenticated p =
      if is_valid spec now p
      then record { provider = p; exchanges = []; header = some (header spec p) }
      else if not (p.refresh_token == "")
      then after_refresh p refreshed authenticated
      else after_authenticate p (authenticate_exchange ∷ []) authenticated

-- What a later request gets while a token is good, and that it makes an exchange afterwards.
pub record Lasts (spec : OAuth2Spec) (got : Got) (good_until later : ℕ)
    (refreshed authenticated : Option Grant) : Type 0 where
  pub reused :
      later < good_until
      → get_header spec later refreshed authenticated got.provider
        ≡ record { provider = got.provider; exchanges = []; header = got.header }
  pub renewed :
      good_until ≤ later
      → (get_header spec later refreshed authenticated got.provider).exchanges ≢ []
