-- ===== src/Kbs/Token.antt =====
-- attestation-agent/kbs_protocol/src/token_provider/mod.rs: the token that a broker gives out, a JSON
-- Web Token of which only the times of validity are read. Times are `UnixTimeStamp`s, as numbers.
use coco_guest_components.Common.{
  ℕ, zero, suc, not, Option, none, some, List, [], ◌∷◌, ltb, Result, ok, ok_or, ensure, Checked,
  ◌>>=◌, ◌>>◌,
}
use coco_guest_components.Text.{Text, split}
use coco_guest_components.External.Broker.{JsonCrate, KeyCrate, Broker}

pub data TokenError : Type 0 where
  illegal_token_format bad_base64 bad_claims expired before_validity : TokenError

pub record Token : Type 0 where
  pub content : Text
  pub exp : Option ℕ
  pub nbf : Option ℕ

-- `nth(n)` of an iterator
abbrev pub nth : ℕ → List Text → Option Text
nth n [] = none
nth zero (t ∷ ts) = some t
nth (suc n) (t ∷ ts) = nth n ts

unfoldable pub check_exp : ℕ → Option ℕ → Checked TokenError
check_exp now none = ok tt
check_exp now (some exp) = ensure (not (ltb exp now)) expired

unfoldable pub check_nbf : ℕ → Option ℕ → Checked TokenError
check_nbf now none = ok tt
check_nbf now (some nbf) = ensure (not (ltb now nbf)) before_validity

-- `check_valid`, with the clock's time
unfoldable pub check_valid : ℕ → Token → Checked TokenError
unfolding check_exp check_nbf
check_valid now token = do check_exp now token.exp; check_nbf now token.nbf

-- `Token::new`
unfoldable pub new :
    {json : JsonCrate} → KeyCrate json → Broker json → Text → Result TokenError Token
new keys broker token = do
  claims_b64 ← ok_or (nth 1 (split b'.' token)) illegal_token_format
  bs ← ok_or (keys.url_safe_decode claims_b64) bad_base64
  claims ← ok_or (broker.claims_from bs) bad_claims
  ok (record { content = token; exp = claims.expires_at; nbf = claims.invalid_before })
