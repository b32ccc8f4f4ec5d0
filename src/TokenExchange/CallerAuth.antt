-- ===== src/TokenExchange/CallerAuth.antt =====
-- services/token-exchange-service/caller_auth.py. The library `ipaddress` is a parameter.
pub mod Passing
use api_portal.Prelude.{
  Bool, List, Option, Text, [], any, compare_digest, false, if◌then◌else◌, is_empty, keep, map,
  none, not, some, split_commas, strip, strip_left, strip_right, true, ◌||◌, ◌∷◌,
}

-- `ip_address` and `in ip_network(…, strict=False)`: `none` where it raises.
pub record Addresses : Type 1 where
  pub Address : Type 0
  pub ip_address : Text → Option Address
  pub in_network : Address → Text → Option Bool

-- The parts of the request and of the settings that the check reads.
pub record Caller : Type 0 where
  pub internal_key : Option Text
  pub forwarded_for : Option Text
  pub client_host : Option Text

pub record CallerSettings : Type 0 where
  pub internal_api_key : Text
  pub allowed_cidr : Text

-- No answer, the answer 403, or the `TypeError` of a key that is not ASCII.
pub data CallerReply : Type 0 where
  passed refused raised : CallerReply

abbrev pub head_text : List Text → Text
head_text [] = []
head_text (p ∷ ps) = p

abbrev pub text_or_empty : Option Text → Text
text_or_empty none = []
text_or_empty (some s) = s

-- `_client_ip`
unfoldable pub client_ip : Caller → Text
unfolding split_commas strip_left strip_right
client_ip r =
    let first = strip (head_text (split_commas (text_or_empty r.forwarded_for))) in
    if is_empty first then text_or_empty r.client_host else first

unfoldable pub networks_of : Text → List Text
unfolding split_commas strip_left strip_right
networks_of allowed_cidr = keep (λ c. not (is_empty c)) (map strip (split_commas allowed_cidr))

abbrev pub is_true : Option Bool → Bool
is_true none = false
is_true (some b) = b

module _ (I : Addresses) where
  -- The loop, on the address that was read.
  abbrev pub in_some : List Text → Option I.Address → Bool
  in_some networks none = false
  in_some networks (some addr) = any (λ c. is_true (I.in_network addr c)) networks

  -- `_ip_allowed`
  unfoldable pub ip_allowed : Text → Text → Bool
  unfolding networks_of
  ip_allowed allowed_cidr ip =
      let networks = networks_of allowed_cidr in
      is_empty networks || in_some networks (I.ip_address ip)

  -- What follows `hmac.compare_digest`.
  abbrev pub by_sent_key : Option Bool → CallerReply → CallerReply
  by_sent_key none by_address = raised
  by_sent_key (some false) by_address = refused
  by_sent_key (some true) by_address = by_address

  -- `check_caller`
  unfoldable pub check_caller : CallerSettings → Caller → CallerReply
  unfolding client_ip ip_allowed compare_digest
  check_caller S r =
      let by_address = if ip_allowed S.allowed_cidr (client_ip r) then passed else refused in
      if is_empty S.internal_api_key
      then by_address
      else by_sent_key (compare_digest (text_or_empty r.internal_key) S.internal_api_key) by_address
