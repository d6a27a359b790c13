-- ===== src/X402/Host.antt =====
-- src/x402_protocol/X402Processor.cpp: the host name and the subdomain of a request.
pub mod Subdomain
use machinepal.Prelude.{
  ℕ, zero, suc, ◌-◌, ◌+◌, Text, str, List, [], ◌∷◌, ◌++◌, Bool, true, false, not, length, ltb, ◌==◌,
  if◌then◌else◌, text_eq, is_empty, Option, none, some, ◌⊎◌, inl, inr,
}
use machinepal.Url.{UrlParser, is_ip_address, is_domain_name}

unfoldable pub take_text : ℕ → Text → Text
take_text zero t = []
take_text (suc n) [] = []
take_text (suc n) (c ∷ t) = c ∷ take_text n t

unfoldable pub drop_text : ℕ → Text → Text
drop_text zero t = t
drop_text (suc n) [] = []
drop_text (suc n) (c ∷ t) = drop_text n t

-- s.ends_with( suffix )
unfoldable pub ends_with : Text → Text → Bool
unfolding drop_text
ends_with s suffix =
    if ltb (length s) (length suffix)
    then false
    else text_eq (drop_text (length s - length suffix) s) suffix

-- What stands before the last colon, where there is one: substr( 0, rfind( ':' ) ).
unfoldable pub before_last_colon : Text → Option Text
before_last_colon [] = none
before_last_colon (c ∷ t) =
    let rest = before_last_colon t in
    elim rest [ some s ↦ some (c ∷ s) | none ↦ if c == b':' then some [] else none ]

abbrev without_port : Text → Text
without_port host = elim (before_last_colon host) [ none ↦ host | some s ↦ s ]

abbrev pub unknown_host : Text → Text → Text
unknown_host domain_name rest = str "Unknown host: " ++ (domain_name ++ rest)

unfoldable pub not_an_ip_address : Text
not_an_ip_address =
    str
      ". You need to access MachinePal using a hostname, not an IP address. Please use a valid hostname to access this service."

unfoldable pub not_an_ip_address_either : Text
not_an_ip_address_either =
    str
      ". You need to access MachinePal using a hostname, not an IP address. Please use a valid hostname specified in machinepal config (like localhost or xyz.com) to access this service."

unfoldable pub use_valid_hostname : Text
use_valid_hostname =
    str
      " Please use a valid hostname specified in machinepal config (like localhost or xyz.com) to access this service."

-- The part of validateAndExtractSubDomainName that compares with the configured host name.
unfoldable pub match_host_name : Text → Text → Text ⊎ Text
unfolding ends_with take_text use_valid_hostname
match_host_name host_name domain_name =
    if text_eq domain_name host_name
    then inl []
    else if ends_with domain_name (str "." ++ host_name)
    then inl (take_text (length domain_name - length host_name - 1) domain_name)
    else inr (unknown_host domain_name use_valid_hostname)

-- The subdomain of a Host header, or the message of the reply 400.
unfoldable pub extract_sub_domain_name : UrlParser → Text → Text → Text ⊎ Text
unfolding before_last_colon not_an_ip_address not_an_ip_address_either use_valid_hostname
    match_host_name
extract_sub_domain_name u host_name header =
    if is_empty header
    then inr (str "Missing Host header")
    else if is_ip_address u header
    then inr (unknown_host header not_an_ip_address)
    else let domain_name = without_port header in
      if is_ip_address u domain_name
      then inr (unknown_host domain_name not_an_ip_address_either)
      else if not (is_domain_name u domain_name)
      then inr (
          str "Invalid host name: "
          ++ (domain_name
              ++ (str "."
                  ++ str
                      "Please use a valid hostname specified in machinepal config (like localhost or xyz.com) to access this service.")))
      else match_host_name host_name domain_name
