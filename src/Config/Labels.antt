-- ===== src/Config/Labels.antt =====
-- src/config/subconfigs: the regular expressions for names of organizations, subdomains and hosts,
-- as automata that read a text from left to right.
pub mod Segments
use machinepal.Prelude.{
  ℕ, ◌-◌, Bool, true, false, ◌&&◌, ◌||◌, not, Text, [], ◌∷◌, ltb, leb, ◌==◌, if◌then◌else◌,
}
use machinepal.Crypto.Values.{is_upper, is_lower}

-- [0-9]
abbrev pub is_digit : ℕ → Bool
is_digit c = leb b'0' c && leb c b'9'

-- [a-z0-9]
unfoldable pub is_label_char : ℕ → Bool
unfolding is_lower
is_label_char c = is_lower c || is_digit c

-- Whether a character of the class stands before.
unfoldable pub label_from : Bool → Text → Bool
label_from after [] = after
label_from after (c ∷ t) =
    let ends = label_from false t in
    let goes = label_from true t in if c == b'-' then after && ends else is_label_char c && goes

-- ^[a-z0-9]+(-[a-z0-9]+)*$
unfoldable pub is_label : Text → Bool
is_label t = label_from false t

-- [a-zA-Z0-9]
abbrev is_alphanumeric : ℕ → Bool
is_alphanumeric c = is_lower c || (is_upper c || is_digit c)

-- Where a part of the name starts, and how many more characters it may have.
unfoldable pub host_name_from : Bool → ℕ → Text → Bool
unfolding is_lower is_upper
host_name_from starts left [] = not starts
host_name_from starts left (c ∷ t) =
    let first = host_name_from false 62 t in
    let next = host_name_from true 0 t in
    let more = host_name_from false (left - 1) t in
    if starts
    then is_alphanumeric c && first
    else if c == b'.'
    then next
    else ltb 0 left && ((is_alphanumeric c || c == b'-') && more)

-- ^([a-zA-Z0-9][-a-zA-Z0-9]{0,62})(\.[a-zA-Z0-9][-a-zA-Z0-9]{0,62})*$
unfoldable pub is_host_name : Text → Bool
is_host_name t = host_name_from true 0 t
