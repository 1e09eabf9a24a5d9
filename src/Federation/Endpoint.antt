-- ===== src/Federation/Endpoint.antt =====
-- aigrp/federation.py: the check of an endpoint before a query is sent to it.
use Prim.Native.Char.{code}
use Prim.Native.String.{String, ◌∷◌ as str_cons}
use th_layer_agent.Common.{
  ℕ, Bool, true, false, ◌||◌, ◌&&◌, not, Option, none, some, nat_eq, leb, ◌==◌, if◌then◌else◌,
}
use th_layer_agent.Common.Splits.{split_once, has_char, starts_with}
use th_layer_agent.Merkle.{after_prefix}

-- `s.split(c, 1)[0]`
unfoldable before : ℕ → String → String
before c String.[] = ""
before c (String.◌∷◌ d s) = if nat_eq (code d) c then "" else str_cons d (before c s)

-- `s.split(c)[-1]`
unfoldable last_part : ℕ → String → String
unfolding has_char
last_part c String.[] = ""
last_part c (String.◌∷◌ d s) =
    let rest = last_part c s in
    if has_char c s then rest else if nat_eq (code d) c then s else str_cons d s

-- `s.endswith(suffix)`
unfoldable ends_with : String → String → Bool
ends_with suffix String.[] = suffix == ""
ends_with suffix (String.◌∷◌ d s) = str_cons d s == suffix || ends_with suffix s

-- `str.strip`, `str.lower`, `str.isdigit` and `int`, where `none` is its ValueError.
pub record Texts : Type 0 where
  pub strip : String → String
  pub lower : String → String
  pub isdigit : String → Bool
  pub int : String → Option ℕ

-- the characters of `/`, `@`, `:` and `.` by their codes
unfoldable pub host_of : String → String
unfolding before last_part
host_of rest = before 58 (last_part 64 (before 47 rest))

unfoldable is_private_prefix : String → Bool
unfolding starts_with
is_private_prefix host =
    starts_with "127." host
    || starts_with "10." host
    || starts_with "192.168." host
    || starts_with "169.254." host
    || starts_with "0." host

module _ (lib : Texts) where
  -- `parts[1]`, where there are two parts or more, is a number from 16 to 31
  unfoldable is_private_172 : String → Option Bool
  unfolding before split_once
  is_private_172 host = elim (split_once 46 host) [
    | none ↦ some false
    | some (first, rest) ↦
        if lib.isdigit (before 46 rest)
        then elim (lib.int (before 46 rest)) [ none ↦ none | some n ↦ some (leb 16 n && leb n 31) ]
        else some false
  ]

  unfoldable host_is_safe : String → Option Bool
  unfolding ends_with is_private_prefix is_private_172 starts_with
  host_is_safe host =
      if host == "localhost" || host == "" || ends_with ".localhost" host
      then some false
      else if is_private_prefix host
      then some false
      else if host == "::1" || starts_with "[::1]" host
      then some false
      else if starts_with "172." host
      then elim (is_private_172 host) [ none ↦ none | some b ↦ some (not b) ]
      else some true

  -- `none` is the ValueError of `int`.
  unfoldable pub endpoint_is_safe : String → Option Bool
  unfolding after_prefix host_of host_is_safe
  endpoint_is_safe endpoint_url =
      elim (after_prefix "https://" (lib.lower (lib.strip endpoint_url))) [
        | none ↦ some false
        | some rest ↦ host_is_safe (host_of rest)
      ]
