-- ===== src/RateLimiter/Clients.antt =====
-- src/app/rate_limiter/ip_parser.py. The addresses and networks of ipaddress, and the splitting of
-- the header, are parameters.
use deal_screening_agent.Prelude.{
  if◌then◌else◌, or_default, Bool-cases, any, any-reverse, String, ◌≡◌, refl, ap, ◌∙◌, inl, inr,
  Bool, true, false, not, ◌||◌, Option, none, some, List, [], ◌∷◌, ◌++◌, reverse, reverse-append,
  arith, str_eq,
}

-- What the code uses of ipaddress and of `str`.
pub record Addresses : Type 1 where
  pub Address : Type 0
  pub Network : Type 0
  -- none for a ValueError
  pub ip_address : String → Option Address
  pub contains : Network → Address → Bool
  pub str_of : Address → String
  pub split_commas : String → List String
  pub strip : String → String

-- A request's header, "" if it is absent, and its peer, if it is known.
pub record Connection : Type 0 where
  pub forwarded_for : String
  pub client_host : Option String

unfoldable pub peer_ip : Connection → String
peer_ip request = or_default request.client_host "0.0.0.0"

module _ (ips : Addresses) where
  open ips use {Address, Network, ip_address, contains, str_of, split_commas, strip}

  unfoldable pub is_trusted : Address → List Network → Bool
  is_trusted address [] = false
  is_trusted address (network ∷ trusted) = contains network address || is_trusted address trusted

  abbrev pub stripped : List String → List String
  stripped [] = []
  stripped (s ∷ ss) = let rest = stripped ss in if str_eq (strip s) "" then rest else strip s ∷ rest

  abbrev pub chain_of : String → List String
  chain_of forwarded = stripped (split_commas forwarded)

  -- one round of the walk, before the rounds that follow it
  abbrev pub visit : List Network → Option Address → Option String → Option String
  visit trusted none rest = rest
  visit trusted (some address) rest =
      if not (is_trusted address trusted) then some (str_of address) else rest

  unfoldable pub first_untrusted : List Network → List String → Option String
  unfolding is_trusted
  first_untrusted trusted [] = none
  first_untrusted trusted (raw_ip ∷ chain) =
      visit trusted (ip_address raw_ip) (first_untrusted trusted chain)

  -- No list of proxies is an empty one here.
  unfoldable pub get_client_ip : Connection → List Network → String
  unfolding peer_ip first_untrusted
  get_client_ip request [] = peer_ip request
  get_client_ip request (network ∷ trusted) =
      if str_eq request.forwarded_for ""
      then peer_ip request
      else or_default
          (first_untrusted (network ∷ trusted) (reverse (chain_of request.forwarded_for)))
          (peer_ip request)

  -- an address that is no proxy's
  abbrev pub is_client_address : List Network → Option Address → Bool
  is_client_address trusted none = false
  is_client_address trusted (some address) = not (is_trusted address trusted)

  -- an address of the chain that is no proxy's
  unfoldable pub is_client : List Network → String → Bool
  unfolding is_trusted
  is_client trusted raw_ip = is_client_address trusted (ip_address raw_ip)

  -- a visit that stops does not look at the rest
  visit-rest :
      (trusted : List Network) (o : Option Address) (b : Bool) (rest rest' : Option String)
      → (is_client_address trusted o || b) ≡ true
      → (b ≡ true → rest ≡ rest')
      → visit trusted o rest ≡ visit trusted o rest'
  visit-rest trusted none b rest rest' h e = e h
  visit-rest trusted (some address) b rest rest' h e =
      elim (Bool-cases (is_trusted address trusted)) [
        | inl t ↦ rw t (e (ground arith))
        | inr t ↦ rw t refl
      ]

  first_untrusted-append :
      (trusted : List Network) (xs ys : List String)
      → any (is_client trusted) xs ≡ true
      → first_untrusted trusted (xs ++ ys) ≡ first_untrusted trusted xs
  unfolding first_untrusted is_client
  first_untrusted-append trusted [] ys h = absurd (ground arith)
  first_untrusted-append trusted (x ∷ xs) ys h =
      visit-rest trusted (ip_address x) (any (is_client trusted) xs) _ _ h
        (first_untrusted-append trusted xs ys)

  -- Whatever addresses a client puts in front of those that the proxies add, the address found is
  -- the same, as long as one of those that the proxies add is not a proxy's.
  pub get_client_ip-forged :
      (request forged : Connection) (trusted : List Network) (front : List String)
      → chain_of forged.forwarded_for ≡ front ++ chain_of request.forwarded_for
      → any (is_client trusted) (chain_of request.forwarded_for) ≡ true
      → forged.client_host ≡ request.client_host
      → str_eq forged.forwarded_for "" ≡ str_eq request.forwarded_for ""
      → get_client_ip forged trusted ≡ get_client_ip request trusted
  unfolding get_client_ip peer_ip
  get_client_ip-forged request forged [] front c h p e = ap (λ host. or_default host "0.0.0.0") p
  get_client_ip-forged request forged (network ∷ trusted) front c h p e = rw (e, walked, p) refl
    where
      walked :
          first_untrusted (network ∷ trusted) (reverse (chain_of forged.forwarded_for))
          ≡ first_untrusted (network ∷ trusted) (reverse (chain_of request.forwarded_for))
      walked =
          ap (λ chain. first_untrusted (network ∷ trusted) (reverse chain)) c
          ∙ ap (first_untrusted (network ∷ trusted))
              (reverse-append front (chain_of request.forwarded_for))
          ∙ first_untrusted-append (network ∷ trusted) (reverse (chain_of request.forwarded_for))
              (reverse front)
              (any-reverse (is_client (network ∷ trusted)) (chain_of request.forwarded_for) ∙ h)
