-- ===== src/Forwards/Socks/RoundTrip.antt =====
-- internal/api/forward_handler.go, socks5: against the messages that a client is to send.
use mathlib.Core.Option.{bind}
use gossh.Prelude.{
  ℕ, ◌+◌, ◌*◌, ◌/◌, ◌%◌, ◌-◌, ◌≤◌, ◌<◌, ◌≡◌, refl, ap, sym, ◌∙◌, List, [], ◌∷◌, ◌++◌, some, length,
  replicate, arith, append-nil, append_assoc, take-append_exact, drop-append_exact, drop-length,
  take-length, le→leb, length-append,
}
use gossh.Forwards.Socks.{
  Address, ipv4, domain, ipv6, big_endian, read_full, read_unchecked, read_port, read_target,
  read_request, read_greeting, socks5,
}

-- What a client sends: the methods that it offers, and a request to connect.
abbrev pub greeting : List ℕ → List ℕ
greeting methods = 5 ∷ length methods ∷ methods

abbrev pub address_bytes : Address → List ℕ
address_bytes (ipv4 bytes) = 1 ∷ bytes
address_bytes (domain bytes) = 3 ∷ length bytes ∷ bytes
address_bytes (ipv6 bytes) = 4 ∷ bytes

abbrev pub request : Address → ℕ → List ℕ
request host port = 5 ∷ 1 ∷ 0 ∷ address_bytes host ++ (port / 256 ∷ port % 256 ∷ [])

abbrev pub IsAddress : Address → Type 0
IsAddress (ipv4 bytes) = length bytes ≡ 4
IsAddress (domain bytes) = length bytes < 256
IsAddress (ipv6 bytes) = length bytes ≡ 16

pub read_full_exact : (xs ys : List ℕ) → read_full (length xs) (xs ++ ys) ≡ some (xs, ys)
unfolding read_full
read_full_exact xs ys =
    rw
      (
        le→leb (length xs) (length (xs ++ ys)) (omega (arith, length-append xs ys)),
        take-append_exact xs ys,
        drop-append_exact xs ys,
      )
      refl

pub read_unchecked_exact :
    (n : ℕ) (xs ys : List ℕ) → length xs ≡ n → read_unchecked n (xs ++ ys) ≡ (xs, ys)
unfolding read_unchecked
read_unchecked_exact n xs ys e =
    rw (sym e, take-append_exact xs ys, drop-append_exact xs ys, none_missing, append-nil xs) refl
  where
    none_missing : length xs - length xs ≡ 0
    none_missing = omega arith

big_endian_port : (port : ℕ) → (port / 256) * 256 + port % 256 ≡ port
big_endian_port port = omega arith

read_port_exact :
    (host : Address) (port : ℕ) (sent : List ℕ)
    → read_port host (port / 256 ∷ port % 256 ∷ sent)
      ≡ record { host = host; port = port; rest = sent }
unfolding read_port read_unchecked big_endian
read_port_exact host port sent = rw (big_endian_port port) refl

pub read_greeting_exact :
    (methods rest : List ℕ) → read_greeting (greeting methods ++ rest) ≡ some rest
unfolding read_greeting bind
read_greeting_exact methods rest = rw (
  read_greeting,
  read_full_exact (5 ∷ length methods ∷ []) (methods ++ rest),
  read_full_exact methods rest,
)

pub read_request_head :
    (atyp : ℕ) (rest : List ℕ) → read_request (5 ∷ 1 ∷ 0 ∷ atyp ∷ rest) ≡ read_target atyp rest
unfolding read_request bind
read_request_head atyp rest = rw (read_request, read_full_exact (5 ∷ 1 ∷ 0 ∷ atyp ∷ []) rest)

-- The host of n bytes, the port behind it and the rest.
read_address :
    (named : List ℕ → Address) (n : ℕ) (bytes : List ℕ) (port : ℕ) (sent : List ℕ)
    → length bytes ≡ n
    → (let got = read_unchecked n ((bytes ++ (port / 256 ∷ port % 256 ∷ [])) ++ sent) in
        read_port (named got.0) got.1)
      ≡ record { host = named bytes; port = port; rest = sent }
read_address named n bytes port sent h =
    rw
      (
        append_assoc bytes (port / 256 ∷ port % 256 ∷ []) sent,
        read_unchecked_exact n bytes (port / 256 ∷ port % 256 ∷ sent) h,
      )
      (read_port_exact (named bytes) port sent)

read_request_exact :
    (host : Address) (port : ℕ) (sent : List ℕ)
    → IsAddress host
    → read_request (request host port ++ sent)
      ≡ some (record { host = host; port = port; rest = sent })
unfolding read_target read_unchecked
read_request_exact (ipv4 bytes) port sent h =
    read_request_head 1 ((bytes ++ (port / 256 ∷ port % 256 ∷ [])) ++ sent)
    ∙ ap some (read_address ipv4 4 bytes port sent h)
read_request_exact (domain bytes) port sent h =
    read_request_head 3 (length bytes ∷ (bytes ++ (port / 256 ∷ port % 256 ∷ [])) ++ sent)
    ∙ ap some (read_address domain (length bytes) bytes port sent refl)
read_request_exact (ipv6 bytes) port sent h =
    read_request_head 4 ((bytes ++ (port / 256 ∷ port % 256 ∷ [])) ++ sent)
    ∙ ap some (read_address ipv6 16 bytes port sent h)

-- A client that offers any methods and asks for a connection to an IPv4 or IPv6 address of its 4 or 16
-- bytes, or to a domain of at most 255 bytes, at any port, has the reply "no authentication", is
-- connected to that host and port, and what it sends behind the request is what enters the tunnel.
pub socks5_connects :
    (methods sent : List ℕ) (host : Address) (port : ℕ)
    → IsAddress host
    → socks5 (greeting methods ++ (request host port ++ sent))
      ≡ ((5 ∷ 0 ∷ []) ∷ [], some (record { host = host; port = port; rest = sent }))
unfolding socks5
socks5_connects methods sent host port h = rw (
  socks5,
  read_greeting_exact methods (request host port ++ sent),
  read_request_exact host port sent h,
)

-- A client whose input ends inside the name of its request, or right behind it, is connected all the
-- same: to the name that arrived, filled up with zero bytes to the length it announced, at port 0.
pub socks5_cut_short :
    (methods name : List ℕ) (announced : ℕ)
    → length name ≤ announced
    → socks5 (greeting methods ++ (5 ∷ 1 ∷ 0 ∷ 3 ∷ announced ∷ name)) ≡ (
      (5 ∷ 0 ∷ []) ∷ [],
      some (record {
        host = domain (name ++ replicate (announced - length name) 0);
        port = 0;
        rest = [];
      }),
    )
unfolding socks5 read_target read_unchecked read_port big_endian
socks5_cut_short methods name announced h = rw (
  socks5,
  read_greeting_exact methods (5 ∷ 1 ∷ 0 ∷ 3 ∷ announced ∷ name),
  read_request_head 3 (announced ∷ name),
  read_target,
  take-length announced name h,
  drop-length announced name h,
)
