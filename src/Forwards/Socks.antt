-- ===== src/Forwards/Socks.antt =====
-- internal/api/forward_handler.go, socks5: what a client of a dynamic forward sends, up to the end of
-- its input, as bytes; the replies, the target dialed and the input left for the tunnel. A write to
-- the client succeeds here, and the dial is the caller's.
pub mod RoundTrip
pub mod Tests
use mathlib.Core.Option.{bind as ◌>>=◌}
use gossh.Prelude.{
  ℕ, ◌+◌, ◌*◌, ◌-◌, Bool, true, false, List, [], ◌∷◌, ◌++◌, Option, none, some, ◌==◌, ◌||◌, not,
  leb, if◌then◌else◌, length, take, drop, replicate, get_or,
}

-- `io.ReadFull` of n bytes whose error is checked.
unfoldable pub read_full : ℕ → List ℕ → Option (List ℕ × List ℕ)
read_full n input = if leb n (length input) then some (take n input, drop n input) else none

-- `make([]byte, n)` and an `io.ReadFull` whose error is not looked at: what is missing stays zero.
unfoldable pub read_unchecked : ℕ → List ℕ → List ℕ × List ℕ
read_unchecked n input =
    let got = take n input in (got ++ replicate (n - length got) 0, drop n input)

-- The host of a request, before `net.IP(buf).String()` writes it as text.
pub data Address : Type 0 where
  ipv4 domain ipv6 : List ℕ → Address

pub record Dial : Type 0 where
  pub host : Address
  pub port : ℕ
  pub rest : List ℕ

unfoldable pub big_endian : List ℕ → ℕ
big_endian bytes = get_or bytes 0 0 * 256 + get_or bytes 1 0

unfoldable pub read_port : Address → List ℕ → Dial
unfolding read_unchecked big_endian
read_port host input =
    let got = read_unchecked 2 input in
    record { host = host; port = big_endian got.0; rest = got.1 }

-- The switch on the type of address, and the port after it.
unfoldable pub read_target : ℕ → List ℕ → Option Dial
unfolding read_unchecked read_port
read_target atyp input =
    if atyp == 1
    then (let got = read_unchecked 4 input in some (read_port (ipv4 got.0) got.1))
    else if atyp == 3
    then (let l = read_unchecked 1 input in
        let got = read_unchecked (get_or l.0 0 0) l.1 in some (read_port (domain got.0) got.1))
    else if atyp == 4
    then (let got = read_unchecked 16 input in some (read_port (ipv6 got.0) got.1))
    else none

unfoldable pub read_request : List ℕ → Option Dial
unfolding read_full read_target
read_request input = do
  req ← read_full 4 input
  if not (get_or req.0 0 0 == 5) || not (get_or req.0 1 0 == 1)
      then none
      else read_target (get_or req.0 3 0) req.1

unfoldable pub read_greeting : List ℕ → Option (List ℕ)
unfolding read_full
read_greeting input = do
  head ← read_full 2 input
  methods ← (if get_or head.0 0 0 == 5 then read_full (get_or head.0 1 0) head.1 else none)
  some methods.1

-- The replies written before the dial, and the dial.
unfoldable pub socks5 : List ℕ → List (List ℕ) × Option Dial
unfolding read_greeting read_request
socks5 input = elim (read_greeting input) [
  | none ↦ ([], none)
  | some rest ↦ ((5 ∷ 0 ∷ []) ∷ [], read_request rest)
]
