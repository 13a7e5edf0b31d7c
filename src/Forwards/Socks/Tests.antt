-- ===== src/Forwards/Socks/Tests.antt =====
-- internal/api/forward_handler.go, socks5: the theorems on concrete clients.
use gossh.Prelude.{◌≡◌, refl, [], ◌∷◌, ◌++◌, some, arith, replicate}
use gossh.Forwards.Socks.{ipv4, domain, socks5}
use gossh.Forwards.Socks.RoundTrip.{greeting, request, socks5_connects, socks5_cut_short}

socks5_connects_example :
    socks5 (greeting (0 ∷ []) ++ (request (ipv4 (10 ∷ 0 ∷ 0 ∷ 1 ∷ [])) 8080 ++ (71 ∷ []))) ≡ (
      (5 ∷ 0 ∷ []) ∷ [],
      some (record { host = ipv4 (10 ∷ 0 ∷ 0 ∷ 1 ∷ []); port = 8080; rest = 71 ∷ [] }),
    )
socks5_connects_example = socks5_connects (0 ∷ []) (71 ∷ []) (ipv4 (10 ∷ 0 ∷ 0 ∷ 1 ∷ [])) 8080 refl

socks5_cut_short_example : socks5 (greeting (0 ∷ []) ++ (5 ∷ 1 ∷ 0 ∷ 3 ∷ 4 ∷ 119 ∷ [])) ≡ (
  (5 ∷ 0 ∷ []) ∷ [],
  some (record { host = domain (119 ∷ replicate 3 0); port = 0; rest = [] }),
)
socks5_cut_short_example = socks5_cut_short (0 ∷ []) (119 ∷ []) 4 (omega arith)
