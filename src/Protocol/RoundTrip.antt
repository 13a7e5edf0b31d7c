-- ===== src/Protocol/RoundTrip.antt =====
-- internal/terminal/protocol.go: encoding and decoding are inverse.
use gossh.Prelude.{
  ℕ, suc, ◌+◌, ◌*◌, ◌/◌, ◌%◌, ◌≤◌, ◌<◌, ◌≡◌, ◌≢◌, refl, ap, sym, ◌∙◌, ◌⊎◌, inl, inr, List, [], ◌∷◌,
  ◌++◌, length, arith, Result, ok, err, bytes_eq, bytes_eq_ne, bytes_eq→≡, IsByte, ltb, ◌==◌,
  ==_iff, le→ltb_false, Bool-cases, true, false, if◌then◌else◌,
}
use gossh.Protocol.{
  RoutedFrame, FrameError, is_conn_level, bad_id, payload_too_long, finish_routed, encode_routed,
  encode_routed_conn, decode_routed, decoded_id, routed_bytes, len_hi, len_lo, conn_level_id,
  max_routed_payload,
}

-- Taking a list of sixteen elements apart.
data IsId : List ℕ → Type 0 where
  sixteen :
      (a b c d e f g h i j k l m n o p : ℕ)
      → IsId (a ∷ b ∷ c ∷ d ∷ e ∷ f ∷ g ∷ h ∷ i ∷ j ∷ k ∷ l ∷ m ∷ n ∷ o ∷ p ∷ [])

IsId-of_length : (s : List ℕ) → length s ≡ 16 → IsId s
IsId-of_length (a ∷ b ∷ c ∷ d ∷ e ∷ f ∷ g ∷ h ∷ i ∷ j ∷ k ∷ l ∷ m ∷ n ∷ o ∷ p ∷ []) q =
    sixteen a b c d e f g h i j k l m n o p
IsId-of_length _ q = absurd (omega arith)

declared_length : (n : ℕ) → n ≤ max_routed_payload → (n / 256 % 256 * 256 + n % 256 == n) ≡ true
declared_length n h = (==_iff (n / 256 % 256 * 256 + n % 256) n).1 (omega arith)

header_fits : (n : ℕ) → ltb (16 + suc (suc (suc n))) 19 ≡ false
header_fits n = le→ltb_false (16 + suc (suc (suc n))) 19 (omega arith)

decode_id :
    (sid : List ℕ) (t : ℕ) (payload : List ℕ)
    → IsId sid
    → length payload ≤ max_routed_payload
    → decode_routed (routed_bytes sid t payload)
      ≡ ok (record { session_id = decoded_id sid; msg_type = t; payload = payload })
unfolding decode_routed
decode_id _ t payload (sixteen a b c d e f g h i j k l m n o p) fits = rw (
  le→ltb_false
      (length (
        a
        ∷ b
        ∷ c
        ∷ d
        ∷ e
        ∷ f
        ∷ g
        ∷ h
        ∷ i
        ∷ j
        ∷ k
        ∷ l
        ∷ m
        ∷ n
        ∷ o
        ∷ p
        ∷ t
        ∷ len_hi payload
        ∷ len_lo payload
        ∷ payload))
      19 (omega arith),
  declared_length (length payload) fits,
  le→ltb_false max_routed_payload (length payload) fits,
)

pub decode_routed-routed_bytes :
    (sid : List ℕ) (t : ℕ) (payload : List ℕ)
    → length sid ≡ 16
    → length payload ≤ max_routed_payload
    → decode_routed (routed_bytes sid t payload)
      ≡ ok (record { session_id = decoded_id sid; msg_type = t; payload = payload })
decode_routed-routed_bytes sid t payload h fits =
    decode_id sid t payload (IsId-of_length sid h) fits

pub encode_routed_cases :
    (sid : List ℕ) (t : ℕ) (payload : List ℕ)
    → ((length sid ≢ 16) × (encode_routed sid t payload ≡ err bad_id))
      ⊎ ((length sid ≡ 16)
          × (max_routed_payload < length payload)
          × (encode_routed sid t payload ≡ err payload_too_long))
      ⊎ ((length sid ≡ 16)
          × (length payload ≤ max_routed_payload)
          × (encode_routed sid t payload ≡ ok (routed_bytes sid t payload)))
unfolding encode_routed
encode_routed_cases sid t payload = ground arith

-- A frame that EncodeRouted makes for a session decodes to that session, type and payload, unless
-- the session id is the reserved one of sixteen zero bytes.
pub decode_routed-encode_routed :
    (sid : List ℕ) (t : ℕ) (payload : List ℕ) (frame : List ℕ)
    → sid ≢ conn_level_id
    → encode_routed sid t payload ≡ ok frame
    → decode_routed frame ≡ ok (record { session_id = sid; msg_type = t; payload = payload })
decode_routed-encode_routed sid t payload frame proper made =
    elim (encode_routed_cases sid t payload) [
      | inl (_, e) ↦ cc
      | inr (inl (_, _, e)) ↦ cc
      | inr (inr (len, fits, e)) ↦
          let same : frame ≡ routed_bytes sid t payload = cc in
          rw same (
            decode_routed-routed_bytes sid t payload len fits
            ∙ rw (bytes_eq_ne sid conn_level_id proper) refl)
    ]

-- A connection-level frame with a payload of at most 65535 bytes decodes to the empty session id.
pub decode_routed-encode_routed_conn :
    (t : ℕ) (payload : List ℕ)
    → length payload ≤ max_routed_payload
    → decode_routed (encode_routed_conn t payload)
      ≡ ok (record { session_id = []; msg_type = t; payload = payload })
unfolding encode_routed_conn
decode_routed-encode_routed_conn t payload fits =
    decode_routed-routed_bytes conn_level_id t payload refl fits

abbrev AllBytes : List ℕ → Type 0
AllBytes [] = Unit {0}
AllBytes (b ∷ bs) = IsByte b × AllBytes bs

-- What a decoded frame is encoded to: by EncodeRoutedConn at the connection level, else by
-- EncodeRouted.
abbrev pub reencode : RoutedFrame → Result FrameError (List ℕ)
reencode f =
    if is_conn_level f
    then ok (encode_routed_conn f.msg_type f.payload)
    else encode_routed f.session_id f.msg_type f.payload

hi_of_sum : (hi lo n : ℕ) → hi < 256 → lo < 256 → hi * 256 + lo ≡ n → n / 256 % 256 ≡ hi
hi_of_sum hi lo n a b e = omega arith

lo_of_sum : (hi lo n : ℕ) → hi < 256 → lo < 256 → hi * 256 + lo ≡ n → n % 256 ≡ lo
lo_of_sum hi lo n a b e = omega arith

-- The parts of a frame that decodes.
record Parts (frame : List ℕ) (r : RoutedFrame) : Type 0 where
  sid : List ℕ
  msg_type : ℕ
  hi : ℕ
  lo : ℕ
  rest : List ℕ
  whole : frame ≡ sid ++ (msg_type ∷ hi ∷ lo ∷ rest)
  id_length : length sid ≡ 16
  declared : hi * 256 + lo ≡ length rest
  fits : length rest ≤ max_routed_payload
  decoded : r ≡ record { session_id = decoded_id sid; msg_type = msg_type; payload = rest }

ok-injective {ℓ} : {A : Type ℓ} {x y : A} → ◌≡◌ {A = Result FrameError A} (ok x) (ok y) → x ≡ y
ok-injective h = cc

finish_routed_ok :
    (sid : List ℕ) (t d : ℕ) (p : List ℕ) (r : RoutedFrame)
    → finish_routed sid t d p ≡ ok r
    → (d ≡ length p)
      × (length p ≤ max_routed_payload)
      × (r ≡ record { session_id = sid; msg_type = t; payload = p })
unfolding finish_routed
finish_routed_ok sid t d p r h = ground arith

decode_routed-finish_routed :
    (sid : List ℕ) (t hi lo : ℕ) (rest : List ℕ)
    → IsId sid
    → decode_routed (sid ++ (t ∷ hi ∷ lo ∷ rest))
      ≡ finish_routed (decoded_id sid) t (hi * 256 + lo) rest
unfolding decode_routed
decode_routed-finish_routed _ t hi lo rest (sixteen a b c d e f g h i j k l m n o p) = rw (
    le→ltb_false
      (length (a ∷ b ∷ c ∷ d ∷ e ∷ f ∷ g ∷ h ∷ i ∷ j ∷ k ∷ l ∷ m ∷ n ∷ o ∷ p ∷ t ∷ hi ∷ lo ∷ rest))
      19 (omega arith))

Parts-of :
    (sid : List ℕ) (t hi lo : ℕ) (rest : List ℕ) (r : RoutedFrame)
    → IsId sid
    → length sid ≡ 16
    → decode_routed (sid ++ (t ∷ hi ∷ lo ∷ rest)) ≡ ok r
    → Parts (sid ++ (t ∷ hi ∷ lo ∷ rest)) r
Parts-of sid t hi lo rest r i len q =
    let (d, f, e) =
      finish_routed_ok (decoded_id sid) t (hi * 256 + lo) rest r
        (sym (decode_routed-finish_routed sid t hi lo rest i) ∙ q) in
    record {
      sid = sid;
      msg_type = t;
      hi = hi;
      lo = lo;
      rest = rest;
      whole = refl;
      id_length = len;
      declared = d;
      fits = f;
      decoded = e;
    }

decode_routed-Parts :
    (frame : List ℕ) (r : RoutedFrame) → decode_routed frame ≡ ok r → Parts frame r
unfolding decode_routed
decode_routed-Parts
      (a ∷ b ∷ c ∷ d ∷ e ∷ f ∷ g ∷ h ∷ i ∷ j ∷ k ∷ l ∷ m ∷ n ∷ o ∷ p ∷ t ∷ hi ∷ lo ∷ rest) r q =
    Parts-of (a ∷ b ∷ c ∷ d ∷ e ∷ f ∷ g ∷ h ∷ i ∷ j ∷ k ∷ l ∷ m ∷ n ∷ o ∷ p ∷ []) t hi lo rest r
      (sixteen a b c d e f g h i j k l m n o p) refl q
decode_routed-Parts _ r q = cc

AllBytes-header :
    (sid : List ℕ) (t hi lo : ℕ) (rest : List ℕ)
    → AllBytes (sid ++ (t ∷ hi ∷ lo ∷ rest))
    → (hi < 256) × (lo < 256)
AllBytes-header [] t hi lo rest h = (h.1.0, h.1.1.0)
AllBytes-header (x ∷ sid) t hi lo rest h = AllBytes-header sid t hi lo rest h.1

routed_bytes-header :
    (sid : List ℕ) (t hi lo : ℕ) (rest : List ℕ)
    → hi < 256
    → lo < 256
    → hi * 256 + lo ≡ length rest
    → routed_bytes sid t rest ≡ sid ++ (t ∷ hi ∷ lo ∷ rest)
routed_bytes-header sid t hi lo rest a b e =
    ap (λ x. sid ++ (t ∷ x ∷ len_lo rest ∷ rest)) (hi_of_sum hi lo (length rest) a b e)
    ∙ ap (λ x. sid ++ (t ∷ hi ∷ x ∷ rest)) (lo_of_sum hi lo (length rest) a b e)

reencode_proper :
    (sid : List ℕ) (t : ℕ) (rest : List ℕ)
    → length sid ≡ 16
    → length rest ≤ max_routed_payload
    → reencode (record { session_id = sid; msg_type = t; payload = rest })
      ≡ ok (routed_bytes sid t rest)
unfolding is_conn_level encode_routed
reencode_proper [] t rest len fits = absurd (omega arith)
reencode_proper (x ∷ sid) t rest len fits = ground arith

reencode-decoded :
    (sid : List ℕ) (t : ℕ) (rest : List ℕ)
    → length sid ≡ 16
    → length rest ≤ max_routed_payload
    → reencode (record { session_id = decoded_id sid; msg_type = t; payload = rest })
      ≡ ok (routed_bytes sid t rest)
unfolding is_conn_level encode_routed_conn encode_routed
reencode-decoded sid t rest len fits = elim (Bool-cases (bytes_eq sid conn_level_id)) [
  | inl reserved ↦ rw (reserved, bytes_eq→≡ sid conn_level_id reserved)
  | inr proper ↦ rw proper (reencode_proper sid t rest len fits)
]

-- A list of bytes (numbers below 256) that decodes is the encoding of what it decodes to: no two
-- frames mean the same.
pub reencode-decode_routed :
    (frame : List ℕ) (r : RoutedFrame)
    → AllBytes frame
    → decode_routed frame ≡ ok r
    → reencode r ≡ ok frame
reencode-decode_routed frame r bs q =
    let p : Parts frame r = decode_routed-Parts frame r q in
    let (a, b) = AllBytes-header p.sid p.msg_type p.hi p.lo p.rest (rw p.whole at bs) in
    rw (p.decoded, p.whole, ← routed_bytes-header p.sid p.msg_type p.hi p.lo p.rest a b p.declared)
      (reencode-decoded p.sid p.msg_type p.rest p.id_length p.fits)
