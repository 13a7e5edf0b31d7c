-- ===== src/Session/Relay.antt =====
-- internal/session/session.go: masterToSlave, which relays a client's frames to the terminal, and the
-- size jitter of a restored attach. What the code asks of the terminal, the connection and the mirror
-- is an action; `log` has every action tried and whether it succeeded, which the environment decides
-- from what came before. The JSON of a resize payload is read by a parameter. The context is not
-- cancelled; a session whose context ends stops between two frames.
pub mod Allowed
use gossh.Prelude.{
  ℕ, ◌-◌, Bool, true, false, List, [], ◌∷◌, ◌++◌, Option, none, some, length, ltb, leb, ◌==◌, ◌&&◌,
  ◌||◌, not, if◌then◌else◌, Result, ok, err,
}
use gossh.Protocol.{
  ClientMessage, FrameError, decode_client_frame, encode_pong, input, ping, resize_terminal,
}
use gossh.Session.{AttachOptions}

pub data Action : Type 0 where
  term_write : List ℕ → Action
  term_resize : ℕ → ℕ → Action
  conn_write : List ℕ → Action
  mirror_resize : ℕ → ℕ → Action

abbrev pub Log : Type 0
Log = List (Action × Bool)

abbrev pub Env : Type 0
Env = Log → Action → Bool

pub data RelayError : Type 0 where
  write_failed client_gone bad_resize resize_failed : RelayError
  bad_frame : FrameError → RelayError

-- An `int` of the resize payload: `negative n` is -(n + 1).
pub data JsonInt : Type 0 where
  natural negative : ℕ → JsonInt

-- ResizeArgs.
pub record ResizeArgs : Type 0 where
  pub columns : JsonInt
  pub rows : JsonInt

pub record Relay : Type 0 where
  pub first_resize : Bool
  pub last_cols : ℕ
  pub last_rows : ℕ
  pub has_mirror : Bool
  pub log : Log

unfoldable pub perform : Env → Action → Relay → Relay × Bool
perform env a s = (record s { log = s.log ++ ((a, env s.log a) ∷ []) }, env s.log a)

-- The second resize of a jitter, only if the first succeeds; its own error is dropped.
unfoldable pub jitter_back : Env → ℕ → ℕ → Relay × Bool → Relay
unfolding perform
jitter_back env cols rows (s, true) = (perform env (term_resize cols rows) s).0
jitter_back env cols rows (s, false) = s

unfoldable pub jitter : Env → ℕ → ℕ → Relay → Relay
unfolding perform jitter_back
jitter env cols rows s = jitter_back env cols rows (perform env (term_resize cols (rows - 1)) s)

-- jitterSize, of the last successful size.
unfoldable pub jitter_size : Env → Relay → Relay
unfolding jitter
jitter_size env s =
    if leb s.last_cols 1 || leb s.last_rows 1 then s else jitter env s.last_cols s.last_rows s

-- syncMirrorSize.
unfoldable pub sync_mirror_size : Env → ℕ → ℕ → Relay → Relay
unfolding perform
sync_mirror_size env cols rows s =
    if s.has_mirror then (perform env (mirror_resize cols rows) s).0 else s

-- The size is remembered and, on the first resize of the attach, jittered.
unfoldable pub remember_size : Env → ℕ → ℕ → Relay → Relay
unfolding jitter
remember_size env cols rows s =
    let s' = record s { last_cols = cols; last_rows = rows } in
    if s.first_resize then jitter env cols rows (record s' { first_resize = false }) else s'

-- What follows the terminal's resize.
unfoldable pub resized : Env → ℕ → ℕ → Relay × Bool → Relay × Option RelayError
unfolding sync_mirror_size remember_size
resized env cols rows (s, true) =
    (remember_size env cols rows (sync_mirror_size env cols rows s), none)
resized env cols rows (s, false) = (s, some resize_failed)

-- The case of a resize to a size that is not fixed and not below 2, after parsing.
unfoldable pub resize_to : Env → ℕ → ℕ → Relay → Relay × Option RelayError
unfolding perform resized
resize_to env cols rows s = resized env cols rows (perform env (term_resize cols rows) s)

-- `args.Columns < 2 || args.Rows < 2` is ignored.
unfoldable pub resize_args : Env → ResizeArgs → Relay → Relay × Option RelayError
unfolding resize_to
resize_args env args s = elim args.columns [
  | negative _ ↦ (s, none)
  | natural c ↦ elim args.rows [
    | negative _ ↦ (s, none)
    | natural r ↦ if ltb c 2 || ltb r 2 then (s, none) else resize_to env c r s
  ]
]

-- What the relay is given: the environment, the reader of resize payloads, the attach options.
pub record Setup : Type 0 where
  pub env : Env
  pub parse_resize : List ℕ → Option ResizeArgs
  pub opts : AttachOptions

unfoldable pub on_input : Setup → List ℕ → Relay → Relay × Option RelayError
unfolding perform
on_input u payload s =
    if not u.opts.permit_write || length payload == 0
    then (s, none)
    else let (s', good) = perform u.env (term_write payload) s in
      (s', if good then none else some write_failed)

unfoldable pub on_ping : Setup → Relay → Relay × Option RelayError
unfolding perform encode_pong
on_ping u s =
    let (s', good) = perform u.env (conn_write encode_pong) s in
    (s', if good then none else some client_gone)

unfoldable pub on_resize : Setup → List ℕ → Relay → Relay × Option RelayError
unfolding resize_args
on_resize u payload s =
    if ltb 0 u.opts.fixed_cols && ltb 0 u.opts.fixed_rows
    then (s, none)
    else elim (u.parse_resize payload) [
      | none ↦ (s, some bad_resize)
      | some args ↦ resize_args u.env args s
    ]

unfoldable pub dispatch : Setup → ClientMessage → Relay → Relay × Option RelayError
unfolding on_input on_ping on_resize
dispatch u m s =
    if m.msg_type == input
    then on_input u m.payload s
    else if m.msg_type == ping
    then on_ping u s
    else if m.msg_type == resize_terminal
    then on_resize u m.payload s
    else (s, none)

-- One message of a connection that reads whole frames; an empty one is passed over.
unfoldable pub on_message : Setup → List ℕ → Relay → Relay × Option RelayError
unfolding dispatch decode_client_frame
on_message u [] s = (s, none)
on_message u (b ∷ bs) s = elim (decode_client_frame (b ∷ bs)) [
  | err e ↦ (s, some (bad_frame e))
  | ok m ↦ dispatch u m s
]

-- The frame loop: an error ends it, and so does a failed read after the last message.
unfoldable pub relay_frames : Setup → List (List ℕ) → Relay → Relay × RelayError
unfolding on_message
relay_frames u [] s = (s, client_gone)
relay_frames u (frame ∷ frames) s =
    let (s', e) = on_message u frame s in
    let rest = relay_frames u frames s' in elim e [ none ↦ rest | some e' ↦ (s', e') ]
