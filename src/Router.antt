-- ===== src/Router.antt =====
-- internal/api/ws_handler.go: the multiplexed web socket. A router owns one socket and keeps a channel
-- for each attached session; a channel is a number into the table of all that were made. Each function
-- is what runs under one mutex, or the writes between; the read loop is one goroutine. What
-- manager.Get gives for a session is an argument, and the socket is a Wire that may refuse a message.
pub mod Channels
pub mod Invariant
pub mod Steps
pub mod Stays
pub mod Channel
pub mod Demultiplex
pub mod Multiplex
pub mod Reattach
pub mod Tests
use gossh.Prelude.{
  ℕ, suc, Bool, true, false, List, [], ◌∷◌, ◌++◌, Option, none, some, ◌==◌, if◌then◌else◌, Result,
  ok, err,
}
use gossh.Protocol.{
  RoutedFrame, FrameError, is_conn_level, encode_routed, encode_routed_conn, encode_routed_session,
  decode_routed, ping, pong,
}
use gossh.Session.{Accepts, Wire, send}
use gossh.Router.Channels.{Chans, find, put, forget}

abbrev pub attach : ℕ
attach = b'A'

abbrev pub detach : ℕ
detach = b'D'

abbrev pub attach_ok : ℕ
attach_ok = b'a'

abbrev pub attach_fail : ℕ
attach_fail = b'b'

abbrev pub session_event : ℕ
session_event = b'E'

abbrev pub event_preempted : ℕ
event_preempted = 1

abbrev pub event_destroyed : ℕ
event_destroyed = 2

-- "session not found".
abbrev pub not_found_text : List ℕ
not_found_text =
    b's' ∷ b'e' ∷ b's' ∷ b's' ∷ b'i' ∷ b'o' ∷ b'n' ∷ b' ' ∷ b'n' ∷ b'o' ∷ b't' ∷ b' ' ∷ b'f' ∷ b'o'
    ∷ b'u' ∷ b'n' ∷ b'd' ∷ []

-- `sess` numbers the session that manager.Get gave.
pub record VirtualConn : Type 0 where
  pub sid : List ℕ
  pub sess : ℕ
  pub queue : List (List ℕ)
  pub closed : Bool

-- `conns` has the channels below `next`.
pub record WsRouter : Type 0 where
  pub chans : Chans
  pub conns : ℕ → VirtualConn
  pub next : ℕ
  pub wire : Wire

-- One channel replaced by what the function makes of it.
abbrev pub changed : ℕ → (VirtualConn → VirtualConn) → (ℕ → VirtualConn) → ℕ → VirtualConn
changed h f conns n = if n == h then f (conns n) else conns n

unfoldable pub write_raw : Accepts → List ℕ → WsRouter → WsRouter × Bool
write_raw accepts frame rt =
    let (wire, good) = send accepts rt.wire frame in (record rt { wire = wire }, good)

unfoldable pub write_made : Accepts → Result FrameError (List ℕ) → WsRouter → WsRouter × Bool
unfolding write_raw
write_made accepts (err e) rt = (rt, false)
write_made accepts (ok frame) rt = write_raw accepts frame rt

unfoldable pub write_routed : Accepts → List ℕ → ℕ → List ℕ → WsRouter → WsRouter × Bool
unfolding write_made encode_routed
write_routed accepts sid msg_type payload rt =
    write_made accepts (encode_routed sid msg_type payload) rt

unfoldable pub write_routed_session : Accepts → List ℕ → List ℕ → WsRouter → WsRouter × Bool
unfolding write_made encode_routed_session
write_routed_session accepts sid b rt = write_made accepts (encode_routed_session sid b) rt

unfoldable pub channel : List ℕ → WsRouter → Option ℕ
channel [] rt = none
channel (x ∷ sid) rt = find (x ∷ sid) rt.chans

-- remove, which leaves a channel that has replaced this one.
unfoldable pub remove : List ℕ → ℕ → WsRouter → WsRouter
remove sid h rt = elim (find sid rt.chans) [
  | none ↦ rt
  | some cur ↦ if cur == h then record rt { chans = forget sid rt.chans } else rt
]

-- The section of closeLocal under the channel's mutex, and closeLocal.
unfoldable pub mark_closed : ℕ → WsRouter → WsRouter
mark_closed h rt = record rt { conns = changed h (λ c. record c { closed = true }) rt.conns }

unfoldable pub close_local : ℕ → WsRouter → WsRouter
unfolding mark_closed remove
close_local h rt = remove (rt.conns h).sid h (mark_closed h rt)

-- deliver; `none` is the nil channel of a session that is not attached.
unfoldable pub deliver : Option ℕ → List ℕ → WsRouter → WsRouter
deliver none frame rt = rt
deliver (some h) frame rt = if (rt.conns h).closed then rt else record rt {
  conns = changed h (λ c. record c { queue = c.queue ++ (frame ∷ []) }) rt.conns;
}

unfoldable pub detach_session : List ℕ → WsRouter → WsRouter
unfolding close_local
detach_session sid rt = elim (find sid rt.chans) [
  | none ↦ record rt { chans = forget sid rt.chans }
  | some h ↦ close_local h (record rt { chans = forget sid rt.chans })
]

-- The channel that newVirtualConn makes, registered.
unfoldable pub register : List ℕ → ℕ → WsRouter → WsRouter
register sid sess rt = record rt {
  chans = put sid rt.next rt.chans;
  conns =
      changed rt.next (λ c. record { sid = sid; sess = sess; queue = []; closed = false }) rt.conns;
  next = suc rt.next;
}

-- The Attach case of dispatch; also whether a goroutine is started for the new channel.
unfoldable pub attach_session : Accepts → Option ℕ → List ℕ → WsRouter → WsRouter × Bool
unfolding write_routed register
attach_session accepts got sid rt = elim (find sid rt.chans) [
  | some h ↦ ((write_routed accepts sid attach_ok [] rt).0, false)
  | none ↦ elim got [
    | none ↦ ((write_routed accepts sid attach_fail not_found_text rt).0, false)
    | some sess ↦ (register sid sess rt, true)
  ]
]

unfoldable pub dispatch : Accepts → Option ℕ → RoutedFrame → WsRouter → WsRouter × Bool
unfolding is_conn_level write_raw encode_routed_conn attach_session detach_session deliver channel
dispatch accepts got f rt =
    if is_conn_level f
    then (if f.msg_type == ping
        then ((write_raw accepts (encode_routed_conn pong []) rt).0, false)
        else (rt, false))
    else if f.msg_type == attach
    then attach_session accepts got f.session_id rt
    else if f.msg_type == detach
    then (detach_session f.session_id rt, false)
    else (deliver (channel f.session_id rt) (f.msg_type ∷ f.payload) rt, false)

-- One round of serve with a binary message; a malformed one is dropped.
unfoldable pub receive : Accepts → Option ℕ → List ℕ → WsRouter → WsRouter × Bool
unfolding dispatch decode_routed
receive accepts got msg rt = elim (decode_routed msg) [
  | err e ↦ (rt, false)
  | ok f ↦ dispatch accepts got f rt
]

-- The rounds of serve, with what manager.Get would give in each.
unfoldable pub serve : Accepts → List (Option ℕ × List ℕ) → WsRouter → WsRouter
unfolding receive
serve accepts [] rt = rt
serve accepts (m ∷ ms) rt = serve accepts ms (receive accepts m.0 m.1 rt).0

-- The loop of closeAll, over the channels that were in the map.
unfoldable pub close_each : Chans → WsRouter → WsRouter
unfolding close_local
close_each [] rt = rt
close_each (c ∷ cs) rt = close_each cs (close_local c.1 rt)

unfoldable pub close_all : WsRouter → WsRouter
unfolding close_each
close_all rt = close_each rt.chans (record rt { chans = [] })

-- The goroutine attach: its AttachOK, after a failure of which it removes the channel and ends; and
-- what it does when the session's Attach has returned.
unfoldable pub attach_started : Accepts → ℕ → WsRouter → WsRouter × Bool
unfolding write_routed remove
attach_started accepts h rt =
    let sid = (rt.conns h).sid in
    let (rt', good) = write_routed accepts sid attach_ok [] rt in
    if good then (rt', true) else (remove sid h rt', false)

unfoldable pub attach_ended : ℕ → WsRouter → WsRouter
unfolding remove close_local
attach_ended h rt = close_local h (remove (rt.conns h).sid h rt)

-- ReadMessage: it waits, is at the end, or has the first frame of the queue.
pub data Read : Type 0 where
  waits at_eof : Read
  frame_read : List ℕ → Read

abbrev read_queue : List (List ℕ) → Bool → Read
read_queue [] true = at_eof
read_queue [] false = waits
read_queue (f ∷ fs) closed = frame_read f

abbrev pub rest_of : List (List ℕ) → List (List ℕ)
rest_of [] = []
rest_of (f ∷ fs) = fs

unfoldable pub read_message : ℕ → WsRouter → WsRouter × Read
read_message h rt = (
  record rt { conns = changed h (λ c. record c { queue = rest_of c.queue }) rt.conns },
  read_queue (rt.conns h).queue (rt.conns h).closed,
)

-- Write of a channel.
unfoldable pub write_conn : Accepts → ℕ → List ℕ → WsRouter → WsRouter × Bool
unfolding write_routed_session
write_conn accepts h [] rt = (rt, true)
write_conn accepts h (t ∷ rest) rt = write_routed_session accepts (rt.conns h).sid (t ∷ rest) rt

-- Close of a channel, for a session whose state is destroyed or not.
unfoldable pub close_conn : Accepts → Bool → ℕ → WsRouter → WsRouter
unfolding close_local write_routed
close_conn accepts destroyed h rt =
    (write_routed accepts (rt.conns h).sid session_event
      ((if destroyed then event_destroyed else event_preempted) ∷ []) (close_local h rt)).0

abbrev pub new_ws_router : WsRouter
new_ws_router = record {
  chans = [];
  conns = λ n. record { sid = []; sess = 0; queue = []; closed = true };
  next = 0;
  wire = record { sent = [] };
}
