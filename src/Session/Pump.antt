-- ===== src/Session/Pump.antt =====
-- internal/session/session.go: the output side of a session: pumpChunk, the replay boundary and
-- snapshot that `bridge` takes under outMu, and the client connection that both look at.
-- A critical section is one function. pumpChunk writes to the client after it has released outMu: to
-- which client, and whether, is settled under outMu, and all these writes are made by the one pump
-- goroutine, in the order of the chunks. The effects are the pump's own writes in that order; when each
-- of them happens among the writes of other goroutines, bridge's replay included, is not modelled. `total` (int64) and `mirrorVer`
-- (uint64) count without a bound.
-- The screen mirror is an interface of the session: its type and its two operations are parameters.
pub mod Stream
pub mod Client
use gossh.Prelude.{
  ℕ, suc, ◌+◌, Bool, true, false, List, [], ◌∷◌, ◌++◌, Option, none, some, length, ltb, leb, ◌==◌,
  drop, ◌&&◌, if◌then◌else◌,
}
use gossh.Protocol.{encode_output}
use gossh.Ring.{Ring, write, bytes, new_ring}

-- ScreenMirror, as far as the pump uses it: `Write` and `DrainAnswers`.
pub record MirrorOps (M : Type 0) : Type 0 where
  pub feed : M → List ℕ → M
  pub drain_answers : M → List ℕ × M

-- The fields of Session that outMu and mirrorMu guard, and `conn`, a client's number.
pub record Live (M : Type 0) : Type 0 where
  pub total : ℕ
  pub replay_seq : ℕ
  pub out : Ring
  pub conn : Option ℕ
  pub mirror : Option M
  pub mirror_ver : ℕ
  pub mirror_last : ℕ
  pub answer_queries : Bool

-- What the session writes: query answers to the terminal, frames to a client.
pub data Effect : Type 0 where
  to_pty : List ℕ → Effect
  to_client : ℕ → List ℕ → Effect

-- Under outMu: the counters and the ring, and the client that gets the chunk live.
record_chunk : {M : Type 0} → Live M → List ℕ → Live M × Option ℕ
record_chunk l chunk =
    let chunk_start = l.total in
    let l' = record l { total = l.total + length chunk; out = write l.out chunk } in
    (l', if leb l.replay_seq chunk_start then l.conn else none)

-- Under mirrorMu: the mirror, and the answers drained from it.
mirror_chunk : {M : Type 0} → MirrorOps M → ℕ → Live M → List ℕ → Live M × List ℕ
mirror_chunk ops now l chunk = elim l.mirror [
  | none ↦ (l, [])
  | some m ↦
      let (answers, m') = ops.drain_answers (ops.feed m chunk) in
      (record l { mirror = some m'; mirror_ver = suc l.mirror_ver; mirror_last = now }, answers)
]

answer_effects : List ℕ → Option ℕ → Bool → List Effect
answer_effects answers (some c) enabled = []
answer_effects answers none enabled =
    if ltb 0 (length answers) && enabled then to_pty answers ∷ [] else []

deliver_effects : Option ℕ → List ℕ → List Effect
deliver_effects none chunk = []
deliver_effects (some c) chunk = to_client c (encode_output chunk) ∷ []

-- The part of pumpChunk after the `len(chunk) == 0` return.
tee_chunk : {M : Type 0} → MirrorOps M → ℕ → List ℕ → Live M → Option ℕ → Live M × List Effect
unfolding mirror_chunk answer_effects deliver_effects
tee_chunk ops now chunk l deliver_to =
    let (l', answers) = mirror_chunk ops now l chunk in
    (l', answer_effects answers deliver_to l.answer_queries ++ deliver_effects deliver_to chunk)

unfoldable pub pump_chunk : {M : Type 0} → MirrorOps M → ℕ → Live M → List ℕ → Live M × List Effect
unfolding record_chunk tee_chunk
pump_chunk ops now l [] = ((record_chunk l []).0, [])
pump_chunk ops now l (x ∷ xs) =
    let (l', deliver_to) = record_chunk l (x ∷ xs) in tee_chunk ops now (x ∷ xs) l' deliver_to

-- The start of `bridge`: the replay boundary and the snapshot, under outMu.
unfoldable pub take_snapshot : {M : Type 0} → Live M → Live M × List ℕ
take_snapshot l = (record l { replay_seq = l.total }, bytes l.out)

-- Attach, Detach and Destroy write `conn`, under s.mu.
unfoldable pub set_conn : {M : Type 0} → Option ℕ → Live M → Live M
set_conn c l = record l { conn = c }

-- The payload bytes of the output frames written to client `c`, and the bytes written to the
-- terminal.
abbrev pub client_bytes : ℕ → List Effect → List ℕ
client_bytes c [] = []
client_bytes c (to_pty bs ∷ es) = client_bytes c es
client_bytes c (to_client d frame ∷ es) = (if d == c then drop 1 frame else []) ++ client_bytes c es

abbrev pub pty_bytes : List Effect → List ℕ
pty_bytes [] = []
pty_bytes (to_pty bs ∷ es) = bs ++ pty_bytes es
pty_bytes (to_client d frame ∷ es) = pty_bytes es

-- One thing that happens to the output side of a session.
pub data Event : Type 0 where
  chunk_read : ℕ → List ℕ → Event
  snapshot_taken : Event
  conn_set : Option ℕ → Event

unfoldable pub step : {M : Type 0} → MirrorOps M → Live M → Event → Live M × List Effect
step ops l (chunk_read now bs) = pump_chunk ops now l bs
step ops l snapshot_taken = ((take_snapshot l).0, [])
step ops l (conn_set c) = (set_conn c l, [])

unfoldable pub run : {M : Type 0} → MirrorOps M → Live M → List Event → Live M × List Effect
run ops l [] = (l, [])
run ops l (e ∷ es) =
    let (l', effects) = step ops l e in let (l'', rest) = run ops l' es in (l'', effects ++ rest)

-- The terminal output that the events carry.
abbrev pub output_of : List Event → List ℕ
output_of [] = []
output_of (chunk_read now bs ∷ es) = bs ++ output_of es
output_of (snapshot_taken ∷ es) = output_of es
output_of (conn_set c ∷ es) = output_of es

-- The live part of a new session.
unfoldable pub new_live : {M : Type 0} → ℕ → Option M → Bool → Live M
new_live capacity mirror answers = record {
  total = 0;
  replay_seq = 0;
  out = new_ring capacity;
  conn = none;
  mirror = mirror;
  mirror_ver = 0;
  mirror_last = 0;
  answer_queries = answers;
}
