-- ===== src/Session/Relay/Allowed.antt =====
-- internal/session/session.go: what a client can make the session do.
use gossh.Prelude.{
  ℕ, ◌-◌, ◌≤◌, ◌<◌, ◌≡◌, refl, Bool, true, false, List, [], ◌∷◌, ◌++◌, arith, inl, inr, Bool-cases,
  Option-cases, Result-cases, ltb, ◌||◌, ◌&&◌, not, length, ◌==◌,
}
use gossh.Protocol.{ClientMessage, decode_client_frame, encode_pong, input, ping, resize_terminal}
use gossh.Session.{AttachOptions}
use gossh.Session.Relay.{
  Action, term_write, term_resize, conn_write, mirror_resize, Log, Relay, Setup, perform,
  jitter_back, jitter, remember_size, resized, sync_mirror_size, resize_to, resize_args, ResizeArgs,
  natural, negative, JsonInt, on_input, on_ping, on_resize, dispatch, on_message, relay_frames,
}

-- Input wants write permission and is not empty; a resize wants a size that is not fixed, two
-- columns and one row; the connection is written only frames of one byte.
abbrev pub Allowed : AttachOptions → Action → Type 0
Allowed opts (term_write bs) = (opts.permit_write ≡ true) × (0 < length bs)
Allowed opts (term_resize c r) =
    ((ltb 0 opts.fixed_cols && ltb 0 opts.fixed_rows) ≡ false) × (2 ≤ c) × (1 ≤ r)
Allowed opts (mirror_resize c r) =
    ((ltb 0 opts.fixed_cols && ltb 0 opts.fixed_rows) ≡ false) × (2 ≤ c) × (2 ≤ r)
Allowed opts (conn_write bs) = length bs ≡ 1

abbrev pub AllAllowed : AttachOptions → Log → Type 0
AllAllowed opts [] = Unit {0}
AllAllowed opts ((a, good) ∷ log) = Allowed opts a × AllAllowed opts log

AllAllowed-snoc :
    (opts : AttachOptions) (log : Log) (a : Action) (good : Bool)
    → AllAllowed opts log
    → Allowed opts a
    → AllAllowed opts (log ++ ((a, good) ∷ []))
AllAllowed-snoc opts [] a good h p = (p, tt)
AllAllowed-snoc opts (x ∷ log) a good h p = (h.0, AllAllowed-snoc opts log a good h.1 p)

module _ (u : Setup) where
  abbrev IsAllowed : Relay → Type 0
  IsAllowed s = AllAllowed u.opts s.log

  abbrev MayResize : Type 0
  MayResize = (ltb 0 u.opts.fixed_cols && ltb 0 u.opts.fixed_rows) ≡ false

  perform-IsAllowed :
      (a : Action) (s : Relay) → Allowed u.opts a → IsAllowed s → IsAllowed (perform u.env a s).0
  unfolding perform
  perform-IsAllowed a s p h = AllAllowed-snoc u.opts s.log a (u.env s.log a) h p

  jitter_back-IsAllowed :
      (c r : ℕ) (done : Relay × Bool)
      → MayResize
      → 2 ≤ c
      → 2 ≤ r
      → IsAllowed done.0
      → IsAllowed (jitter_back u.env c r done)
  unfolding jitter_back
  jitter_back-IsAllowed c r (s, true) free pc pr h =
      perform-IsAllowed (term_resize c r) s (free, pc, omega arith) h
  jitter_back-IsAllowed c r (s, false) free pc pr h = h

  jitter-IsAllowed :
      (c r : ℕ) (s : Relay)
      → MayResize
      → 2 ≤ c
      → 2 ≤ r
      → IsAllowed s
      → IsAllowed (jitter u.env c r s)
  unfolding jitter
  jitter-IsAllowed c r s free pc pr h =
      jitter_back-IsAllowed c r (perform u.env (term_resize c (r - 1)) s) free pc pr
        (perform-IsAllowed (term_resize c (r - 1)) s (free, pc, omega arith) h)

  sync_mirror_size-IsAllowed :
      (c r : ℕ) (s : Relay)
      → MayResize
      → 2 ≤ c
      → 2 ≤ r
      → IsAllowed s
      → IsAllowed (sync_mirror_size u.env c r s)
  unfolding sync_mirror_size
  sync_mirror_size-IsAllowed c r s free pc pr h = elim (Bool-cases s.has_mirror) [
    | inl on ↦ rw on (perform-IsAllowed (mirror_resize c r) s (free, pc, pr) h)
    | inr off ↦ rw off h
  ]

  remember_size-IsAllowed :
      (c r : ℕ) (s : Relay)
      → MayResize
      → 2 ≤ c
      → 2 ≤ r
      → IsAllowed s
      → IsAllowed (remember_size u.env c r s)
  unfolding remember_size
  remember_size-IsAllowed c r s free pc pr h =
      let s' = record s { last_cols = c; last_rows = r; first_resize = false } in
      elim (Bool-cases s.first_resize) [
        | inl again ↦ rw again (jitter-IsAllowed c r s' free pc pr h)
        | inr done ↦ rw done h
      ]

  resized-IsAllowed :
      (c r : ℕ) (done : Relay × Bool)
      → MayResize
      → 2 ≤ c
      → 2 ≤ r
      → IsAllowed done.0
      → IsAllowed (resized u.env c r done).0
  unfolding resized
  resized-IsAllowed c r (s, true) free pc pr h =
      remember_size-IsAllowed c r (sync_mirror_size u.env c r s) free pc pr
        (sync_mirror_size-IsAllowed c r s free pc pr h)
  resized-IsAllowed c r (s, false) free pc pr h = h

  resize_to-IsAllowed :
      (c r : ℕ) (s : Relay)
      → MayResize
      → 2 ≤ c
      → 2 ≤ r
      → IsAllowed s
      → IsAllowed (resize_to u.env c r s).0
  unfolding resize_to
  resize_to-IsAllowed c r s free pc pr h =
      resized-IsAllowed c r (perform u.env (term_resize c r) s) free pc pr
        (perform-IsAllowed (term_resize c r) s (free, pc, omega arith) h)

  resize_args-IsAllowed :
      (args : ResizeArgs) (s : Relay)
      → MayResize
      → IsAllowed s
      → IsAllowed (resize_args u.env args s).0
  unfolding resize_args
  resize_args-IsAllowed args s free h = by_sizes args.columns args.rows refl refl
    where
      by_sizes :
          (c r : JsonInt)
          → args.columns ≡ c
          → args.rows ≡ r
          → IsAllowed (resize_args u.env args s).0
      by_sizes (negative n) r ec er = rw (ec, resize_args) h
      by_sizes (natural c) (negative n) ec er = rw (ec, er, resize_args) h
      by_sizes (natural c) (natural r) ec er = elim (Bool-cases (ltb c 2 || ltb r 2)) [
        | inl tiny ↦ rw (ec, er, tiny, resize_args) h
        | inr fine ↦
            rw (ec, er, fine, resize_args)
              (resize_to-IsAllowed c r s free (ground arith) (ground arith) h)
      ]

  on_resize-IsAllowed :
      (payload : List ℕ) (s : Relay) → IsAllowed s → IsAllowed (on_resize u payload s).0
  unfolding on_resize
  on_resize-IsAllowed payload s h =
      elim (Bool-cases (ltb 0 u.opts.fixed_cols && ltb 0 u.opts.fixed_rows)) [
        | inl fixed ↦ rw (fixed, on_resize) h
        | inr free ↦ elim (Option-cases (u.parse_resize payload)) [
          | inl none_ ↦ rw (free, none_, on_resize) h
          | inr (args, found) ↦ rw (free, found, on_resize) (resize_args-IsAllowed args s free h)
        ]
      ]

  on_input-IsAllowed :
      (payload : List ℕ) (s : Relay) → IsAllowed s → IsAllowed (on_input u payload s).0
  unfolding on_input
  on_input-IsAllowed payload s h =
      elim (Bool-cases (not u.opts.permit_write || length payload == 0)) [
        | inl refused ↦ rw (refused, on_input) h
        | inr write ↦
            rw (write, on_input)
              (perform-IsAllowed (term_write payload) s (ground arith, ground arith) h)
      ]

  dispatch-IsAllowed : (m : ClientMessage) (s : Relay) → IsAllowed s → IsAllowed (dispatch u m s).0
  unfolding dispatch on_ping encode_pong
  dispatch-IsAllowed m s h = elim (Bool-cases (m.msg_type == input)) [
    | inl is_input ↦ rw (is_input, dispatch) (on_input-IsAllowed m.payload s h)
    | inr e1 ↦ elim (Bool-cases (m.msg_type == ping)) [
      | inl is_ping ↦
          rw (e1, is_ping, dispatch) (perform-IsAllowed (conn_write encode_pong) s refl h)
      | inr e2 ↦ elim (Bool-cases (m.msg_type == resize_terminal)) [
        | inl is_resize ↦ rw (e1, e2, is_resize, dispatch) (on_resize-IsAllowed m.payload s h)
        | inr e3 ↦ rw (e1, e2, e3, dispatch) h
      ]
    ]
  ]

  on_message-IsAllowed :
      (frame : List ℕ) (s : Relay) → IsAllowed s → IsAllowed (on_message u frame s).0
  unfolding on_message
  on_message-IsAllowed [] s h = h
  on_message-IsAllowed (b ∷ bs) s h = elim (Result-cases (decode_client_frame (b ∷ bs))) [
    | inl (m, good) ↦ rw (good, on_message) (dispatch-IsAllowed m s h)
    | inr (e, bad) ↦ rw (bad, on_message) h
  ]

  relay_frames-IsAllowed :
      (frames : List (List ℕ)) (s : Relay) → IsAllowed s → IsAllowed (relay_frames u frames s).0
  unfolding relay_frames
  relay_frames-IsAllowed [] s h = h
  relay_frames-IsAllowed (frame ∷ frames) s h =
      let s' = (on_message u frame s).0 in
      let h' : IsAllowed s' = on_message-IsAllowed frame s h in
      elim (Option-cases (on_message u frame s).1) [
        | inl goes_on ↦ rw (goes_on, relay_frames) (relay_frames-IsAllowed frames s' h')
        | inr (e, ends_) ↦ rw (ends_, relay_frames) h'
      ]

-- Whatever frames a client sends and whatever fails, everything the relay does from an empty log is
-- allowed: the terminal is written only with write permission, and never an empty text; it and the
-- mirror are resized only if the size is not fixed, the terminal to at least 2 columns and 1 row, the
-- mirror to at least 2 by 2; and the client is written only one-byte frames.
pub relay_frames-AllAllowed :
    (u : Setup) (frames : List (List ℕ)) (s : Relay)
    → s.log ≡ []
    → AllAllowed u.opts (relay_frames u frames s).0.log
relay_frames-AllAllowed u frames s e = relay_frames-IsAllowed u frames s (rw e tt)
