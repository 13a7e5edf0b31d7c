-- ===== src/Forwards/Registry/Overlap.antt =====
-- internal/api/forward_handler.go: two deletions of one forward.
use gossh.Prelude.{
  ℕ, ◌≡◌, refl, Bool, true, false, String, some, ◌=s◌, ◌==◌, if◌then◌else◌, ==_self,
}
use gossh.Forwards.{ForwardEntry}
use gossh.Forwards.Registry.{
  Deletion, get, delete_step, cancel_entry, asked, found, cancelled, panicked, closed, panics,
}

cancel_entry_open :
    (e : ForwardEntry) (running : ℕ → Bool)
    → (e.kind =s "dynamic") ≡ false
    → running e.handle ≡ true
    → cancel_entry e running ≡ closed (λ n. if n == e.handle then false else running n)
unfolding cancel_entry
cancel_entry_open e running kind up = rw (kind, up) refl

cancel_entry_closed :
    (e : ForwardEntry) (running : ℕ → Bool)
    → (e.kind =s "dynamic") ≡ false
    → running e.handle ≡ false
    → cancel_entry e running ≡ panics
unfolding cancel_entry
cancel_entry_closed e running kind down = rw (kind, down) refl

-- Two requests to delete the same local or remote forward, with its listener open, that both look for
-- it before either removes it: the first closes the listener, and the second panics.
pub overlapping_deletes :
    (session_id entry_id : String) (e : ForwardEntry) (d : Deletion)
    → get session_id entry_id d.registry ≡ some e
    → (e.kind =s "dynamic") ≡ false
    → d.running e.handle ≡ true
    → (delete_step session_id entry_id asked d ≡ (d, found e))
      × ((delete_step session_id entry_id (found e) d).1 ≡ cancelled e)
      × ((delete_step session_id entry_id
            (found e)
            (delete_step session_id entry_id (found e) d).0).1
          ≡ panicked)
unfolding delete_step
overlapping_deletes session_id entry_id e d there kind up = (
  rw (delete_step, there) refl,
  rw (delete_step, cancel_entry_open e d.running kind up) refl,
  rw
      (
        delete_step,
        cancel_entry_open e d.running kind up,
        cancel_entry_closed e (λ n. if n == e.handle then false else d.running n) kind
            (rw (==_self e.handle) refl),
      )
      refl,
)
