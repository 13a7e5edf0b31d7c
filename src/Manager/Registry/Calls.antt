-- ===== src/Manager/Registry/Calls.antt =====
-- internal/session/manager.go: the registry after any calls.
use gossh.Prelude.{ℕ, refl, List, [], ◌∷◌, lookup, arith}
use gossh.Store.{StoreOps}
use gossh.Store.Laws.{StoreLaws}
use gossh.Manager.{Session, Manager, torn, destroy_close, empty_manager}
use gossh.Manager.Registry.{
  Registered, changed-Registered, remove-Registered, sweep-Registered, lived, Call, creates, closes,
  removes, retitles, sweeps, lives, call, calls,
}
use gossh.Manager.Registry.Creation.{create-Registered}
use gossh.Manager.Registry.Titles.{retitle-Registered}

module _ {S : Type 0} (ops : StoreOps S) {IsKeyed : S → Type 0} (laws : StoreLaws ops IsKeyed) where
  close-Registered :
      (s : Session) (m : Manager S)
      → Registered ops laws m
      → Registered ops laws (destroy_close s m)
  unfolding destroy_close
  close-Registered s m reg = changed-Registered ops laws s.handle torn m (λ t. (refl, refl)) reg

  call-Registered :
      (c : Call ops laws) (m : Manager S)
      → Registered ops laws m
      → Registered ops laws (call ops laws c m)
  call-Registered (creates r) m reg = create-Registered ops laws r m reg
  call-Registered (closes s) m reg = close-Registered s m reg
  call-Registered (removes id) m reg = remove-Registered ops laws id m reg
  call-Registered (retitles id title) m reg = retitle-Registered ops laws id title m reg
  call-Registered (sweeps now) m reg = sweep-Registered ops laws now m reg
  call-Registered (lives h life exited) m reg =
      changed-Registered ops laws h (lived ops laws life exited) m (λ t. (refl, refl)) reg

  -- From an empty registry on any store whose records stand at their ids, any sections of
  -- CreateWithID, Destroy, UpdateTitle and DestroyExpired and any changes of the sessions on their
  -- own, in any order, keep this: each registered session has the id it is registered under, the
  -- store has a record of that id with the session's own host, and where there is a limit on
  -- sessions there are at most that many.
  pub calls-Registered :
      (limit timeout : ℕ) (store : S) (cs : List (Call ops laws))
      → IsKeyed store
      → Registered ops laws (calls ops laws cs (empty_manager limit timeout store))
  unfolding empty_manager lookup
  calls-Registered limit timeout store cs keyed =
      from (empty_manager limit timeout store) cs
        (record { keyed = keyed; recorded = λ k s e. cc; bounded = λ q. omega arith })
    where
      from :
          (m : Manager S) (cs : List (Call ops laws))
          → Registered ops laws m
          → Registered ops laws (calls ops laws cs m)
      from m [] r = r
      from m (c ∷ cs) r = from (call ops laws c m) cs (call-Registered c m r)
